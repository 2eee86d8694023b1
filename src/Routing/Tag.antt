-- ===== src/Routing/Tag.antt =====
-- DeferredRouteOutputTag of model/offchain-routing.cc: a packet tag with an output interface, an
-- int32_t. Its TagBuffer belongs to ns-3: WriteU32 appends a word, ReadU32 takes the next one.
use cnrlchain.Base.{
  ℕ, ℤ, ◌+◌, ◌-◌, ◌^◌, ◌≡◌, ◌<◌, refl, Option, some, List, ◌++◌, arith, pos, negsuc, length, ◌>>=◌,
}
use cnrlchain.Base.Word.{u32_mod, signed32}

pub record DeferredRouteOutputTag : Type 0 where
  pub oif : ℤ

-- The constructor, with its default argument, and the accessors.
abbrev pub default_oif : ℤ
default_oif = negsuc 0

unfoldable pub new_tag : ℤ → DeferredRouteOutputTag
new_tag o = record { oif = o }

unfoldable pub get_interface : DeferredRouteOutputTag → ℤ
get_interface t = t.oif

unfoldable pub set_interface : ℤ → DeferredRouteOutputTag → DeferredRouteOutputTag
set_interface o t = record t { oif = o }

abbrev pub serialized_size : ℕ
serialized_size = 4

-- The conversion from int32_t to uint32_t at the call of WriteU32.
unfoldable pub unsigned32 : ℤ → ℕ
unsigned32 (pos n) = n
unsigned32 (negsuc n) = u32_mod - (n + 1)

pub record TagBuffer : Type 0 where
  pub write_u32 : ℕ → List ℕ
  pub read_u32 : List ℕ → Option (ℕ × List ℕ)
  pub read_write_u32 :
      (x : ℕ) (rest : List ℕ) → x < 2 ^ 32 → read_u32 (write_u32 x ++ rest) ≡ some (x, rest)
  pub length_u32 : (x : ℕ) → length (write_u32 x) ≡ 4

module _ (b : TagBuffer) where
  unfoldable pub serialize : DeferredRouteOutputTag → List ℕ
  unfolding unsigned32
  serialize t = b.write_u32 (unsigned32 t.oif)

  unfoldable pub deserialize :
      List ℕ → DeferredRouteOutputTag → Option (DeferredRouteOutputTag × List ℕ)
  unfolding signed32
  deserialize bytes t = b.read_u32 bytes >>= λ (w, rest). some (record t { oif = signed32 w }, rest)

-- The values of an int32_t.
abbrev pub IsInt32 : ℤ → Type 0
IsInt32 (pos n) = n < 2 ^ 31
IsInt32 (negsuc n) = n < 2 ^ 31

unsigned32-lt : (o : ℤ) → IsInt32 o → unsigned32 o < 2 ^ 32
unfolding unsigned32
unsigned32-lt (pos n) h = omega arith
unsigned32-lt (negsuc n) h = omega arith

signed32-unsigned32 : (o : ℤ) → IsInt32 o → signed32 (unsigned32 o) ≡ o
unfolding unsigned32 signed32
signed32-unsigned32 (pos n) h = ground arith
signed32-unsigned32 (negsuc n) h = ground arith

-- A tag whose interface is an int32_t takes the size that it announces, and reading it into any tag
-- gives its interface back, negative ones included, and leaves what follows.
deserialize-serialize_tag :
    (b : TagBuffer) (t old : DeferredRouteOutputTag) (rest : List ℕ)
    → IsInt32 t.oif
    → (length (serialize b t) ≡ serialized_size)
      × (deserialize b (serialize b t ++ rest) old ≡ some (t, rest))
unfolding serialize deserialize
deserialize-serialize_tag b t old rest h = (
  b.length_u32 (unsigned32 t.oif),
  rw (b.read_write_u32 (unsigned32 t.oif) rest (unsigned32-lt t.oif h), signed32-unsigned32 t.oif h)
      refl,
)
