-- ===== src/IdCache.antt =====
-- model/offchain-id.h and model/offchain-id.cc: the ids that were seen, each with the time at
-- which its record expires. `Simulator::Now ()` is the argument `now`.
pub mod Freshness
pub mod Distinct
pub mod Others
use cnrlchain.Base.{
  ℕ, ◌%◌, Bool, true, false, ◌&&◌, List, [], ◌∷◌, ◌++◌, Address, Time, before, ◌+ℤ◌, length,
  discard, ◌==◌, if◌then◌else◌, Bool-cases, inl, inr, ◌≡◌,
}
use cnrlchain.Base.Word.{u32_mod}

-- IdCache::UniqueId
pub record UniqueId : Type 0 where
  pub context : Address
  pub id : ℕ
  pub expire : Time

pub record IdCache : Type 0 where
  pub ids : List UniqueId
  pub lifetime : Time

unfoldable pub new_cache : Time → IdCache
new_cache lifetime = record { ids = []; lifetime = lifetime }

-- IdCache::IsExpired
unfoldable pub is_expired : Time → UniqueId → Bool
is_expired now u = before u.expire now

unfoldable pub purge : Time → IdCache → IdCache
purge now c = record c { ids = discard (is_expired now) c.ids }

-- The loop of `IsDuplicate`.
unfoldable pub seen : Address → ℕ → List UniqueId → Bool
seen addr i [] = false
seen addr i (u ∷ us) =
    let rest = seen addr i us in if u.context == addr && u.id == i then true else rest

-- The record that `IsDuplicate` appends.
abbrev pub unique_id : Time → Address → ℕ → IdCache → UniqueId
unique_id now addr i c = record { context = addr; id = i; expire = c.lifetime +ℤ now }

unfoldable pub is_duplicate : Time → Address → ℕ → IdCache → IdCache × Bool
unfolding purge
is_duplicate now addr i c =
    if seen addr i (purge now c).ids
    then (purge now c, true)
    else (record (purge now c) { ids = (purge now c).ids ++ unique_id now addr i c ∷ [] }, false)

unfoldable pub get_size : Time → IdCache → IdCache × ℕ
unfolding purge
get_size now c = (purge now c, length (purge now c).ids % u32_mod)

unfoldable pub set_lifetime : Time → IdCache → IdCache
set_lifetime t c = record c { lifetime = t }

unfoldable pub get_life_time : IdCache → Time
get_life_time c = c.lifetime

-- The two ways through `IsDuplicate`.
is_duplicate_cases {ℓ} :
    (P : IdCache → Type ℓ) (now : Time) (addr : Address) (i : ℕ) (c : IdCache)
    → (seen addr i (purge now c).ids ≡ true → P (purge now c))
    → (seen addr i (purge now c).ids ≡ false
        → P (record (purge now c) { ids = (purge now c).ids ++ unique_id now addr i c ∷ [] }))
    → P (is_duplicate now addr i c).0
unfolding is_duplicate
is_duplicate_cases P now addr i c old new = elim (Bool-cases (seen addr i (purge now c).ids)) [
  | inl e ↦ rw (e, is_duplicate) (old e)
  | inr e ↦ rw (e, is_duplicate) (new e)
]

-- One call of the class, with the time at which it is made.
pub data Call : Type 0 where
  asks : Address → ℕ → Call
  sizes : Call
  sets : Time → Call

unfoldable pub step : Time → Call → IdCache → IdCache
step now (asks addr i) c = (is_duplicate now addr i c).0
step now sizes c = (get_size now c).0
step now (sets t) c = set_lifetime t c

unfoldable pub run : List (Time × Call) → IdCache → IdCache
run [] c = c
run ((now, call) ∷ calls) c = run calls (step now call c)
