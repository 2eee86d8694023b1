-- ===== src/Packet/Flags.antt =====
-- The flag bits of model/payroute-packet.cc and how their setters act on each other.
use cnrlchain.Base.{
  ℕ, zero, suc, ◌<◌, ◌≡◌, refl, Bool, true, false, not, ◌&&◌, arith, ltb, ◌==◌, if◌then◌else◌,
}
use cnrlchain.Packet.{
  RrepHeader, HelloHeader, set_flag, get_flag, gratuitous_mask, destination_mask, unknown_mask,
  ack_mask, set_reply_ack_required, get_reply_ack_required, set_hello_ack_required,
  get_hello_ack_required,
}

data Flag : Type 0 where
  gratuitous destination unknown ack : Flag

abbrev mask : Flag → ℕ
mask gratuitous = gratuitous_mask
mask destination = destination_mask
mask unknown = unknown_mask
mask ack = ack_mask

same : Bool → Bool → Bool
same true b = b
same false b = not b

same→eq : (a b : Bool) → same a b ≡ true → a ≡ b
unfolding same
same→eq a b h = ground arith

-- A test that every number below a bound passes.
passes_upto : (ℕ → Bool) → ℕ → Bool
passes_upto test zero = true
passes_upto test (suc bound) =
    let smaller = passes_upto test bound in if test bound then smaller else false

passes :
    (test : ℕ → Bool) (bound byte : ℕ)
    → byte < bound
    → passes_upto test bound ≡ true
    → test byte ≡ true
unfolding passes_upto
passes test zero byte lt all = absurd (omega arith)
passes test (suc bound) byte lt all = ground (arith, passes test bound byte)

-- The bit of `q` after the bit of `p` is set to `f`, and the size of the byte.
check : Flag → Flag → Bool → ℕ → Bool
unfolding same set_flag get_flag
check p q f x =
    same (get_flag (mask q) (set_flag (mask p) f x))
      (if mask p == mask q then f else get_flag (mask q) x)
    && ltb (set_flag (mask p) f x) 256

every_flag : (Flag → Bool) → Bool
every_flag p = p gratuitous && (p destination && (p unknown && p ack))

every_flag_sound : (p : Flag → Bool) (q : Flag) → every_flag p ≡ true → p q ≡ true
unfolding every_flag
every_flag_sound p gratuitous h = ground arith
every_flag_sound p destination h = ground arith
every_flag_sound p unknown h = ground arith
every_flag_sound p ack h = ground arith

check_both : Flag → Flag → ℕ → Bool
check_both p q x = check p q true x && check p q false x

table : passes_upto (λ x. every_flag (λ p. every_flag (λ q. check_both p q x))) 256 ≡ true
unfolding passes_upto every_flag check check_both
table = refl

check_holds : (p q : Flag) (f : Bool) (x : ℕ) → x < 256 → check p q f x ≡ true
unfolding check_both
check_holds p q f x lt = pick f
  where
    both : check_both p q x ≡ true
    both =
        every_flag_sound (λ q. check_both p q x) q
          (every_flag_sound (λ p. every_flag (λ q. check_both p q x)) p (passes _ 256 x lt table))

    pick : (f : Bool) → check p q f x ≡ true
    pick true = ground (arith, both)
    pick false = ground (arith, both)

get_flag-set_flag :
    (p q : Flag) (f : Bool) (x : ℕ)
    → x < 256
    → get_flag (mask q) (set_flag (mask p) f x)
      ≡ (if mask p == mask q then f else get_flag (mask q) x)
unfolding check
get_flag-set_flag p q f x lt = same→eq _ _ (ground (arith, check_holds p q f x lt))

pub get_reply_ack-set :
    (h : RrepHeader) (f : Bool)
    → h.flags < 256
    → get_reply_ack_required (set_reply_ack_required f h) ≡ f
unfolding get_reply_ack_required set_reply_ack_required
get_reply_ack-set h f lt = get_flag-set_flag ack ack f h.flags lt

pub get_hello_ack-set :
    (h : HelloHeader) (f : Bool)
    → h.flags < 256
    → get_hello_ack_required (set_hello_ack_required f h) ≡ f
unfolding get_hello_ack_required set_hello_ack_required
get_hello_ack-set h f lt = get_flag-set_flag ack ack f h.flags lt
