-- ===== src/Base/Clock.antt =====
-- ns-3's `Time`: a signed count of time steps, here without a bound.
use Prim.Native.Nat.{ℕ, suc, ◌+◌, ◌-◌, ◌*◌, ◌≤◌, ◌<◌}
use mathlib.Core.Path.{◌≡◌}
use mathlib.Core.Bool.{Bool, true, false}
use native.Mathlib.Omega.{arith}
use cnrlchain.Base.Tests.{ltb, leb, if◌then◌else◌}

-- `negsuc n` is -(n + 1).
pub data ℤ : Type 0 where
  pos : ℕ → ℤ
  negsuc : ℕ → ℤ

abbrev pub Time : Type 0
Time = ℤ

abbrev pub pos_part : ℤ → ℕ
pos_part (pos n) = n
pos_part (negsuc n) = 0

abbrev pub neg_part : ℤ → ℕ
neg_part (pos n) = 0
neg_part (negsuc n) = suc n

abbrev pub sub_ℕ : ℕ → ℕ → ℤ
sub_ℕ a b = if leb b a then pos (a - b) else negsuc (b - a - 1)

infixl 65 ◌+ℤ◌ ◌-ℤ◌
infix 50 ◌≤ℤ◌ ◌<ℤ◌
unfoldable pub ◌+ℤ◌ : ℤ → ℤ → ℤ
a +ℤ b = sub_ℕ (pos_part a + pos_part b) (neg_part a + neg_part b)

unfoldable pub ◌-ℤ◌ : ℤ → ℤ → ℤ
a -ℤ b = sub_ℕ (pos_part a + neg_part b) (neg_part a + pos_part b)

abbrev pub ◌≤ℤ◌ : ℤ → ℤ → Type 0
a ≤ℤ b = pos_part a + neg_part b ≤ pos_part b + neg_part a

abbrev pub ◌<ℤ◌ : ℤ → ℤ → Type 0
a <ℤ b = pos_part a + neg_part b < pos_part b + neg_part a

-- a < b, as a test.
unfoldable pub before : ℤ → ℤ → Bool
before a b = ltb (pos_part a + neg_part b) (pos_part b + neg_part a)

-- std::max
unfoldable pub max_time : ℤ → ℤ → ℤ
unfolding before
max_time a b = if before a b then b else a

-- k * t, for an unsigned k.
unfoldable pub times : ℕ → ℤ → ℤ
times k t = sub_ℕ (k * pos_part t) (k * neg_part t)

pub before→lt : (a b : ℤ) → before a b ≡ true → a <ℤ b
unfolding before
before→lt a b h = ground arith

pub lt→before : (a b : ℤ) → a <ℤ b → before a b ≡ true
unfolding before
lt→before a b h = ground arith

pub not-before→le : (a b : ℤ) → before a b ≡ false → b ≤ℤ a
unfolding before
not-before→le a b h = ground arith

pub le→not-before : (a b : ℤ) → b ≤ℤ a → before a b ≡ false
unfolding before
le→not-before a b h = ground arith

pub +ℤ_parts :
    (a b : ℤ)
    → pos_part (a +ℤ b) + neg_part a + neg_part b ≡ neg_part (a +ℤ b) + pos_part a + pos_part b
unfolding ◌+ℤ◌
+ℤ_parts a b = ground arith

pub -ℤ_parts :
    (a b : ℤ)
    → pos_part (a -ℤ b) + neg_part a + pos_part b ≡ neg_part (a -ℤ b) + pos_part a + neg_part b
unfolding ◌-ℤ◌
-ℤ_parts a b = ground arith

pub ruleset int_laws =
    (arith, +ℤ_parts, -ℤ_parts, before→lt, lt→before, not-before→le, le→not-before)

-- A test on what is left of a span is a test on its end.
pub before-sub : (a b : ℤ) → before (a -ℤ b) (pos 0) ≡ before a b
unfolding before ◌-ℤ◌
before-sub a b = ground arith

pub max_time-le_left : (a b : ℤ) → a ≤ℤ max_time a b
unfolding max_time
max_time-le_left a b = ground arith

pub max_time-le_right : (a b : ℤ) → b ≤ℤ max_time a b
unfolding max_time
max_time-le_right a b = ground arith
