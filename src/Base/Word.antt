-- ===== src/Base/Word.antt =====
-- Unsigned words of the source, with their wrap-around, and the signed reading of a 32-bit word.
use cnrlchain.Base.{ℕ, ◌+◌, ◌-◌, ◌%◌, ◌^◌, ◌<◌, ◌≡◌, arith, ℤ, pos, negsuc, ltb, if◌then◌else◌}

abbrev pub u8_mod : ℕ
u8_mod = 2 ^ 8

abbrev pub u16_mod : ℕ
u16_mod = 2 ^ 16

abbrev pub u32_mod : ℕ
u32_mod = 2 ^ 32

unfoldable pub add32 : ℕ → ℕ → ℕ
add32 x y = (x + y) % u32_mod

unfoldable pub sub32 : ℕ → ℕ → ℕ
sub32 x y = (x + u32_mod - y) % u32_mod

-- `-1` returned as a uint32_t.
abbrev pub minus_one32 : ℕ
minus_one32 = u32_mod - 1

-- int32_t (w)
unfoldable pub signed32 : ℕ → ℤ
signed32 w = if ltb w (2 ^ 31) then pos w else negsuc (u32_mod - w - 1)

pub add32-lt : (a b : ℕ) → add32 a b < u32_mod
unfolding add32
add32-lt a b = omega arith

pub sub32-add32 : (a b : ℕ) → a < u32_mod → b < u32_mod → sub32 (add32 a b) b ≡ a
unfolding add32 sub32
sub32-add32 a b ha hb = omega arith

pub add32-sub32 : (a b : ℕ) → a < u32_mod → b < u32_mod → add32 (sub32 a b) b ≡ a
unfolding add32 sub32
add32-sub32 a b ha hb = omega arith
