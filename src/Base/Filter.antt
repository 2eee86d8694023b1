-- ===== src/Base/Filter.antt =====
-- `v.erase (std::remove_if (...), v.end ())`: what the test discards is gone, the rest keeps its
-- order.
use Prim.Native.Nat.{◌+◌, ◌≤◌}
use mathlib.Core.Path.{◌≡◌, refl, ap}
use mathlib.Core.Bool.{Bool, true, false}
use mathlib.Core.Logic.{inl, inr}
use mathlib.Core.List.{List, [], ◌∷◌, ◌++◌, Perm, perm_middle}
use mathlib.Core.List.Perm
use native.Mathlib.Omega.{arith}
use cnrlchain.Base.Tests.{if◌then◌else◌, Bool-cases}
use cnrlchain.Base.Lists.{length, All}

module _ {ℓ} {A : Type ℓ} (p : A → Bool) where
  unfoldable pub discard : List A → List A
  discard [] = []
  discard (x ∷ xs) = let rest = discard xs in if p x then rest else x ∷ rest

  -- What `discard` takes out, in order.
  unfoldable pub select : List A → List A
  select [] = []
  select (x ∷ xs) = let rest = select xs in if p x then x ∷ rest else rest

  unfoldable pub exists : List A → Bool
  exists [] = false
  exists (x ∷ xs) = let rest = exists xs in if p x then true else rest

  pub length-discard-le : (xs : List A) → length (discard xs) ≤ length xs
  unfolding discard
  length-discard-le [] = omega arith
  length-discard-le (x ∷ xs) = ground (arith, length-discard-le xs)

  pub length-discard-select : (xs : List A) → length (discard xs) + length (select xs) ≡ length xs
  unfolding discard select
  length-discard-select [] = omega arith
  length-discard-select (x ∷ xs) = ground (arith, length-discard-select xs)

  -- Nothing is lost: what stays and what is taken out make up the list.
  pub select-discard-perm : (xs : List A) → Perm xs (select xs ++ discard xs)
  unfolding discard select
  select-discard-perm [] = Perm.nil
  select-discard-perm (x ∷ xs) = elim (Bool-cases (p x)) [
    | inl e ↦ rw e (Perm.cons x (select-discard-perm xs))
    | inr e ↦ rw e (
        Perm.trans (Perm.cons x (select-discard-perm xs))
          (Perm.symm (perm_middle (select xs) (discard xs))))
  ]

  pub discard-append : (xs ys : List A) → discard (xs ++ ys) ≡ discard xs ++ discard ys
  unfolding discard
  discard-append [] ys = refl
  discard-append (x ∷ xs) ys = ground (arith, discard-append xs ys)

  pub discard-None : (xs : List A) → All (λ x. p x ≡ false) (discard xs)
  unfolding discard
  discard-None [] = tt
  discard-None (x ∷ xs) = ground (arith, discard-None xs)

  pub discard_none : (xs : List A) → All (λ x. p x ≡ false) xs → discard xs ≡ xs
  unfolding discard
  discard_none [] h = refl
  discard_none (x ∷ xs) h = rw (h.0) (ap (◌∷◌ x) (discard_none xs h.1))

  pub exists-None : (xs : List A) → exists xs ≡ false → All (λ x. p x ≡ false) xs
  unfolding exists
  exists-None [] h = tt
  exists-None (x ∷ xs) h = ground (arith, exists-None xs)

  pub None-exists : (xs : List A) → All (λ x. p x ≡ false) xs → exists xs ≡ false
  unfolding exists
  None-exists [] h = refl
  None-exists (x ∷ xs) h = ground (arith, None-exists xs)

  pub exists-append_left : (xs ys : List A) → exists xs ≡ true → exists (xs ++ ys) ≡ true
  unfolding exists
  exists-append_left [] ys h = ground arith
  exists-append_left (x ∷ xs) ys h = ground (arith, exists-append_left xs ys)

  pub exists-append_right : (xs ys : List A) → exists ys ≡ true → exists (xs ++ ys) ≡ true
  unfolding exists
  exists-append_right [] ys h = h
  exists-append_right (x ∷ xs) ys h = ground (arith, exists-append_right xs ys)

module _ {ℓ} {A : Type ℓ} (p d : A → Bool) where
  pub exists-discard : (xs : List A) → exists p xs ≡ false → exists p (discard d xs) ≡ false
  unfolding exists discard
  exists-discard [] h = refl
  exists-discard (x ∷ xs) h = ground (arith, exists-discard xs)

module _ {ℓ κ} {A : Type ℓ} (P : A → Type κ) (p : A → Bool) where
  pub All-discard : (xs : List A) → All P xs → All P (discard p xs)
  unfolding discard
  All-discard [] h = tt
  All-discard (x ∷ xs) h = elim (Bool-cases (p x)) [
    | inl e ↦ rw e (All-discard xs h.1)
    | inr e ↦ rw e (h.0, All-discard xs h.1)
  ]
