-- ===== src/Base/Map.antt =====
-- std::map with an IPv4 address as its key: an association list in the order of the keys.
use Prim.Native.Nat.{◌≤◌, ◌<◌}
use mathlib.Core.Path.{◌≡◌, refl, ap, sym, subst, subst₂}
use mathlib.Core.Logic.{inl, inr}
use mathlib.Core.Bool.{Bool, true, false, not}
use mathlib.Core.Option.{Option, none, some}
use mathlib.Core.List.{List, [], ◌∷◌}
use native.Mathlib.Omega.{arith}
use cnrlchain.Base.Tests.{
  Address, ltb, ◌==◌, if◌then◌else◌, ◌>>=◌, Bool-cases, Option-cases, ==_iff, is_some,
}
use cnrlchain.Base.Lists.{All}

abbrev pub AddressMap {ℓ} : Type ℓ → Type ℓ
AddressMap V = List (Address × V)

module _ {ℓ} {V : Type ℓ} where
  unfoldable pub find : Address → AddressMap V → Option V
  find k [] = none
  find k ((j, v) ∷ m) = if j == k then some v else find k m

  -- A new key at its place in the order.
  unfoldable pub place : Address → V → AddressMap V → AddressMap V
  place k v [] = (k, v) ∷ []
  place k v ((j, w) ∷ m) = if ltb k j then (k, v) ∷ (j, w) ∷ m else (j, w) ∷ place k v m

  -- `insert` leaves a key that is there as it is, and says whether the key is new.
  unfoldable pub insert : Address → V → AddressMap V → AddressMap V × Bool
  insert k v m = elim (find k m) [ none ↦ (place k v m, true) | some w ↦ (m, false) ]

  -- A write through the iterator that `find` returns.
  unfoldable pub adjust : Address → (V → V) → AddressMap V → AddressMap V
  adjust k f [] = []
  adjust k f ((j, v) ∷ m) =
      let rest = adjust k f m in if j == k then (j, f v) ∷ m else (j, v) ∷ rest

  -- A loop over the map that keeps, changes or erases each entry.
  unfoldable pub sweep : (Address → V → Option V) → AddressMap V → AddressMap V
  sweep f [] = []
  sweep f ((j, v) ∷ m) =
      let rest = sweep f m in elim (f j v) [ none ↦ rest | some w ↦ (j, w) ∷ rest ]

  -- `erase` by key.
  unfoldable pub erase : Address → AddressMap V → AddressMap V
  erase k [] = []
  erase k ((j, v) ∷ m) = let rest = erase k m in if j == k then rest else (j, v) ∷ rest

  abbrev pub Above : Address → AddressMap V → Type 0
  Above k [] = Unit {0}
  Above k ((j, v) ∷ m) = (k < j) × Above k m

  -- The keys are in strict order.
  abbrev pub IsSorted : AddressMap V → Type 0
  IsSorted [] = Unit {0}
  IsSorted ((j, v) ∷ m) = Above j m × IsSorted m

  Above-mono : (k j : Address) (m : AddressMap V) → k ≤ j → Above j m → Above k m
  Above-mono k j [] le h = tt
  Above-mono k j ((i, v) ∷ m) le h = (omega arith, Above-mono k j m le h.1)

  pub find-Above : (k : Address) (m : AddressMap V) → Above k m → find k m ≡ none
  unfolding find
  find-Above k [] h = refl
  find-Above k ((j, v) ∷ m) h = ground (arith, find-Above k m h.1)

  pub find-place :
      (k j : Address) (v : V) (m : AddressMap V)
      → find k m ≡ none
      → find j (place k v m) ≡ (if k == j then some v else find j m)
  unfolding find place
  find-place k j v [] h = refl
  find-place k j v ((i, w) ∷ m) h = ground (arith, find-place k j v m)

  Above-place :
      (i k : Address) (v : V) (m : AddressMap V) → i < k → Above i m → Above i (place k v m)
  unfolding place
  Above-place i k v [] lt h = (lt, tt)
  Above-place i k v ((j, w) ∷ m) lt h = ground (arith, Above-place i k v m)

  pub place-IsSorted :
      (k : Address) (v : V) (m : AddressMap V)
      → find k m ≡ none
      → IsSorted m
      → IsSorted (place k v m)
  unfolding place find
  place-IsSorted k v [] e h = (tt, tt)
  place-IsSorted k v ((j, w) ∷ m) e h = elim (Bool-cases (ltb k j)) [
    | inl lt ↦ rw lt ((ground arith, Above-mono k j m (ground arith) h.0), h)
    | inr ge ↦
        rw ge (Above-place j k v m (ground arith) h.0, place-IsSorted k v m (ground arith) h.1)
  ]

  pub insert-IsSorted :
      (k : Address) (v : V) (m : AddressMap V) → IsSorted m → IsSorted (insert k v m).0
  unfolding insert
  insert-IsSorted k v m h = elim (Option-cases (find k m)) [
    | inl e ↦ rw (e, insert) (place-IsSorted k v m e h)
    | inr (w, e) ↦ rw (e, insert) h
  ]

  pub insert_answer :
      (k : Address) (v : V) (m : AddressMap V) → (insert k v m).1 ≡ not (is_some (find k m))
  unfolding insert
  insert_answer k v m = ground arith

  -- `insert` never changes the value of a key that is there.
  pub find-insert :
      (k j : Address) (v : V) (m : AddressMap V)
      → find j (insert k v m).0
        ≡ elim (find j m) [ none ↦ if k == j then some v else none | some w ↦ some w ]
  unfolding insert
  find-insert k j v m = elim (Option-cases (find k m)) [
    | inl e ↦ ground (arith, find-place k j v m)
    | inr (w, e) ↦ ground arith
  ]

  pub find-adjust :
      (k j : Address) (f : V → V) (m : AddressMap V)
      → find j (adjust k f m) ≡ (if k == j then find j m >>= (λ v. some (f v)) else find j m)
  unfolding find adjust
  find-adjust k j f [] = ground arith
  find-adjust k j f ((i, w) ∷ m) = ground (arith, find-adjust k j f m)

  Above-adjust : (i k : Address) (f : V → V) (m : AddressMap V) → Above i m → Above i (adjust k f m)
  unfolding adjust
  Above-adjust i k f [] h = tt
  Above-adjust i k f ((j, w) ∷ m) h = ground (arith, Above-adjust i k f m)

  pub adjust-IsSorted :
      (k : Address) (f : V → V) (m : AddressMap V) → IsSorted m → IsSorted (adjust k f m)
  unfolding adjust
  adjust-IsSorted k f [] h = tt
  adjust-IsSorted k f ((j, w) ∷ m) h =
      ground (arith, adjust-IsSorted k f m h.1, Above-adjust j k f m h.0)

  Above-sweep :
      (i : Address) (f : Address → V → Option V) (m : AddressMap V)
      → Above i m
      → Above i (sweep f m)
  unfolding sweep
  Above-sweep i f [] h = tt
  Above-sweep i f ((j, w) ∷ m) h = ground (arith, Above-sweep i f m h.1)

  pub sweep-IsSorted :
      (f : Address → V → Option V) (m : AddressMap V) → IsSorted m → IsSorted (sweep f m)
  unfolding sweep
  sweep-IsSorted f [] h = tt
  sweep-IsSorted f ((j, w) ∷ m) h = ground (arith, sweep-IsSorted f m h.1, Above-sweep j f m h.0)

  pub find-sweep :
      (k : Address) (f : Address → V → Option V) (m : AddressMap V)
      → IsSorted m
      → find k (sweep f m) ≡ (find k m >>= f k)
  unfolding find sweep
  find-sweep k f [] h = refl
  find-sweep k f ((j, w) ∷ m) h = ground (arith, find-sweep k f m h.1, find-Above j m h.0)

  pub find-sweep-none :
      (k : Address) (f : Address → V → Option V) (m : AddressMap V)
      → find k m ≡ none
      → find k (sweep f m) ≡ none
  unfolding find sweep
  find-sweep-none k f [] h = refl
  find-sweep-none k f ((j, w) ∷ m) h = ground (arith, find-sweep-none k f m)

  pub find-sweep-some :
      (k : Address) (f : Address → V → Option V) (m : AddressMap V) (v w : V)
      → find k m ≡ some v
      → f k v ≡ some w
      → find k (sweep f m) ≡ some w
  unfolding find sweep
  find-sweep-some k f [] v w h e = absurd (cc)
  find-sweep-some k f ((j, x) ∷ m) v w h e =
      ground (arith, find-sweep-some k f m v w, ==_iff j k, ==_iff k j)

  -- A loop that leaves alone what it has left once changes nothing the second time.
  pub sweep-sweep :
      (f : Address → V → Option V) (m : AddressMap V)
      → ((k : Address) (v w : V) → f k v ≡ some w → f k w ≡ some w)
      → sweep f (sweep f m) ≡ sweep f m
  unfolding sweep
  sweep-sweep f [] h = refl
  sweep-sweep f ((j, v) ∷ m) h = elim (Option-cases (f j v)) [
    | inl e ↦ rw (e, sweep) (sweep-sweep f m h)
    | inr (w, e) ↦ rw (e, sweep) (rw (h j v w e, sweep) (ap (◌∷◌ (j, w)) (sweep-sweep f m h)))
  ]

  pub find-erase :
      (k j : Address) (m : AddressMap V) → find j (erase k m) ≡ (if k == j then none else find j m)
  unfolding find erase
  find-erase k j [] = ground arith
  find-erase k j ((i, w) ∷ m) = ground (arith, find-erase k j m)

  Above-erase : (i k : Address) (m : AddressMap V) → Above i m → Above i (erase k m)
  unfolding erase
  Above-erase i k [] h = tt
  Above-erase i k ((j, w) ∷ m) h = ground (arith, Above-erase i k m h.1)

  pub erase-IsSorted : (k : Address) (m : AddressMap V) → IsSorted m → IsSorted (erase k m)
  unfolding erase
  erase-IsSorted k [] h = tt
  erase-IsSorted k ((j, w) ∷ m) h = ground (arith, erase-IsSorted k m h.1, Above-erase j k m h.0)

-- A predicate of every key with its value.
module _ {ℓ κ} {V : Type ℓ} (P : Address → V → Type κ) where
  abbrev pub Every : AddressMap V → Type κ
  Every = All (λ e. P e.0 e.1)

  pub Every-find : (k : Address) (v : V) (m : AddressMap V) → find k m ≡ some v → Every m → P k v
  unfolding find
  Every-find k v [] e h = absurd (cc)
  Every-find k v ((j, w) ∷ m) e h = elim (Bool-cases (j == k)) [
    | inl here ↦ subst₂ P ((==_iff j k).0 here) (ground arith) h.0
    | inr there ↦ Every-find k v m (ground arith) h.1
  ]

  pub Every-place : (k : Address) (v : V) (m : AddressMap V) → P k v → Every m → Every (place k v m)
  unfolding place
  Every-place k v [] p h = (p, tt)
  Every-place k v ((j, w) ∷ m) p h = elim (Bool-cases (ltb k j)) [
    | inl e ↦ rw e (p, h)
    | inr e ↦ rw e (h.0, Every-place k v m p h.1)
  ]

  pub Every-adjust :
      (k : Address) (f : V → V) (m : AddressMap V)
      → ((j : Address) (v : V) → P j v → P j (f v))
      → Every m
      → Every (adjust k f m)
  unfolding adjust
  Every-adjust k f [] keep h = tt
  Every-adjust k f ((j, w) ∷ m) keep h = elim (Bool-cases (j == k)) [
    | inl e ↦ rw e (keep j w h.0, h.1)
    | inr e ↦ rw e (h.0, Every-adjust k f m keep h.1)
  ]

  -- What is written may depend on its key.
  pub Every-adjust_at :
      (k : Address) (f : V → V) (m : AddressMap V)
      → ((v : V) → P k v → P k (f v))
      → Every m
      → Every (adjust k f m)
  unfolding adjust
  Every-adjust_at k f [] keep h = tt
  Every-adjust_at k f ((j, w) ∷ m) keep h = elim (Bool-cases (j == k)) [
    | inl e ↦
        let here = (==_iff j k).0 e in
        rw e (subst (λ i. P i (f w)) (sym here) (keep w (subst (λ i. P i w) here h.0)), h.1)
    | inr e ↦ rw e (h.0, Every-adjust_at k f m keep h.1)
  ]

  pub Every-insert :
      (k : Address) (v : V) (m : AddressMap V) → P k v → Every m → Every (insert k v m).0
  unfolding insert
  Every-insert k v m p h = elim (Option-cases (find k m)) [
    | inl e ↦ rw (e, insert) (Every-place k v m p h)
    | inr (w, e) ↦ rw (e, insert) h
  ]

  pub Every-erase : (k : Address) (m : AddressMap V) → Every m → Every (erase k m)
  unfolding erase
  Every-erase k [] h = tt
  Every-erase k ((j, w) ∷ m) h = elim (Bool-cases (j == k)) [
    | inl e ↦ rw e (Every-erase k m h.1)
    | inr e ↦ rw e (h.0, Every-erase k m h.1)
  ]

  pub Every-sweep :
      (f : Address → V → Option V) (m : AddressMap V)
      → ((j : Address) (v w : V) → f j v ≡ some w → P j v → P j w)
      → Every m
      → Every (sweep f m)
  unfolding sweep
  Every-sweep f [] keep h = tt
  Every-sweep f ((j, v) ∷ m) keep h = elim (Option-cases (f j v)) [
    | inl e ↦ rw (e, sweep) (Every-sweep f m keep h.1)
    | inr (w, e) ↦ rw (e, sweep) (keep j v w e h.0, Every-sweep f m keep h.1)
  ]
