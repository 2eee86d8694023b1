-- ===== src/Route/Precursors.antt =====
-- The precursor list of model/rtable.cc is a set that is kept in a vector.
use cnrlchain.Base.{
  ◌≡◌, refl, inl, inr, false, ◌||◌, List, [], ◌∷◌, ◌++◌, arith, Address, discard, exists, ◌==◌,
  Bool-cases, not, ◌&&◌,
}
use cnrlchain.Route.{
  RoutingTableEntry, has, lookup_precursor, insert_precursor, delete_precursor, add_missing,
  get_precursors,
}

-- No address twice.
abbrev pub IsUnique : List Address → Type 0
IsUnique [] = Unit {0}
IsUnique (a ∷ l) = (has a l ≡ false) × IsUnique l

has-nil : (a : Address) → has a [] ≡ false
unfolding has exists
has-nil a = refl

has-cons : (a b : Address) (l : List Address) → has a (b ∷ l) ≡ (b == a || has a l)
unfolding has exists
has-cons a b l = ground arith

has-snoc : (a b : Address) (l : List Address) → has a (l ++ b ∷ []) ≡ (has a l || b == a)
unfolding has exists
has-snoc a b [] = ground arith
has-snoc a b (c ∷ l) = ground (arith, has-snoc a b l)

has-discard :
    (a b : Address) (l : List Address) → has a (discard (λ i. i == b) l) ≡ (has a l && not (a == b))
unfolding has exists discard
has-discard a b [] = ground arith
has-discard a b (c ∷ l) = ground (arith, has-discard a b l)

snoc-IsUnique :
    (b : Address) (l : List Address) → has b l ≡ false → IsUnique l → IsUnique (l ++ b ∷ [])
snoc-IsUnique b [] e h = (has-nil b, tt)
snoc-IsUnique b (c ∷ l) e h = ground (arith, snoc-IsUnique b l, has-snoc c b l, has-cons b c l)

discard-IsUnique :
    (b : Address) (l : List Address) → IsUnique l → IsUnique (discard (λ i. i == b) l)
unfolding discard
discard-IsUnique b [] h = tt
discard-IsUnique b (c ∷ l) h = ground (arith, discard-IsUnique b l h.1, has-discard c b l)

add_missing_lem :
    (is prec : List Address)
    → IsUnique prec
    → IsUnique (add_missing is prec)
      × ((a : Address) → has a (add_missing is prec) ≡ (has a prec || has a is))
unfolding add_missing
add_missing_lem [] prec h = (h, λ a. ground (arith, has-nil a))
add_missing_lem (i ∷ is) prec h = elim (Bool-cases (has i prec)) [
  | inl old ↦
      let (u, s) = add_missing_lem is prec h in
      rw old (u, λ a. ground (arith, s a, has-cons a i is))
  | inr new ↦
      let (u, s) = add_missing_lem is (prec ++ i ∷ []) (snoc-IsUnique i prec new h) in
      rw new (u, λ a. ground (arith, s a, has-cons a i is, has-snoc a i prec))
]

module _ {ℓ} {I : Type ℓ} (e : RoutingTableEntry I) where
  -- `InsertPrecursor` answers true exactly for a new address. Afterwards the list has that address
  -- and those it had, and it still has none twice.
  pub insert_precursor_lem :
      (id : Address)
      → IsUnique e.precursor_list
      → IsUnique (insert_precursor id e).0.precursor_list
        × ((insert_precursor id e).1 ≡ not (lookup_precursor id e))
        × ((a : Address)
            → lookup_precursor a (insert_precursor id e).0 ≡ (lookup_precursor a e || id == a))
  unfolding insert_precursor
  insert_precursor_lem id h = elim (Bool-cases (has id e.precursor_list)) [
    | inl old ↦ (ground arith, ground arith, λ a. ground arith)
    | inr new ↦ (
      ground (arith, snoc-IsUnique id e.precursor_list),
      ground arith,
      λ a. ground (arith, has-snoc a id e.precursor_list),
    )
  ]

  -- `DeletePrecursor` answers true exactly for an address that is there. Afterwards the list has
  -- the addresses it had except that one, and it still has none twice.
  delete_precursor_lem :
      (id : Address)
      → IsUnique e.precursor_list
      → IsUnique (delete_precursor id e).0.precursor_list
        × ((delete_precursor id e).1 ≡ lookup_precursor id e)
        × ((a : Address)
            → lookup_precursor a (delete_precursor id e).0
              ≡ (lookup_precursor a e && not (a == id)))
  unfolding delete_precursor lookup_precursor
  delete_precursor_lem id h = (
    ground (arith, discard-IsUnique id e.precursor_list h),
    ground arith,
    λ a. ground (arith, has-discard a id e.precursor_list),
  )

  -- `GetPrecursors` adds to the caller's vector exactly the addresses of the list that it does not
  -- have yet, and makes no address appear twice.
  pub get_precursors_lem :
      (prec : List Address)
      → IsUnique prec
      → IsUnique (get_precursors e prec)
        × ((a : Address) → has a (get_precursors e prec) ≡ (has a prec || lookup_precursor a e))
  unfolding get_precursors lookup_precursor
  get_precursors_lem prec h =
      let (u, s) = add_missing_lem e.precursor_list prec h in
      (ground arith, λ a. ground (arith, s a, has-nil a))
