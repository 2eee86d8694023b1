-- ===== src/Neighbors/Channels.antt =====
-- Which payment channels the neighbour table of model/neighbors.cc holds.
use cnrlchain.Base.{
  ◌≡◌, refl, Bool, none, some, List, [], ◌∷◌, ◌++◌, arith, Address, Time, max_time, discard, ◌==◌,
  if◌then◌else◌, ◌>>=◌, ◌∙◌, ap,
}
use cnrlchain.Neighbors.Purge.{nb-purge}
use cnrlchain.Neighbors.{
  Neighbor, Neighbors, close_neighbor, purge, find_neighbor, extend_first, change_all,
}

-- No address has two channels.
abbrev pub IsDistinct : List Neighbor → Type 0
IsDistinct [] = Unit
IsDistinct (n ∷ ns) = (find_neighbor n.neighbor_address ns ≡ none) × IsDistinct ns

find_neighbor-discard-none :
    (p : Neighbor → Bool) (a : Address) (ns : List Neighbor)
    → find_neighbor a ns ≡ none
    → find_neighbor a (discard p ns) ≡ none
unfolding find_neighbor discard
find_neighbor-discard-none p a [] h = refl
find_neighbor-discard-none p a (n ∷ ns) h = ground (arith, find_neighbor-discard-none p a ns)

pub discard-IsDistinct :
    (p : Neighbor → Bool) (ns : List Neighbor) → IsDistinct ns → IsDistinct (discard p ns)
unfolding discard
discard-IsDistinct p [] h = tt
discard-IsDistinct p (n ∷ ns) h =
    ground
      (arith, discard-IsDistinct p ns h.1, find_neighbor-discard-none p n.neighbor_address ns h.0)

-- In a table without duplicates a purge keeps exactly the channels that are not to be closed.
pub find_neighbor-discard :
    (p : Neighbor → Bool) (a : Address) (ns : List Neighbor)
    → IsDistinct ns
    → find_neighbor a (discard p ns) ≡ (find_neighbor a ns >>= λ n. if p n then none else some n)
unfolding find_neighbor discard
find_neighbor-discard p a [] h = refl
find_neighbor-discard p a (n ∷ ns) h = ground (
  arith,
  find_neighbor-discard p a ns h.1,
  find_neighbor-discard-none p n.neighbor_address ns h.0,
)

pub find_neighbor-purge :
    (now : Time) (a : Address) (s : Neighbors)
    → IsDistinct s.nb
    → find_neighbor a (purge now s).0.nb
      ≡ (find_neighbor a s.nb >>= λ n. if close_neighbor now n then none else some n)
find_neighbor-purge now a s h =
    ap (find_neighbor a) (nb-purge now s) ∙ find_neighbor-discard (close_neighbor now) a s.nb h

pub find_neighbor-snoc :
    (a : Address) (m : Neighbor) (ns : List Neighbor)
    → find_neighbor a (ns ++ m ∷ []) ≡ (elim (find_neighbor a ns) [
      | none ↦ if m.neighbor_address == a then some m else none
      | some n ↦ some n
    ])
unfolding find_neighbor
find_neighbor-snoc a m [] = ground arith
find_neighbor-snoc a m (n ∷ ns) = ground (arith, find_neighbor-snoc a m ns)

pub snoc-IsDistinct :
    (m : Neighbor) (ns : List Neighbor)
    → find_neighbor m.neighbor_address ns ≡ none
    → IsDistinct ns
    → IsDistinct (ns ++ m ∷ [])
unfolding find_neighbor
snoc-IsDistinct m [] e h = (refl, tt)
snoc-IsDistinct m (n ∷ ns) e h =
    ground (arith, snoc-IsDistinct m ns, find_neighbor-snoc n.neighbor_address m ns)

pub find_neighbor-extend_first :
    (a b : Address) (t : Time) (ns : List Neighbor)
    → find_neighbor b (extend_first a t ns) ≡ (
        find_neighbor b ns >>= λ n.
        some (if a == b then record n { expire_time = max_time t n.expire_time } else n))
unfolding find_neighbor extend_first
find_neighbor-extend_first a b t [] = refl
find_neighbor-extend_first a b t (n ∷ ns) = ground (arith, find_neighbor-extend_first a b t ns)

pub extend_first-IsDistinct :
    (a : Address) (t : Time) (ns : List Neighbor) → IsDistinct ns → IsDistinct (extend_first a t ns)
unfolding extend_first
extend_first-IsDistinct a t [] h = tt
extend_first-IsDistinct a t (n ∷ ns) h = ground (
  arith,
  extend_first-IsDistinct a t ns h.1,
  find_neighbor-extend_first a n.neighbor_address t ns,
)

pub find_neighbor-change_all :
    (a b : Address) (f : Neighbor → Neighbor)
    → ((n : Neighbor) → (f n).neighbor_address ≡ n.neighbor_address)
    → (ns : List Neighbor)
    → find_neighbor b (change_all a f ns)
      ≡ (find_neighbor b ns >>= λ n. some (if a == b then f n else n))
unfolding find_neighbor change_all
find_neighbor-change_all a b f same [] = refl
find_neighbor-change_all a b f same (n ∷ ns) =
    ground (arith, same n, find_neighbor-change_all a b f same ns)

pub change_all-IsDistinct :
    (a : Address) (f : Neighbor → Neighbor)
    → ((n : Neighbor) → (f n).neighbor_address ≡ n.neighbor_address)
    → (ns : List Neighbor) → IsDistinct ns
    → IsDistinct (change_all a f ns)
unfolding change_all
change_all-IsDistinct a f same [] h = tt
change_all-IsDistinct a f same (n ∷ ns) h = ground (
  arith,
  same n,
  change_all-IsDistinct a f same ns h.1,
  find_neighbor-change_all a n.neighbor_address f same ns,
)
