-- ===== src/Neighbors/Purge.antt =====
-- What `Purge` of model/neighbors.cc closes, and whom it tells.
use cnrlchain.Base.{
  ℕ, ◌+◌, suc, ◌≡◌, refl, Bool, true, false, List, [], ◌∷◌, ◌++◌, arith, Time, All, length, discard,
  select, discard-None, length-discard-select,
}
use cnrlchain.Neighbors.{
  Neighbor, Neighbors, Effect, link_failure, cancel_timer, schedule_timer, close_neighbor, failures,
  purge_list, purge,
}

-- The number of calls of the link failure callback.
abbrev pub count_failures : List Effect → ℕ
count_failures [] = 0
count_failures (link_failure a ∷ es) = suc (count_failures es)
count_failures (cancel_timer ∷ es) = count_failures es
count_failures (schedule_timer ∷ es) = count_failures es

purge_list-discard :
    (now : Time) (set : Bool) (ns : List Neighbor)
    → (purge_list now set ns).0 ≡ discard (close_neighbor now) ns
unfolding purge_list discard
purge_list-discard now set [] = refl
purge_list-discard now set (n ∷ ns) = refl

pub nb-purge : (now : Time) (s : Neighbors) → (purge now s).0.nb ≡ discard (close_neighbor now) s.nb
unfolding purge
nb-purge now s = purge_list-discard now s.handle_link_failure s.nb

count_failures-failures :
    (now : Time) (ns : List Neighbor) (es : List Effect)
    → count_failures (failures now ns ++ es)
      ≡ length (select (close_neighbor now) ns) + count_failures es
unfolding select
count_failures-failures now [] es = omega arith
count_failures-failures now (n ∷ ns) es = ground (arith, count_failures-failures now ns es)

count_failures-purge_list :
    (now : Time) (ns : List Neighbor)
    → count_failures (purge_list now true ns).1 + length (purge_list now true ns).0 ≡ length ns
unfolding purge_list
count_failures-purge_list now [] = omega arith
count_failures-purge_list now (n ∷ ns) = omega (
  arith,
  count_failures-failures now (n ∷ ns) (cancel_timer ∷ schedule_timer ∷ []),
  length-discard-select (close_neighbor now) (n ∷ ns),
)

-- After `Purge` no neighbour is left that has expired or is marked to be closed, the others are
-- kept in their order, and if the callback is set it is called once for each neighbour that goes.
pub purge_lem :
    (now : Time) (s : Neighbors)
    → ((purge now s).0.nb ≡ discard (close_neighbor now) s.nb)
      × All (λ n. close_neighbor now n ≡ false) (purge now s).0.nb
      × (s.handle_link_failure ≡ true
          → count_failures (purge now s).1 + length (purge now s).0.nb ≡ length s.nb)
unfolding purge
purge_lem now s = (
  nb-purge now s,
  rw (purge_list-discard now s.handle_link_failure s.nb) (discard-None (close_neighbor now) s.nb),
  λ set. rw set (count_failures-purge_list now s.nb),
)
