-- ===== src/Neighbors/Failure.antt =====
-- ProcessTxError of model/neighbors.cc: the link layer has failed to reach a hardware address. A
-- Neighbor has no member m_hardwareAddress; `hardware` says which address the source means.
use cnrlchain.Base.{
  ℕ, Bool, ◌≡◌, refl, inl, inr, true, false, ◌||◌, List, [], ◌∷◌, ◌++◌, map, arith, Address, Time,
  discard, select, ◌==◌, if◌then◌else◌, ◌∙◌, ap, Bool-cases,
}
use mathlib.Core.List.{append-nil}
use cnrlchain.Neighbors.{
  Neighbor, Neighbors, Effect, link_failure, cancel_timer, schedule_timer, close_neighbor,
  purge_list, purge,
}
use cnrlchain.Neighbors.Purge.{nb-purge}

-- The loop, and the purge after it.
unfoldable pub mark_failed : (Neighbor → ℕ) → ℕ → List Neighbor → List Neighbor
mark_failed hardware addr [] = []
mark_failed hardware addr (n ∷ ns) =
    (if hardware n == addr then record n { close = true } else n) ∷ mark_failed hardware addr ns

unfoldable pub process_tx_error : (Neighbor → ℕ) → Time → ℕ → Neighbors → Neighbors × List Effect
unfolding mark_failed purge
process_tx_error hardware now addr s = purge now (record s { nb = mark_failed hardware addr s.nb })

discard-mark_failed :
    (hardware : Neighbor → ℕ) (now : Time) (addr : ℕ) (ns : List Neighbor)
    → discard (close_neighbor now) (mark_failed hardware addr ns)
      ≡ discard (λ n. close_neighbor now n || hardware n == addr) ns
unfolding discard mark_failed close_neighbor
discard-mark_failed hardware now addr [] = refl
discard-mark_failed hardware now addr (n ∷ ns) =
    ground (arith, discard-mark_failed hardware now addr ns)

-- The addresses that the callback is called with, in order.
abbrev pub told : List Effect → List Address
told [] = []
told (link_failure a ∷ es) = a ∷ told es
told (cancel_timer ∷ es) = told es
told (schedule_timer ∷ es) = told es

abbrev pub addresses : List Neighbor → List Address
addresses ns = map (λ n. n.neighbor_address) ns

told-append :
    (ns : List Neighbor) (es : List Effect)
    → told (map (λ n. link_failure n.neighbor_address) ns ++ es) ≡ addresses ns ++ told es
told-append [] es = refl
told-append (n ∷ ns) es = ap (λ l. n.neighbor_address ∷ l) (told-append ns es)

told-purge_set :
    (now : Time) (ns : List Neighbor)
    → told (purge_list now true ns).1 ≡ addresses (select (close_neighbor now) ns)
unfolding purge_list select
told-purge_set now [] = refl
told-purge_set now (n ∷ ns) =
    told-append (select (close_neighbor now) (n ∷ ns)) (cancel_timer ∷ schedule_timer ∷ [])
    ∙ append-nil (addresses (select (close_neighbor now) (n ∷ ns)))

told-purge_unset : (now : Time) (ns : List Neighbor) → told (purge_list now false ns).1 ≡ []
unfolding purge_list
told-purge_unset now [] = refl
told-purge_unset now (n ∷ ns) = refl

told-purge :
    (now : Time) (s : Neighbors)
    → told (purge now s).1
      ≡ (if s.handle_link_failure then addresses (select (close_neighbor now) s.nb) else [])
unfolding purge purge_list select
told-purge now s = elim (Bool-cases s.handle_link_failure) [
  | inl set ↦ rw set (told-purge_set now s.nb)
  | inr unset ↦ rw unset (told-purge_unset now s.nb)
]

select-mark_failed :
    (hardware : Neighbor → ℕ) (now : Time) (addr : ℕ) (ns : List Neighbor)
    → addresses (select (close_neighbor now) (mark_failed hardware addr ns))
      ≡ addresses (select (λ n. close_neighbor now n || hardware n == addr) ns)
unfolding select mark_failed close_neighbor
select-mark_failed hardware now addr [] = refl
select-mark_failed hardware now addr (n ∷ ns) =
    ground (arith, select-mark_failed hardware now addr ns)

-- After a transmission error the channels with the neighbours of that hardware address are closed,
-- and so are those that had expired or were marked; all others are kept as they were, in their
-- order. If the callback is set it is called with the address of each neighbour that goes, once and
-- in their order, and with no other; if it is not set it is not called.
pub process_tx_error_lem :
    (hardware : Neighbor → ℕ) (now : Time) (addr : ℕ) (s : Neighbors)
    → let r = process_tx_error hardware now addr s in
      let goes : Neighbor → Bool = λ n. close_neighbor now n || hardware n == addr in
      (r.0.nb ≡ discard goes s.nb)
      × (told r.1 ≡ (if s.handle_link_failure then addresses (select goes s.nb) else []))
unfolding process_tx_error
process_tx_error_lem hardware now addr s =
    let marked = record s { nb = mark_failed hardware addr s.nb } in
    (
      nb-purge now marked ∙ discard-mark_failed hardware now addr s.nb,
      told-purge now marked
          ∙ ap (λ l. if s.handle_link_failure then l else [])
              (select-mark_failed hardware now addr s.nb),
    )
