-- ===== src/Neighbors/Orderly.antt =====
-- Every state that the operations of model/neighbors.cc reach has one channel per address.
use cnrlchain.Base.{
  ℕ, ◌≡◌, refl, inl, inr, Bool, false, ◌||◌, none, some, List, [], ◌∷◌, ◌++◌, arith, Address, Time,
  ◌+ℤ◌, All, All-append, All-discard, ◌==◌, Bool-cases, Option-cases,
}
use cnrlchain.Neighbors.Purge.{nb-purge}
use cnrlchain.Neighbors.{
  Neighbor, Neighbors, close_neighbor, purge, find_neighbor, extend_first, change_all, update,
  new_neighbor, dec_ch_deposit, inc_ch_deposit, new_neighbors, clear, set_callback,
}
use cnrlchain.Neighbors.Failure.{process_tx_error, process_tx_error_lem}
use cnrlchain.Neighbors.Channels.{
  IsDistinct, discard-IsDistinct, snoc-IsDistinct, extend_first-IsDistinct, change_all-IsDistinct,
}

abbrev pub IsOpen : Neighbor → Type 0
IsOpen n = n.close ≡ false

pub find_neighbor-IsOpen :
    (a : Address) (ns : List Neighbor) {n : Neighbor}
    → All IsOpen ns
    → find_neighbor a ns ≡ some n
    → n.close ≡ false
unfolding find_neighbor
find_neighbor-IsOpen a [] h e = absurd (cc)
find_neighbor-IsOpen a (m ∷ ns) {n} h e = ground (arith, find_neighbor-IsOpen a ns {n = n} h.1)

change_all-IsOpen :
    (a : Address) (f : Neighbor → Neighbor)
    → ((n : Neighbor) → (f n).close ≡ n.close)
    → (ns : List Neighbor) → All IsOpen ns
    → All IsOpen (change_all a f ns)
unfolding change_all
change_all-IsOpen a f same [] h = tt
change_all-IsOpen a f same (n ∷ ns) h = ground (arith, same n, change_all-IsOpen a f same ns h.1)

extend_first-IsOpen :
    (a : Address) (t : Time) (ns : List Neighbor) → All IsOpen ns → All IsOpen (extend_first a t ns)
unfolding extend_first
extend_first-IsOpen a t [] h = tt
extend_first-IsOpen a t (n ∷ ns) h = ground (arith, extend_first-IsOpen a t ns h.1)

-- No address has two channels, and no channel is marked to be closed.
abbrev pub IsOrderly : Neighbors → Type 0
IsOrderly s = IsDistinct s.nb × All IsOpen s.nb

pub purge-IsOrderly : (now : Time) (s : Neighbors) → IsOrderly s → IsOrderly (purge now s).0
purge-IsOrderly now s h = (
  rw (nb-purge now s) (discard-IsDistinct (close_neighbor now) s.nb h.0),
  rw (nb-purge now s) (All-discard IsOpen (close_neighbor now) s.nb h.1),
)

snoc-IsOrderly :
    (m : Neighbor) (s : Neighbors)
    → find_neighbor m.neighbor_address s.nb ≡ none
    → m.close ≡ false
    → IsOrderly s
    → IsOrderly (record s { nb = s.nb ++ m ∷ [] })
snoc-IsOrderly m s e o h =
    (snoc-IsDistinct m s.nb e h.0, All-append IsOpen s.nb (m ∷ []) h.1 (o, tt))

pub update-IsOrderly :
    (now : Time) (addr : Address) (amount : ℕ) (expire : Time) (acked : Bool) (avail peer : ℕ)
    (s : Neighbors)
    → IsOrderly s
    → IsOrderly (update now addr amount expire acked avail peer s).0
unfolding update
update-IsOrderly now addr amount expire acked avail peer s h =
    elim (Option-cases (find_neighbor addr s.nb)) [
      | inl e ↦
          let m = new_neighbor addr s.init_deposit amount (expire +ℤ now) avail peer in
          elim (Bool-cases acked) [
            | inl y ↦
                rw (e, y, update)
                  (purge-IsOrderly now (record s { nb = s.nb ++ m ∷ [] })
                    (snoc-IsOrderly m s e refl h))
            | inr y ↦ rw (e, y, update) (purge-IsOrderly now s h)
          ]
      | inr (n, e) ↦ elim (Bool-cases (n.peer_avail_ch_deposit == amount)) [
        | inl y ↦
            rw (e, update)
              (rw (y, update)
                (
                  extend_first-IsDistinct addr (expire +ℤ now) s.nb h.0,
                  extend_first-IsOpen addr (expire +ℤ now) s.nb h.1,
                ))
        | inr y ↦ rw (e, update) (rw (y, update) h)
      ]
    ]

-- An operation of the table with the time at which it is called; the queries purge.
pub data Call : Type 0 where
  query : Time → Call
  paid : Time → Address → ℕ → Call
  received : Time → Address → ℕ → Call
  heard : Time → Address → ℕ → Time → Bool → ℕ → ℕ → Call
  cleared : Call
  hooked : Bool → Call
  failed : (Neighbor → ℕ) → Time → ℕ → Call

unfoldable pub step : Call → Neighbors → Neighbors
unfolding purge dec_ch_deposit inc_ch_deposit update clear set_callback process_tx_error
step (query now) s = (purge now s).0
step (paid now a pay) s = (dec_ch_deposit now a pay s).0
step (received now a pay) s = (inc_ch_deposit now a pay s).0
step (heard now a amount t acked avail peer) s = (update now a amount t acked avail peer s).0
step cleared s = clear s
step (hooked set) s = set_callback set s
step (failed hardware now addr) s = (process_tx_error hardware now addr s).0

unfoldable pub run : List Call → Neighbors → Neighbors
unfolding step
run [] s = s
run (c ∷ cs) s = run cs (step c s)

step-IsOrderly : (c : Call) (s : Neighbors) → IsOrderly s → IsOrderly (step c s)
unfolding step dec_ch_deposit inc_ch_deposit clear set_callback
step-IsOrderly (query now) s h = purge-IsOrderly now s h
step-IsOrderly (paid now a pay) s h =
    let p = purge-IsOrderly now s h in
    (
      change_all-IsDistinct a _ (λ n. refl) (purge now s).0.nb p.0,
      change_all-IsOpen a _ (λ n. refl) (purge now s).0.nb p.1,
    )
step-IsOrderly (received now a pay) s h =
    let p = purge-IsOrderly now s h in
    (
      change_all-IsDistinct a _ (λ n. refl) (purge now s).0.nb p.0,
      change_all-IsOpen a _ (λ n. refl) (purge now s).0.nb p.1,
    )
step-IsOrderly (heard now a amount t acked avail peer) s h =
    update-IsOrderly now a amount t acked avail peer s h
step-IsOrderly cleared s h = (tt, tt)
step-IsOrderly (hooked set) s h = h
step-IsOrderly (failed hardware now addr) s h =
    let goes : Neighbor → Bool = λ n. close_neighbor now n || hardware n == addr in
    let (left, _) = process_tx_error_lem hardware now addr s in
    (rw left (discard-IsDistinct goes s.nb h.0), rw left (All-discard IsOpen goes s.nb h.1))

run-from-IsOrderly : (cs : List Call) (s : Neighbors) → IsOrderly s → IsOrderly (run cs s)
unfolding run
run-from-IsOrderly [] s h = h
run-from-IsOrderly (c ∷ cs) s h = run-from-IsOrderly cs (step c s) (step-IsOrderly c s h)

-- After any sequence of operations on the table that the constructor makes, transmission errors and
-- settings of the callback included, no address has two channels and no channel is marked to be
-- closed: what ProcessTxError marks it also purges.
pub run-IsOrderly : (cs : List Call) (deposit : ℕ) → IsOrderly (run cs (new_neighbors deposit))
unfolding new_neighbors
run-IsOrderly cs deposit = run-from-IsOrderly cs (new_neighbors deposit) (tt, tt)
