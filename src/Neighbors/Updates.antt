-- ===== src/Neighbors/Updates.antt =====
-- How long `Update` of model/neighbors.cc keeps a channel.
use cnrlchain.Base.{
  ℕ, ◌≡◌, refl, ◌≢◌, inl, inr, Bool, true, false, none, some, [], ◌∷◌, ◌++◌, arith, Address, Time,
  ◌≤ℤ◌, ◌+ℤ◌, max_time, max_time-le_left, ◌==◌, ==_self, Bool-cases, Option-cases, le→not-before,
}
use cnrlchain.Neighbors.Channels.{
  IsDistinct, find_neighbor-purge, find_neighbor-snoc, find_neighbor-extend_first, snoc-IsDistinct,
}
use cnrlchain.Neighbors.Orderly.{IsOrderly, find_neighbor-IsOpen, update-IsOrderly}
use cnrlchain.Neighbors.{
  Neighbor, Neighbors, close_neighbor, find_neighbor, is_neighbor, update, new_neighbor,
  returns_minus_one,
}

-- A table that holds a channel of the address that stays until the time.
abbrev pub KeepsUntil : Time → Address → Neighbors → Type 0
KeepsUntil t a s =
    (n : Neighbor) × (find_neighbor a s.nb ≡ some n) × (n.close ≡ false) × (t ≤ℤ n.expire_time)

pub KeepsUntil-is_neighbor :
    (t u : Time) (a : Address) (s : Neighbors)
    → IsDistinct s.nb
    → KeepsUntil u a s
    → t ≤ℤ u
    → (is_neighbor t a s).1 ≡ true
unfolding is_neighbor close_neighbor
KeepsUntil-is_neighbor t u a s h (n, e, o, le) early =
    ground (arith, find_neighbor-purge t a s h, le→not-before n.expire_time t (omega arith))

update_known :
    (now : Time) (a : Address) (amount : ℕ) (expire : Time) (acked : Bool) (avail peer : ℕ)
    (s : Neighbors) (n : Neighbor)
    → IsOrderly s
    → find_neighbor a s.nb ≡ some n
    → (n.peer_avail_ch_deposit == amount) ≡ true
    → KeepsUntil (expire +ℤ now) a (update now a amount expire acked avail peer s).0
unfolding update
update_known now a amount expire acked avail peer s n h e same =
    rw (e, update)
      (rw (same, update)
        (
          record n { expire_time = max_time (expire +ℤ now) n.expire_time },
          ground (arith, find_neighbor-extend_first a a (expire +ℤ now) s.nb),
          find_neighbor-IsOpen a s.nb h.1 e,
          max_time-le_left (expire +ℤ now) n.expire_time,
        ))

update_unknown :
    (now : Time) (a : Address) (amount : ℕ) (expire : Time) (avail peer : ℕ) (s : Neighbors)
    → IsOrderly s
    → find_neighbor a s.nb ≡ none
    → now ≤ℤ (expire +ℤ now)
    → KeepsUntil (expire +ℤ now) a (update now a amount expire true avail peer s).0
unfolding update close_neighbor
update_unknown now a amount expire avail peer s h e future =
    let m = new_neighbor a s.init_deposit amount (expire +ℤ now) avail peer in
    let opened = record s { nb = s.nb ++ m ∷ [] } in
    rw (e, update)
      (
        m,
        ground (
          arith,
          find_neighbor-purge now a opened (snoc-IsDistinct m s.nb e h.0),
          find_neighbor-snoc a m s.nb,
          ==_self a,
          le→not-before (expire +ℤ now) now future,
        ),
        refl,
        omega arith,
      )

refused :
    (now : Time) (a : Address) (amount : ℕ) (expire : Time) (avail peer : ℕ) (s : Neighbors)
    (n : Neighbor)
    → find_neighbor a s.nb ≡ some n
    → (n.peer_avail_ch_deposit == amount) ≡ false
    → (update now a amount expire true avail peer s).1 ≡ returns_minus_one
unfolding update
refused now a amount expire avail peer s n e other = rw (e, update) (rw (other, update) refl)

-- An acknowledged `Update` that does not refuse the amount keeps the channel, an old one or a new
-- one: in a table with one channel per address, none of them marked to be closed, and for a span
-- that does not end in the past, `IsNeighbor` is true at every time up to the end of the span.
pub is_neighbor-update :
    (now : Time) (a : Address) (amount : ℕ) (expire : Time) (avail peer : ℕ) (s : Neighbors)
    (t : Time)
    → IsOrderly s
    → now ≤ℤ (expire +ℤ now)
    → (update now a amount expire true avail peer s).1 ≢ returns_minus_one
    → t ≤ℤ (expire +ℤ now)
    → (is_neighbor t a (update now a amount expire true avail peer s).0).1 ≡ true
is_neighbor-update now a amount expire avail peer s t h future accepted early =
    let s' = (update now a amount expire true avail peer s).0 in
    let keep =
      KeepsUntil-is_neighbor t (expire +ℤ now) a s'
        (update-IsOrderly now a amount expire true avail peer s h).0 in
    elim (Option-cases (find_neighbor a s.nb)) [
      | inl e ↦ keep (update_unknown now a amount expire avail peer s h e future) early
      | inr (n, e) ↦ elim (Bool-cases (n.peer_avail_ch_deposit == amount)) [
        | inl same ↦ keep (update_known now a amount expire true avail peer s n h e same) early
        | inr other ↦ absurd (accepted (refused now a amount expire avail peer s n e other))
      ]
    ]
