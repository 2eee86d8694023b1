-- ===== src/Neighbors.antt =====
-- model/neighbors.h and model/neighbors.cc: the neighbours with an open payment channel, and the
-- deposits of each channel. An operation returns the new state first; what it asks of the link
-- failure callback and of the timer comes last, in order. The amounts that the constructor of a
-- neighbour does not set are arguments (`avail`, `peer_avail`).
pub mod Channels
pub mod Orderly
pub mod Accounts
pub mod Updates
pub mod Purge
pub mod Failure
use cnrlchain.Base.{
  ℕ, Bool, true, false, ◌||◌, Option, none, some, List, [], ◌∷◌, ◌++◌, map, Address, Handle, Time,
  pos, ◌+ℤ◌, ◌-ℤ◌, before, max_time, discard, select, exists, get_elem?, ◌==◌, if◌then◌else◌,
}
use cnrlchain.Base.Word.{add32, sub32, minus_one32}

-- Neighbors::Neighbor
pub record Neighbor : Type 0 where
  pub neighbor_address : Address
  pub expire_time : Time
  pub total_ch_deposit : ℕ
  pub avail_ch_deposit : ℕ
  pub peer_total_ch_deposit : ℕ
  pub peer_avail_ch_deposit : ℕ
  pub close : Bool

-- `handle_link_failure` says whether the callback is set.
pub record Neighbors : Type 0 where
  pub nb : List Neighbor
  pub init_deposit : ℕ
  pub handle_link_failure : Bool

pub data Effect : Type 0 where
  link_failure : Address → Effect
  cancel_timer : Effect
  schedule_timer : Effect

unfoldable pub new_neighbors : ℕ → Neighbors
new_neighbors default_deposit = record {
  nb = [];
  init_deposit = default_deposit;
  handle_link_failure = false;
}

unfoldable pub new_neighbor : Address → ℕ → ℕ → Time → ℕ → ℕ → Neighbor
new_neighbor ip my_amount peer_amount t avail peer_avail = record {
  neighbor_address = ip;
  expire_time = t;
  total_ch_deposit = my_amount;
  avail_ch_deposit = avail;
  peer_total_ch_deposit = peer_amount;
  peer_avail_ch_deposit = peer_avail;
  close = false;
}

-- CloseNeighbor
unfoldable pub close_neighbor : Time → Neighbor → Bool
close_neighbor now nb = before nb.expire_time now || nb.close

-- The loop of `Purge` that calls the callback.
abbrev pub failures : Time → List Neighbor → List Effect
failures now nbs = map (λ n. link_failure n.neighbor_address) (select (close_neighbor now) nbs)

-- An empty vector is left before the timer is touched.
unfoldable pub purge_list : Time → Bool → List Neighbor → List Neighbor × List Effect
purge_list now set [] = ([], [])
purge_list now set (n ∷ ns) = (
  discard (close_neighbor now) (n ∷ ns),
  (if set then failures now (n ∷ ns) else []) ++ cancel_timer ∷ schedule_timer ∷ [],
)

unfoldable pub purge : Time → Neighbors → Neighbors × List Effect
unfolding purge_list
purge now s =
    let (nbs, effects) = purge_list now s.handle_link_failure s.nb in
    (record s { nb = nbs }, effects)

unfoldable pub schedule_timer_effects : List Effect
schedule_timer_effects = cancel_timer ∷ schedule_timer ∷ []

unfoldable pub clear : Neighbors → Neighbors
clear s = record s { nb = [] }

unfoldable pub set_callback : Bool → Neighbors → Neighbors
set_callback set s = record s { handle_link_failure = set }

-- `none` is an index out of range.
unfoldable pub get_ngb_ip_addr_by_index : ℕ → Neighbors → Option Address
get_ngb_ip_addr_by_index i s = elim (get_elem? s.nb i) [
  | none ↦ none
  | some n ↦ some n.neighbor_address
]

-- The loop of the lookups: the first neighbour with the address.
unfoldable pub find_neighbor : Address → List Neighbor → Option Neighbor
find_neighbor addr [] = none
find_neighbor addr (n ∷ ns) =
    let rest = find_neighbor addr ns in if n.neighbor_address == addr then some n else rest

unfoldable pub is_neighbor : Time → Address → Neighbors → Neighbors × Bool × List Effect
unfolding purge
is_neighbor now addr s =
    let (s', effects) = purge now s in
    (s', elim (find_neighbor addr s'.nb) [ none ↦ false | some n ↦ true ], effects)

unfoldable pub get_expire_time : Time → Address → Neighbors → Neighbors × Time × List Effect
unfolding purge
get_expire_time now addr s =
    let (s', effects) = purge now s in
    (s', elim (find_neighbor addr s'.nb) [ none ↦ pos 0 | some n ↦ n.expire_time -ℤ now ], effects)

-- The four deposit lookups differ in the field that they return; without a channel they return -1
-- as a uint32_t.
unfoldable pub get_deposit :
    (Neighbor → ℕ) → Time → Address → Neighbors → Neighbors × ℕ × List Effect
unfolding purge
get_deposit field now addr s =
    let (s', effects) = purge now s in
    (s', elim (find_neighbor addr s'.nb) [ none ↦ minus_one32 | some n ↦ field n ], effects)

unfoldable pub get_ch_my_deposit : Time → Address → Neighbors → Neighbors × ℕ × List Effect
unfolding get_deposit
get_ch_my_deposit = get_deposit (λ n. n.total_ch_deposit)

unfoldable pub get_ch_my_avail_deposit : Time → Address → Neighbors → Neighbors × ℕ × List Effect
unfolding get_deposit
get_ch_my_avail_deposit = get_deposit (λ n. n.avail_ch_deposit)

unfoldable pub get_ch_peer_deposit : Time → Address → Neighbors → Neighbors × ℕ × List Effect
unfolding get_deposit
get_ch_peer_deposit = get_deposit (λ n. n.peer_total_ch_deposit)

unfoldable pub get_ch_peer_avail_deposit : Time → Address → Neighbors → Neighbors × ℕ × List Effect
unfolding get_deposit
get_ch_peer_avail_deposit = get_deposit (λ n. n.peer_avail_ch_deposit)

-- The loop of `DecChDeposit` and `IncChDeposit`: every neighbour with the address.
unfoldable pub change_all : Address → (Neighbor → Neighbor) → List Neighbor → List Neighbor
change_all addr f [] = []
change_all addr f (n ∷ ns) = (if n.neighbor_address == addr then f n else n) ∷ change_all addr f ns

unfoldable pub dec_ch_deposit : Time → Address → ℕ → Neighbors → Neighbors × List Effect
unfolding purge sub32
dec_ch_deposit now addr pay s =
    let (s', effects) = purge now s in
    (
      record s' {
        nb =
            change_all addr (λ n. record n { avail_ch_deposit = sub32 n.avail_ch_deposit pay })
              s'.nb;
      },
      effects,
    )

unfoldable pub inc_ch_deposit : Time → Address → ℕ → Neighbors → Neighbors × List Effect
unfolding purge add32
inc_ch_deposit now addr pay s =
    let (s', effects) = purge now s in
    (
      record s' {
        nb =
            change_all addr (λ n. record n { avail_ch_deposit = add32 n.avail_ch_deposit pay })
              s'.nb;
      },
      effects,
    )

-- The loop of `Update`: the first neighbour with the address gets the later expiry.
unfoldable pub extend_first : Address → Time → List Neighbor → List Neighbor
extend_first addr t [] = []
extend_first addr t (n ∷ ns) =
    let rest = extend_first addr t ns in
    if n.neighbor_address == addr
    then record n { expire_time = max_time t n.expire_time } ∷ ns
    else n ∷ rest

-- What `Update` returns: 0, -1, or nothing at the end of a function that promises an int.
pub data Answer : Type 0 where
  returns_zero : Answer
  returns_minus_one : Answer
  returns_nothing : Answer

unfoldable pub update :
    Time → Address → ℕ → Time → Bool → ℕ → ℕ → Neighbors → Neighbors × Answer × List Effect
unfolding purge new_neighbor
update now addr peer_avail_amount expire acked avail peer_avail s = elim (find_neighbor addr s.nb) [
  | some n ↦
      if n.peer_avail_ch_deposit == peer_avail_amount
      then (record s { nb = extend_first addr (expire +ℤ now) s.nb }, returns_zero, [])
      else (s, returns_minus_one, [])
  | none ↦
      let opened = record s {
        nb =
            if acked
            then s.nb
              ++ new_neighbor addr s.init_deposit peer_avail_amount (expire +ℤ now) avail peer_avail
                ∷ []
            else s.nb;
      } in
      let (s', effects) = purge now opened in (s', returns_nothing, effects)
]
