-- ===== src/Tests/Channels.antt =====
-- The theorems on model/neighbors.cc at concrete inputs.
use cnrlchain.Base.{
  ℕ, ◌+◌, ◌-◌, ◌≡◌, refl, ◌≢◌, Bool, true, false, Option, none, some, List, [], ◌∷◌, arith, Address,
  Time, pos, ◌+ℤ◌, leb, All, discard, length, if◌then◌else◌, ◌>>=◌,
}
use cnrlchain.Base.Word.{u32_mod}
use cnrlchain.Neighbors.{
  Neighbor, Neighbors, returns_minus_one, new_neighbors, close_neighbor, purge, find_neighbor,
  is_neighbor, get_ch_my_avail_deposit, dec_ch_deposit, inc_ch_deposit, update,
}
use cnrlchain.Neighbors.Orderly.{IsOrderly, paid, heard, run, run-IsOrderly}
use cnrlchain.Neighbors.Updates.{is_neighbor-update}
use cnrlchain.Neighbors.Accounts.{get-dec, inc-dec}

abbrev pub channel : Address → Time → ℕ → Neighbor
channel a t avail = record {
  neighbor_address = a;
  expire_time = t;
  total_ch_deposit = 100;
  avail_ch_deposit = avail;
  peer_total_ch_deposit = 80;
  peer_avail_ch_deposit = 60;
  close = false;
}

-- The channel to 5 has expired at time 8.
abbrev pub book : Neighbors
book = record {
  nb = channel 4 (pos 10) 70 ∷ channel 5 (pos 7) 20 ∷ [];
  init_deposit = 100;
  handle_link_failure = true;
}

book-IsOrderly : IsOrderly book
unfolding find_neighbor
book-IsOrderly = ((refl, (refl, tt)), (refl, (refl, tt)))

run-IsOrderly_example : IsOrderly (
    run
      (heard (pos 1) 4 60 (pos 9) true 70 60
        ∷ heard (pos 2) 4 60 (pos 9) true 70 60
        ∷ paid (pos 3) 4 10
        ∷ [])
      (new_neighbors 100))
run-IsOrderly_example =
    run-IsOrderly
      (heard (pos 1) 4 60 (pos 9) true 70 60
        ∷ heard (pos 2) 4 60 (pos 9) true 70 60
        ∷ paid (pos 3) 4 10
        ∷ [])
      100

kept : (update (pos 8) 4 60 (pos 5) true 0 0 book).1 ≢ returns_minus_one
unfolding update find_neighbor
kept e = cc

is_neighbor-update_example :
    (is_neighbor (pos 12) 4 (update (pos 8) 4 60 (pos 5) true 0 0 book).0).1 ≡ true
unfolding ◌+ℤ◌
is_neighbor-update_example =
    is_neighbor-update (pos 8) 4 60 (pos 5) 0 0 book (pos 12) book-IsOrderly (omega arith) kept
      (omega arith)

-- A payment of 90 out of 70.
get-dec_example :
    (get_ch_my_avail_deposit (pos 8) 4 (dec_ch_deposit (pos 8) 4 90 book).0).1 ≡ 70 + u32_mod - 90
unfolding find_neighbor close_neighbor cnrlchain.Base.before
get-dec_example =
    get-dec (pos 8) 4 90 book book-IsOrderly.0 (omega arith) (omega arith, (omega arith, tt))

inc-dec_example :
    (inc_ch_deposit (pos 8) 4 90 (dec_ch_deposit (pos 8) 4 90 book).0).0.nb
    ≡ (purge (pos 8) book).0.nb
inc-dec_example = inc-dec (pos 8) 4 90 book (omega arith) (omega arith, (omega arith, tt))
