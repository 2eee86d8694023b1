-- ===== src/Neighbors/Accounts.antt =====
-- The deposits of a channel in model/neighbors.cc: payments, and the lookups that read them.
use cnrlchain.Base.{
  ℕ, ◌+◌, ◌-◌, ◌<◌, ◌≡◌, refl, inl, inr, false, none, some, List, [], ◌∷◌, arith, Address, Time,
  discard_none, discard-None, All, All-discard, ◌==◌, if◌then◌else◌, Option-cases, ◌>>=◌, ◌∙◌, ap,
  leb,
}
use cnrlchain.Base.Word.{u32_mod, minus_one32, add32, sub32, add32-sub32}
use cnrlchain.Neighbors.Purge.{nb-purge}
use cnrlchain.Neighbors.Channels.{IsDistinct, find_neighbor-purge, find_neighbor-change_all}
use cnrlchain.Neighbors.{
  Neighbor, Neighbors, close_neighbor, purge, find_neighbor, change_all, get_deposit,
  get_ch_my_avail_deposit, dec_ch_deposit, inc_ch_deposit,
}

abbrev IsWord : Neighbor → Type 0
IsWord n = n.avail_ch_deposit < u32_mod

change_all-None :
    (now : Time) (a : Address) (f : Neighbor → Neighbor)
    → ((n : Neighbor) → close_neighbor now (f n) ≡ close_neighbor now n)
    → (ns : List Neighbor) → All (λ n. close_neighbor now n ≡ false) ns
    → All (λ n. close_neighbor now n ≡ false) (change_all a f ns)
unfolding change_all
change_all-None now a f same [] h = tt
change_all-None now a f same (n ∷ ns) h =
    ground (arith, same n, change_all-None now a f same ns h.1)

change_all-change_all :
    (a : Address) (f g : Neighbor → Neighbor) (ns : List Neighbor)
    → ((n : Neighbor) → (f n).neighbor_address ≡ n.neighbor_address)
    → All (λ n. g (f n) ≡ n) ns
    → change_all a g (change_all a f ns) ≡ ns
unfolding change_all
change_all-change_all a f g [] same h = refl
change_all-change_all a f g (n ∷ ns) same h =
    ground (arith, same n, change_all-change_all a f g ns same h.1, h.0)

abbrev pay_out : ℕ → Neighbor → Neighbor
pay_out pay n = record n { avail_ch_deposit = sub32 n.avail_ch_deposit pay }

abbrev pay_in : ℕ → Neighbor → Neighbor
pay_in pay n = record n { avail_ch_deposit = add32 n.avail_ch_deposit pay }

-- What `DecChDeposit` does to a table with one channel per address: the channel of the address, if
-- it is still live, has the amount taken off its available deposit modulo 2 ^ 32, and every other
-- live channel is as before.
pub dec_ch_deposit_lem :
    (now : Time) (a b : Address) (pay : ℕ) (s : Neighbors)
    → IsDistinct s.nb
    → find_neighbor b (dec_ch_deposit now a pay s).0.nb ≡ (
        find_neighbor b s.nb >>= λ n.
        if close_neighbor now n
        then none
        else some
            (if a == b then record n { avail_ch_deposit = sub32 n.avail_ch_deposit pay } else n))
unfolding dec_ch_deposit
dec_ch_deposit_lem now a b pay s h = ground (
  arith,
  find_neighbor-change_all a b (pay_out pay) (λ n. refl) (purge now s).0.nb,
  find_neighbor-purge now b s h,
)

purge-stays :
    (now : Time) (s : Neighbors)
    → All (λ n. close_neighbor now n ≡ false) s.nb
    → (purge now s).0.nb ≡ s.nb
purge-stays now s h = nb-purge now s ∙ discard_none (close_neighbor now) s.nb h

words :
    (pay : ℕ) (ns : List Neighbor)
    → pay < u32_mod
    → All IsWord ns
    → All (λ n. pay_in pay (pay_out pay n) ≡ n) ns
words pay [] lt h = tt
words pay (n ∷ ns) lt h = (
  ap (λ w. record n { avail_ch_deposit = w }) (add32-sub32 n.avail_ch_deposit pay h.0 lt),
  words pay ns lt h.1,
)

live_None :
    (now : Time) (s : Neighbors) → All (λ n. close_neighbor now n ≡ false) (purge now s).0.nb
live_None now s = rw (nb-purge now s) (discard-None (close_neighbor now) s.nb)

live_words : (now : Time) (s : Neighbors) → All IsWord s.nb → All IsWord (purge now s).0.nb
live_words now s h = rw (nb-purge now s) (All-discard IsWord (close_neighbor now) s.nb h)

-- A second purge at the time of a payment closes nothing.
purge-dec :
    (now : Time) (a : Address) (pay : ℕ) (s : Neighbors)
    → (purge now (dec_ch_deposit now a pay s).0).0.nb ≡ (dec_ch_deposit now a pay s).0.nb
unfolding dec_ch_deposit close_neighbor
purge-dec now a pay s =
    purge-stays now (dec_ch_deposit now a pay s).0
      (change_all-None now a (pay_out pay) (λ n. refl) (purge now s).0.nb (live_None now s))

find_neighbor-IsWord :
    (a : Address) (ns : List Neighbor) {n : Neighbor}
    → All IsWord ns
    → find_neighbor a ns ≡ some n
    → IsWord n
unfolding find_neighbor
find_neighbor-IsWord a [] h e = absurd (cc)
find_neighbor-IsWord a (m ∷ ns) {n} h e = ground (arith, find_neighbor-IsWord a ns {n = n} h.1)

-- `IncChDeposit` takes back what `DecChDeposit` of the same amount did at the same time, whatever
-- the balance: where every available deposit and the amount are 32-bit words, the two leave the
-- channels as a purge alone does.
pub inc-dec :
    (now : Time) (a : Address) (pay : ℕ) (s : Neighbors)
    → pay < u32_mod
    → All IsWord s.nb
    → (inc_ch_deposit now a pay (dec_ch_deposit now a pay s).0).0.nb ≡ (purge now s).0.nb
unfolding inc_ch_deposit dec_ch_deposit
inc-dec now a pay s lt h =
    let live = (purge now s).0.nb in
    ap (change_all a (pay_in pay)) (purge-dec now a pay s)
    ∙ change_all-change_all a (pay_out pay) (pay_in pay) live (λ n. refl)
        (words pay live lt (live_words now s h))

-- What `GetChMyAvailDeposit` answers right after `DecChDeposit`, with one channel per address and
-- 32-bit words: -1 as an unsigned word if the address has no live channel, the difference if the
-- balance covers the payment, and else the difference plus 2 ^ 32, for nothing tests the balance.
pub get-dec :
    (now : Time) (a : Address) (pay : ℕ) (s : Neighbors)
    → IsDistinct s.nb
    → pay < u32_mod
    → All IsWord s.nb
    → (get_ch_my_avail_deposit now a (dec_ch_deposit now a pay s).0).1
      ≡ (elim (find_neighbor a s.nb >>= λ n. if close_neighbor now n then none else some n) [
        | none ↦ minus_one32
        | some n ↦
            if leb pay n.avail_ch_deposit
            then n.avail_ch_deposit - pay
            else n.avail_ch_deposit + u32_mod - pay
      ])
unfolding get_ch_my_avail_deposit get_deposit sub32
get-dec now a pay s h lt w = elim (Option-cases (find_neighbor a s.nb)) [
  | inl e ↦ ground (arith, purge-dec now a pay s, dec_ch_deposit_lem now a a pay s h)
  | inr (n, e) ↦
      let small = find_neighbor-IsWord a s.nb w e in
      ground (arith, purge-dec now a pay s, dec_ch_deposit_lem now a a pay s h)
]
