-- ===== src/Payment/Schedule.antt =====
-- ScheduleTransmitPayChannelPackets of model/payment-network.cc: the delays that it gives to
-- Simulator::Schedule. `jitter` is the random part of a second and `interval` the ten seconds. The
-- source adds in double; here the sums are exact, in units of which `now`, `jitter` and `interval`
-- are whole numbers. The loop runs on fuel: it counts in a uint16_t up to an int.
use cnrlchain.Base.{
  ℕ, zero, suc, ◌+◌, ◌%◌, ◌<◌, ◌≤◌, ◌≡◌, Option, none, some, List, [], ◌∷◌, arith, ltb,
  if◌then◌else◌, ◌>>=◌,
}
use cnrlchain.Base.Word.{u16_mod}

-- `none` is a loop that is still running when the fuel is used up.
unfoldable pub schedule_loop : ℕ → ℕ → ℕ → ℕ → ℕ → Option (List ℕ)
schedule_loop zero interval number counter elapsed = if ltb counter number then none else some []
schedule_loop (suc fuel) interval number counter elapsed =
    let rest = schedule_loop fuel interval number ((counter + 1) % u16_mod) (elapsed + interval) in
    if ltb counter number
    then (rest >>= λ delays. some ((elapsed + interval) ∷ delays))
    else some []

unfoldable pub schedule_packets : ℕ → ℕ → ℕ → ℕ → ℕ → Option (List ℕ)
unfolding schedule_loop
schedule_packets fuel interval now jitter number =
    schedule_loop fuel interval number 0 (now + jitter)

-- The delays from one point on.
abbrev pub delays_from : ℕ → ℕ → ℕ → List ℕ
delays_from interval elapsed zero = []
delays_from interval elapsed (suc k) =
    (elapsed + interval) ∷ delays_from interval (elapsed + interval) k

loop_ends :
    (k fuel interval number counter elapsed : ℕ)
    → counter + k ≡ number
    → number < u16_mod
    → k ≤ fuel
    → schedule_loop fuel interval number counter elapsed ≡ some (delays_from interval elapsed k)
unfolding schedule_loop
loop_ends zero zero interval number counter elapsed e small le = ground arith
loop_ends zero (suc fuel) interval number counter elapsed e small le = ground arith
loop_ends (suc k) zero interval number counter elapsed e small le = absurd (omega arith)
loop_ends (suc k) (suc fuel) interval number counter elapsed e small le =
    ground (arith, loop_ends k fuel interval number ((counter + 1) % u16_mod) (elapsed + interval))

loop_runs :
    (fuel interval number counter elapsed : ℕ)
    → counter < u16_mod
    → u16_mod ≤ number
    → schedule_loop fuel interval number counter elapsed ≡ none
unfolding schedule_loop
loop_runs zero interval number counter elapsed lt large = ground arith
loop_runs (suc fuel) interval number counter elapsed lt large =
    ground (arith, loop_runs fuel interval number ((counter + 1) % u16_mod) (elapsed + interval))

-- With exact sums and enough fuel, one unit for each packet, the loop ends for every number below
-- 2 ^ 16 with that many delays: the first is one interval after the initial time_elapsed, which is
-- now and the random part, each other one interval after the one before. For a number that is not
-- below 2 ^ 16 no fuel is enough.
pub schedule_packets_lem :
    (fuel interval now jitter number : ℕ)
    → (number < u16_mod
        → number ≤ fuel
        → schedule_packets fuel interval now jitter number
          ≡ some (delays_from interval (now + jitter) number))
      × (u16_mod ≤ number → schedule_packets fuel interval now jitter number ≡ none)
unfolding schedule_packets
schedule_packets_lem fuel interval now jitter number = (
  λ small le. loop_ends number fuel interval number 0 (now + jitter) (omega arith) small le,
  λ large. loop_runs fuel interval number 0 (now + jitter) (omega arith) large,
)
