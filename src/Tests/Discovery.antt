-- ===== src/Tests/Discovery.antt =====
-- The theorem on a route discovery by model/offchain-routing.cc at a concrete input.
use cnrlchain.Base.{ℕ, ◌+◌, ◌≡◌, ◌≤◌, refl, List, [], ◌∷◌, arith, Address, Time, pos, ◌==◌}
use mathlib.Core.List.{Memᴰ}
use cnrlchain.Packet.{RreqHeader, rreq, new_type}
use cnrlchain.Routing.{Env, Action, send_rreq}
use cnrlchain.Routing.Request.{send_request}
use cnrlchain.Routing.Accepted.{one_hop_on}
use cnrlchain.Routing.Path.{Hop, IsOpen}
use cnrlchain.Routing.Path.Discovery.{Arrives}
use cnrlchain.Routing.Path.Origin.{request_from, send_request-Arrives}
use cnrlchain.Tests.Requests.{Interface, env, node}

-- A node with an address that has heard of nothing yet.
abbrev at : Address → Time → Address → Hop Interface Interface
at own now src = record {
  env = record (env now) { is_my_own_address = λ a. a == own };
  receiver = 1;
  src = src;
  node = node;
}

-- From node 1 by the nodes 3 and 4 to node 6.
abbrev way : List (Hop Interface Interface)
way = at 3 (pos 3) 1 ∷ at 4 (pos 4) 3 ∷ []

abbrev asked_for : RreqHeader
asked_for = request_from (env (pos 2)) 6 node (1, 9)

is_open :
    (own : Address) (now : Time) (src : Address) (h : RreqHeader)
    → (one_hop_on h).hop_count ≤ 70
    → IsOpen (at own now src) h
unfolding cnrlchain.Base.Map.find cnrlchain.Table.purge cnrlchain.Base.Map.sweep
    cnrlchain.IdCache.is_duplicate cnrlchain.IdCache.seen cnrlchain.Base.discard
    cnrlchain.IdCache.new_cache cnrlchain.Base.◌-ℤ◌ cnrlchain.Base.times
is_open own now src h near = record {
  small = tt;
  well_formed = record { sorted = tt; filed = tt };
  bad_link = omega arith;
  allowed = refl;
  fresh = refl;
  patient = ground arith;
}

send_request-Arrives_example :
    Memᴰ (send_rreq 21 (new_type rreq) asked_for 9 1200) (send_request (env (pos 2)) 6 node).1
    × Arrives way (at 6 (pos 6) 4) asked_for
unfolding cnrlchain.Base.Map.find cnrlchain.Table.purge cnrlchain.Base.Map.sweep
    cnrlchain.Routing.Request.fill_header cnrlchain.Routing.Request.search_route
    cnrlchain.Routing.broadcast_address
send_request-Arrives_example =
    send_request-Arrives (env (pos 2)) 6 node 21 (1, 9) way (at 6 (pos 6) 4) refl (omega arith) tt
      (Memᴰ.head refl) refl
      (
        is_open 3 (pos 3) 1 asked_for (omega arith),
        refl,
        refl,
        refl,
        refl,
        (is_open 4 (pos 4) 3 (one_hop_on asked_for) (omega arith), refl, refl, refl, refl, tt),
      )
      (is_open 6 (pos 6) 4 (one_hop_on (one_hop_on asked_for)) (omega arith)) refl
