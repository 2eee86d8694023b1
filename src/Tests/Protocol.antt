-- ===== src/Tests/Protocol.antt =====
-- The theorems on histories, floods and arriving messages of model/offchain-routing.cc
-- at concrete inputs.
use cnrlchain.Base.{
  ℕ, ◌≡◌, ◌≤◌, refl, Option, none, some, List, [], ◌∷◌, ◌++◌, arith, Address, Time, pos, negsuc,
  length, All,
}
use cnrlchain.Packet.{rreq, hello, new_type}
use cnrlchain.Packet.Codec.{serialize_type, serialize_rreq, serialize_hello}
use cnrlchain.Routing.{RoutingProtocol, Action}
use cnrlchain.Routing.Receive.{recv_rreq}
use cnrlchain.Routing.Rate.{requests}
use cnrlchain.Routing.Once.{copies}
use cnrlchain.Routing.Letters.{letters, copies_on}
use cnrlchain.Routing.Flood.{Reception, receive, receive-copies}
use cnrlchain.Routing.Network.{run_network, run_network-copies}
use cnrlchain.Payment.Arrival.{take_rreq, deliver, deliver_lem}
use cnrlchain.Tests.{wire}
use cnrlchain.Tests.Headers.{request, greeting, blank}
use cnrlchain.Tests.Requests.{Interface, env, node, header}

abbrev Node : Type 0
Node = RoutingProtocol Interface Interface

-- Two copies of one request, from different neighbours, and another request in between.
abbrev copies_in : List (Reception Interface)
copies_in =
    record { env = env (pos 3); receiver = 1; src = 2; header = header }
    ∷ record {
      env = env (pos 20);
      receiver = 1;
      src = 4;
      header = record header { request_id = 9 };
    }
    ∷ record {
      env = env (pos 900);
      receiver = 1;
      src = 4;
      header = record header { hop_count = 6 };
    }
    ∷ []

result : Node × List (Action Interface)
unfolding receive
result = elim (receive copies_in node) [ none ↦ (node, []) | some r ↦ r ]

received : receive copies_in node ≡ some result
unfolding result cnrlchain.Base.Map.find cnrlchain.Base.Map.sweep cnrlchain.IdCache.seen
    cnrlchain.Base.discard cnrlchain.IdCache.new_cache cnrlchain.Base.Map.insert
    cnrlchain.Base.Map.place cnrlchain.Table.age cnrlchain.Base.before cnrlchain.Base.◌-ℤ◌
    cnrlchain.Base.◌+ℤ◌ cnrlchain.Base.times cnrlchain.IdCache.is_expired cnrlchain.Base.Map.adjust
    cnrlchain.Base.max_time
received = refl

receive-copies_example : copies_on 21 5 7 (letters result.1) ≤ 1
unfolding cnrlchain.Base.◌+ℤ◌ cnrlchain.IdCache.new_cache
receive-copies_example =
    receive-copies copies_in node (pos 3) 21 5 7 {r = result} received
      (omega arith, (omega arith, (omega arith, tt)))
      (omega arith, (omega arith, (omega arith, tt)))

-- Two nodes: each receives the request twice, in turns.
abbrev nodes : List Node
nodes = node ∷ node ∷ []

abbrev copy_at : Time → Address → ℕ → Reception Interface
copy_at now src hops = record {
  env = env now;
  receiver = 1;
  src = src;
  header = record header { hop_count = hops };
}

abbrev events : List (ℕ × Reception Interface)
events =
    (1, copy_at (pos 3) 2 1)
    ∷ (0, copy_at (pos 5) 4 2)
    ∷ (1, copy_at (pos 8) 4 3)
    ∷ (0, copy_at (pos 900) 2 6)
    ∷ []

outcome : List Node × List (Action Interface)
unfolding run_network
outcome = elim (run_network events nodes) [ none ↦ ([], []) | some r ↦ r ]

ran : run_network events nodes ≡ some outcome
unfolding run_network cnrlchain.Base.Map.find cnrlchain.Base.Map.sweep cnrlchain.IdCache.seen
    cnrlchain.Base.discard cnrlchain.IdCache.new_cache cnrlchain.Base.Map.insert
    cnrlchain.Base.Map.place cnrlchain.Table.age cnrlchain.Base.before cnrlchain.Base.◌-ℤ◌
    cnrlchain.Base.◌+ℤ◌ cnrlchain.Base.times cnrlchain.IdCache.is_expired outcome
ran = refl

run_network-copies_example : copies 5 7 (requests outcome.1) ≤ 2
unfolding cnrlchain.Base.◌+ℤ◌ cnrlchain.IdCache.new_cache
run_network-copies_example =
    run_network-copies events nodes (pos 1000) (pos 3) 5 7 {r = outcome} ran (refl, (refl, tt))
      (omega arith, (omega arith, (omega arith, (omega arith, tt))))
      (omega arith, (omega arith, (omega arith, (omega arith, tt))))

-- RecvRRep, which is declared only.
abbrev no_reply : List ℕ → Node → Option (Node × List (Action Interface))
no_reply bytes s = some (s, [])

deliver_lem_example :
    (deliver wire blank no_reply
        (env (pos 3))
        1
        2
        (serialize_type wire (new_type rreq) ++ serialize_rreq wire request)
        node
      ≡ recv_rreq (env (pos 3)) 1 2 request node)
    × (deliver wire blank no_reply
          (env (pos 3))
          1
          2
          (serialize_type wire (new_type hello) ++ serialize_hello wire greeting)
          node
        ≡ take_rreq wire blank no_reply (env (pos 3)) 1 2 (serialize_hello wire greeting) node)
deliver_lem_example =
    deliver_lem wire blank no_reply (env (pos 3)) 1 2 request greeting node (record {
      flags = omega arith;
      reserved = omega arith;
      hop_count = omega arith;
      request_id = omega arith;
      dst = omega arith;
      dst_seq_no = omega arith;
      origin = omega arith;
      origin_seq_no = omega arith;
      transaction_amount = omega arith;
    })
