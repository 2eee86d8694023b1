-- ===== src/Tests/Requests.antt =====
-- The theorems on model/offchain-routing.cc at concrete inputs.
use cnrlchain.Base.{
  ◌≤ℤ◌, ℕ, ◌+◌, ◌%◌, ◌≡◌, ◌≤◌, ◌<◌, refl, ◌≢◌, Bool, true, false, Option, some, List, [], ◌∷◌, ◌++◌,
  map, arith, Address, Time, pos, times, ◌+ℤ◌, All, length, ◌==◌,
}
use cnrlchain.Base.Map.{find}
use cnrlchain.Base.Word.{add32}
use cnrlchain.Route.{RoutingTableEntry, new_route}
use cnrlchain.Table.{RoutingTable, purge}
use cnrlchain.IdCache.{new_cache, asks}
use cnrlchain.Packet.{
  rreq, hello, new_type, RreqHeader, empty_rreq, HelloHeader, get_hello_ack_required,
}
use cnrlchain.Neighbors.{
  Effect, is_neighbor, update, returns_minus_one, new_neighbors, find_neighbor,
}
use cnrlchain.Routing.{
  hello_life_time, RoutingProtocol, Settings, default_settings, new_protocol, Env, Action,
  send_rreq, send_hello, neighbor_effect, recv_hello,
}
use cnrlchain.Routing.Request.{send_request}
use cnrlchain.Routing.Receive.{drop, decide, recv_rreq}
use cnrlchain.Routing.Duplicates.{recv_rreq-twice}
use cnrlchain.Routing.Replies.{IsSound, decide_lem}
use cnrlchain.Routing.Relay.{Relays, recv_rreq-Relays}
use cnrlchain.Routing.Total.{recv_rreq_total}
use cnrlchain.Routing.Own.{recv_rreq-send_request}
use cnrlchain.Routing.Letters.{letters, envelopes, to_each}
use cnrlchain.Routing.Rate.{requests, IsNumbered, send_request_lem}
use cnrlchain.Neighbors.Orderly.{IsOrderly}
use cnrlchain.Routing.Hellos.{recv_hello-acked}
use cnrlchain.Tests.{interfaces, millis}

abbrev pub Interface : Type 0
Interface = Address × Address

abbrev pub env : Time → Env Interface
env now = record {
  now = now;
  net = interfaces;
  millis = millis;
  is_my_own_address = λ a. a == 1;
  interface_for = λ receiver. (receiver, 9);
  device_for = λ receiver. 3;
  this_address = 1;
  delay_left = pos 0;
  request_delay = pos 1;
  jitter = pos 0;
  avail_deposit = 70;
  default_deposit = 100;
  flags = 0;
  avail = 100;
  peer_avail = 0;
  aodvtype_rreq = rreq;
  aodv_port = 1200;
}

abbrev pub settings : Settings
settings = record (default_settings (λ s. pos 1) pos) {
  rreq_rate_limit = 10;
  net_traversal_time = pos 2800;
  node_traversal_time = pos 40;
  hello_interval = pos 60;
  allowed_hello_loss = 2;
  destination_only = false;
  gratuitous_reply = true;
  enable_hello = true;
}

-- One socket, an empty table, and one second in which an id is remembered.
abbrev pub node : RoutingProtocol Interface Interface
node = record (new_protocol (λ s. pos 1) pos 100) {
  settings = settings;
  socket_addresses = (21, (1, 9)) ∷ [];
  routing_table = record { entries = []; bad_link_lifetime = pos 15 };
  request_id = 4;
  seq_no = 8;
  rreq_id_cache = new_cache (pos 1000);
  nb = new_neighbors 100;
  rreq_count = 2;
  htimer_running = true;
}

abbrev pub header : RreqHeader
header = record empty_rreq { hop_count = 3; request_id = 7; dst = 6; origin = 5; origin_seq_no = 2 }

-- The reverse route that the request leaves, and the request that goes on.
abbrev reverse : RoutingTableEntry Interface
reverse = new_route interfaces (pos 3) 0 5 true 2 (1, 9) 4 0 2 (pos 5280)

abbrev reversed : RoutingTable Interface
reversed = record { entries = (5, reverse) ∷ []; bad_link_lifetime = pos 15 }

abbrev node_after : RoutingProtocol Interface Interface
node_after = record node {
  routing_table = reversed;
  rreq_id_cache = record {
    ids = record { context = 5; id = 7; expire = pos 1003 } ∷ [];
    lifetime = pos 1000;
  };
}

abbrev sent : List (Action Interface)
sent = send_rreq 21 (new_type rreq) (record header { hop_count = 4 }) 9 1200 ∷ []

received : recv_rreq (env (pos 3)) 1 2 header node ≡ some (node_after, sent)
unfolding recv_rreq find cnrlchain.Base.Map.sweep cnrlchain.IdCache.seen cnrlchain.Base.discard
    new_cache cnrlchain.Base.Map.insert cnrlchain.Base.Map.place cnrlchain.Table.age
    cnrlchain.Base.before cnrlchain.Base.◌-ℤ◌ ◌+ℤ◌ times
received = refl

recv_rreq-Relays_example : All (Relays (record header { hop_count = 4 })) sent
recv_rreq-Relays_example = recv_rreq-Relays (env (pos 3)) 1 2 header node received

recv_rreq-twice_example :
    (s3 : RoutingProtocol Interface Interface) × (recv_rreq
        (env (pos 900))
        1
        3
        (record header { hop_count = 9 })
        node_after
      ≡ some (s3, []))
    × (s3.routing_table ≡ purge (pos 900) reversed)
unfolding find purge cnrlchain.Base.Map.sweep cnrlchain.IdCache.is_duplicate cnrlchain.IdCache.seen
    cnrlchain.Base.discard new_cache cnrlchain.IdCache.run ◌+ℤ◌
recv_rreq-twice_example =
    recv_rreq-twice (env (pos 3)) (env (pos 900)) 1 2 1 3 header (record header { hop_count = 9 })
      node node_after node_after sent [] received refl refl refl tt (omega arith) refl refl

recv_rreq_total_example :
    (r : RoutingProtocol Interface Interface × List (Action Interface)) × (recv_rreq
        (env (pos 3))
        1
        2
        header
        node
      ≡ some r)
recv_rreq_total_example =
    recv_rreq_total (env (pos 3)) 1 2 header node (omega arith) (omega arith) tt

-- A request for the destination 6, and its copy from the node 2.
abbrev asked : RoutingProtocol Interface Interface
asked = (send_request (env (pos 3)) 6 node).0

abbrev own : RreqHeader
own = record empty_rreq { hop_count = 1; request_id = 5; dst = 6; origin = 1; origin_seq_no = 9 }

recv_rreq-send_request_example :
    (s3 : RoutingProtocol Interface Interface) × (recv_rreq (env (pos 900)) 1 2 own asked
      ≡ some (s3, []))
    × (s3.routing_table ≡ purge (pos 900) asked.routing_table)
unfolding new_cache cnrlchain.Base.exists cnrlchain.IdCache.is_duplicate cnrlchain.IdCache.seen
    cnrlchain.Base.discard cnrlchain.IdCache.run send_request ◌+ℤ◌
recv_rreq-send_request_example =
    recv_rreq-send_request (env (pos 3)) (env (pos 900)) 6 1 1 2 own node asked [] refl
      (omega arith) refl refl refl tt (omega arith) refl refl

decide_lem_example : IsSound 2 header (some (record reverse { seq_no = 4 })) drop
unfolding decide new_route
decide_lem_example = decide_lem 2 header (some (record reverse { seq_no = 4 })) refl

send_request_lem_example :
    let r = send_request (env (pos 3)) 6 node in
    (r.0.rreq_count ≤ 10)
    × (node.rreq_count ≡ 10 → (requests r.1 ≡ []) × (r.0 ≡ node))
    × (node.rreq_count < 10
        → (envelopes (letters r.1) ≡ to_each (env (pos 3)) node.socket_addresses)
          × All (IsNumbered 8 4) (requests r.1)
          × (r.0.seq_no ≡ add32 8 1)
          × (r.0.request_id ≡ add32 4 1)
          × (r.0.rreq_count ≡ node.rreq_count + 1))
send_request_lem_example = send_request_lem (env (pos 3)) 6 node (omega arith) (omega arith)

abbrev greeting : HelloHeader
greeting = record {
  flags = 64;
  dst = 1;
  dst_seq_no = 0;
  origin = 2;
  life_time = 120;
  ch_avail_deposit = 60;
}

not_refused : (update (pos 3) 2 60 (pos 120) true 100 0 node.nb).1 ≢ returns_minus_one
unfolding update find_neighbor new_neighbors
not_refused e = cc

recv_hello-acked_example :
    let r = recv_hello (env (pos 3)) greeting 1 2 node in
    ((h : HelloHeader) × (effects : List Effect) × (r.1
        ≡ map neighbor_effect effects ++ send_hello (new_type hello) h 2 ∷ [])
      × (get_hello_ack_required h ≡ true))
    × (IsOrderly node.nb
        → pos 3 ≤ℤ hello_life_time node +ℤ pos 3
        → pos 123 ≤ℤ hello_life_time node +ℤ pos 3
        → (update (pos 3) 2 greeting.ch_avail_deposit (hello_life_time node) true 100 0 node.nb).1
          ≢ returns_minus_one
        → (is_neighbor (pos 123) 2 r.0.nb).1 ≡ true)
unfolding times get_hello_ack_required cnrlchain.Packet.get_flag new_neighbors ◌+ℤ◌
recv_hello-acked_example =
    recv_hello-acked (env (pos 3)) greeting 2 node (pos 123) refl (omega arith)
