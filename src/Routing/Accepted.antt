-- ===== src/Routing/Accepted.antt =====
-- What RecvRReq of model/offchain-routing.cc does with a request that it does not ignore: the route
-- back, and then the reply or the copies that it sends on.
use cnrlchain.Base.{
  ◌+◌, ◌%◌, ◌≡◌, true, false, Option, none, some, List, [], ◌∷◌, ◌++◌, arith, Address, Handle, Time,
  ◌≤ℤ◌, bind-some, ap, before-sub, le→not-before,
}
use mathlib.Core.List.{Memᴰ}
use cnrlchain.Base.Map.{find, find-sweep-none, find-sweep-some}
use cnrlchain.Base.Word.{u8_mod}
use cnrlchain.Route.{RoutingTableEntry, get_life_time}
use cnrlchain.Table.{RoutingTable, age, purge, purge_entries, lookup_route}
use cnrlchain.IdCache.{is_duplicate}
use cnrlchain.Packet.{new_type, RreqHeader}
use cnrlchain.Routing.{
  RoutingProtocol, Action, send_rreq, send_reply, Env, broadcast_address, start_htimer,
}
use cnrlchain.Routing.Receive.{
  minimal_life_time, decide, rebroadcast, reverse_route, answer_request, accept_request,
  is_blacklisted, recv_rreq,
}

-- The request as a node passes it on.
abbrev pub one_hop_on : RreqHeader → RreqHeader
one_hop_on header = record header { hop_count = (header.hop_count + 1) % u8_mod }

module _ {κ} {I : Type κ} where
  pub rebroadcast-Memᴰ :
      (env : Env I) (header : RreqHeader) (h : Handle) (i : I) (sockets : List (Handle × I))
      → Memᴰ (h, i) sockets
      → Memᴰ
          (send_rreq h
            (new_type env.aodvtype_rreq)
            header
            (broadcast_address env.net i)
            env.aodv_port)
          (rebroadcast env header sockets)
  unfolding rebroadcast
  rebroadcast-Memᴰ env header h i sockets (Memᴰ.head {x = x} {xs = xs} same) = Memᴰ.head (
      ap
        (λ p.
          send_rreq p.0 (new_type env.aodvtype_rreq) header (broadcast_address env.net p.1)
            env.aodv_port)
        same)
  rebroadcast-Memᴰ env header h i sockets (Memᴰ.tail {x = x} {xs = xs} m) =
      Memᴰ.tail (rebroadcast-Memᴰ env header h i xs m)

  -- A purge at `now` keeps what has not expired, and makes nothing up.
  pub find-purge-none :
      (now : Time) (k : Address) (t : RoutingTable I)
      → find k t.entries ≡ none
      → find k (purge now t).entries ≡ none
  unfolding purge purge_entries
  find-purge-none now k t h = find-sweep-none k _ t.entries h

  pub find-purge_live :
      (now : Time) (k : Address) (t : RoutingTable I) (e : RoutingTableEntry I)
      → find k t.entries ≡ some e
      → now ≤ℤ e.life_time
      → find k (purge now t).entries ≡ some e
  unfolding purge purge_entries age get_life_time
  find-purge_live now k t e h live =
      find-sweep-some k _ t.entries e e h
        (ground (arith, before-sub e.life_time now, le→not-before e.life_time now))

module _ {ℓ κ} {H : Type ℓ} {I : Type κ} where
  -- No route to the destination is known: the request goes out on every socket.
  pub answer_forwards :
      (env : Env I) (src : Address) (header : RreqHeader) (o : Option (RoutingTableEntry I))
      (s : RoutingProtocol H I) {r : RoutingProtocol H I × List (Action I)}
      → answer_request env src header o s ≡ some r
      → env.is_my_own_address header.dst ≡ false
      → find header.dst (purge env.now s.routing_table).entries ≡ none
      → (r.1
          ≡ rebroadcast env header s.socket_addresses
            ++ (start_htimer env (record s { routing_table = purge env.now s.routing_table })).1)
        × (r.0.routing_table ≡ purge env.now s.routing_table)
  unfolding answer_request lookup_route decide start_htimer
  answer_forwards env src header o s {r} e other missing = ground arith

  pub answer_replies :
      (env : Env I) (src : Address) (header : RreqHeader) (o : Option (RoutingTableEntry I))
      (s : RoutingProtocol H I) {r : RoutingProtocol H I × List (Action I)}
      (back : RoutingTableEntry I)
      → answer_request env src header o s ≡ some r
      → env.is_my_own_address header.dst ≡ true
      → find header.origin (purge env.now s.routing_table).entries ≡ some back
      → (r.1 ≡ send_reply header (some back) ∷ [])
        × (r.0.routing_table ≡ purge env.now s.routing_table)
  unfolding answer_request lookup_route
  answer_replies env src header o s {r} back e mine found = ground arith

  pub accepted :
      (env : Env I) (receiver src : Address) (header : RreqHeader) (s : RoutingProtocol H I)
      {r : RoutingProtocol H I × List (Action I)}
      → recv_rreq env receiver src header s ≡ some r
      → is_blacklisted (find src (purge env.now s.routing_table).entries) ≡ false
      → (is_duplicate env.now header.origin header.request_id s.rreq_id_cache).1 ≡ false
      → (a : RoutingTable I × Option (RoutingTableEntry I)) × (reverse_route env receiver src
            (minimal_life_time s.settings.net_traversal_time s.settings.node_traversal_time
              (one_hop_on header).hop_count)
            (one_hop_on header)
            (purge env.now s.routing_table)
          ≡ some a)
        × (answer_request env src (one_hop_on header) a.1 (record s {
          routing_table = a.0;
          rreq_id_cache = (is_duplicate env.now header.origin header.request_id s.rreq_id_cache).0;
        })
            ≡ some r)
  unfolding recv_rreq accept_request lookup_route
  accepted env receiver src header s {r} e allowed fresh =
      let h = one_hop_on header in
      let t = purge env.now s.routing_table in
      let c = (is_duplicate env.now header.origin header.request_id s.rreq_id_cache).0 in
      let life =
        minimal_life_time s.settings.net_traversal_time s.settings.node_traversal_time
          h.hop_count in
      let taken : accept_request env receiver src header
            (record s { routing_table = t; rreq_id_cache = c })
          ≡ some r =
        ground arith in
      let (a, done, answered) =
        bind-some (reverse_route env receiver src life h t)
          (λ a. answer_request env src h a.1 (record s { routing_table = a.0; rreq_id_cache = c }))
          taken in
      (a, done, answered)
