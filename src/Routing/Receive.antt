-- ===== src/Routing/Receive.antt =====
-- RoutingProtocol::RecvRReq of model/offchain-routing.cc. A difference of two int32_t that does not
-- fit an int32_t is undefined: the handler is then `none`.
use cnrlchain.Base.{
  ℕ, ◌+◌, ◌*◌, ◌-◌, ◌^◌, ◌%◌, Bool, true, false, not, ◌&&◌, ◌||◌, Option, none, some, List, [], ◌∷◌,
  ◌++◌, Address, Handle, Time, ℤ, pos, negsuc, ◌-ℤ◌, before, max_time, times, ◌==◌, if◌then◌else◌,
  ◌>>=◌,
}
use cnrlchain.Base.Word.{u8_mod, signed32}
use cnrlchain.Route.{is_valid, RoutingTableEntry, new_route, set_life_time, get_life_time}
use cnrlchain.Table.{RoutingTable, lookup_route, add_route, update}
use cnrlchain.IdCache.{is_duplicate}
use cnrlchain.Packet.{
  new_type, RreqHeader, set_unknown_seqno, get_unknown_seqno, get_destination_only,
  get_gratious_rrep,
}
use cnrlchain.Routing.{
  RoutingProtocol, Action, send_rreq, send_reply, send_reply_by_intermediate, Env,
  broadcast_address, start_htimer,
}

-- int32_t (a) - int32_t (b)
unfoldable pub difference32 : ℕ → ℕ → Option ℤ
unfolding signed32
difference32 a b =
    let d = signed32 a -ℤ signed32 b in
    if before d (negsuc (2 ^ 31 - 1)) || before (pos (2 ^ 31 - 1)) d then none else some d

-- 2 * NetTraversalTime - 2 * hop * NodeTraversalTime
abbrev pub minimal_life_time : Time → Time → ℕ → Time
minimal_life_time net_traversal node_traversal hop =
    times 2 net_traversal -ℤ times (2 * hop) node_traversal

-- What the route to the destination makes of the request.
pub data Decision {κ} (I : Type κ) : Type κ where
  drop : Decision I
  reply : RoutingTableEntry I → Decision I
  forward : RreqHeader → Decision I

module _ {κ} {I : Type κ} where
  -- The sequence number that the entry for the originator gets from the request.
  unfoldable pub newer_seq_no : ℕ → RoutingTableEntry I → Option ℕ
  unfolding difference32
  newer_seq_no received e =
      if e.valid_seq_no
      then (difference32 received e.seq_no >>= λ d.
          some (if before (pos 0) d then received else e.seq_no))
      else some received

  -- The setters on the entry for the originator, in their order.
  unfoldable pub refresh :
      Env I → Address → Address → ℕ → ℕ → ℕ → Time → RoutingTableEntry I → RoutingTableEntry I
  unfolding set_life_time get_life_time
  refresh env receiver src seq hop amount life e =
      set_life_time env.now (max_time life (get_life_time env.now e)) (record e {
        seq_no = seq;
        valid_seq_no = true;
        route = record e.route { gateway = src; output_device = env.device_for receiver };
        iface = env.interface_for receiver;
        hops = hop;
        trans_amount = amount;
      })

  -- The reverse route is made or updated; the entry is the variable `toOrigin`, of which `none`
  -- says that only the default constructor has set it.
  unfoldable pub reverse_route :
      Env I
      → Address
      → Address
      → Time
      → RreqHeader
      → RoutingTable I
      → Option (RoutingTable I × Option (RoutingTableEntry I))
  unfolding lookup_route add_route update newer_seq_no refresh new_route
  reverse_route env receiver src life header t =
      let (t', found) = lookup_route env.now header.origin t in
      elim found [
        | none ↦
            let new =
              new_route env.net env.now 0 header.origin true header.origin_seq_no
                (env.interface_for receiver) header.hop_count header.transaction_amount src life in
            some ((add_route env.now new t').0, none)
        | some e ↦ newer_seq_no header.origin_seq_no e >>= λ seq.
            let e' =
              refresh env receiver src seq header.hop_count header.transaction_amount life e in
            some ((update e' t').0, some e')
      ]

  unfoldable pub decide : Address → RreqHeader → Option (RoutingTableEntry I) → Option (Decision I)
  unfolding difference32 set_unknown_seqno get_unknown_seqno get_destination_only
  decide src header none = some (forward header)
  decide src header (some e) =
      if e.route.gateway == src
      then some drop
      else ((if get_unknown_seqno header
            then some true
            else (difference32 e.seq_no header.dst_seq_no >>= λ d. some (not (before d (pos 0)))))
          >>= λ fresh. some (
              if fresh && e.valid_seq_no
              then (if not (get_destination_only header) && is_valid e.flag
                  then reply e
                  else forward (set_unknown_seqno false (record header { dst_seq_no = e.seq_no })))
              else forward header))

  -- The loop over the sockets.
  unfoldable pub rebroadcast : Env I → RreqHeader → List (Handle × I) → List (Action I)
  unfolding broadcast_address
  rebroadcast env header [] = []
  rebroadcast env header ((socket, iface) ∷ rest) =
      send_rreq socket (new_type env.aodvtype_rreq) header (broadcast_address env.net iface)
        env.aodv_port
      ∷ rebroadcast env header rest

  abbrev pub is_blacklisted : Option (RoutingTableEntry I) → Bool
  is_blacklisted none = false
  is_blacklisted (some e) = e.black_list_state

module _ {ℓ κ} {H : Type ℓ} {I : Type κ} where
  -- From the test for the own address on; `table` has the reverse route.
  unfoldable pub answer_request :
      Env I
      → Address
      → RreqHeader
      → Option (RoutingTableEntry I)
      → RoutingProtocol H I
      → Option (RoutingProtocol H I × List (Action I))
  unfolding lookup_route decide rebroadcast start_htimer get_gratious_rrep
  answer_request env src header to_origin s =
      if env.is_my_own_address header.dst
      then (let (t, found) = lookup_route env.now header.origin s.routing_table in
          some (
            record s { routing_table = t },
            send_reply header (elim found [ none ↦ to_origin | some e ↦ some e ]) ∷ [],
          ))
      else (let (t, to_dst) = lookup_route env.now header.dst s.routing_table in
          let s' = record s { routing_table = t } in
          decide src header to_dst >>= λ choice. some (elim choice [
            | drop ↦ (s', [])
            | reply e ↦
                let (t', found) = lookup_route env.now header.origin t in
                (
                  record s { routing_table = t' },
                  send_reply_by_intermediate e (elim found [ none ↦ to_origin | some o ↦ some o ])
                        (get_gratious_rrep header)
                      ∷ [],
                )
            | forward h ↦
                let (s'', timer) = start_htimer env s' in
                (s'', rebroadcast env h s.socket_addresses ++ timer)
          ]))

  -- The handler after the tests for a blacklisted sender and for a duplicate.
  unfoldable pub accept_request :
      Env I
      → Address
      → Address
      → RreqHeader
      → RoutingProtocol H I
      → Option (RoutingProtocol H I × List (Action I))
  unfolding reverse_route answer_request
  accept_request env receiver src received s =
      let header = record received { hop_count = (received.hop_count + 1) % u8_mod } in
      let life =
        minimal_life_time s.settings.net_traversal_time s.settings.node_traversal_time
          header.hop_count in
      reverse_route env receiver src life header s.routing_table >>= λ r.
      answer_request env src header r.1 (record s { routing_table = r.0 })

  unfoldable pub recv_rreq :
      Env I
      → Address
      → Address
      → RreqHeader
      → RoutingProtocol H I
      → Option (RoutingProtocol H I × List (Action I))
  unfolding lookup_route is_duplicate accept_request
  recv_rreq env receiver src header s =
      let (t, to_prev) = lookup_route env.now src s.routing_table in
      if is_blacklisted to_prev
      then some (record s { routing_table = t }, [])
      else (let (c, duplicate) =
            is_duplicate env.now header.origin header.request_id s.rreq_id_cache in
          let s' = record s { routing_table = t; rreq_id_cache = c } in
          if duplicate then some (s', []) else accept_request env receiver src header s')
