-- ===== src/Routing/Request.antt =====
-- RoutingProtocol::SendRequest of model/offchain-routing.cc. The entry that it makes leaves out the
-- transaction amount of the constructor: it is the default, 0.
use cnrlchain.Base.{
  ◌+◌, ◌%◌, true, false, none, some, List, [], ◌∷◌, ◌++◌, Address, Handle, pos, ◌+ℤ◌, any_address,
  ◌==◌, if◌then◌else◌,
}
use cnrlchain.Base.Word.{u16_mod, add32}
use cnrlchain.Route.{in_search, new_route}
use cnrlchain.Table.{RoutingTable, lookup_route, add_route, update}
use cnrlchain.IdCache.{IdCache, is_duplicate}
use cnrlchain.Packet.{
  rreq, new_type, RreqHeader, empty_rreq, set_unknown_seqno, set_gratious_rrep,
  set_destination_only,
}
use cnrlchain.Routing.{
  RoutingProtocol, Action, send_rreq, schedule_request, schedule_rreq_retry, Env, broadcast_address,
  offchain_port, start_htimer,
}

module _ {κ} {I : Type κ} where
  -- The route to the destination is marked IN_SEARCH, and the header gets what is known of it.
  unfoldable pub search_route : Env I → Address → RoutingTable I → RoutingTable I × RreqHeader
  unfolding lookup_route update add_route new_route set_unknown_seqno
  search_route env dst t =
      let header = record empty_rreq { dst = dst } in
      let (t', found) = lookup_route env.now dst t in
      elim found [
        | some rt ↦
            let h = record header { hop_count = rt.hops } in
            (
              (update (record rt { flag = in_search }) t').0,
              if rt.valid_seq_no
                  then record h { dst_seq_no = rt.seq_no }
                  else set_unknown_seqno true h,
            )
        | none ↦
            let rt =
              new_route env.net env.now 0 dst false 0 env.net.unset 0 0 any_address (pos 0) in
            (
              (add_route env.now (record rt { flag = in_search }) t').0,
              set_unknown_seqno true header,
            )
      ]

  -- The loop over the sockets: the id is recorded under each local address before it is sent.
  unfoldable pub broadcast_request :
      Env I → RreqHeader → List (Handle × I) → IdCache → IdCache × List (Action I)
  unfolding is_duplicate broadcast_address
  broadcast_request env header [] c = (c, [])
  broadcast_request env header ((socket, iface) ∷ rest) c =
      let origin = env.net.local iface in
      let c' = (is_duplicate env.now origin header.request_id c).0 in
      let (c'', sent) = broadcast_request env header rest c' in
      (
        c'',
        send_rreq socket (new_type rreq) (record header { origin = origin })
              (broadcast_address env.net iface) offchain_port
            ∷ sent,
      )

-- `m_seqNo++` and `m_requestId++`, and the fields of the header that do not depend on a socket.
unfoldable pub fill_header {ℓ κ} :
    {H : Type ℓ} {I : Type κ} → RoutingProtocol H I → RreqHeader → RreqHeader
unfolding set_gratious_rrep set_destination_only add32
fill_header s header =
    let h1 = if s.settings.gratuitous_reply then set_gratious_rrep true header else header in
    let h2 = if s.settings.destination_only then set_destination_only true h1 else h1 in
    record h2 { origin_seq_no = add32 s.seq_no 1; request_id = add32 s.request_id 1; hop_count = 0 }

unfoldable pub send_request {ℓ κ} :
    {H : Type ℓ} {I : Type κ}
    → Env I
    → Address
    → RoutingProtocol H I
    → RoutingProtocol H I × List (Action I)
unfolding search_route fill_header broadcast_request start_htimer
send_request env dst s =
    if s.rreq_count == s.settings.rreq_rate_limit
    then (s, schedule_request (env.delay_left +ℤ env.request_delay) dst ∷ [])
    else (let (table, known) = search_route env dst s.routing_table in
        let header = fill_header s known in
        let (cache, sent) = broadcast_request env header s.socket_addresses s.rreq_id_cache in
        let (s', timer) = start_htimer env (record s {
          rreq_count = (s.rreq_count + 1) % u16_mod;
          routing_table = table;
          seq_no = header.origin_seq_no;
          request_id = header.request_id;
          rreq_id_cache = cache;
        }) in
        (s', sent ++ schedule_rreq_retry dst ∷ timer))
