-- ===== src/Routing/Path/Origin.antt =====
-- A route discovery of model/offchain-routing.cc: SendRequest at the originator and RecvRReq at all
-- nodes on the way.
use cnrlchain.Base.{
  ◌+◌, ◌^◌, ◌<◌, ◌≡◌, inl, inr, true, false, List, arith, Address, Handle, ◌==◌, length, ap,
  Option-cases,
}
use mathlib.Core.List.{Memᴰ}
use mathlib.Core.List.Memᴰ
use cnrlchain.Base.Map.{find, Every-find}
use cnrlchain.Base.Word.{add32}
use cnrlchain.Table.{RoutingTable, purge, lookup_route}
use cnrlchain.IdCache.{IdCache}
use cnrlchain.Packet.{
  rreq, new_type, RreqHeader, set_unknown_seqno, set_gratious_rrep, set_destination_only,
}
use cnrlchain.Routing.{RoutingProtocol, Env, send_rreq, broadcast_address, offchain_port}
use cnrlchain.Routing.Request.{search_route, broadcast_request, fill_header, send_request}
use cnrlchain.Routing.Total.{HasSmall, IsSmall, purge-HasSmall}
use cnrlchain.Routing.Path.{Hop, IsOpen}
use cnrlchain.Routing.Path.Discovery.{hops_on, AllOpen, Arrives, request-Arrives}

module _ {κ} {I : Type κ} where
  broadcast_request-Memᴰ :
      (env : Env I) (header : RreqHeader) (h : Handle) (i : I) (sockets : List (Handle × I))
      (c : IdCache)
      → Memᴰ (h, i) sockets
      → Memᴰ
          (send_rreq h
            (new_type rreq)
            (record header { origin = env.net.local i })
            (broadcast_address env.net i)
            offchain_port)
          (broadcast_request env header sockets c).1
  unfolding broadcast_request
  broadcast_request-Memᴰ env header h i sockets c (Memᴰ.head {x = x} {xs = xs} same) = Memᴰ.head (
      ap
        (λ p.
          send_rreq p.0 (new_type rreq) (record header { origin = env.net.local p.1 })
            (broadcast_address env.net p.1) offchain_port)
        same)
  broadcast_request-Memᴰ env header h i sockets c (Memᴰ.tail {x = x} {xs = xs} m) =
      Memᴰ.tail (broadcast_request-Memᴰ env header h i xs _ m)

  -- What SearchRoute puts into the header.
  search_route-small :
      (env : Env I) (dst : Address) (t : RoutingTable I)
      → HasSmall t
      → ((search_route env dst t).1.dst ≡ dst) × ((search_route env dst t).1.dst_seq_no < 2 ^ 31)
  unfolding search_route lookup_route set_unknown_seqno
  search_route-small env dst t h = elim (Option-cases (find dst (purge env.now t).entries)) [
    | inl e ↦ ground arith
    | inr (rt, e) ↦
        let low =
          Every-find IsSmall dst rt (purge env.now t).entries e (purge-HasSmall env.now t h) in
        ground arith
  ]

module _ {ℓ κ} {H : Type ℓ} {I : Type κ} where
  -- The request that SendRequest sends from an interface.
  abbrev pub request_from : Env I → Address → RoutingProtocol H I → I → RreqHeader
  request_from env dst s i = record (fill_header s (search_route env dst s.routing_table).1) {
    origin = env.net.local i;
  }

  fill_header-dst :
      (s : RoutingProtocol H I) (h : RreqHeader)
      → ((fill_header s h).dst ≡ h.dst)
        × ((fill_header s h).dst_seq_no ≡ h.dst_seq_no)
        × ((fill_header s h).origin_seq_no ≡ add32 s.seq_no 1)
  unfolding fill_header set_gratious_rrep set_destination_only
  fill_header-dst s h = ground arith

  send_request-Memᴰ :
      (env : Env I) (dst : Address) (s : RoutingProtocol H I) (h : Handle) (i : I)
      → (s.rreq_count == s.settings.rreq_rate_limit) ≡ false
      → Memᴰ (h, i) s.socket_addresses
      → Memᴰ
          (send_rreq h
            (new_type rreq)
            (request_from env dst s i)
            (broadcast_address env.net i)
            offchain_port)
          (send_request env dst s).1
  unfolding send_request
  send_request-Memᴰ env dst s h i free m =
      rw (free, send_request)
        (Memᴰ.append_left _ (
          broadcast_request-Memᴰ env (fill_header s (search_route env dst s.routing_table).1) h i
            s.socket_addresses s.rreq_id_cache m))

  -- A route discovery finds its destination along every way that is open: let the originator be
  -- below its rate limit, its sequence number and those in its table and in the tables on the way
  -- below 2 ^ 31, and the address of one of its interfaces not be the destination's. Let each node
  -- on the way be no destination, know no route to it, and take the request as it reaches it: a
  -- well-formed table with a bad-link lifetime that is not negative, a sender that is not
  -- blacklisted, a new id, and a span for the route back that is not negative; let the last node be
  -- the destination and take the request too. Then SendRequest sends the request on that interface,
  -- every RecvRReq returns, each node on the way sends the request on each of its sockets, changed
  -- in its hop count only, as the next node gets it; the last one answers by one reply; and each
  -- node has then a route to the originator by the node that it got the request from, with the hop
  -- count of the request. AODVTYPE_RREQ and AODV_PORT, which the source does not declare, are on
  -- the way OFFCHAIN_TYPE_RREQ and OFFCHAIN_PORT.
  pub send_request-Arrives :
      (env : Env I) (dst : Address) (s : RoutingProtocol H I) (h : Handle) (i : I)
      (way : List (Hop H I)) (last : Hop H I)
      → (s.rreq_count == s.settings.rreq_rate_limit) ≡ false
      → s.seq_no + 1 < 2 ^ 31
      → HasSmall s.routing_table
      → Memᴰ (h, i) s.socket_addresses
      → (env.net.local i == dst) ≡ false
      → AllOpen way (request_from env dst s i)
      → IsOpen last (hops_on (length way) (request_from env dst s i))
      → last.env.is_my_own_address dst ≡ true
      → Memᴰ
          (send_rreq h
            (new_type rreq)
            (request_from env dst s i)
            (broadcast_address env.net i)
            offchain_port)
          (send_request env dst s).1
        × Arrives way last (request_from env dst s i)
  unfolding add32
  send_request-Arrives env dst s h i way last free small low m apart ways ready mine =
      let known = (search_route env dst s.routing_table).1 in
      let (same, low_dst) = search_route-small env dst s.routing_table low in
      let (kept, kept_seq, seq) = fill_header-dst s known in
      (
        send_request-Memᴰ env dst s h i free m,
        request-Arrives way last (request_from env dst s i) (ground arith) (ground arith)
            (ground arith) ways ready (ground arith),
      )
