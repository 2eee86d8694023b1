-- ===== src/Routing/Path/Discovery.antt =====
-- A request from node to node to its destination, by RecvRReq of model/offchain-routing.cc.
use cnrlchain.Base.{
  ℕ, zero, suc, ◌^◌, ◌<◌, ◌≡◌, true, false, none, some, List, [], ◌∷◌, Handle, ◌==◌, length,
}
use mathlib.Core.List.{Memᴰ}
use mathlib.Core.Path.{subst₂}
use cnrlchain.Base.Map.{find}
use cnrlchain.Route.{RoutingTableEntry}
use cnrlchain.Table.{purge}
use cnrlchain.Packet.{rreq, new_type, RreqHeader}
use cnrlchain.Routing.{
  RoutingProtocol, Action, send_rreq, send_reply, broadcast_address, offchain_port,
}
use cnrlchain.Routing.Receive.{recv_rreq}
use cnrlchain.Routing.Accepted.{one_hop_on}
use cnrlchain.Routing.Path.{Hop, IsOpen, LedBack, forwards_lem, replies_lem}

-- The request after some hops.
abbrev pub hops_on : ℕ → RreqHeader → RreqHeader
hops_on zero header = header
hops_on (suc k) header = hops_on k (one_hop_on header)

module _ {ℓ κ} {H : Type ℓ} {I : Type κ} where
  -- Every node on the way is open to the request as it reaches it, passes on requests as requests
  -- and to the port of the protocol, is not the destination and knows no route to it.
  abbrev pub AllOpen : List (Hop H I) → RreqHeader → Type κ
  AllOpen [] header = Unit
  AllOpen (x ∷ xs) header =
      IsOpen x header
      × (x.env.aodvtype_rreq ≡ rreq)
      × (x.env.aodv_port ≡ offchain_port)
      × (x.env.is_my_own_address header.dst ≡ false)
      × (find header.dst (purge x.env.now x.node.routing_table).entries ≡ none)
      × AllOpen xs (one_hop_on header)

  -- Every node on the way returns, sends the request on each of its sockets as the next node gets
  -- it, and has a route back; the last one replies by its route back.
  abbrev pub Arrives : List (Hop H I) → Hop H I → RreqHeader → Type (ℓ ⊔ κ)
  Arrives [] last header =
      (r : RoutingProtocol H I × List (Action I)) × (e : RoutingTableEntry I) × (recv_rreq last.env
          last.receiver last.src header last.node
        ≡ some r)
      × (r.1 ≡ send_reply (one_hop_on header) (some e) ∷ [])
      × LedBack last header r.0 e
  Arrives (x ∷ xs) last header =
      ((r : RoutingProtocol H I × List (Action I)) × (e : RoutingTableEntry I) × (recv_rreq x.env
            x.receiver x.src header x.node
          ≡ some r)
        × ((h : Handle) (i : I)
            → Memᴰ (h, i) x.node.socket_addresses
            → Memᴰ
                (send_rreq h (new_type rreq) (one_hop_on header) (broadcast_address x.env.net i)
                  offchain_port)
                r.1)
        × LedBack x header r.0 e)
      × Arrives xs last (one_hop_on header)

  -- A request reaches its destination along every way that is open: let its sequence numbers and
  -- those in the tables of the nodes on the way be below 2 ^ 31, and its originator be another
  -- address than its destination; let each table be well-formed with a bad-link lifetime that is
  -- not negative, no sender be blacklisted where it is heard, the id be new to each node, and the
  -- span that a node keeps the route back for not be negative at that hop count; let no node on the
  -- way be the destination or know a route to it, and the last node be the destination. Then every
  -- handler returns; each node on the way sends the request on each of its sockets, changed in its
  -- hop count only, as the next node gets it; the last one answers by one reply; and each node has
  -- then a route to the originator by the node that it got the request from, with the hop count of
  -- the request. AODVTYPE_RREQ and AODV_PORT, which the source does not declare, are on the way
  -- OFFCHAIN_TYPE_RREQ and OFFCHAIN_PORT.
  pub request-Arrives :
      (xs : List (Hop H I)) (last : Hop H I) (header : RreqHeader)
      → header.origin_seq_no < 2 ^ 31
      → header.dst_seq_no < 2 ^ 31
      → (header.origin == header.dst) ≡ false
      → AllOpen xs header
      → IsOpen last (hops_on (length xs) header)
      → last.env.is_my_own_address header.dst ≡ true
      → Arrives xs last header
  request-Arrives [] last header small_origin small_dst apart ways ready mine =
      replies_lem last header ready small_origin small_dst mine
  request-Arrives (x ∷ xs) last header small_origin small_dst apart
        (here, type, port, other, unknown, ways) ready mine =
      (
        subst₂
            (λ t p.
              (r : RoutingProtocol H I × List (Action I)) × (e : RoutingTableEntry I) × (recv_rreq
                  x.env x.receiver x.src header x.node
                ≡ some r)
              × ((h : Handle) (i : I)
                  → Memᴰ (h, i) x.node.socket_addresses
                  → Memᴰ
                      (send_rreq h (new_type t) (one_hop_on header) (broadcast_address x.env.net i)
                        p)
                      r.1)
              × LedBack x header r.0 e)
            type port (forwards_lem x header here small_origin small_dst apart other unknown),
        request-Arrives xs last (one_hop_on header) small_origin small_dst apart ways ready mine,
      )
