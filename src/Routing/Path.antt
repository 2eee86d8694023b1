-- ===== src/Routing/Path.antt =====
-- A request on its way by RecvRReq of model/offchain-routing.cc, from node to node: one node.
pub mod Discovery
pub mod Origin
use cnrlchain.Base.{
  ℕ, ◌+◌, ◌%◌, ◌^◌, ◌<◌, ◌≡◌, refl, inl, inr, true, false, Option, none, some, List, [], ◌∷◌, ◌++◌,
  arith, Address, Handle, Time, pos, ◌≤ℤ◌, bind-some, ◌==◌, sym, ◌∙◌, ap, All, ◌>>=◌, before-sub,
  +ℤ_parts, le→not-before,
}
use mathlib.Core.List.{Memᴰ}
use mathlib.Core.List.Memᴰ
use cnrlchain.Base.Map.{find, find-sweep-none, find-sweep-some}
use cnrlchain.Base.Word.{u8_mod}
use cnrlchain.Route.{RoutingTableEntry, get_life_time}
use cnrlchain.Table.{RoutingTable, age, purge, purge_entries, lookup_route}
use cnrlchain.Table.Expiry.{purge-purge}
use cnrlchain.Table.Invariant.{IsWellFormed, purge-IsWellFormed}
use cnrlchain.Table.Lookup.{find-purge}
use cnrlchain.IdCache.{is_duplicate}
use cnrlchain.Packet.{rreq, new_type, RreqHeader}
use cnrlchain.Routing.{
  RoutingProtocol, Action, send_rreq, send_reply, Env, broadcast_address, start_htimer,
}
use cnrlchain.Routing.Receive.{
  minimal_life_time, decide, rebroadcast, reverse_route, answer_request, accept_request,
  is_blacklisted, recv_rreq,
}
use cnrlchain.Routing.Reverse.{LeadsBack, reverse_route_lem}
use cnrlchain.Routing.Total.{HasSmall, recv_rreq_total}
use cnrlchain.Routing.Accepted.{
  one_hop_on, rebroadcast-Memᴰ, find-purge-none, find-purge_live, answer_forwards, answer_replies,
  accepted,
}

-- A node with the request that it gets, and from whom.
pub record Hop {ℓ κ} (H : Type ℓ) (I : Type κ) : Type (ℓ ⊔ κ) where
  pub env : Env I
  pub receiver : Address
  pub src : Address
  pub node : RoutingProtocol H I

module _ {ℓ κ} {H : Type ℓ} {I : Type κ} where
  -- The node takes the request that reaches it as `header`, and keeps the route back long enough.
  pub record IsOpen (x : Hop H I) (header : RreqHeader) : Type κ where
    pub small : HasSmall x.node.routing_table
    pub well_formed : IsWellFormed x.node.routing_table
    pub bad_link : pos 0 ≤ℤ x.node.routing_table.bad_link_lifetime
    pub allowed : is_blacklisted (find x.src (purge x.env.now x.node.routing_table).entries) ≡ false
    pub fresh :
        (is_duplicate x.env.now header.origin header.request_id x.node.rreq_id_cache).1 ≡ false
    pub patient :
        pos 0
        ≤ℤ minimal_life_time x.node.settings.net_traversal_time x.node.settings.node_traversal_time
            (one_hop_on header).hop_count

  -- The entry for the originator leads back to the sender.
  abbrev pub LedBack : Hop H I → RreqHeader → RoutingProtocol H I → RoutingTableEntry I → Type κ
  LedBack x header s e =
      (find header.origin s.routing_table.entries ≡ some e)
      × (e.route.gateway ≡ x.src)
      × (e.hops ≡ (one_hop_on header).hop_count)

  -- The node has no route to the destination.
  pub forwards_lem :
      (x : Hop H I) (header : RreqHeader)
      → IsOpen x header
      → header.origin_seq_no < 2 ^ 31
      → header.dst_seq_no < 2 ^ 31
      → (header.origin == header.dst) ≡ false
      → x.env.is_my_own_address header.dst ≡ false
      → find header.dst (purge x.env.now x.node.routing_table).entries ≡ none
      → (r : RoutingProtocol H I × List (Action I)) × (e : RoutingTableEntry I) × (recv_rreq x.env
            x.receiver x.src header x.node
          ≡ some r)
        × ((h : Handle) (i : I)
            → Memᴰ (h, i) x.node.socket_addresses
            → Memᴰ
                (send_rreq h
                  (new_type x.env.aodvtype_rreq)
                  (one_hop_on header)
                  (broadcast_address x.env.net i)
                  x.env.aodv_port)
                r.1)
        × LedBack x header r.0 e
  unfolding purge
  forwards_lem x header ready small_origin small_dst apart other missing =
      let now = x.env.now in
      let t = x.node.routing_table in
      let (r, done) =
        recv_rreq_total x.env x.receiver x.src header x.node small_origin small_dst ready.small in
      let (a, reversed, answered) =
        accepted x.env x.receiver x.src header x.node {r = r} done ready.allowed ready.fresh in
      let ((e, found, back), others) =
        reverse_route_lem x.env x.receiver x.src _ (one_hop_on header) (purge now t) {r = a}
          (purge-IsWellFormed now t ready.well_formed) ready.bad_link reversed in
      let unknown : find header.dst a.0.entries ≡ none =
        others header.dst apart
        ∙ ap (λ t. find header.dst t.entries) (purge-purge now t ready.bad_link)
        ∙ missing in
      let (sent, table) =
        answer_forwards x.env x.src (one_hop_on header) a.1 _ {r = r} answered other
          (find-purge-none now header.dst a.0 unknown) in
      (
        r,
        e,
        done,
        λ h i m. rw sent (
            Memᴰ.append_left _
              (rebroadcast-Memᴰ x.env (one_hop_on header) h i x.node.socket_addresses m)),
        (
          rw table (
              find-purge_live now header.origin a.0 e found (
                omega (
                  arith,
                  back.lives,
                  ready.patient,
                  +ℤ_parts
                      (minimal_life_time x.node.settings.net_traversal_time
                        x.node.settings.node_traversal_time (one_hop_on header).hop_count)
                      now,
                ))),
          back.next_hop,
          back.same_hops,
        ),
      )

  -- The node is the destination.
  pub replies_lem :
      (x : Hop H I) (header : RreqHeader)
      → IsOpen x header
      → header.origin_seq_no < 2 ^ 31
      → header.dst_seq_no < 2 ^ 31
      → x.env.is_my_own_address header.dst ≡ true
      → (r : RoutingProtocol H I × List (Action I)) × (e : RoutingTableEntry I) × (recv_rreq x.env
            x.receiver x.src header x.node
          ≡ some r)
        × (r.1 ≡ send_reply (one_hop_on header) (some e) ∷ [])
        × LedBack x header r.0 e
  unfolding purge
  replies_lem x header ready small_origin small_dst mine =
      let now = x.env.now in
      let t = x.node.routing_table in
      let (r, done) =
        recv_rreq_total x.env x.receiver x.src header x.node small_origin small_dst ready.small in
      let (a, reversed, answered) =
        accepted x.env x.receiver x.src header x.node {r = r} done ready.allowed ready.fresh in
      let ((e, found, back), _) =
        reverse_route_lem x.env x.receiver x.src _ (one_hop_on header) (purge now t) {r = a}
          (purge-IsWellFormed now t ready.well_formed) ready.bad_link reversed in
      let live = find-purge_live now header.origin a.0 e found (
        omega (
          arith,
          back.lives,
          ready.patient,
          +ℤ_parts
              (minimal_life_time x.node.settings.net_traversal_time
                x.node.settings.node_traversal_time (one_hop_on header).hop_count)
              now,
        )) in
      let (sent, table) =
        answer_replies x.env x.src (one_hop_on header) a.1 _ {r = r} e answered mine live in
      (r, e, done, sent, (rw table live, back.next_hop, back.same_hops))
