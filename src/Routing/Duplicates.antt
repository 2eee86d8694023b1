-- ===== src/Routing/Duplicates.antt =====
-- Which requests RecvRReq of model/offchain-routing.cc ignores.
use cnrlchain.Base.{
  ◌+◌, ◌%◌, ◌≡◌, refl, inl, inr, true, false, Option, some, List, [], arith, Address, Time, ◌+ℤ◌,
  ◌≤ℤ◌, All, Bool-cases, bind-some,
}
use cnrlchain.Base.Map.{find}
use cnrlchain.Base.Word.{u8_mod}
use cnrlchain.Route.{RoutingTableEntry}
use cnrlchain.Table.{purge, lookup_route}
use cnrlchain.IdCache.{Call, is_duplicate, run}
use cnrlchain.IdCache.Freshness.{is_duplicate_within}
use cnrlchain.Packet.{RreqHeader}
use cnrlchain.Routing.{RoutingProtocol, Action, Env, start_htimer}
use cnrlchain.Routing.Receive.{
  minimal_life_time, reverse_route, answer_request, accept_request, is_blacklisted, recv_rreq,
}

module _ {ℓ κ} {H : Type ℓ} {I : Type κ} where
  pub start_htimer-cache :
      (env : Env I) (s : RoutingProtocol H I)
      → (start_htimer env s).0.rreq_id_cache ≡ s.rreq_id_cache
  unfolding start_htimer
  start_htimer-cache env s = ground arith

  answer_request-cache :
      (env : Env I) (src : Address) (header : RreqHeader) (o : Option (RoutingTableEntry I))
      (s : RoutingProtocol H I) {r : RoutingProtocol H I × List (Action I)}
      → answer_request env src header o s ≡ some r
      → r.0.rreq_id_cache ≡ s.rreq_id_cache
  unfolding answer_request
  answer_request-cache env src header o s {r} e =
      let t = s.routing_table in
      let s' = record s { routing_table = (lookup_route env.now header.dst t).0 } in
      ground (arith, start_htimer-cache env s')

  accept_request-cache :
      (env : Env I) (receiver src : Address) (header : RreqHeader) (s : RoutingProtocol H I)
      {r : RoutingProtocol H I × List (Action I)}
      → accept_request env receiver src header s ≡ some r
      → r.0.rreq_id_cache ≡ s.rreq_id_cache
  unfolding accept_request
  accept_request-cache env receiver src header s {r} e =
      let h = record header { hop_count = (header.hop_count + 1) % u8_mod } in
      let life =
        minimal_life_time s.settings.net_traversal_time s.settings.node_traversal_time
          h.hop_count in
      let (a, _, answered) =
        bind-some (reverse_route env receiver src life h s.routing_table)
          (λ r. answer_request env src h r.1 (record s { routing_table = r.0 })) e in
      answer_request-cache env src h a.1 (record s { routing_table = a.0 }) {r = r} answered

  -- A request whose sender is not blacklisted and whose id is new leaves the id in the cache.
  pub recv_rreq-cache :
      (env : Env I) (receiver src : Address) (header : RreqHeader) (s : RoutingProtocol H I)
      {r : RoutingProtocol H I × List (Action I)}
      → recv_rreq env receiver src header s ≡ some r
      → is_blacklisted (find src (purge env.now s.routing_table).entries) ≡ false
      → r.0.rreq_id_cache ≡ (is_duplicate env.now header.origin header.request_id s.rreq_id_cache).0
  unfolding recv_rreq lookup_route
  recv_rreq-cache env receiver src header s {r} e allowed =
      let asked = is_duplicate env.now header.origin header.request_id s.rreq_id_cache in
      ground (
        arith,
        accept_request-cache env receiver src header
            (record s {
              routing_table = (lookup_route env.now src s.routing_table).0;
              rreq_id_cache = asked.0;
            })
            {r = r},
      )

  pub recv_rreq_ignored :
      (env : Env I) (receiver src : Address) (header : RreqHeader) (s : RoutingProtocol H I)
      → (is_duplicate env.now header.origin header.request_id s.rreq_id_cache).1 ≡ true
      → (s' : RoutingProtocol H I) × (recv_rreq env receiver src header s ≡ some (s', []))
        × (s'.routing_table ≡ purge env.now s.routing_table)
  unfolding recv_rreq lookup_route
  recv_rreq_ignored env receiver src header s old =
      let t = (lookup_route env.now src s.routing_table).0 in
      let c = (is_duplicate env.now header.origin header.request_id s.rreq_id_cache).0 in
      elim (Bool-cases (is_blacklisted (find src (purge env.now s.routing_table).entries))) [
        | inl e ↦ (record s { routing_table = t }, ground arith, refl)
        | inr e ↦ (record s { routing_table = t; rreq_id_cache = c }, ground arith, refl)
      ]

  -- The first copy of a request that is not ignored for its sender or as a duplicate makes every
  -- later copy ignored: whatever the node does with its id cache in between, for the lifetime of
  -- the id cache after the first copy a request with the same originator and id, from any sender,
  -- is answered by nothing and does nothing to the routing table but purge it.
  pub recv_rreq-twice :
      (env later : Env I) (receiver src receiver' src' : Address) (header again : RreqHeader)
      (s s1 s2 : RoutingProtocol H I) (sent : List (Action I)) (calls : List (Time × Call))
      → recv_rreq env receiver src header s ≡ some (s1, sent)
      → is_blacklisted (find src (purge env.now s.routing_table).entries) ≡ false
      → (is_duplicate env.now header.origin header.request_id s.rreq_id_cache).1 ≡ false
      → s2.rreq_id_cache ≡ run calls s1.rreq_id_cache
      → All (λ call. call.0 ≤ℤ s.rreq_id_cache.lifetime +ℤ env.now) calls
      → later.now ≤ℤ s.rreq_id_cache.lifetime +ℤ env.now
      → again.origin ≡ header.origin
      → again.request_id ≡ header.request_id
      → (s3 : RoutingProtocol H I) × (recv_rreq later receiver' src' again s2 ≡ some (s3, []))
        × (s3.routing_table ≡ purge later.now s2.routing_table)
  recv_rreq-twice env later receiver src receiver' src' header again s s1 s2 sent calls e allowed
        fresh between early le same_origin same_id =
      recv_rreq_ignored later receiver' src' again s2 (
        rw (between, recv_rreq-cache env receiver src header s e allowed, same_origin, same_id)
          (is_duplicate_within env.now later.now calls header.origin header.request_id
            s.rreq_id_cache fresh early le))
