-- ===== src/Routing/Own.antt =====
-- The requests of the node itself that come back to RecvRReq of model/offchain-routing.cc.
use cnrlchain.Base.{
  ℕ, ◌≡◌, ◌≢◌, inl, inr, true, false, some, List, [], ◌∷◌, arith, Address, Handle, Time, pos, ◌+ℤ◌,
  ◌≤ℤ◌, +ℤ_parts, All, exists, Bool-cases, ◌==◌, ==_iff, sym, subst,
}
use cnrlchain.IdCache.{IdCache, Call, asks, is_duplicate, run, step}
use cnrlchain.IdCache.Freshness.{
  IsLive, is_duplicate_iff, step-IsLive, accepted-IsLive, run-IsLive, IsLive-earlier,
}
use cnrlchain.IdCache.Others.{is_duplicate-other, lifetime-is_duplicate}
use cnrlchain.Base.Word.{add32}
use cnrlchain.Table.{purge}
use cnrlchain.Packet.{RreqHeader}
use cnrlchain.Routing.{RoutingProtocol, Env, start_htimer}
use cnrlchain.Routing.Request.{search_route, broadcast_request, fill_header, send_request}
use cnrlchain.Routing.Receive.{recv_rreq}
use cnrlchain.Routing.Duplicates.{recv_rreq_ignored, start_htimer-cache}

pub asked_keeps :
    (now end : Time) (b : Address) (j : ℕ) (a : Address) (i : ℕ) (c : IdCache)
    → now ≤ℤ end
    → IsLive end a i c.ids
    → IsLive end a i (is_duplicate now b j c).0.ids
unfolding step
asked_keeps now end b j a i c le h = step-IsLive now end (asks b j) a i c le h

module _ {κ} {I : Type κ} where
  -- The address is the local address of a socket.
  abbrev pub IsLocal : Env I → Address → List (Handle × I) → Type 0
  IsLocal env a sockets = exists (λ s. env.net.local s.1 == a) sockets ≡ true

  broadcast-keeps :
      (env : Env I) (header : RreqHeader) (sockets : List (Handle × I)) (end : Time) (a : Address)
      (i : ℕ) (c : IdCache)
      → env.now ≤ℤ end
      → IsLive end a i c.ids
      → IsLive end a i (broadcast_request env header sockets c).0.ids
  unfolding broadcast_request
  broadcast-keeps env header [] end a i c le h = h
  broadcast-keeps env header ((socket, iface) ∷ rest) end a i c le h =
      broadcast-keeps env header rest end a i _ le
        (asked_keeps env.now end (env.net.local iface) header.request_id a i c le h)

  broadcast-records :
      (env : Env I) (header : RreqHeader) (sockets : List (Handle × I)) (a : Address) (c : IdCache)
      → env.now ≤ℤ c.lifetime +ℤ env.now
      → IsLocal env a sockets
      → (is_duplicate env.now a header.request_id c).1 ≡ false
      → IsLive
          (c.lifetime +ℤ env.now)
          a
          header.request_id
          (broadcast_request env header sockets c).0.ids
  unfolding broadcast_request exists
  broadcast-records env header [] a c life own fresh = absurd (cc)
  broadcast-records env header ((socket, iface) ∷ rest) a c life own fresh =
      let b = env.net.local iface in
      let i = header.request_id in
      let c' = (is_duplicate env.now b i c).0 in
      let same = lifetime-is_duplicate env.now b i c in
      elim (Bool-cases (b == a)) [
        | inl here ↦ broadcast-keeps env header rest (c.lifetime +ℤ env.now) a i c' life (
            subst (λ x. IsLive (c.lifetime +ℤ env.now) a i (is_duplicate env.now x i c).0.ids)
              (sym ((==_iff b a).0 here)) (accepted-IsLive env.now a i c fresh))
        | inr there ↦
            let apart : b ≢ a = (λ e. absurd (ground (arith, (==_iff b a).1 e))) in
            subst (λ t. IsLive (t +ℤ env.now) a i (broadcast_request env header rest c').0.ids) same
              (broadcast-records env header rest a c'
                (subst (λ t. env.now ≤ℤ t +ℤ env.now) (sym same) life) (ground arith)
                (is_duplicate-other env.now a b i i c apart fresh))
      ]

module _ {ℓ κ} {H : Type ℓ} {I : Type κ} where
  start_htimer-request_id :
      (env : Env I) (s : RoutingProtocol H I) → (start_htimer env s).0.request_id ≡ s.request_id
  unfolding start_htimer
  start_htimer-request_id env s = ground arith

  send_request-cache :
      (env : Env I) (dst : Address) (s : RoutingProtocol H I)
      → (s.rreq_count == s.settings.rreq_rate_limit) ≡ false
      → (send_request env dst s).0.rreq_id_cache
        ≡ (broadcast_request env
            (fill_header s (search_route env dst s.routing_table).1)
            s.socket_addresses
            s.rreq_id_cache).0
  unfolding send_request
  send_request-cache env dst s below = rw below (start_htimer-cache env _)

  send_request-request_id :
      (env : Env I) (dst : Address) (s : RoutingProtocol H I)
      → (s.rreq_count == s.settings.rreq_rate_limit) ≡ false
      → (send_request env dst s).0.request_id ≡ add32 s.request_id 1
  unfolding send_request fill_header
  send_request-request_id env dst s below = rw below (start_htimer-request_id env _)

  send_request-records :
      (env : Env I) (dst a : Address) (s : RoutingProtocol H I)
      → (s.rreq_count == s.settings.rreq_rate_limit) ≡ false
      → pos 0 ≤ℤ s.rreq_id_cache.lifetime
      → IsLocal env a s.socket_addresses
      → (is_duplicate env.now a (add32 s.request_id 1) s.rreq_id_cache).1 ≡ false
      → IsLive
          (s.rreq_id_cache.lifetime +ℤ env.now)
          a
          (send_request env dst s).0.request_id
          (send_request env dst s).0.rreq_id_cache.ids
  unfolding fill_header
  send_request-records env dst a s below life own fresh =
      let header = fill_header s (search_route env dst s.routing_table).1 in
      let later : env.now ≤ℤ s.rreq_id_cache.lifetime +ℤ env.now =
        omega (arith, +ℤ_parts s.rreq_id_cache.lifetime env.now) in
      rw (send_request-cache env dst s below, send_request-request_id env dst s below)
        (broadcast-records env header s.socket_addresses a s.rreq_id_cache later own fresh)

  -- A request that the node has sent itself is ignored when it comes back: if the request was below
  -- the rate limit and its new id was not in the id cache under a local address `a` of one of the
  -- sockets, then, whatever the node does with its id cache in between, for the lifetime of the id
  -- cache a request with originator `a` and that id, from any sender, is answered by nothing and
  -- does nothing to the routing table but purge it.
  pub recv_rreq-send_request :
      (env later : Env I) (dst a receiver src : Address) (header : RreqHeader)
      (s s2 : RoutingProtocol H I) (calls : List (Time × Call))
      → (s.rreq_count == s.settings.rreq_rate_limit) ≡ false
      → pos 0 ≤ℤ s.rreq_id_cache.lifetime
      → IsLocal env a s.socket_addresses
      → (is_duplicate env.now a (add32 s.request_id 1) s.rreq_id_cache).1 ≡ false
      → s2.rreq_id_cache ≡ run calls (send_request env dst s).0.rreq_id_cache
      → All (λ call. call.0 ≤ℤ s.rreq_id_cache.lifetime +ℤ env.now) calls
      → later.now ≤ℤ s.rreq_id_cache.lifetime +ℤ env.now
      → header.origin ≡ a
      → header.request_id ≡ (send_request env dst s).0.request_id
      → (s3 : RoutingProtocol H I) × (recv_rreq later receiver src header s2 ≡ some (s3, []))
        × (s3.routing_table ≡ purge later.now s2.routing_table)
  recv_rreq-send_request env later dst a receiver src header s s2 calls below life own fresh between
        early le same_origin same_id =
      let end = s.rreq_id_cache.lifetime +ℤ env.now in
      recv_rreq_ignored later receiver src header s2 (
        rw (between, same_origin, same_id)
          ((is_duplicate_iff later.now a _ _).1 (
            IsLive-earlier later.now end a _ _ le (
              run-IsLive calls end a _ _ early
                (send_request-records env dst a s below life own fresh)))))
