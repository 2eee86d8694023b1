-- ===== src/Routing/Once.antt =====
-- How many copies of a request one call of RecvRReq of model/offchain-routing.cc sends.
use cnrlchain.Base.{
  ℕ, ◌+◌, ◌%◌, ◌⊎◌, ◌≡◌, refl, ◌≤◌, inl, inr, Bool, true, false, ◌&&◌, Option, some, List, [], ◌∷◌,
  ◌++◌, arith, Address, Handle, Time, ◌+ℤ◌, ◌≤ℤ◌, length, Bool-cases, +ℤ_parts, bind-some, ◌==◌,
  if◌then◌else◌,
}
use mathlib.Core.Path.{subst₂}
use cnrlchain.Base.Map.{find}
use cnrlchain.Base.Word.{u8_mod}
use cnrlchain.Route.{RoutingTableEntry}
use cnrlchain.Table.{purge, lookup_route}
use cnrlchain.IdCache.{is_duplicate}
use cnrlchain.IdCache.Freshness.{IsLive, accepted-IsLive, IsLive-earlier}
use cnrlchain.IdCache.Others.{lifetime-is_duplicate}
use cnrlchain.Packet.{RreqHeader}
use cnrlchain.Routing.{RoutingProtocol, Action, Env, start_htimer}
use cnrlchain.Routing.Receive.{
  minimal_life_time, reverse_route, answer_request, accept_request, rebroadcast, is_blacklisted,
  recv_rreq,
}
use cnrlchain.Routing.Relay.{SameRequest, timer, recv_rreq-Covers}
use cnrlchain.Routing.Rate.{requests, requests-append}
use cnrlchain.Routing.Own.{asked_keeps}
use cnrlchain.Routing.Duplicates.{recv_rreq-cache, recv_rreq_ignored}

-- The requests of one originator with one id among those that are sent.
abbrev pub copies : Address → ℕ → List RreqHeader → ℕ
copies a i [] = 0
copies a i (h ∷ hs) = (if h.origin == a && h.request_id == i then 1 else 0) + copies a i hs

pub same_origin :
    (h : RreqHeader) (a : Address) (i : ℕ)
    → (h.origin == a && h.request_id == i) ≡ true
    → h.origin ≡ a
same_origin h a i e = ground arith

pub same_id :
    (h : RreqHeader) (a : Address) (i : ℕ)
    → (h.origin == a && h.request_id == i) ≡ true
    → h.request_id ≡ i
same_id h a i e = ground arith

pub copies-append :
    (a : Address) (i : ℕ) (gs hs : List RreqHeader)
    → copies a i (gs ++ hs) ≡ copies a i gs + copies a i hs
copies-append a i [] hs = omega arith
copies-append a i (g ∷ gs) hs = omega (arith, copies-append a i gs hs)

requests-timer {κ} :
    (I : Type κ) (starts : Bool) (delay : Time) → requests (timer {I = I} starts delay) ≡ []
requests-timer I true delay = refl
requests-timer I false delay = refl

module _ {κ} {I : Type κ} where
  -- A request on each socket is at most one copy for each, and none if it is another request.
  abbrev pub IsFew : Address → ℕ → RreqHeader → ℕ → List (Action I) → Type 0
  IsFew a i header bound sent =
      (copies a i (requests sent) ≤ bound)
      × ((header.origin == a && header.request_id == i) ≡ false → copies a i (requests sent) ≡ 0)

  rebroadcast-IsFew :
      (env : Env I) (a : Address) (i : ℕ) (header h : RreqHeader) (sockets : List (Handle × I))
      → SameRequest header h
      → IsFew a i header (length sockets) (rebroadcast env h sockets)
  unfolding rebroadcast
  rebroadcast-IsFew env a i header h [] same = (omega arith, λ e. refl)
  rebroadcast-IsFew env a i header h ((socket, iface) ∷ rest) same =
      ground (arith, rebroadcast-IsFew env a i header h rest same)

  forward-IsFew :
      (env : Env I) (a : Address) (i : ℕ) (header h : RreqHeader) (sockets : List (Handle × I))
      (starts : Bool) (delay : Time)
      → SameRequest header h
      → IsFew a i header (length sockets) (rebroadcast env h sockets ++ timer starts delay)
  forward-IsFew env a i header h sockets starts delay same =
      rw
        (
          requests-append (rebroadcast env h sockets) (timer starts delay),
          requests-timer I starts delay,
        )
        (rw (copies-append a i (requests (rebroadcast env h sockets)) [])
          (ground (arith, rebroadcast-IsFew env a i header h sockets same)))

module _ {ℓ κ} {H : Type ℓ} {I : Type κ} where
  pub recv_rreq-IsFew :
      (env : Env I) (receiver src a : Address) (i : ℕ) (header : RreqHeader)
      (s : RoutingProtocol H I) {r : RoutingProtocol H I × List (Action I)}
      → recv_rreq env receiver src header s ≡ some r
      → IsFew a i header (length s.socket_addresses) r.1
  recv_rreq-IsFew env receiver src a i header s {r} e =
      recv_rreq-Covers (IsFew a i header (length s.socket_addresses)) env receiver src header s
        {r = r}
        (record {
          nothing = (omega arith, λ e. refl);
          replies = λ h o. (omega arith, λ e. refl);
          replies_by_intermediate = λ x o g. (omega arith, λ e. refl);
          forwards = λ h starts delay same.
              forward-IsFew env a i (record header { hop_count = (header.hop_count + 1) % u8_mod })
                h s.socket_addresses starts delay same;
        })
        e

  answer_request-sockets :
      (env : Env I) (src : Address) (header : RreqHeader) (o : Option (RoutingTableEntry I))
      (s : RoutingProtocol H I) {r : RoutingProtocol H I × List (Action I)}
      → answer_request env src header o s ≡ some r
      → r.0.socket_addresses ≡ s.socket_addresses
  unfolding answer_request start_htimer
  answer_request-sockets env src header o s {r} e = ground arith

  accept_request-sockets :
      (env : Env I) (receiver src : Address) (header : RreqHeader) (s : RoutingProtocol H I)
      {r : RoutingProtocol H I × List (Action I)}
      → accept_request env receiver src header s ≡ some r
      → r.0.socket_addresses ≡ s.socket_addresses
  unfolding accept_request
  accept_request-sockets env receiver src header s {r} e =
      let h = record header { hop_count = (header.hop_count + 1) % u8_mod } in
      let life =
        minimal_life_time s.settings.net_traversal_time s.settings.node_traversal_time
          h.hop_count in
      let (a, _, answered) =
        bind-some (reverse_route env receiver src life h s.routing_table)
          (λ r. answer_request env src h r.1 (record s { routing_table = r.0 })) e in
      answer_request-sockets env src h a.1 (record s { routing_table = a.0 }) {r = r} answered

  pub recv_rreq-sockets :
      (env : Env I) (receiver src : Address) (header : RreqHeader) (s : RoutingProtocol H I)
      {r : RoutingProtocol H I × List (Action I)}
      → recv_rreq env receiver src header s ≡ some r
      → r.0.socket_addresses ≡ s.socket_addresses
  unfolding recv_rreq
  recv_rreq-sockets env receiver src header s {r} e =
      let asked = is_duplicate env.now header.origin header.request_id s.rreq_id_cache in
      ground (
        arith,
        accept_request-sockets env receiver src header
            (record s {
              routing_table = (lookup_route env.now src s.routing_table).0;
              rreq_id_cache = asked.0;
            })
            {r = r},
      )

  -- A request from a blacklisted sender has no effect on the id cache and sends nothing.
  recv_rreq_blacklisted :
      (env : Env I) (receiver src : Address) (header : RreqHeader) (s : RoutingProtocol H I)
      {r : RoutingProtocol H I × List (Action I)}
      → recv_rreq env receiver src header s ≡ some r
      → is_blacklisted (find src (purge env.now s.routing_table).entries) ≡ true
      → (r.0.rreq_id_cache ≡ s.rreq_id_cache) × (r.1 ≡ [])
  unfolding recv_rreq lookup_route
  recv_rreq_blacklisted env receiver src header s {r} e black = ground arith

  -- Each record of the id cache is kept until it expires, and the lifetime stays.
  pub recv_rreq-IsLive :
      (env : Env I) (receiver src : Address) (header : RreqHeader) (s : RoutingProtocol H I)
      (end : Time) (a : Address) (i : ℕ) {r : RoutingProtocol H I × List (Action I)}
      → recv_rreq env receiver src header s ≡ some r
      → env.now ≤ℤ end
      → (IsLive end a i s.rreq_id_cache.ids → IsLive end a i r.0.rreq_id_cache.ids)
        × (r.0.rreq_id_cache.lifetime ≡ s.rreq_id_cache.lifetime)
  recv_rreq-IsLive env receiver src header s end a i {r} e le =
      elim (Bool-cases (is_blacklisted (find src (purge env.now s.routing_table).entries))) [
        | inl black ↦
            rw (recv_rreq_blacklisted env receiver src header s {r = r} e black).0 (λ h. h, refl)
        | inr allowed ↦ rw (recv_rreq-cache env receiver src header s {r = r} e allowed) (
          λ h. asked_keeps env.now end header.origin header.request_id a i s.rreq_id_cache le h,
          lifetime-is_duplicate env.now header.origin header.request_id s.rreq_id_cache,
        )
      ]

  pub recv_rreq_old :
      (env : Env I) (receiver src : Address) (header : RreqHeader) (s : RoutingProtocol H I)
      {r : RoutingProtocol H I × List (Action I)}
      → recv_rreq env receiver src header s ≡ some r
      → (is_duplicate env.now header.origin header.request_id s.rreq_id_cache).1 ≡ true
      → r.1 ≡ []
  recv_rreq_old env receiver src header s {r} e old =
      let (s', ignored, _) = recv_rreq_ignored env receiver src header s old in cc

  recv_rreq_new :
      (env : Env I) (receiver src : Address) (header : RreqHeader) (s : RoutingProtocol H I)
      (first : Time) {r : RoutingProtocol H I × List (Action I)}
      → recv_rreq env receiver src header s ≡ some r
      → first ≤ℤ env.now
      → is_blacklisted (find src (purge env.now s.routing_table).entries) ≡ false
      → (is_duplicate env.now header.origin header.request_id s.rreq_id_cache).1 ≡ false
      → IsLive
          (s.rreq_id_cache.lifetime +ℤ first)
          header.origin
          header.request_id
          r.0.rreq_id_cache.ids
  recv_rreq_new env receiver src header s first {r} e le allowed new =
      let life = s.rreq_id_cache.lifetime in
      let sooner : life +ℤ first ≤ℤ life +ℤ env.now =
        omega (arith, +ℤ_parts life first, +ℤ_parts life env.now) in
      rw (recv_rreq-cache env receiver src header s {r = r} e allowed) (
        IsLive-earlier (life +ℤ first) (life +ℤ env.now) header.origin header.request_id _ sooner
          (accepted-IsLive env.now header.origin header.request_id s.rreq_id_cache new))

  -- One request that comes in: no copy goes out, or at most one for each socket and the id is
  -- recorded.
  pub once_or_recorded :
      (env : Env I) (receiver src : Address) (header : RreqHeader) (s : RoutingProtocol H I)
      (first : Time) (a : Address) (i : ℕ) {r : RoutingProtocol H I × List (Action I)}
      → recv_rreq env receiver src header s ≡ some r
      → first ≤ℤ env.now
      → (copies a i (requests r.1) ≡ 0)
        ⊎ ((copies a i (requests r.1) ≤ length s.socket_addresses)
            × IsLive (s.rreq_id_cache.lifetime +ℤ first) a i r.0.rreq_id_cache.ids)
  once_or_recorded env receiver src header s first a i {r} e le =
      let (few, other) = recv_rreq-IsFew env receiver src a i header s {r = r} e in
      elim (Bool-cases (header.origin == a && header.request_id == i)) [
        | inr differs ↦ inl (other differs)
        | inl same ↦
            elim (Bool-cases (is_blacklisted (find src (purge env.now s.routing_table).entries))) [
              | inl black ↦
                  inl (rw (recv_rreq_blacklisted env receiver src header s {r = r} e black).1 refl)
              | inr allowed ↦
                  elim (Bool-cases
                    (is_duplicate env.now header.origin header.request_id s.rreq_id_cache).1) [
                      | inl old ↦
                          inl (rw (recv_rreq_old env receiver src header s {r = r} e old) refl)
                      | inr new ↦ inr (
                        few,
                        subst₂
                            (λ b j.
                              IsLive (s.rreq_id_cache.lifetime +ℤ first) b j r.0.rreq_id_cache.ids)
                            (same_origin header a i same) (same_id header a i same)
                            (recv_rreq_new env receiver src header s first {r = r} e le allowed
                              new),
                      )
                    ]
            ]
      ]
