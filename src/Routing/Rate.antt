-- ===== src/Routing/Rate.antt =====
-- How many requests SendRequest of model/offchain-routing.cc sends, and how they are numbered.
use cnrlchain.Base.{
  ℕ, suc, ◌+◌, ◌%◌, ◌≡◌, ◌≤◌, ◌<◌, refl, inl, inr, true, false, List, [], ◌∷◌, ◌++◌, arith, Address,
  Handle, Bool-cases, ◌==◌, ap, ap₂, ◌∙◌, length, All,
}
use mathlib.Core.List.{append-nil}
use cnrlchain.Base.Word.{u16_mod, add32}
use cnrlchain.IdCache.{IdCache}
use cnrlchain.Packet.{rreq, new_type, RreqHeader}
use cnrlchain.Routing.{
  RoutingProtocol, Action, send_rreq, send_hello, schedule_request, schedule_rreq_retry,
  cancel_htimer, schedule_htimer, send_reply, send_reply_by_intermediate, neighbor_effect, Env,
  start_htimer, broadcast_address,
}
use cnrlchain.Routing.Letters.{
  Envelope, letters, letters-append, to_each, envelopes, letters-start_htimer,
}
use cnrlchain.Routing.Request.{search_route, broadcast_request, fill_header, send_request}

-- A header with the next sequence number and the next request id of the node, and no hops yet.
abbrev pub IsNumbered : ℕ → ℕ → RreqHeader → Type 0
IsNumbered seq id h =
    (h.origin_seq_no ≡ add32 seq 1) × (h.request_id ≡ add32 id 1) × (h.hop_count ≡ 0)

module _ {κ} {I : Type κ} where
  -- The headers of the requests among the actions.
  abbrev pub requests : List (Action I) → List RreqHeader
  requests [] = []
  requests (send_rreq socket type h to port ∷ rest) = h ∷ requests rest
  requests (send_hello type h to ∷ rest) = requests rest
  requests (schedule_request delay dst ∷ rest) = requests rest
  requests (schedule_rreq_retry dst ∷ rest) = requests rest
  requests (cancel_htimer ∷ rest) = requests rest
  requests (schedule_htimer delay ∷ rest) = requests rest
  requests (send_reply h o ∷ rest) = requests rest
  requests (send_reply_by_intermediate e o g ∷ rest) = requests rest
  requests (neighbor_effect e ∷ rest) = requests rest

  pub requests-append :
      (rest bs : List (Action I)) → requests (rest ++ bs) ≡ requests rest ++ requests bs
  requests-append [] bs = refl
  requests-append (send_rreq socket type h to port ∷ rest) bs = ap (◌∷◌ h) (requests-append rest bs)
  requests-append (send_hello type h to ∷ rest) bs = requests-append rest bs
  requests-append (schedule_request delay dst ∷ rest) bs = requests-append rest bs
  requests-append (schedule_rreq_retry dst ∷ rest) bs = requests-append rest bs
  requests-append (cancel_htimer ∷ rest) bs = requests-append rest bs
  requests-append (schedule_htimer delay ∷ rest) bs = requests-append rest bs
  requests-append (send_reply h o ∷ rest) bs = requests-append rest bs
  requests-append (send_reply_by_intermediate e o g ∷ rest) bs = requests-append rest bs
  requests-append (neighbor_effect e ∷ rest) bs = requests-append rest bs

  abbrev from_each : Env I → RreqHeader → List (Handle × I) → List RreqHeader
  from_each env header [] = []
  from_each env header ((socket, iface) ∷ rest) =
      record header { origin = env.net.local iface } ∷ from_each env header rest

  requests-broadcast :
      (env : Env I) (header : RreqHeader) (sockets : List (Handle × I)) (c : IdCache)
      → requests (broadcast_request env header sockets c).1 ≡ from_each env header sockets
  unfolding broadcast_request
  requests-broadcast env header [] c = refl
  requests-broadcast env header ((socket, iface) ∷ rest) c =
      ap (◌∷◌ (record header { origin = env.net.local iface }))
        (requests-broadcast env header rest _)

  envelopes-broadcast :
      (env : Env I) (header : RreqHeader) (sockets : List (Handle × I)) (c : IdCache)
      → envelopes (letters (broadcast_request env header sockets c).1) ≡ to_each env sockets
  unfolding broadcast_request broadcast_address
  envelopes-broadcast env header [] c = refl
  envelopes-broadcast env header ((socket, iface) ∷ rest) c =
      let first : Envelope = record {
        socket = socket;
        type = new_type rreq;
        origin = env.net.local iface;
        to = broadcast_address env.net iface;
        port = 1200;
      } in
      ap (◌∷◌ first) (envelopes-broadcast env header rest _)

  from_each-IsNumbered :
      (env : Env I) (seq id : ℕ) (header : RreqHeader) (sockets : List (Handle × I))
      → IsNumbered seq id header
      → All (IsNumbered seq id) (from_each env header sockets)
        × (length (from_each env header sockets) ≡ length sockets)
  from_each-IsNumbered env seq id header [] h = (tt, refl)
  from_each-IsNumbered env seq id header ((socket, iface) ∷ rest) h =
      let (all, count) = from_each-IsNumbered env seq id header rest h in ((h, all), ap suc count)

module _ {ℓ κ} {H : Type ℓ} {I : Type κ} where
  requests-timer : (env : Env I) (s : RoutingProtocol H I) → requests (start_htimer env s).1 ≡ []
  unfolding start_htimer
  requests-timer env s = ground arith

  start_htimer-counters :
      (env : Env I) (s : RoutingProtocol H I)
      → ((start_htimer env s).0.rreq_count ≡ s.rreq_count)
        × ((start_htimer env s).0.seq_no ≡ s.seq_no)
        × ((start_htimer env s).0.request_id ≡ s.request_id)
  unfolding start_htimer
  start_htimer-counters env s = ground arith

  -- SendRequest below the limit.
  send_request_free :
      (env : Env I) (dst : Address) (s : RoutingProtocol H I)
      → (s.rreq_count == s.settings.rreq_rate_limit) ≡ false
      → let r = send_request env dst s in
        let header = fill_header s (search_route env dst s.routing_table).1 in
        (requests r.1 ≡ from_each env header s.socket_addresses)
        × (envelopes (letters r.1) ≡ to_each env s.socket_addresses)
        × (r.0.seq_no ≡ header.origin_seq_no)
        × (r.0.request_id ≡ header.request_id)
        × (r.0.rreq_count ≡ (s.rreq_count + 1) % u16_mod)
  unfolding send_request
  send_request_free env dst s free =
      let (table, known) = search_route env dst s.routing_table in
      let header = fill_header s known in
      let (cache, sent) = broadcast_request env header s.socket_addresses s.rreq_id_cache in
      let s' = record s {
        rreq_count = (s.rreq_count + 1) % u16_mod;
        routing_table = table;
        seq_no = header.origin_seq_no;
        request_id = header.request_id;
        rreq_id_cache = cache;
      } in
      let (count, seq, id) = start_htimer-counters env s' in
      rw (free, send_request)
        (
          requests-append sent (schedule_rreq_retry dst ∷ (start_htimer env s').1)
              ∙ ap₂ (λ xs ys. xs ++ ys)
                  (requests-broadcast env header s.socket_addresses s.rreq_id_cache)
                  (requests-timer env s')
              ∙ append-nil (from_each env header s.socket_addresses),
          ap envelopes (
                letters-append sent (schedule_rreq_retry dst ∷ (start_htimer env s').1)
                ∙ ap (λ l. letters sent ++ l) (letters-start_htimer env s')
                ∙ append-nil (letters sent))
              ∙ envelopes-broadcast env header s.socket_addresses s.rreq_id_cache,
          seq,
          id,
          count,
        )

  send_request_full :
      (env : Env I) (dst : Address) (s : RoutingProtocol H I)
      → (s.rreq_count == s.settings.rreq_rate_limit) ≡ true
      → let r = send_request env dst s in (requests r.1 ≡ []) × (r.0 ≡ s)
  unfolding send_request
  send_request_full env dst s full = rw (full, send_request) (refl, refl)

  fill_header-IsNumbered :
      (s : RoutingProtocol H I) (header : RreqHeader)
      → IsNumbered s.seq_no s.request_id (fill_header s header)
  unfolding fill_header
  fill_header-IsNumbered s header = (refl, refl, refl)

  -- SendRequest at the limit sends no request and changes nothing; below it, it sends one request
  -- on each socket and no other, in the order of the sockets: as a request and to the port of the
  -- protocol, from the local address of the socket's interface, to all hosts or to the broadcast
  -- address of the interface by its mask. All of them have no hops and the next sequence number and
  -- the next request id, which the node takes over; the node counts one. Where the limit fits a
  -- uint16_t the count never passes it.
  pub send_request_lem :
      (env : Env I) (dst : Address) (s : RoutingProtocol H I)
      → s.rreq_count ≤ s.settings.rreq_rate_limit
      → s.settings.rreq_rate_limit < u16_mod
      → let r = send_request env dst s in
        (r.0.rreq_count ≤ s.settings.rreq_rate_limit)
        × (s.rreq_count ≡ s.settings.rreq_rate_limit → (requests r.1 ≡ []) × (r.0 ≡ s))
        × (s.rreq_count < s.settings.rreq_rate_limit
            → (envelopes (letters r.1) ≡ to_each env s.socket_addresses)
              × All (IsNumbered s.seq_no s.request_id) (requests r.1)
              × (r.0.seq_no ≡ add32 s.seq_no 1)
              × (r.0.request_id ≡ add32 s.request_id 1)
              × (r.0.rreq_count ≡ s.rreq_count + 1))
  send_request_lem env dst s le fits =
      elim (Bool-cases (s.rreq_count == s.settings.rreq_rate_limit)) [
        | inl full ↦
            let (none_sent, same) = send_request_full env dst s full in
            (rw same le, λ _. (none_sent, same), λ lt. absurd (ground arith))
        | inr free ↦
            let header = fill_header s (search_route env dst s.routing_table).1 in
            let (sent, where_to, seq, id, count) = send_request_free env dst s free in
            let numbered = fill_header-IsNumbered s (search_route env dst s.routing_table).1 in
            let (all, _) =
              from_each-IsNumbered env s.seq_no s.request_id header s.socket_addresses numbered in
            (
              ground (arith, count),
              λ full. absurd (ground arith),
              λ lt.
                  (where_to, rw sent all, seq ∙ numbered.0, id ∙ numbered.1, ground (arith, count)),
            )
      ]
