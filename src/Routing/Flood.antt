-- ===== src/Routing/Flood.antt =====
-- How often a node passes on one request by RecvRReq of model/offchain-routing.cc, whatever it
-- receives in between.
use cnrlchain.Base.{
  ℕ, ◌+◌, ◌≡◌, refl, ◌≤◌, inl, inr, ◌&&◌, Option, some, ◌>>=◌, List, [], ◌∷◌, ◌++◌, arith, Address,
  Handle, Bool, true, false, Time, ◌+ℤ◌, ◌≤ℤ◌, All, Bool-cases, bind-some, ◌==◌, sym, ap,
}
use cnrlchain.IdCache.Freshness.{IsLive, is_duplicate_iff, IsLive-earlier}
use cnrlchain.Packet.{RreqHeader}
use cnrlchain.Routing.{
  RoutingProtocol, Action, send_rreq, send_hello, schedule_request, schedule_rreq_retry,
  cancel_htimer, schedule_htimer, send_reply, send_reply_by_intermediate, neighbor_effect, Env,
}
use cnrlchain.Routing.Letters.{letters, letters-append, times_listed, copies_on, copies_on-append}
use cnrlchain.Routing.Relay.{timer, recv_rreq-Covers}
use cnrlchain.Routing.Receive.{rebroadcast, recv_rreq}
use cnrlchain.Routing.Rate.{requests, requests-append}
use cnrlchain.Routing.Once.{
  copies, copies-append, same_origin, same_id, recv_rreq-IsFew, recv_rreq-sockets, recv_rreq-IsLive,
  recv_rreq_old, once_or_recorded,
}

-- A request that comes in.
pub record Reception {κ} (I : Type κ) : Type κ where
  pub env : Env I
  pub receiver : Address
  pub src : Address
  pub header : RreqHeader

pub copies_of_parts {κ} :
    {I : Type κ} (a : Address) (i : ℕ) (r sent more : List (Action I))
    → r ≡ sent ++ more
    → copies a i (requests r) ≡ copies a i (requests sent) + copies a i (requests more)
copies_of_parts a i r sent more e =
    rw (e, requests-append sent more) (copies-append a i (requests sent) (requests more))

copies_on_parts {κ} :
    {I : Type κ} (h : Handle) (a : Address) (i : ℕ) (r sent more : List (Action I))
    → r ≡ sent ++ more
    → copies_on h a i (letters r) ≡ copies_on h a i (letters sent) + copies_on h a i (letters more)
copies_on_parts h a i r sent more e =
    rw (e, letters-append sent more) (copies_on-append h a i (letters sent) (letters more))

module _ {κ} {I : Type κ} where
  -- A socket gets no more copies than no copies at all.
  copies_on-le :
      (h : Handle) (a : Address) (i : ℕ) (r : List (Action I))
      → copies_on h a i (letters r) ≤ copies a i (requests r)
  copies_on-le h a i [] = omega arith
  copies_on-le h a i (send_rreq socket type header to port ∷ rest) =
      ground (arith, copies_on-le h a i rest)
  copies_on-le h a i (send_hello type header to ∷ rest) = copies_on-le h a i rest
  copies_on-le h a i (schedule_request delay dst ∷ rest) = copies_on-le h a i rest
  copies_on-le h a i (schedule_rreq_retry dst ∷ rest) = copies_on-le h a i rest
  copies_on-le h a i (cancel_htimer ∷ rest) = copies_on-le h a i rest
  copies_on-le h a i (schedule_htimer delay ∷ rest) = copies_on-le h a i rest
  copies_on-le h a i (send_reply header o ∷ rest) = copies_on-le h a i rest
  copies_on-le h a i (send_reply_by_intermediate e o g ∷ rest) = copies_on-le h a i rest
  copies_on-le h a i (neighbor_effect e ∷ rest) = copies_on-le h a i rest

  copies_on-timer :
      (h : Handle) (a : Address) (i : ℕ) (r : List (Action I)) (starts : Bool) (delay : Time)
      → copies_on h a i (letters (r ++ timer starts delay)) ≡ copies_on h a i (letters r)
  copies_on-timer h a i r true delay =
      omega (arith, copies_on_parts h a i (r ++ timer true delay) r (timer true delay) refl)
  copies_on-timer h a i r false delay =
      omega (arith, copies_on_parts h a i (r ++ timer false delay) r (timer false delay) refl)

  copies_on-rebroadcast :
      (env : Env I) (h : Handle) (a : Address) (i : ℕ) (header : RreqHeader)
      (sockets : List (Handle × I))
      → copies_on h a i (letters (rebroadcast env header sockets)) ≤ times_listed h sockets
  unfolding rebroadcast
  copies_on-rebroadcast env h a i header [] = omega arith
  copies_on-rebroadcast env h a i header ((socket, iface) ∷ rest) =
      ground (arith, copies_on-rebroadcast env h a i header rest)

module _ {ℓ κ} {H : Type ℓ} {I : Type κ} where
  unfoldable pub receive :
      List (Reception I) → RoutingProtocol H I → Option (RoutingProtocol H I × List (Action I))
  unfolding recv_rreq
  receive [] s = some (s, [])
  receive (x ∷ xs) s = recv_rreq x.env x.receiver x.src x.header s >>= λ (s', sent).
      receive xs s' >>= λ (s'', more). some (s'', sent ++ more)

  receive-cons :
      (x : Reception I) (xs : List (Reception I)) (s : RoutingProtocol H I)
      {r : RoutingProtocol H I × List (Action I)}
      → receive (x ∷ xs) s ≡ some r
      → (p : RoutingProtocol H I × List (Action I)) × (q : RoutingProtocol H I × List (Action I))
        × (recv_rreq x.env x.receiver x.src x.header s ≡ some p)
        × (receive xs p.0 ≡ some q)
        × (r.1 ≡ p.1 ++ q.1)
  unfolding receive
  receive-cons x xs s {r} e =
      let (p, here, rest) =
        bind-some (recv_rreq x.env x.receiver x.src x.header s)
          (λ p. receive xs p.0 >>= λ q. some (q.0, p.1 ++ q.1)) e in
      let (q, there, done) = bind-some (receive xs p.0) (λ q. some (q.0, p.1 ++ q.1)) rest in
      (p, q, here, there, cc)

  -- A node that has the id recorded passes on no copy of the request.
  pub recv_rreq_recorded :
      (x : Reception I) (s : RoutingProtocol H I) (end : Time) (a : Address) (i : ℕ)
      {r : RoutingProtocol H I × List (Action I)}
      → recv_rreq x.env x.receiver x.src x.header s ≡ some r
      → x.env.now ≤ℤ end
      → IsLive end a i s.rreq_id_cache.ids
      → copies a i (requests r.1) ≡ 0
  recv_rreq_recorded x s end a i {r} e early live =
      elim (Bool-cases (x.header.origin == a && x.header.request_id == i)) [
        | inr differs ↦ (recv_rreq-IsFew x.env x.receiver x.src a i x.header s {r = r} e).1 differs
        | inl same ↦
            let old =
              (is_duplicate_iff x.env.now a i s.rreq_id_cache).1
                (IsLive-earlier x.env.now end a i s.rreq_id_cache.ids early live) in
            rw
              (recv_rreq_old x.env x.receiver x.src x.header s {r = r} e
                (rw (same_origin x.header a i same, same_id x.header a i same) old))
              refl
      ]

  -- The id is recorded: no copy goes out.
  recorded-copies :
      (xs : List (Reception I)) (s : RoutingProtocol H I) (end : Time) (a : Address) (i : ℕ)
      {r : RoutingProtocol H I × List (Action I)}
      → receive xs s ≡ some r
      → All (λ x. x.env.now ≤ℤ end) xs
      → IsLive end a i s.rreq_id_cache.ids
      → copies a i (requests r.1) ≡ 0
  unfolding receive
  recorded-copies [] s end a i {r} e early live = let same : [] ≡ r.1 = cc in rw (sym same) refl
  recorded-copies (x ∷ xs) s end a i {r} e early live =
      let (p, q, here, there, sent) = receive-cons x xs s {r = r} e in
      let kept =
        (recv_rreq-IsLive x.env x.receiver x.src x.header s end a i {r = p} here early.0).0 live in
      let rest = recorded-copies xs p.0 end a i {r = q} there early.1 kept in
      let first = recv_rreq_recorded x s end a i {r = p} here early.0 live in
      omega (arith, copies_of_parts a i r.1 p.1 q.1 sent)

  -- One request that comes in: no socket gets more copies than it is listed.
  recv_rreq-copies_on :
      (x : Reception I) (s : RoutingProtocol H I) (h : Handle) (a : Address) (i : ℕ)
      {r : RoutingProtocol H I × List (Action I)}
      → recv_rreq x.env x.receiver x.src x.header s ≡ some r
      → copies_on h a i (letters r.1) ≤ times_listed h s.socket_addresses
  recv_rreq-copies_on x s h a i {r} e =
      recv_rreq-Covers (λ sent. copies_on h a i (letters sent) ≤ times_listed h s.socket_addresses)
        x.env x.receiver x.src x.header s {r = r}
        (record {
          nothing = omega arith;
          replies = λ header o. omega arith;
          replies_by_intermediate = λ e o g. omega arith;
          forwards = λ header starts delay same. omega (
            arith,
            copies_on-timer h a i (rebroadcast x.env header s.socket_addresses) starts delay,
            copies_on-rebroadcast x.env h a i header s.socket_addresses,
          );
        })
        e

  -- A node passes on a request at most once on each socket: whatever requests it receives, in
  -- whatever order and from whatever neighbours, if all handlers return and no two of them are
  -- further apart in time than the lifetime of the id cache, then for every originator, id and
  -- socket it gives that socket no more copies than m_socketAddresses lists it, which is once or
  -- not at all in a std::map, counted over all that the node receives.
  pub receive-copies :
      (xs : List (Reception I)) (s : RoutingProtocol H I) (first : Time) (h : Handle) (a : Address)
      (i : ℕ) {r : RoutingProtocol H I × List (Action I)}
      → receive xs s ≡ some r
      → All (λ x. first ≤ℤ x.env.now) xs
      → All (λ x. x.env.now ≤ℤ s.rreq_id_cache.lifetime +ℤ first) xs
      → copies_on h a i (letters r.1) ≤ times_listed h s.socket_addresses
  unfolding receive
  receive-copies [] s first h a i {r} e late early =
      let same : [] ≡ r.1 = cc in rw (sym same) (omega arith)
  receive-copies (x ∷ xs) s first h a i {r} e late early =
      let (p, q, here, there, sent) = receive-cons x xs s {r = r} e in
      let parts = copies_on_parts h a i r.1 p.1 q.1 sent in
      let end = s.rreq_id_cache.lifetime +ℤ first in
      let sockets = recv_rreq-sockets x.env x.receiver x.src x.header s {r = p} here in
      let (_, life) =
        recv_rreq-IsLive x.env x.receiver x.src x.header s end a i {r = p} here early.0 in
      elim (once_or_recorded x.env x.receiver x.src x.header s first a i {r = p} here late.0) [
        | inl nothing ↦
            let rest = receive-copies xs p.0 first h a i {r = q} there late.1 (rw life early.1) in
            omega (arith, parts, ap (times_listed h) sockets, copies_on-le h a i p.1, rest)
        | inr (_, live) ↦
            let none_more = recorded-copies xs p.0 end a i {r = q} there early.1 live in
            omega (arith, parts, copies_on-le h a i q.1, recv_rreq-copies_on x s h a i {r = p} here)
      ]
