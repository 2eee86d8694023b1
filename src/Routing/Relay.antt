-- ===== src/Routing/Relay.antt =====
-- What RecvRReq of model/offchain-routing.cc leaves of a request that it passes on.
use cnrlchain.Base.{
  ◌+◌, ◌%◌, ◌≡◌, refl, inl, inr, not, ◌&&◌, Option, none, some, List, [], ◌∷◌, ◌++◌, arith, Address,
  Handle, Time, ◌-ℤ◌, Bool, true, false, if◌then◌else◌, All, All-append, Bool-cases, Option-cases,
  bind-some, subst,
}
use cnrlchain.Base.Map.{find}
use cnrlchain.Base.Word.{u8_mod}
use cnrlchain.Route.{RoutingTableEntry}
use cnrlchain.Table.{lookup_route, purge}
use cnrlchain.IdCache.{is_duplicate}
use cnrlchain.Packet.{RreqHeader, get_gratious_rrep, set_unknown_seqno}
use cnrlchain.Routing.{
  RoutingProtocol, Action, send_rreq, send_hello, schedule_request, schedule_rreq_retry,
  cancel_htimer, schedule_htimer, send_reply, send_reply_by_intermediate, neighbor_effect, Env,
  start_htimer,
}
use cnrlchain.Routing.Receive.{
  drop, reply, forward, decide, rebroadcast, minimal_life_time, reverse_route, answer_request,
  accept_request, is_blacklisted, recv_rreq,
}
use cnrlchain.Routing.Replies.{IsSound, decide_lem}

-- The fields that identify a request and say what it is for.
abbrev pub SameRequest : RreqHeader → RreqHeader → Type 0
SameRequest r h =
    (h.origin ≡ r.origin)
    × (h.request_id ≡ r.request_id)
    × (h.origin_seq_no ≡ r.origin_seq_no)
    × (h.dst ≡ r.dst)
    × (h.transaction_amount ≡ r.transaction_amount)
    × (h.hop_count ≡ r.hop_count)

module _ {κ} {I : Type κ} where
  -- A request that is sent is the given one, hop count included.
  abbrev pub Relays : RreqHeader → Action I → Type 0
  Relays r (send_rreq socket type h to port) = SameRequest r h
  Relays r (send_hello type h to) = Unit
  Relays r (schedule_request delay dst) = Unit
  Relays r (schedule_rreq_retry dst) = Unit
  Relays r cancel_htimer = Unit
  Relays r (schedule_htimer delay) = Unit
  Relays r (send_reply h o) = Unit
  Relays r (send_reply_by_intermediate e o g) = Unit
  Relays r (neighbor_effect e) = Unit

  rebroadcast-Relays :
      (env : Env I) (r h : RreqHeader) (sockets : List (Handle × I))
      → SameRequest r h
      → All (Relays r) (rebroadcast env h sockets)
  unfolding rebroadcast
  rebroadcast-Relays env r h [] same = tt
  rebroadcast-Relays env r h ((socket, iface) ∷ rest) same =
      (same, rebroadcast-Relays env r h rest same)

  forward-SameRequest :
      (src : Address) (header h : RreqHeader) (o : Option (RoutingTableEntry I))
      → IsSound src header o (forward h)
      → SameRequest header h
  unfolding set_unknown_seqno
  forward-SameRequest src header h o (inl e) = rw e (refl, refl, refl, refl, refl, refl)
  forward-SameRequest src header h o (inr (_, _, _, _, _, e)) =
      rw e (refl, refl, refl, refl, refl, refl)

  -- The hello timer, if it is started.
  abbrev pub timer : Bool → Time → List (Action I)
  timer starts delay = if starts then cancel_htimer ∷ schedule_htimer delay ∷ [] else []

  -- What a request can make a node with these sockets send: nothing, one reply, or the same request
  -- on each socket and perhaps the hello timer.
  pub record Covers {μ} (env : Env I) (sockets : List (Handle × I)) (header : RreqHeader)
      (P : List (Action I) → Type μ) : Type (κ ⊔ μ) where
    pub nothing : P []
    pub replies : (h : RreqHeader) (o : Option (RoutingTableEntry I)) → P (send_reply h o ∷ [])
    pub replies_by_intermediate :
        (e : RoutingTableEntry I) (o : Option (RoutingTableEntry I)) (g : Bool)
        → P (send_reply_by_intermediate e o g ∷ [])
    pub forwards :
        (h : RreqHeader) (starts : Bool) (delay : Time)
        → SameRequest header h
        → P (rebroadcast env h sockets ++ timer starts delay)

timer-Relays {κ} :
    (I : Type κ) (r : RreqHeader) (starts : Bool) (delay : Time)
    → All (Relays r) (timer {I = I} starts delay)
timer-Relays I r true delay = (tt, (tt, tt))
timer-Relays I r false delay = tt

module _ {ℓ κ} {H : Type ℓ} {I : Type κ} where
  start_htimer-timer :
      (env : Env I) (s : RoutingProtocol H I)
      → (start_htimer env s).1
        ≡ timer
            (s.settings.enable_hello && not s.htimer_running)
            (s.settings.hello_interval -ℤ env.jitter)
  unfolding start_htimer
  start_htimer-timer env s = ground arith

  module _ {μ} (P : List (Action I) → Type μ) where
    answer_request-Covers :
        (env : Env I) (src : Address) (header : RreqHeader) (o : Option (RoutingTableEntry I))
        (s : RoutingProtocol H I) {r : RoutingProtocol H I × List (Action I)}
        → Covers env s.socket_addresses header P
        → answer_request env src header o s ≡ some r
        → P r.1
    unfolding answer_request lookup_route
    answer_request-Covers env src header o s {r} covers e =
        let t = purge env.now s.routing_table in
        let s' = record s { routing_table = t } in
        elim (Bool-cases (env.is_my_own_address header.dst)) [
          | inl mine ↦
              let o' : Option (RoutingTableEntry I) = elim (find header.origin t.entries) [
                | none ↦ o
                | some x ↦ some x
              ] in
              let sent : send_reply header o' ∷ [] ≡ r.1 = ground arith in
              subst P sent (covers.replies header o')
          | inr other ↦ elim (Option-cases (decide src header (find header.dst t.entries))) [
            | inl undefined ↦ absurd (ground arith)
            | inr (drop, d) ↦ let sent : [] ≡ r.1 = ground arith in subst P sent covers.nothing
            | inr (reply entry, d) ↦
                let t' = purge env.now t in
                let o' : Option (RoutingTableEntry I) = elim (find header.origin t'.entries) [
                  | none ↦ o
                  | some x ↦ some x
                ] in
                let g = get_gratious_rrep header in
                let sent : send_reply_by_intermediate entry o' g ∷ [] ≡ r.1 = ground arith in
                subst P sent (covers.replies_by_intermediate entry o' g)
            | inr (forward h, d) ↦
                let starts = s.settings.enable_hello && not s.htimer_running in
                let delay = s.settings.hello_interval -ℤ env.jitter in
                let sent : rebroadcast env h s.socket_addresses ++ timer starts delay ≡ r.1 =
                  ground (arith, start_htimer-timer env s') in
                subst P sent (
                  covers.forwards h starts delay
                    (forward-SameRequest src header h _ (decide_lem src header _ d)))
          ]
        ]

    accept_request-Covers :
        (env : Env I) (receiver src : Address) (header : RreqHeader) (s : RoutingProtocol H I)
        {r : RoutingProtocol H I × List (Action I)}
        → Covers env s.socket_addresses
            (record header { hop_count = (header.hop_count + 1) % u8_mod })
            P
        → accept_request env receiver src header s ≡ some r
        → P r.1
    unfolding accept_request
    accept_request-Covers env receiver src header s {r} covers e =
        let h = record header { hop_count = (header.hop_count + 1) % u8_mod } in
        let life =
          minimal_life_time s.settings.net_traversal_time s.settings.node_traversal_time
            h.hop_count in
        let (a, _, answered) =
          bind-some (reverse_route env receiver src life h s.routing_table)
            (λ r. answer_request env src h r.1 (record s { routing_table = r.0 })) e in
        answer_request-Covers env src h a.1 (record s { routing_table = a.0 }) {r = r} covers
          answered

    pub recv_rreq-Covers :
        (env : Env I) (receiver src : Address) (header : RreqHeader) (s : RoutingProtocol H I)
        {r : RoutingProtocol H I × List (Action I)}
        → Covers env s.socket_addresses
            (record header { hop_count = (header.hop_count + 1) % u8_mod })
            P
        → recv_rreq env receiver src header s ≡ some r
        → P r.1
    unfolding recv_rreq lookup_route
    recv_rreq-Covers env receiver src header s {r} covers e =
        let t = purge env.now s.routing_table in
        let asked = is_duplicate env.now header.origin header.request_id s.rreq_id_cache in
        let s' = record s { routing_table = t; rreq_id_cache = asked.0 } in
        elim (Bool-cases (is_blacklisted (find src t.entries))) [
          | inl black ↦ let sent : [] ≡ r.1 = ground arith in subst P sent covers.nothing
          | inr allowed ↦ elim (Bool-cases asked.1) [
            | inl old ↦ let sent : [] ≡ r.1 = ground arith in subst P sent covers.nothing
            | inr new ↦
                accept_request-Covers env receiver src header s' {r = r} covers (ground arith)
          ]
        ]

  -- On every path that returns, each request that RecvRReq sends has the originator, the id, the
  -- originator's sequence number, the destination and the amount of the request that came, and its
  -- hop count plus one modulo 2 ^ 8.
  pub recv_rreq-Relays :
      (env : Env I) (receiver src : Address) (header : RreqHeader) (s : RoutingProtocol H I)
      {r : RoutingProtocol H I × List (Action I)}
      → recv_rreq env receiver src header s ≡ some r
      → All (Relays (record header { hop_count = (header.hop_count + 1) % u8_mod })) r.1
  recv_rreq-Relays env receiver src header s {r} e =
      let next = record header { hop_count = (header.hop_count + 1) % u8_mod } in
      recv_rreq-Covers (All (Relays next)) env receiver src header s {r = r}
        (record {
          nothing = tt;
          replies = λ h o. (tt, tt);
          replies_by_intermediate = λ x o g. (tt, tt);
          forwards = λ h starts delay same.
              All-append (Relays next) _ _ (rebroadcast-Relays env next h s.socket_addresses same)
                (timer-Relays I next starts delay);
        })
        e
