-- ===== src/Routing/Total.antt =====
-- When RecvRReq of model/offchain-routing.cc is defined: its differences of sequence numbers do not
-- overflow where the numbers are below 2 ^ 31.
use cnrlchain.Base.{
  ℕ, ◌+◌, ◌%◌, ◌^◌, ◌<◌, ◌≡◌, refl, inl, inr, true, Option, none, some, List, arith, Address, Time,
  ℤ, pos, ◌-ℤ◌, before, is_some, if◌then◌else◌, Bool-cases, Option-cases,
}
use cnrlchain.Base.Map.{Every, Every-find, Every-insert, Every-sweep, Every-adjust_at, find}
use cnrlchain.Base.Word.{u8_mod, signed32}
use cnrlchain.Route.{RoutingTableEntry, invalidate, new_route, set_life_time}
use cnrlchain.Table.{
  RoutingTable, age, purge, purge_entries, lookup_route, add_route, update, settle,
}
use cnrlchain.IdCache.{is_duplicate}
use cnrlchain.Packet.{RreqHeader}
use cnrlchain.Routing.{RoutingProtocol, Action, Env}
use cnrlchain.Routing.Receive.{
  difference32, newer_seq_no, refresh, reverse_route, Decision, forward, decide, minimal_life_time,
  answer_request, accept_request, recv_rreq,
}

difference32_small : (a b : ℕ) → a < 2 ^ 31 → b < 2 ^ 31 → (d : ℤ) × (difference32 a b ≡ some d)
unfolding difference32 signed32 ◌-ℤ◌ before
difference32_small a b ha hb = (signed32 a -ℤ signed32 b, ground arith)

module _ {κ} {I : Type κ} where
  abbrev pub IsSmall : Address → RoutingTableEntry I → Type 0
  IsSmall k e = e.seq_no < 2 ^ 31

  -- Every entry has a sequence number below 2 ^ 31.
  abbrev pub HasSmall : RoutingTable I → Type 0
  HasSmall t = Every IsSmall t.entries

  age-IsSmall :
      (now bad : Time) (k : Address) (e e' : RoutingTableEntry I)
      → age now bad e ≡ some e'
      → IsSmall k e
      → IsSmall k e'
  unfolding age invalidate
  age-IsSmall now bad k e e' a h = ground arith

  pub purge-HasSmall : (now : Time) (t : RoutingTable I) → HasSmall t → HasSmall (purge now t)
  unfolding purge purge_entries
  purge-HasSmall now t h =
      Every-sweep IsSmall _ t.entries (λ k e e'. age-IsSmall now t.bad_link_lifetime k e e') h

  settle-IsSmall : (k : Address) (e : RoutingTableEntry I) → IsSmall k e → IsSmall k (settle e)
  unfolding settle
  settle-IsSmall k e h = ground arith

  add_route-HasSmall :
      (now : Time) (e : RoutingTableEntry I) (t : RoutingTable I)
      → e.seq_no < 2 ^ 31
      → HasSmall t
      → HasSmall (add_route now e t).0
  unfolding add_route
  add_route-HasSmall now e t small h =
      Every-insert IsSmall (settle e).route.destination (settle e) (purge now t).entries
        (settle-IsSmall 0 e small) (purge-HasSmall now t h)

  update-HasSmall :
      (e : RoutingTableEntry I) (t : RoutingTable I)
      → e.seq_no < 2 ^ 31
      → HasSmall t
      → HasSmall (update e t).0
  unfolding update
  update-HasSmall e t small h = elim (Bool-cases (is_some (find e.route.destination t.entries))) [
    | inl y ↦
        rw (y, update)
          (Every-adjust_at IsSmall e.route.destination (λ _. settle e) t.entries
            (λ v _. settle-IsSmall 0 e small) h)
    | inr n ↦ rw (n, update) h
  ]

  newer_seq_no_small :
      (received : ℕ) (e : RoutingTableEntry I)
      → received < 2 ^ 31
      → e.seq_no < 2 ^ 31
      → (seq : ℕ) × (newer_seq_no received e ≡ some seq) × (seq < 2 ^ 31)
  unfolding newer_seq_no
  newer_seq_no_small received e hr he =
      let (d, defined) = difference32_small received e.seq_no hr he in
      (
        if e.valid_seq_no then (if before (pos 0) d then received else e.seq_no) else received,
        ground arith,
        ground arith,
      )

  reverse_route_total :
      (env : Env I) (receiver src : Address) (life : Time) (header : RreqHeader)
      (t : RoutingTable I)
      → header.origin_seq_no < 2 ^ 31
      → HasSmall t
      → (r : RoutingTable I × Option (RoutingTableEntry I)) × (reverse_route env receiver src life
            header t
          ≡ some r)
        × HasSmall r.0
  unfolding reverse_route lookup_route refresh set_life_time new_route
  reverse_route_total env receiver src life header t small h =
      let t' = purge env.now t in
      let h' = purge-HasSmall env.now t h in
      elim (Option-cases (find header.origin t'.entries)) [
        | inl e ↦
            let new =
              new_route env.net env.now 0 header.origin true header.origin_seq_no
                (env.interface_for receiver) header.hop_count header.transaction_amount src life in
            (
              ((add_route env.now new t').0, none),
              ground arith,
              add_route-HasSmall env.now new t' small h',
            )
        | inr (old, e) ↦
            let (seq, defined, low) =
              newer_seq_no_small header.origin_seq_no old small
                (Every-find IsSmall header.origin old t'.entries e h') in
            let new =
              refresh env receiver src seq header.hop_count header.transaction_amount life old in
            (((update new t').0, some new), ground arith, update-HasSmall new t' low h')
      ]

  decide_known_total :
      (src : Address) (header : RreqHeader) (e : RoutingTableEntry I)
      → header.dst_seq_no < 2 ^ 31
      → e.seq_no < 2 ^ 31
      → (choice : Decision I) × (decide src header (some e) ≡ some choice)
  unfolding decide
  decide_known_total src header e small low =
      let (d, defined) = difference32_small e.seq_no header.dst_seq_no low small in
      elim (Option-cases (decide src header (some e))) [
        | inl undefined ↦ absurd (ground arith)
        | inr found ↦ found
      ]

  decide_total :
      (src : Address) (header : RreqHeader) (k : Address) (t : RoutingTable I)
      → header.dst_seq_no < 2 ^ 31
      → HasSmall t
      → (choice : Decision I) × (decide src header (find k t.entries) ≡ some choice)
  unfolding decide
  decide_total src header k t small h = elim (Option-cases (find k t.entries)) [
    | inl e ↦ (forward header, rw e refl)
    | inr (entry, e) ↦
        rw e (decide_known_total src header entry small (Every-find IsSmall k entry t.entries e h))
  ]

module _ {ℓ κ} {H : Type ℓ} {I : Type κ} where
  answer_request_total :
      (env : Env I) (src : Address) (header : RreqHeader) (o : Option (RoutingTableEntry I))
      (s : RoutingProtocol H I)
      → header.dst_seq_no < 2 ^ 31
      → HasSmall s.routing_table
      → (r : RoutingProtocol H I × List (Action I)) × (answer_request env src header o s ≡ some r)
  unfolding answer_request lookup_route
  answer_request_total env src header o s small h =
      let t = purge env.now s.routing_table in
      let (choice, decided) =
        decide_total src header header.dst t small (purge-HasSmall env.now s.routing_table h) in
      elim (Option-cases (answer_request env src header o s)) [
        | inl undefined ↦ absurd (ground arith)
        | inr found ↦ found
      ]

  accept_request_total :
      (env : Env I) (receiver src : Address) (header : RreqHeader) (s : RoutingProtocol H I)
      → header.origin_seq_no < 2 ^ 31
      → header.dst_seq_no < 2 ^ 31
      → HasSmall s.routing_table
      → (r : RoutingProtocol H I × List (Action I)) × (accept_request env receiver src header s
          ≡ some r)
  unfolding accept_request
  accept_request_total env receiver src header s small_origin small_dst h =
      let next = record header { hop_count = (header.hop_count + 1) % u8_mod } in
      let life =
        minimal_life_time s.settings.net_traversal_time s.settings.node_traversal_time
          next.hop_count in
      let (a, done, low) =
        reverse_route_total env receiver src life next s.routing_table small_origin h in
      let (r, answered) =
        answer_request_total env src next a.1 (record s { routing_table = a.0 }) small_dst low in
      (r, rw (done, accept_request) answered)

  -- RecvRReq returns wherever the sequence numbers are small: if m_ipv4 and m_uniformRandomVariable
  -- are set, as the parameter env takes them, and the two sequence numbers of the request and those
  -- of all entries of the routing table are below 2 ^ 31, then no difference overflows and the
  -- handler returns.
  pub recv_rreq_total :
      (env : Env I) (receiver src : Address) (header : RreqHeader) (s : RoutingProtocol H I)
      → header.origin_seq_no < 2 ^ 31
      → header.dst_seq_no < 2 ^ 31
      → HasSmall s.routing_table
      → (r : RoutingProtocol H I × List (Action I)) × (recv_rreq env receiver src header s ≡ some r)
  unfolding recv_rreq lookup_route
  recv_rreq_total env receiver src header s small_origin small_dst h =
      let asked = is_duplicate env.now header.origin header.request_id s.rreq_id_cache in
      let s' = record s {
        routing_table = purge env.now s.routing_table;
        rreq_id_cache = asked.0;
      } in
      let (r, accepted) =
        accept_request_total env receiver src header s' small_origin small_dst
          (purge-HasSmall env.now s.routing_table h) in
      elim (Option-cases (recv_rreq env receiver src header s)) [
        | inl undefined ↦ absurd (ground arith)
        | inr found ↦ found
      ]
