-- ===== src/Routing/Replies.antt =====
-- What RecvRReq of model/offchain-routing.cc answers, and what it passes on.
use cnrlchain.Base.{
  ℕ, ◌≡◌, refl, ◌⊎◌, inl, inr, Bool, true, false, not, ◌&&◌, Option, none, some, arith, Address,
  pos, ◌≤ℤ◌, if◌then◌else◌, Bool-cases, bind-some, subst, ◌>>=◌, ◌==◌, before, ◌-ℤ◌, not-before→le,
  -ℤ_parts,
}
use mathlib.Core.Option.{some-injective}
use cnrlchain.Base.Word.{signed32}
use cnrlchain.Route.{RoutingTableEntry, is_valid}
use cnrlchain.Packet.{RreqHeader, set_unknown_seqno, get_unknown_seqno, get_destination_only}
use cnrlchain.Routing.Receive.{difference32, Decision, drop, reply, forward, decide}

difference32-fresh :
    (a b : ℕ)
    → (difference32 a b >>= λ d. some (not (before d (pos 0)))) ≡ some true
    → signed32 b ≤ℤ signed32 a
unfolding difference32
difference32-fresh a b h =
    let d = signed32 a -ℤ signed32 b in
    ground (arith, not-before→le d (pos 0), -ℤ_parts (signed32 a) (signed32 b))

module _ {κ} {I : Type κ} where
  -- The route of the table is known to be at least as new as the request asks for.
  abbrev pub IsFresh : RreqHeader → RoutingTableEntry I → Type 0
  IsFresh header e =
      (get_unknown_seqno header ≡ true) ⊎ (signed32 header.dst_seq_no ≤ℤ signed32 e.seq_no)

  -- What must hold for each decision.
  abbrev pub IsSound : Address → RreqHeader → Option (RoutingTableEntry I) → Decision I → Type κ
  IsSound src header o drop =
      (e : RoutingTableEntry I) × (o ≡ some e) × ((e.route.gateway == src) ≡ true)
  IsSound src header o (reply e) =
      (o ≡ some e)
      × ((e.route.gateway == src) ≡ false)
      × (get_destination_only header ≡ false)
      × (is_valid e.flag ≡ true)
      × (e.valid_seq_no ≡ true)
      × IsFresh header e
  IsSound src header o (forward h) =
      (h ≡ header)
      ⊎ ((e : RoutingTableEntry I) × (o ≡ some e)
          × ((e.route.gateway == src) ≡ false)
          × (e.valid_seq_no ≡ true)
          × IsFresh header e
          × (h ≡ set_unknown_seqno false (record header { dst_seq_no = e.seq_no })))

  abbrev fresh_test : RreqHeader → RoutingTableEntry I → Option Bool
  fresh_test header e =
      if get_unknown_seqno header
      then some true
      else (difference32 e.seq_no header.dst_seq_no >>= λ d. some (not (before d (pos 0))))

  fresh_test-IsFresh :
      (header : RreqHeader) (e : RoutingTableEntry I)
      → fresh_test header e ≡ some true
      → IsFresh header e
  fresh_test-IsFresh header e h = elim (Bool-cases (get_unknown_seqno header)) [
    | inl y ↦ inl y
    | inr n ↦ inr (difference32-fresh e.seq_no header.dst_seq_no (ground arith))
  ]

  -- The decision after the test of the sequence numbers.
  abbrev choose : RreqHeader → RoutingTableEntry I → Bool → Decision I
  choose header e fresh =
      if fresh && e.valid_seq_no
      then (if not (get_destination_only header) && is_valid e.flag
          then reply e
          else forward (set_unknown_seqno false (record header { dst_seq_no = e.seq_no })))
      else forward header

  choose-IsSound :
      (src : Address) (header : RreqHeader) (e : RoutingTableEntry I) (fresh : Bool)
      → (e.route.gateway == src) ≡ false
      → fresh_test header e ≡ some fresh
      → IsSound src header (some e) (choose header e fresh)
  choose-IsSound src header e false other t = inl refl
  choose-IsSound src header e true other t =
      let new = fresh_test-IsFresh header e t in
      let renewed = set_unknown_seqno false (record header { dst_seq_no = e.seq_no }) in
      elim (Bool-cases e.valid_seq_no) [
        | inr n ↦
            let same : forward header ≡ choose header e true = ground arith in
            subst (IsSound src header (some e)) same (inl refl)
        | inl v ↦ elim (Bool-cases (not (get_destination_only header) && is_valid e.flag)) [
          | inl y ↦
              let same : reply e ≡ choose header e true = ground arith in
              subst (IsSound src header (some e)) same
                (refl, other, ground arith, ground arith, v, new)
          | inr n ↦
              let same : forward renewed ≡ choose header e true = ground arith in
              subst (IsSound src header (some e)) same (inr (e, refl, other, v, new, refl))
        ]
      ]

  decide_known :
      (src : Address) (header : RreqHeader) (e : RoutingTableEntry I) {choice : Decision I}
      → decide src header (some e) ≡ some choice
      → IsSound src header (some e) choice
  unfolding decide
  decide_known src header e {choice} h = elim (Bool-cases (e.route.gateway == src)) [
    | inl back ↦
        let done : drop ≡ choice = some-injective _ _ (ground arith) in
        subst (IsSound src header (some e)) done (e, refl, back)
    | inr other ↦
        let (fresh, t, rest) =
          bind-some (fresh_test header e) (λ fresh. some (choose header e fresh)) (ground arith) in
        subst (IsSound src header (some e)) (some-injective _ _ rest)
          (choose-IsSound src header e fresh other t)
  ]

  -- What RecvRReq decides by its route to the destination: it drops the request only if that route
  -- leads back to the sender, it replies only by a VALID route with a valid and fresh enough
  -- sequence number that does not lead back, and only if the destination alone need not reply, and
  -- it passes the request on as it is or with the number of such a fresh route.
  pub decide_lem :
      (src : Address) (header : RreqHeader) (o : Option (RoutingTableEntry I)) {choice : Decision I}
      → decide src header o ≡ some choice
      → IsSound src header o choice
  unfolding decide
  decide_lem src header none {choice} h =
      subst (IsSound src header none) (some-injective _ _ h) (inl refl)
  decide_lem src header (some e) h = decide_known src header e h
