-- ===== src/Payment/Pending/Again.antt =====
-- What ProcessPendingData of model/payment-network.cc sends to a node that it meets twice.
use cnrlchain.Base.{
  ◌≡◌, refl, inl, inr, true, false, List, [], ◌∷◌, arith, Address, ◌==◌, ==_self, Bool-cases, ap,
  ◌∙◌,
}
use cnrlchain.Payment.{PktHeader, PendingDataEntry, Services, create_data_packet_header}
use cnrlchain.Payment.Pending.{relays_by_tie, process_pending_data}

-- What the loops rely on of Relationship: of a node and itself, the higher one is that node.
pub record ComparesNodes {ℓ κ μ τ} {R : Type ℓ} {C : Type κ} {M : Type μ} {T : Type τ}
    (v : Services R C M T) : Type ℓ where
  pub tie_self : (r : R) (a target : Address) → v.get_higher_payment_tie r a a target ≡ a
  pub level_self : (r : R) (a : Address) → v.get_higher_payment_level r a a ≡ a

module _ {ℓ κ μ τ} {R : Type ℓ} {C : Type κ} {M : Type μ} {T : Type τ} (v : Services R C M T)
    (blank : PktHeader T) (law : ComparesNodes v) where
  relays-again :
      (r : R) (me encounter last target : Address)
      → relays_by_tie v blank r me encounter last target ≡ true
      → relays_by_tie v blank r me encounter encounter target ≡ true
  unfolding relays_by_tie
  relays-again r me encounter last target h =
      ground (arith, law.tie_self r encounter target, ==_self encounter)

  unfoldable packet : Address → Address → PendingDataEntry → PktHeader T
  packet me encounter e =
      create_data_packet_header blank me e.requester encounter e.broadcast_id e.requested_content

  nothing :
      (r : R) (me encounter : Address)
      → let once = process_pending_data v blank r me encounter [] in
        process_pending_data v blank r me encounter once.0 ≡ once
  unfolding process_pending_data
  nothing r me encounter = refl

  -- The three ways of an entry through the loop.
  data_direct :
      (r : R) (me encounter : Address) (e : PendingDataEntry) (es : List PendingDataEntry)
      → (e.requester == encounter) ≡ true
      → let rest = process_pending_data v blank r me encounter es in
        process_pending_data v blank r me encounter (e ∷ es)
        ≡ (e ∷ rest.0, packet me encounter e ∷ rest.1)
  unfolding process_pending_data packet
  data_direct r me encounter e es h = rw (h, process_pending_data) refl

  data_relayed :
      (r : R) (me encounter : Address) (e : PendingDataEntry) (es : List PendingDataEntry)
      → (e.requester == encounter) ≡ false
      → relays_by_tie v blank r me encounter e.last_relay_node e.requester ≡ true
      → let rest = process_pending_data v blank r me encounter es in
        process_pending_data v blank r me encounter (e ∷ es)
        ≡ (record e { last_relay_node = encounter } ∷ rest.0, packet me encounter e ∷ rest.1)
  unfolding process_pending_data packet
  data_relayed r me encounter e es h k =
      rw (h, process_pending_data) (rw (k, process_pending_data) refl)

  data_kept :
      (r : R) (me encounter : Address) (e : PendingDataEntry) (es : List PendingDataEntry)
      → (e.requester == encounter) ≡ false
      → relays_by_tie v blank r me encounter e.last_relay_node e.requester ≡ false
      → let rest = process_pending_data v blank r me encounter es in
        process_pending_data v blank r me encounter (e ∷ es) ≡ (e ∷ rest.0, rest.1)
  unfolding process_pending_data
  data_kept r me encounter e es h k =
      rw (h, process_pending_data) (rw (k, process_pending_data) refl)

  -- Meeting the same node again sends it the same data packets again and changes no entry: the
  -- last relay node is compared with itself and is not lower.
  process_pending_data-again :
      (r : R) (me encounter : Address) (es : List PendingDataEntry)
      → let once = process_pending_data v blank r me encounter es in
        process_pending_data v blank r me encounter once.0 ≡ once
  unfolding packet
  process_pending_data-again r me encounter [] = nothing r me encounter
  process_pending_data-again r me encounter (e ∷ es) =
      let again = process_pending_data-again r me encounter es in
      let es' = (process_pending_data v blank r me encounter es).0 in
      elim (Bool-cases (e.requester == encounter)) [
        | inl a ↦ rw (data_direct r me encounter e es a) (
            data_direct r me encounter e es' a
            ∙ ap (λ o. (e ∷ o.0, packet me encounter e ∷ o.1)) again)
        | inr b ↦
            elim (Bool-cases (relays_by_tie v blank r me encounter e.last_relay_node e.requester)) [
              | inl c ↦
                  let e' = record e { last_relay_node = encounter } in
                  rw (data_relayed r me encounter e es b c) (
                    data_relayed r me encounter e' es' b
                      (relays-again r me encounter e.last_relay_node e.requester c)
                    ∙ ap (λ o. (e' ∷ o.0, packet me encounter e ∷ o.1)) again)
              | inr d ↦
                  rw (data_kept r me encounter e es b d)
                    (data_kept r me encounter e es' b d ∙ ap (λ o. (e ∷ o.0, o.1)) again)
            ]
      ]
