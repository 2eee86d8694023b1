-- ===== src/Payment/Pending.antt =====
-- The three loops of model/payment-network.cc over the pending vectors, and HandleHello, which
-- runs them. An entry is never removed; what may change is its last relay node.
pub mod Again
pub mod Packets
use cnrlchain.Base.{
  ℕ, Bool, true, false, ◌&&◌, ◌||◌, Option, none, some, List, [], ◌∷◌, ◌++◌, Address, Time,
  any_address, ◌==◌, if◌then◌else◌, ◌>>=◌,
}
use cnrlchain.Payment.{
  PktHeader, PendingDataEntry, PendingInterestEntryKnownContentProvider,
  PendingInterestEntryUnknownContentProvider, Services, PaymentNetwork, create_data_packet_header,
  create_interest_header_unknown, create_interest_header_known, create_digest_packet_header,
}

module _ {ℓ κ μ τ} {R : Type ℓ} {C : Type κ} {M : Type μ} {T : Type τ} (v : Services R C M T)
    (blank : PktHeader T) where
  -- The test before a relay to the encounter, by its tie to the target: it is the higher one
  -- against this node, and against the last relay node if there is one.
  unfoldable pub relays_by_tie : R → Address → Address → Address → Address → Bool
  relays_by_tie r me encounter last target =
      v.get_higher_payment_tie r me encounter target == encounter
      && (last == any_address || v.get_higher_payment_tie r encounter last target == encounter)

  -- The same by the payment level.
  unfoldable pub relays_by_level : R → Address → Address → Address → Bool
  relays_by_level r me encounter last =
      v.get_higher_payment_level r me encounter == encounter
      && (last == any_address || v.get_higher_payment_level r encounter last == encounter)

  unfoldable pub process_pending_data :
      R → Address → Address → List PendingDataEntry → List PendingDataEntry × List (PktHeader T)
  unfolding relays_by_tie create_data_packet_header
  process_pending_data r me encounter [] = ([], [])
  process_pending_data r me encounter (e ∷ es) =
      let (es', sent) = process_pending_data r me encounter es in
      let packet =
        create_data_packet_header blank me e.requester encounter e.broadcast_id
          e.requested_content in
      if e.requester == encounter
      then (e ∷ es', packet ∷ sent)
      else if relays_by_tie r me encounter e.last_relay_node e.requester
      then (record e { last_relay_node = encounter } ∷ es', packet ∷ sent)
      else (e ∷ es', sent)

  unfoldable pub process_pending_unknown :
      R
      → Address
      → Address
      → List PendingInterestEntryUnknownContentProvider
      → List PendingInterestEntryUnknownContentProvider × List (PktHeader T)
  unfolding relays_by_level create_interest_header_unknown
  process_pending_unknown r me encounter [] = ([], [])
  process_pending_unknown r me encounter (e ∷ es) =
      let (es', sent) = process_pending_unknown r me encounter es in
      let packet =
        create_interest_header_unknown blank me e.requester encounter e.broadcast_id
          e.requested_content in
      if relays_by_level r me encounter e.last_relay_node
      then (record e { last_relay_node = encounter } ∷ es', packet ∷ sent)
      else (e ∷ es', sent)

  -- A failed assertion ends the program; the packets before it are not kept here.
  unfoldable pub process_pending_known :
      R
      → Address
      → Address
      → List PendingInterestEntryKnownContentProvider
      → Option (List PendingInterestEntryKnownContentProvider × List (PktHeader T))
  unfolding relays_by_tie create_interest_header_known
  process_pending_known r me encounter [] = some ([], [])
  process_pending_known r me encounter (e ∷ es) =
      let rest = process_pending_known r me encounter es in
      let packet =
        create_interest_header_known blank me e.requester encounter e.broadcast_id
          e.requested_content e.content_provider in
      if e.requested_content == e.content_provider
      then (rest >>= λ (es', sent). some (
          if e.content_provider == encounter
          then (e ∷ es', packet ∷ sent)
          else if relays_by_tie r me encounter e.last_relay_node e.content_provider
          then (record e { last_relay_node = encounter } ∷ es', packet ∷ sent)
          else (e ∷ es', sent)))
      else none

  unfoldable pub decide_digest : Address → PaymentNetwork R C M → List (PktHeader T)
  unfolding create_digest_packet_header
  decide_digest encounter s =
      if v.get_higher_centrality_node s.relationship s.node_address encounter == encounter
      then create_digest_packet_header blank s.node_address (v.get_content_array s.content_manager)
          encounter
        ∷ []
      else []

  unfoldable pub handle_hello :
      Time → PktHeader T → PaymentNetwork R C M → Option (PaymentNetwork R C M × List (PktHeader T))
  unfolding decide_digest process_pending_data process_pending_known process_pending_unknown
  handle_hello now header s =
      let encounter = header.source in
      let me = s.node_address in
      let r =
        v.update_and_merge_payment_table encounter now header.payment_tie_table s.relationship in
      let s' = record s { relationship = r } in
      let (data', data_sent) = process_pending_data r me encounter s.pending_data in
      let (unknown', unknown_sent) =
        process_pending_unknown r me encounter s.pending_interest_unknown in
      process_pending_known r me encounter s.pending_interest_known >>= λ (known', known_sent).
      some (
        record s' {
          pending_data = data';
          pending_interest_known = known';
          pending_interest_unknown = unknown';
        },
        decide_digest encounter s' ++ data_sent ++ known_sent ++ unknown_sent,
      )
