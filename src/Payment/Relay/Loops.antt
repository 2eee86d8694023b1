-- ===== src/Payment/Relay/Loops.antt =====
-- The loops of model/payment-network.cc over the pending vectors do what the duties ask.
use cnrlchain.Base.{
  ℕ, ◌≡◌, refl, inl, inr, false, some, List, [], ◌∷◌, map, arith, Address, any_address, ◌==◌, All,
  Option-cases,
}
use cnrlchain.Payment.{
  PktHeader, PendingDataEntry, PendingInterestEntryKnownContentProvider,
  PendingInterestEntryUnknownContentProvider, Services,
}
use cnrlchain.Payment.Pending.{process_pending_data, process_pending_unknown, process_pending_known}
use cnrlchain.Payment.Relay.{meet_all, data_duty, known_duty, unknown_duty}
use cnrlchain.Payment.Relay.Ranks.{
  DataAbove, KnownAbove, UnknownAbove, Compares, relays_by_tie_lem, relays_by_level_lem,
}

module _ {ℓ κ μ τ} {R : Type ℓ} {C : Type κ} {M : Type μ} {T : Type τ} (v : Services R C M T)
    (blank : PktHeader T) (tie : Address → Address → ℕ) (level : Address → ℕ) (r : R)
    (law : Compares v tie level r) (me encounter : Address)
    (known : (encounter == any_address) ≡ false) where
  pub process_pending_data_lem :
      (es : List PendingDataEntry)
      → All (DataAbove tie me) es
      → let o = process_pending_data v blank r me encounter es in
        ((map (data_duty blank tie level me) o.0, o.1)
          ≡ meet_all encounter (map (data_duty blank tie level me) es))
        × All (DataAbove tie me) o.0
  unfolding process_pending_data meet_all
  process_pending_data_lem [] h = (refl, tt)
  process_pending_data_lem (e ∷ es) h =
      let ih = process_pending_data_lem es h.1 in
      let test =
        relays_by_tie_lem v blank tie level r law me encounter e.last_relay_node e.requester h.0 in
      ground (arith, test, ih)

  pub process_pending_unknown_lem :
      (es : List PendingInterestEntryUnknownContentProvider)
      → All (UnknownAbove level me) es
      → let o = process_pending_unknown v blank r me encounter es in
        ((map (unknown_duty blank tie level me) o.0, o.1)
          ≡ meet_all encounter (map (unknown_duty blank tie level me) es))
        × All (UnknownAbove level me) o.0
  unfolding process_pending_unknown meet_all
  process_pending_unknown_lem [] h = (refl, tt)
  process_pending_unknown_lem (e ∷ es) h =
      let ih = process_pending_unknown_lem es h.1 in
      let test = relays_by_level_lem v blank tie level r law me encounter e.last_relay_node h.0 in
      ground (arith, test, ih)

  pub process_pending_known_lem :
      (es : List PendingInterestEntryKnownContentProvider)
      {o : List PendingInterestEntryKnownContentProvider × List (PktHeader T)}
      → All (KnownAbove tie me) es
      → process_pending_known v blank r me encounter es ≡ some o
      → ((map (known_duty blank tie level me) o.0, o.1)
          ≡ meet_all encounter (map (known_duty blank tie level me) es))
        × All (KnownAbove tie me) o.0
  unfolding process_pending_known meet_all
  process_pending_known_lem [] h e = ground arith
  process_pending_known_lem (x ∷ es) {o} h e =
      elim (Option-cases (process_pending_known v blank r me encounter es)) [
        | inl undefined ↦ absurd (ground arith)
        | inr (o', rest) ↦
            let ih = process_pending_known_lem es {o = o'} h.1 rest in
            let test =
              relays_by_tie_lem v blank tie level r law me encounter x.last_relay_node
                x.content_provider h.0 in
            ground (arith, test, ih)
      ]
