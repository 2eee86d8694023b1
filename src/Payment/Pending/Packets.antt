-- ===== src/Payment/Pending/Packets.antt =====
-- The packets that the loops of model/payment-network.cc send for their pending entries.
use cnrlchain.Base.{◌≡◌, inl, inr, some, List, [], ◌∷◌, arith, Address, Option-cases, All}
use cnrlchain.Payment.{
  PktHeader, interest_unknown_content_provider, PendingInterestEntryKnownContentProvider, Services,
  create_interest_header_known,
}
use cnrlchain.Payment.Pending.{process_pending_known}

module _ {ℓ κ μ τ} {R : Type ℓ} {C : Type κ} {M : Type μ} {T : Type τ} (v : Services R C M T)
    (blank : PktHeader T) where
  -- Every packet that ProcessPendingInterestKnownContentProvider sends goes to the encounter and
  -- has the type of an interest whose provider is not known: no packet of the other type is ever
  -- sent.
  process_pending_known-types :
      (r : R) (me encounter : Address) (es : List PendingInterestEntryKnownContentProvider)
      {o : List PendingInterestEntryKnownContentProvider × List (PktHeader T)}
      → process_pending_known v blank r me encounter es ≡ some o
      → All
          (λ p.
            (p.packet_type ≡ interest_unknown_content_provider)
            × (p.source ≡ me)
            × (p.destination ≡ encounter))
          o.1
  unfolding process_pending_known create_interest_header_known
  process_pending_known-types r me encounter [] {o} h = ground arith
  process_pending_known-types r me encounter (e ∷ es) {o} h =
      elim (Option-cases (process_pending_known v blank r me encounter es)) [
        | inl undefined ↦ absurd (ground arith)
        | inr (p, done) ↦ ground (arith, process_pending_known-types r me encounter es {o = p} done)
      ]
