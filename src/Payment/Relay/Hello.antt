-- ===== src/Payment/Relay/Hello.antt =====
-- HandleHello of model/payment-network.cc as one meeting of the duties.
use cnrlchain.Base.{ℕ, List, Address, Time, All}
use cnrlchain.Payment.{PktHeader, Services, PaymentNetwork}
use cnrlchain.Payment.Relay.Ranks.{DataAbove, KnownAbove, UnknownAbove}

-- The last relay nodes are not below the node.
pub record IsAhead {ℓ κ μ} {R : Type ℓ} {C : Type κ} {M : Type μ} (tie : Address → Address → ℕ)
    (level : Address → ℕ) (s : PaymentNetwork R C M) : Type 0 where
  pub data_above : All (DataAbove tie s.node_address) s.pending_data
  pub known_above : All (KnownAbove tie s.node_address) s.pending_interest_known
  pub unknown_above : All (UnknownAbove level s.node_address) s.pending_interest_unknown

-- The relationship data after the table of a hello is merged.
abbrev pub merged {ℓ κ μ τ} :
    {R : Type ℓ} {C : Type κ} {M : Type μ} {T : Type τ}
    → Services R C M T
    → Time
    → PktHeader T
    → PaymentNetwork R C M
    → R
merged v now header s =
    v.update_and_merge_payment_table header.source now header.payment_tie_table s.relationship
