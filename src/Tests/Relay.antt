-- ===== src/Tests/Relay.antt =====
-- The theorems on the relays of model/payment-network.cc at concrete inputs.
use cnrlchain.Base.{ℕ, List, [], ◌∷◌, Address}
use cnrlchain.Payment.{PktHeader, InterestEntry, PaymentNetwork, new_network}
use cnrlchain.Tests.Network.{blank}

abbrev Node : Type 0
Node = PaymentNetwork ℕ (List Address) (List InterestEntry)

abbrev tie : Address → Address → ℕ
tie target a = a

abbrev level : Address → ℕ
level a = a

abbrev hello_from : Address → PktHeader ℕ
hello_from a = record blank { source = a }

-- Node 3 after it met node 5, which is the last relay node of two interests.
abbrev met : Node
met = record (new_network 3 0 0 [] []) {
  pending_interest_unknown =
      record { requester = 1; broadcast_id = 0; requested_content = 9; last_relay_node = 5 }
      ∷ record { requester = 3; broadcast_id = 1; requested_content = 8; last_relay_node = 0 }
      ∷ [];
}
