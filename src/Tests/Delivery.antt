-- ===== src/Tests/Delivery.antt =====
-- The theorems on the delivery of data in model/payment-network.cc at concrete inputs.
use cnrlchain.Base.{
  ℕ, ◌≡◌, refl, true, false, Bool, some, List, [], ◌∷◌, arith, Address, Time, pos, ◌==◌,
  if◌then◌else◌,
}
use mathlib.Core.List.{Memᴰ}
use cnrlchain.Payment.{
  PktHeader, InterestEntry, Services, PaymentNetwork, new_network, create_data_packet_header,
}
use cnrlchain.Payment.Pending.{handle_hello}
use cnrlchain.Payment.Interest.{handle_data, handle_interest_unknown}
use cnrlchain.Payment.Interest.Provider.{Call, hears, asked_unknown, run}
use cnrlchain.Payment.Delivery.{requester}
use cnrlchain.Payment.Delivery.Held.{is_for}
use cnrlchain.Payment.Delivery.Chain.{Sends, held_delivery}
use cnrlchain.Payment.Delivery.Legs.{asked, passed_on, found, brought}
use cnrlchain.Payment.Delivery.Relayed.{relayed_delivery}
use cnrlchain.Tests.Network.{greater, services, blank}

abbrev Node : Type 0
Node = PaymentNetwork ℕ (List Address) (List InterestEntry)

-- The greater address has the higher level and the lower tie.
abbrev opposed : Services ℕ (List Address) (List InterestEntry) ℕ
opposed = record services {
  get_higher_payment_tie = λ r a b target. if greater a b == a then b else a;
}

abbrev hello_from : Address → PktHeader ℕ
hello_from a = record blank { source = a }

-- Node 2 requests the content of node 7; node 5 is the relay, and meets node 6 before node 2.
abbrev at_relay : List (Call ℕ)
at_relay = hears (pos 8) (hello_from 6) ∷ asked_unknown (record blank { destination = 5 }) ∷ []

abbrev at_me : List (Call ℕ)
at_me = hears (pos 9) (hello_from 1) ∷ []

relayed_delivery_example :
    (o1 o2 o3 o4 : Node × List (PktHeader ℕ)) × (s1 s2 : Node) × (handle_hello opposed blank
        (pos 1)
        (hello_from 5)
        (requester opposed blank 2 7 0 0 [] [])
      ≡ some o1)
    × Memᴰ (asked opposed blank 2 5 7) o1.1
    × (handle_hello opposed blank
          (pos 2)
          (hello_from 7)
          (handle_interest_unknown opposed blank
            (asked opposed blank 2 5 7)
            (new_network 5 0 0 [] [])).0
        ≡ some o2)
    × Memᴰ (passed_on opposed blank 2 5 7) o2.1
    × (handle_hello opposed blank
          (pos 3)
          (hello_from 5)
          (handle_interest_unknown opposed blank
            (passed_on opposed blank 2 5 7)
            (new_network 7 0 0 [] [])).0
        ≡ some o3)
    × Memᴰ (found opposed blank 2 5 7) o3.1
    × (run opposed blank at_relay (handle_data (found opposed blank 2 5 7) o2.0) ≡ some s2)
    × (handle_hello opposed blank (pos 20) (hello_from 2) s2 ≡ some o4)
    × Memᴰ (brought opposed blank 2 5 7) o4.1
    × (run opposed blank at_me o1.0 ≡ some s1)
    × ((handle_data (brought opposed blank 2 5 7) s1).first_success ≡ true)
unfolding new_network cnrlchain.Base.exists
relayed_delivery_example =
    relayed_delivery opposed blank 2 5 7 0 0 [] [] (new_network 5 0 0 [] [])
      (new_network 7 0 0 [] []) (pos 1) (pos 2) (pos 3) (pos 20) (hello_from 5) (hello_from 7)
      (hello_from 5) (hello_from 2) at_relay at_me refl refl refl refl refl refl refl refl refl refl
      refl tt refl refl refl refl refl tt refl (tt, (tt, tt)) (tt, tt)

-- Node 5 holds the data of content 7 for node 2.
abbrev holder : Node
holder = record (new_network 5 0 0 [] []) {
  pending_data =
      record { requester = 2; broadcast_id = 0; requested_content = 7; last_relay_node = 6 } ∷ [];
}

held_delivery_example :
    (s' : Node) × (run opposed blank at_relay holder ≡ some s')
    × Sends opposed blank (pos 20) (hello_from 2) s' (create_data_packet_header blank 5 2 2 0 7)
unfolding new_network is_for cnrlchain.Base.exists
held_delivery_example =
    held_delivery opposed blank holder 2 0 7 at_relay (pos 20) (hello_from 2) tt refl (tt, (tt, tt))
      refl
