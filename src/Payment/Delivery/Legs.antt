-- ===== src/Payment/Delivery/Legs.antt =====
-- The steps of a request by way of a relay, each at one node of model/payment-network.cc.
use cnrlchain.Base.{
  ◌≡◌, refl, true, false, some, List, [], ◌∷◌, ◌++◌, arith, Address, Time, any_address, ◌==◌,
  exists, ◌∙◌, subst, ap, exists-append_right, ==_self, sym, All,
}
use mathlib.Core.List.{Memᴰ}
use mathlib.Core.List.Memᴰ
use cnrlchain.Payment.{
  PktHeader, PendingInterestEntryUnknownContentProvider, Services, PaymentNetwork, new_network,
  request_content, start_application, create_data_packet_header, create_interest_header_unknown,
}
use cnrlchain.Payment.Pending.{relays_by_tie, relays_by_level}
use cnrlchain.Payment.Interest.{
  data_entry, unknown_entry, interest_of, same_data, handle_data, save_unknown, record_interest,
  handle_interest_unknown,
}
use cnrlchain.Payment.Interest.Provider.{Call, IsProper, IsConsistent, run, run_total}
use cnrlchain.Payment.Relay.Hello.{merged}
use cnrlchain.Payment.Delivery.{requester}
use cnrlchain.Payment.Delivery.Held.{is_for, is_for-IsKept, exists-process_pending_data, run-Keeps}
use cnrlchain.Payment.Delivery.Sent.{Answers, hello-Answers}
use cnrlchain.Payment.Delivery.Chain.{
  Sends, interest_waits, data_wait, data_taken, held_delivery, Answers-data, Answers-interest,
}

module _ {ℓ κ μ τ} {R : Type ℓ} {C : Type κ} {M : Type μ} {T : Type τ} (v : Services R C M T)
    (blank : PktHeader T) (me relay provider : Address) where
  -- The four packets, in the order in which they are sent.
  abbrev pub asked : PktHeader T
  asked = create_interest_header_unknown blank me me relay 0 provider

  abbrev pub passed_on : PktHeader T
  passed_on = create_interest_header_unknown blank relay me provider 0 provider

  abbrev pub found : PktHeader T
  found = create_data_packet_header blank provider me relay 0 provider

  abbrev pub brought : PktHeader T
  brought = create_data_packet_header blank relay me me 0 provider

  -- The requester meets the relay.
  pub start-Answers :
      (relationship : R) (owned : Address) (contents : C) (interests : M) (now : Time)
      (hello : PktHeader T)
      → (provider == any_address) ≡ false
      → hello.source ≡ relay
      → let s = requester v blank me provider relationship owned contents interests in
        v.get_higher_payment_level (merged v now hello s) me relay ≡ relay
        → (o : PaymentNetwork R C M × List (PktHeader T)) × Answers v blank now hello s o
          × Memᴰ asked o.1
          × (o.0.node_address ≡ me)
          × (o.0.initial_requested_content ≡ provider)
  unfolding start_application request_content new_network relays_by_level
  start-Answers relationship owned contents interests now hello named from higher =
      let s = requester v blank me provider relationship owned contents interests in
      let entry : PendingInterestEntryUnknownContentProvider = record {
        last_relay_node = any_address;
        requester = me;
        broadcast_id = 0;
        requested_content = provider;
      } in
      let waiting : s.pending_interest_unknown ≡ entry ∷ [] = ground arith in
      let address : s.node_address ≡ me = ground arith in
      let request : s.initial_requested_content ≡ provider = ground arith in
      let none_known : s.pending_interest_known ≡ [] = ground arith in
      let (o, answers) = hello-Answers v blank now hello s (rw none_known tt) in
      (
        o,
        answers,
        Answers-interest v blank now hello s {o = o} me relay entry answers address from
            (subst (λ l. Memᴰ entry l) (sym waiting) (Memᴰ.head refl)) (ground arith),
        answers.same_address ∙ address,
        answers.same_request ∙ request,
      )

  -- The relay gets the interest and meets the provider.
  pub relay-Answers :
      (mid : PaymentNetwork R C M) (now : Time) (hello : PktHeader T)
      → mid.node_address ≡ relay
      → IsConsistent mid
      → v.interest_exist mid.interest_manager (interest_of asked) ≡ false
      → (relay == provider) ≡ false
      → v.content_exist mid.content_manager provider ≡ false
      → hello.source ≡ provider
      → v.get_higher_payment_level (merged v now hello mid) relay provider ≡ provider
      → let s = (handle_interest_unknown v blank asked mid).0 in
        (o : PaymentNetwork R C M × List (PktHeader T)) × Answers v blank now hello s o
        × Memᴰ passed_on o.1
        × (o.0.node_address ≡ relay)
        × (o.0.initial_requested_content ≡ mid.initial_requested_content)
        × (exists (same_data me 0) o.0.pending_data ≡ exists (same_data me 0) mid.pending_data)
  unfolding save_unknown record_interest relays_by_level create_interest_header_unknown same_data
  relay-Answers mid now hello mine consistent new other lacks from higher =
      rw (interest_waits v blank asked mid (ground arith) new (ground arith) lacks) (
        let s = save_unknown v blank asked (record_interest v blank asked mid) in
        let (o, answers) = hello-Answers v blank now hello s consistent in
        let entry = unknown_entry asked in
        (
          o,
          answers,
          Answers-interest v blank now hello s {o = o} relay provider entry answers mine from
              (Memᴰ.append_right mid.pending_interest_unknown (Memᴰ.head refl)) (ground arith),
          answers.same_address ∙ mine,
          answers.same_request,
          ap (exists (same_data me 0)) answers.waits
              ∙ exists-process_pending_data v blank (same_data me 0) (λ e a. refl)
                  (merged v now hello s) s.node_address hello.source s.pending_data,
        ))

  -- The provider gets the interest from the relay and meets the relay.
  pub provider-Answers :
      (far : PaymentNetwork R C M) (now : Time) (hello : PktHeader T)
      → far.node_address ≡ provider
      → IsConsistent far
      → v.interest_exist far.interest_manager (interest_of passed_on) ≡ false
      → (relay == me) ≡ false
      → hello.source ≡ relay
      → v.get_higher_payment_tie (merged v now hello far) provider relay me ≡ relay
      → let s = (handle_interest_unknown v blank passed_on far).0 in
        (o : PaymentNetwork R C M × List (PktHeader T)) × Answers v blank now hello s o
        × Memᴰ found o.1
  unfolding record_interest relays_by_tie create_interest_header_unknown
  provider-Answers far now hello mine consistent new other from higher =
      rw (data_wait v blank passed_on far (ground arith) new (ground arith) other) (
        let s : PaymentNetwork R C M = record (record_interest v blank passed_on far) {
          pending_data = far.pending_data ++ data_entry passed_on ∷ [];
        } in
        let (o, answers) = hello-Answers v blank now hello s consistent in
        (
          o,
          answers,
          Answers-data v blank now hello s {o = o} provider relay (data_entry passed_on) answers
              mine from (Memᴰ.append_right far.pending_data (Memᴰ.head refl)) (ground arith),
        ))

  -- The relay gets the data, handles what else comes and meets the requester.
  pub relay_delivers :
      (s : PaymentNetwork R C M) (cs : List (Call T)) (now : Time) (hello : PktHeader T)
      → s.node_address ≡ relay
      → IsConsistent s
      → (s.initial_requested_content == provider) ≡ false
      → exists (same_data me 0) s.pending_data ≡ false
      → All (IsProper v blank) cs
      → hello.source ≡ me
      → (s' : PaymentNetwork R C M) × (run v blank cs (handle_data found s) ≡ some s')
        × Sends v blank now hello s' brought
  unfolding create_data_packet_header is_for exists
  relay_delivers s cs now hello mine consistent other new proper from =
      let taken : PaymentNetwork R C M = record s {
        pending_data = s.pending_data ++ data_entry found ∷ [];
      } in
      let here : is_for me 0 provider (data_entry found) ≡ true =
        rw (==_self me, ==_self provider) refl in
      let held =
        exists-append_right (is_for me 0 provider) s.pending_data (data_entry found ∷ [])
          (ground arith) in
      rw (data_taken v blank found s (ground arith) other new) (
        subst
          (λ a.
            (s' : PaymentNetwork R C M) × (run v blank cs taken ≡ some s')
            × Sends v blank now hello s' (create_data_packet_header blank a me me 0 provider))
          mine (held_delivery v blank taken me 0 provider cs now hello consistent held proper from))

  -- The requester handles what else comes and gets the data.
  pub requester_succeeds :
      (s : PaymentNetwork R C M) (cs : List (Call T))
      → IsConsistent s
      → s.node_address ≡ me
      → s.initial_requested_content ≡ provider
      → All (IsProper v blank) cs
      → (s' : PaymentNetwork R C M) × (run v blank cs s ≡ some s')
        × ((handle_data brought s').first_success ≡ true)
  unfolding handle_data create_data_packet_header
  requester_succeeds s cs consistent mine wanted proper =
      let (s', done, _) = run_total v blank cs s proper consistent in
      let (address, content, _) =
        run-Keeps v blank (is_for me 0 provider) (is_for-IsKept me 0 provider) cs s {s' = s'}
          done in
      (s', done, ground arith)
