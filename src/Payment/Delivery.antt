-- ===== src/Payment/Delivery.antt =====
-- Two nodes of model/payment-network.cc: how the one that requests a content gets it from the one
-- that provides it.
pub mod Held
pub mod Sent
pub mod Chain
pub mod Legs
pub mod Relayed
use cnrlchain.Base.{◌≡◌, true, false, some, [], ◌∷◌, ◌++◌, arith, Address, Time, any_address, ◌==◌}
use cnrlchain.Payment.{
  PktHeader, Services, PaymentNetwork, new_network, request_content, start_application,
  create_data_packet_header, create_interest_header_unknown,
}
use cnrlchain.Payment.Pending.{
  process_pending_data, process_pending_unknown, process_pending_known, relays_by_level,
  decide_digest, handle_hello,
}
use cnrlchain.Payment.Interest.{
  interest_of, record_interest, serve, handle_data, handle_interest_unknown,
}

module _ {ℓ κ μ τ} {R : Type ℓ} {C : Type κ} {M : Type μ} {T : Type τ} (v : Services R C M T)
    (blank : PktHeader T) (me provider : Address) where
  -- The interest that the requester sends, and the data that come back.
  abbrev interest : PktHeader T
  interest = create_interest_header_unknown blank me me provider 0 provider

  abbrev reply : PktHeader T
  reply = create_data_packet_header blank provider me me 0 provider

  -- The requester, constructed and started.
  abbrev pub requester : R → Address → C → M → PaymentNetwork R C M
  requester relationship owned contents interests =
      start_application v
        (request_content provider (new_network me relationship owned contents interests))

  abbrev updated : Time → PktHeader T → R
  updated now hello =
      v.update_and_merge_payment_table hello.source now hello.payment_tie_table
        (v.new_relationship me)

  hello_asks :
      (relationship : R) (owned : Address) (contents : C) (interests : M) (now : Time)
      (hello : PktHeader T)
      → (provider == any_address) ≡ false
      → hello.source ≡ provider
      → v.get_higher_payment_level (updated now hello) me provider ≡ provider
      → let s = requester relationship owned contents interests in
        (s' : PaymentNetwork R C M) × (handle_hello v blank now hello s
          ≡ some (
            s',
            decide_digest v blank provider (record s { relationship = updated now hello })
                ++ interest ∷ [],
          ))
        × (s'.node_address ≡ me)
        × (s'.initial_requested_content ≡ provider)
  unfolding handle_hello start_application request_content new_network process_pending_data
      process_pending_unknown process_pending_known relays_by_level
  hello_asks relationship owned contents interests now hello named from higher = (
    record (requester relationship owned contents interests) {
      relationship = updated now hello;
      pending_interest_unknown =
          record {
            last_relay_node = provider;
            requester = me;
            broadcast_id = 0;
            requested_content = provider;
          }
          ∷ [];
    },
    ground arith,
    ground arith,
    ground arith,
  )

  -- The provider has not seen the interest: the data go out at once.
  interest-reply :
      (s : PaymentNetwork R C M)
      → s.node_address ≡ provider
      → v.interest_exist s.interest_manager (interest_of interest) ≡ false
      → (handle_interest_unknown v blank interest s).1 ≡ reply ∷ []
  unfolding handle_interest_unknown serve record_interest interest_of create_interest_header_unknown
      create_data_packet_header
  interest-reply s mine new = ground arith

  reply-first_success :
      (s : PaymentNetwork R C M)
      → s.node_address ≡ me
      → s.initial_requested_content ≡ provider
      → (handle_data reply s).first_success ≡ true
  unfolding handle_data create_data_packet_header
  reply-first_success s mine wanted = ground arith

  -- A request is fulfilled when the requester meets the provider. Let a node be constructed, told
  -- to request the content of a provider that has an address, and started; let its first packet be
  -- a hello of the provider, which after the merge of its table is on the higher level; and let the
  -- provider, in any state, not have seen the interest. Then the requester answers the hello by the
  -- digest, if it sends one, and the interest; the provider answers the interest by the data, and
  -- with the data the requester records its success.
  direct_delivery :
      (relationship : R) (owned : Address) (contents : C) (interests : M) (now : Time)
      (hello : PktHeader T) (other : PaymentNetwork R C M)
      → (provider == any_address) ≡ false
      → hello.source ≡ provider
      → v.get_higher_payment_level (updated now hello) me provider ≡ provider
      → other.node_address ≡ provider
      → v.interest_exist other.interest_manager (interest_of interest) ≡ false
      → let s = requester relationship owned contents interests in
        (s' : PaymentNetwork R C M) × (handle_hello v blank now hello s
          ≡ some (
            s',
            decide_digest v blank provider (record s { relationship = updated now hello })
                ++ interest ∷ [],
          ))
        × ((handle_interest_unknown v blank interest other).1 ≡ reply ∷ [])
        × ((handle_data reply s').first_success ≡ true)
  direct_delivery relationship owned contents interests now hello other named from higher theirs
        new =
      let (s', done, mine, wanted) =
        hello_asks relationship owned contents interests now hello named from higher in
      (s', done, interest-reply other theirs new, reply-first_success s' mine wanted)
