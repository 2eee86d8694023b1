-- ===== src/Payment/Delivery/Relayed.antt =====
-- A request and its data by way of a relay, from the start of the requester in
-- model/payment-network.cc to its success.
use cnrlchain.Base.{
  ◌≡◌, true, false, some, List, Address, Time, any_address, ◌==◌, exists, ◌∙◌, All,
}
use mathlib.Core.List.{Memᴰ}
use cnrlchain.Payment.{PktHeader, Services, PaymentNetwork}
use cnrlchain.Payment.Pending.{handle_hello}
use cnrlchain.Payment.Interest.{interest_of, same_data, handle_data, handle_interest_unknown}
use cnrlchain.Payment.Interest.Provider.{Call, IsProper, IsConsistent, run}
use cnrlchain.Payment.Relay.Hello.{merged}
use cnrlchain.Payment.Delivery.{requester}
use cnrlchain.Payment.Delivery.Legs.{
  asked, passed_on, found, brought, start-Answers, relay-Answers, provider-Answers, relay_delivers,
  requester_succeeds,
}

module _ {ℓ κ μ τ} {R : Type ℓ} {C : Type κ} {M : Type μ} {T : Type τ} (v : Services R C M T)
    (blank : PktHeader T) (me relay provider : Address) where
  -- A request is fulfilled by way of a relay. The requester is constructed, told to request the
  -- content of a provider that has an address, and started; its first packet is a hello of the
  -- relay, which after the merge is on the higher level. The relay, in any state, is another node
  -- than the provider and the requester, has not seen the interest, neither has nor requests the
  -- content and holds no data for that interest; its first packet after the interest is a hello of
  -- the provider, which is then on the higher level. The provider, in any state, has not seen the
  -- interest either; its first packet after it is a hello of the relay, which then has the higher
  -- tie to the requester. In both no assertion on a pending interest fails. Then each of the three
  -- answers its hello, by the interest, the interest and the data; the relay may handle any proper
  -- packets before it meets the requester, and sends it the data then; and the requester may handle
  -- any proper packets in between, and records its success.
  pub relayed_delivery :
      (relationship : R) (owned : Address) (contents : C) (interests : M)
      (mid far : PaymentNetwork R C M) (t1 t2 t3 t4 : Time) (h1 h2 h3 h4 : PktHeader T)
      (at_relay at_me : List (Call T))
      → (provider == any_address) ≡ false
      → (relay == provider) ≡ false
      → (relay == me) ≡ false
      → h1.source ≡ relay
      → h2.source ≡ provider
      → h3.source ≡ relay
      → h4.source ≡ me
      → let s = requester v blank me provider relationship owned contents interests in
        v.get_higher_payment_level (merged v t1 h1 s) me relay ≡ relay
        → v.get_higher_payment_level (merged v t2 h2 mid) relay provider ≡ provider
        → v.get_higher_payment_tie (merged v t3 h3 far) provider relay me ≡ relay
        → mid.node_address ≡ relay
        → IsConsistent mid
        → v.interest_exist mid.interest_manager (interest_of (asked v blank me relay provider))
          ≡ false
        → v.content_exist mid.content_manager provider ≡ false
        → (mid.initial_requested_content == provider) ≡ false
        → exists (same_data me 0) mid.pending_data ≡ false
        → far.node_address ≡ provider
        → IsConsistent far
        → v.interest_exist far.interest_manager (interest_of (passed_on v blank me relay provider))
          ≡ false
        → All (IsProper v blank) at_relay
        → All (IsProper v blank) at_me
        → (o1 o2 o3 o4 : PaymentNetwork R C M × List (PktHeader T)) × (s1 s2 : PaymentNetwork R C M)
          × (handle_hello v blank t1 h1 s ≡ some o1)
          × Memᴰ (asked v blank me relay provider) o1.1
          × (handle_hello v blank t2 h2
                (handle_interest_unknown v blank (asked v blank me relay provider) mid).0
              ≡ some o2)
          × Memᴰ (passed_on v blank me relay provider) o2.1
          × (handle_hello v blank t3 h3
                (handle_interest_unknown v blank (passed_on v blank me relay provider) far).0
              ≡ some o3)
          × Memᴰ (found v blank me relay provider) o3.1
          × (run v blank at_relay (handle_data (found v blank me relay provider) o2.0) ≡ some s2)
          × (handle_hello v blank t4 h4 s2 ≡ some o4)
          × Memᴰ (brought v blank me relay provider) o4.1
          × (run v blank at_me o1.0 ≡ some s1)
          × ((handle_data (brought v blank me relay provider) s1).first_success ≡ true)
  relayed_delivery relationship owned contents interests mid far t1 t2 t3 t4 h1 h2 h3 h4 at_relay
        at_me named apart distinct from1 from2 from3 from4 up1 up2 up3 at_mid mid_consistent mid_new
        lacks elsewhere empty at_far far_consistent far_new proper_relay proper_me =
      let (o1, a1, sent1, address1, request1) =
        start-Answers v blank me relay provider relationship owned contents interests t1 h1 named
          from1 up1 in
      let (o2, a2, sent2, address2, request2, held2) =
        relay-Answers v blank me relay provider mid t2 h2 at_mid mid_consistent mid_new apart lacks
          from2 up2 in
      let (o3, a3, sent3) =
        provider-Answers v blank me relay provider far t3 h3 at_far far_consistent far_new distinct
          from3 up3 in
      let (s2, done2, (o4, handled4, sent4)) =
        relay_delivers v blank me relay provider o2.0 at_relay t4 h4 address2 a2.consistent
          (rw request2 elsewhere) (held2 ∙ empty) proper_relay from4 in
      let (s1, done1, success) =
        requester_succeeds v blank me relay provider o1.0 at_me a1.consistent address1 request1
          proper_me in
      (
        o1, o2, o3, o4, s1, s2, a1.handled, sent1, a2.handled, sent2, a3.handled, sent3, done2,
        handled4, sent4, done1, success,
      )
