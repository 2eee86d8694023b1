-- ===== src/Payment/Delivery/Chain.antt =====
-- Three nodes of model/payment-network.cc: how a request and its data pass by way of a relay, from
-- handler to handler.
use cnrlchain.Base.{
  ℕ, ◌≡◌, true, false, some, List, [], ◌∷◌, ◌++◌, arith, Address, Time, ◌==◌, exists, subst, sym,
  All,
}
use mathlib.Core.Path.{subst₂}
use mathlib.Core.List.{Memᴰ}
use cnrlchain.Payment.{
  PktHeader, PendingDataEntry, PendingInterestEntryUnknownContentProvider, Services, PaymentNetwork,
  create_data_packet_header, create_interest_header_unknown,
}
use cnrlchain.Payment.Pending.{relays_by_tie, relays_by_level, handle_hello}
use cnrlchain.Payment.Interest.{
  data_entry, interest_of, same_data, handle_data, serve, save_unknown, record_interest,
  handle_interest_unknown,
}
use cnrlchain.Payment.Interest.Provider.{Call, IsProper, IsConsistent, run, run_total}
use cnrlchain.Payment.Relay.Hello.{merged}
use cnrlchain.Payment.Delivery.Held.{is_for, is_for-IsKept, run-Keeps}
use cnrlchain.Payment.Delivery.Sent.{
  requester-Memᴰ, Answers, hello-Answers, data-Memᴰ, unknown-Memᴰ,
}

module _ {ℓ κ μ τ} {R : Type ℓ} {C : Type κ} {M : Type μ} {T : Type τ} (v : Services R C M T)
    (blank : PktHeader T) where
  -- The handler of a hello returns and sends the packet.
  abbrev pub Sends : Time → PktHeader T → PaymentNetwork R C M → PktHeader T → Type (ℓ ⊔ κ ⊔ μ ⊔ τ)
  Sends now hello s p =
      (o : PaymentNetwork R C M × List (PktHeader T)) × (handle_hello v blank now hello s ≡ some o)
      × Memᴰ p o.1

  -- An interest that is new to a node without the content, which is not its provider, waits.
  pub interest_waits :
      (h : PktHeader T) (s : PaymentNetwork R C M)
      → (s.node_address == h.destination) ≡ true
      → v.interest_exist s.interest_manager (interest_of h) ≡ false
      → (s.node_address == h.requested_content) ≡ false
      → v.content_exist s.content_manager h.requested_content ≡ false
      → handle_interest_unknown v blank h s
        ≡ (save_unknown v blank h (record_interest v blank h s), [])
  unfolding handle_interest_unknown
  interest_waits h s mine new other lacks = ground arith

  -- The provider that gets the interest from another node than the requester keeps the data.
  pub data_wait :
      (h : PktHeader T) (s : PaymentNetwork R C M)
      → (s.node_address == h.destination) ≡ true
      → v.interest_exist s.interest_manager (interest_of h) ≡ false
      → (s.node_address == h.requested_content) ≡ true
      → (h.source == h.requester_id) ≡ false
      → let s' = record_interest v blank h s in
        handle_interest_unknown v blank h s
        ≡ (record s' { pending_data = s.pending_data ++ data_entry h ∷ [] }, [])
  unfolding handle_interest_unknown serve record_interest
  data_wait h s mine new provides relayed = ground arith

  -- The relay keeps the data that it gets, unless it has data for that interest.
  pub data_taken :
      (h : PktHeader T) (s : PaymentNetwork R C M)
      → (s.node_address == h.destination) ≡ true
      → (s.initial_requested_content == h.requested_content) ≡ false
      → exists (same_data h.requester_id h.interest_broadcast_id) s.pending_data ≡ false
      → handle_data h s ≡ record s { pending_data = s.pending_data ++ data_entry h ∷ [] }
  unfolding handle_data
  data_taken h s mine other new = ground arith

  -- A node that has data for a requester delivers it: let its pending interests satisfy the
  -- asserted equations; whatever packets it handles first, if those of an interest with a known
  -- provider name the content as its provider, no assertion fails, and the hello of the requester,
  -- with any table and at any time, makes it send the data to the requester.
  pub held_delivery :
      (s : PaymentNetwork R C M) (q : Address) (b : ℕ) (c : Address) (cs : List (Call T))
      (now : Time) (hello : PktHeader T)
      → IsConsistent s
      → exists (is_for q b c) s.pending_data ≡ true
      → All (IsProper v blank) cs
      → hello.source ≡ q
      → (s' : PaymentNetwork R C M) × (run v blank cs s ≡ some s')
        × Sends now hello s' (create_data_packet_header blank s.node_address q q b c)
  held_delivery s q b c cs now hello consistent held proper from =
      let (s', done, same) = run_total v blank cs s proper consistent in
      let (address, _, held') =
        run-Keeps v blank (is_for q b c) (is_for-IsKept q b c) cs s {s' = s'} done in
      let (o, answers) = hello-Answers v blank now hello s' same in
      let packet : PktHeader T =
        create_data_packet_header blank s'.node_address hello.source hello.source b c in
      let sent : Memᴰ packet o.1 = answers.sends_data packet (
        requester-Memᴰ v blank (merged v now hello s') s'.node_address hello.source b c
          s'.pending_data
          (subst (λ a. exists (is_for a b c) s'.pending_data ≡ true) (sym from) (held' held))) in
      (
        s',
        done,
        (
          o,
          answers.handled,
          subst₂ (λ a q. Memᴰ (create_data_packet_header blank a q q b c) o.1) address from sent,
        ),
      )

  -- A hello makes a node send the data of an entry whose test the encounter passes.
  pub Answers-data :
      (now : Time) (hello : PktHeader T) (s : PaymentNetwork R C M)
      {o : PaymentNetwork R C M × List (PktHeader T)} (m a : Address) (e : PendingDataEntry)
      → Answers v blank now hello s o
      → s.node_address ≡ m
      → hello.source ≡ a
      → Memᴰ e s.pending_data
      → relays_by_tie v blank (merged v now hello s) m a e.last_relay_node e.requester ≡ true
      → Memᴰ
          (create_data_packet_header blank m e.requester a e.broadcast_id e.requested_content)
          o.1
  Answers-data now hello s {o} m a e answers mine from waits passes =
      let test : relays_by_tie v blank (merged v now hello s) s.node_address hello.source
            e.last_relay_node e.requester
          ≡ true =
        subst₂
          (λ m a.
            relays_by_tie v blank (merged v now hello s) m a e.last_relay_node e.requester ≡ true)
          (sym mine) (sym from) passes in
      subst₂
        (λ m a.
          Memᴰ (create_data_packet_header blank m e.requester a e.broadcast_id e.requested_content)
            o.1)
        mine from
        (answers.sends_data _ (
          data-Memᴰ v blank (merged v now hello s) s.node_address hello.source e s.pending_data
            waits (ground arith)))

  -- The same for an interest.
  pub Answers-interest :
      (now : Time) (hello : PktHeader T) (s : PaymentNetwork R C M)
      {o : PaymentNetwork R C M × List (PktHeader T)} (m a : Address)
      (e : PendingInterestEntryUnknownContentProvider)
      → Answers v blank now hello s o
      → s.node_address ≡ m
      → hello.source ≡ a
      → Memᴰ e s.pending_interest_unknown
      → relays_by_level v blank (merged v now hello s) m a e.last_relay_node ≡ true
      → Memᴰ
          (create_interest_header_unknown blank m e.requester a e.broadcast_id e.requested_content)
          o.1
  Answers-interest now hello s {o} m a e answers mine from waits passes =
      let test : relays_by_level v blank (merged v now hello s) s.node_address hello.source
            e.last_relay_node
          ≡ true =
        subst₂ (λ m a. relays_by_level v blank (merged v now hello s) m a e.last_relay_node ≡ true)
          (sym mine) (sym from) passes in
      subst₂
        (λ m a.
          Memᴰ
            (create_interest_header_unknown blank m e.requester a e.broadcast_id
              e.requested_content)
            o.1)
        mine from
        (answers.sends_unknown _ (
          unknown-Memᴰ v blank (merged v now hello s) s.node_address hello.source e
            s.pending_interest_unknown waits test))
