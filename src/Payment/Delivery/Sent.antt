-- ===== src/Payment/Delivery/Sent.antt =====
-- Which packets HandleHello of model/payment-network.cc sends for the entries that wait.
use cnrlchain.Base.{
  ℕ, ◌≡◌, refl, true, ◌||◌, some, List, [], ◌∷◌, ◌++◌, arith, Address, Time, ◌==◌, exists, inl, inr,
  ◌⊎◌, Bool-cases, subst, sym,
}
use mathlib.Core.List.{Memᴰ}
use mathlib.Core.List.Memᴰ
use cnrlchain.Payment.{
  PktHeader, PendingDataEntry, PendingInterestEntryUnknownContentProvider, Services, PaymentNetwork,
  create_data_packet_header, create_interest_header_unknown,
}
use cnrlchain.Payment.Pending.{
  relays_by_tie, relays_by_level, process_pending_data, process_pending_unknown, decide_digest,
  handle_hello,
}
use cnrlchain.Payment.Interest.Provider.{IsConsistent, process_known_total}
use cnrlchain.Payment.Relay.Hello.{merged}
use cnrlchain.Payment.Delivery.Held.{is_for}

-- What is sent for an entry comes before what is sent for the others.
Memᴰ-more {ℓ} :
    {A : Type ℓ} {p x : A} {l rest : List A} → (l ≡ rest) ⊎ (l ≡ x ∷ rest) → Memᴰ p rest → Memᴰ p l
Memᴰ-more {p} (inl same) m = subst (λ l. Memᴰ p l) (sym same) m
Memᴰ-more {p} (inr more) m = subst (λ l. Memᴰ p l) (sym more) (Memᴰ.tail m)

module _ {ℓ κ μ τ} {R : Type ℓ} {C : Type κ} {M : Type μ} {T : Type τ} (v : Services R C M T)
    (blank : PktHeader T) (r : R) (me encounter : Address) where
  abbrev data_packet : PendingDataEntry → PktHeader T
  data_packet e =
      create_data_packet_header blank me e.requester encounter e.broadcast_id e.requested_content

  abbrev interest_packet : PendingInterestEntryUnknownContentProvider → PktHeader T
  interest_packet e =
      create_interest_header_unknown blank me e.requester encounter e.broadcast_id
        e.requested_content

  data_sent :
      (e : PendingDataEntry) (es : List PendingDataEntry)
      → (e.requester == encounter
          || relays_by_tie v blank r me encounter e.last_relay_node e.requester)
        ≡ true
      → (process_pending_data v blank r me encounter (e ∷ es)).1
        ≡ data_packet e ∷ (process_pending_data v blank r me encounter es).1
  unfolding process_pending_data
  data_sent e es h = ground arith

  data_more :
      (e : PendingDataEntry) (es : List PendingDataEntry)
      → let rest = (process_pending_data v blank r me encounter es).1 in
        let all = (process_pending_data v blank r me encounter (e ∷ es)).1 in
        (all ≡ rest) ⊎ (all ≡ data_packet e ∷ rest)
  unfolding process_pending_data
  data_more e es = ground arith

  pub data-Memᴰ :
      (e : PendingDataEntry) (es : List PendingDataEntry)
      → Memᴰ e es
      → (e.requester == encounter
          || relays_by_tie v blank r me encounter e.last_relay_node e.requester)
        ≡ true
      → Memᴰ (data_packet e) (process_pending_data v blank r me encounter es).1
  data-Memᴰ e es (Memᴰ.head {x = x} {xs = xs} same) h =
      subst (λ x. Memᴰ (data_packet e) (process_pending_data v blank r me encounter (x ∷ xs)).1)
        same (subst (λ l. Memᴰ (data_packet e) l) (sym (data_sent e xs h)) (Memᴰ.head refl))
  data-Memᴰ e es (Memᴰ.tail {x = x} {xs = xs} m) h = Memᴰ-more (data_more x xs) (data-Memᴰ e xs m h)

  unknown_sent :
      (e : PendingInterestEntryUnknownContentProvider)
      (es : List PendingInterestEntryUnknownContentProvider)
      → relays_by_level v blank r me encounter e.last_relay_node ≡ true
      → (process_pending_unknown v blank r me encounter (e ∷ es)).1
        ≡ interest_packet e ∷ (process_pending_unknown v blank r me encounter es).1
  unfolding process_pending_unknown
  unknown_sent e es h = ground arith

  unknown_more :
      (e : PendingInterestEntryUnknownContentProvider)
      (es : List PendingInterestEntryUnknownContentProvider)
      → let rest = (process_pending_unknown v blank r me encounter es).1 in
        let all = (process_pending_unknown v blank r me encounter (e ∷ es)).1 in
        (all ≡ rest) ⊎ (all ≡ interest_packet e ∷ rest)
  unfolding process_pending_unknown
  unknown_more e es = ground arith

  pub unknown-Memᴰ :
      (e : PendingInterestEntryUnknownContentProvider)
      (es : List PendingInterestEntryUnknownContentProvider)
      → Memᴰ e es
      → relays_by_level v blank r me encounter e.last_relay_node ≡ true
      → Memᴰ (interest_packet e) (process_pending_unknown v blank r me encounter es).1
  unknown-Memᴰ e es (Memᴰ.head {x = x} {xs = xs} same) h =
      subst
        (λ x. Memᴰ (interest_packet e) (process_pending_unknown v blank r me encounter (x ∷ xs)).1)
        same (subst (λ l. Memᴰ (interest_packet e) l) (sym (unknown_sent e xs h)) (Memᴰ.head refl))
  unknown-Memᴰ e es (Memᴰ.tail {x = x} {xs = xs} m) h =
      Memᴰ-more (unknown_more x xs) (unknown-Memᴰ e xs m h)

module _ {ℓ κ μ τ} {R : Type ℓ} {C : Type κ} {M : Type μ} {T : Type τ} (v : Services R C M T)
    (blank : PktHeader T) where
  same_data_packet :
      (me q : Address) (b : ℕ) (c : Address) (e : PendingDataEntry)
      → is_for q b c e ≡ true
      → (e.requester ≡ q)
        × (create_data_packet_header blank me e.requester q e.broadcast_id e.requested_content
            ≡ create_data_packet_header blank me q q b c)
  unfolding is_for
  same_data_packet me q b c e h = ground arith

  -- The requester is met: what waits for it is sent, whatever nodes the data went to before.
  pub requester-Memᴰ :
      (r : R) (me q : Address) (b : ℕ) (c : Address) (es : List PendingDataEntry)
      → exists (is_for q b c) es ≡ true
      → Memᴰ (create_data_packet_header blank me q q b c) (process_pending_data v blank r me q es).1
  unfolding exists
  requester-Memᴰ r me q b c [] h = absurd (cc)
  requester-Memᴰ r me q b c (e ∷ es) h = elim (Bool-cases (is_for q b c e)) [
    | inl it ↦
        let (same, packet) = same_data_packet me q b c e it in
        subst (λ p. Memᴰ p (process_pending_data v blank r me q (e ∷ es)).1) packet
          (data-Memᴰ v blank r me q e (e ∷ es) (Memᴰ.head refl) (ground arith))
    | inr other ↦
        Memᴰ-more (data_more v blank r me q e es) (requester-Memᴰ r me q b c es (ground arith))
  ]

  -- What HandleHello does: what its loops send is sent.
  pub record Answers (now : Time) (header : PktHeader T) (s : PaymentNetwork R C M)
      (o : PaymentNetwork R C M × List (PktHeader T)) : Type (ℓ ⊔ κ ⊔ μ ⊔ τ) where
    pub handled : handle_hello v blank now header s ≡ some o
    pub consistent : IsConsistent o.0
    pub same_address : o.0.node_address ≡ s.node_address
    pub same_request : o.0.initial_requested_content ≡ s.initial_requested_content
    pub waits :
        o.0.pending_data
        ≡ (process_pending_data v blank
            (merged v now header s)
            s.node_address
            header.source
            s.pending_data).0
    pub sends_data :
        (p : PktHeader T)
        → Memᴰ p
            (process_pending_data v blank
              (merged v now header s)
              s.node_address
              header.source
              s.pending_data).1
        → Memᴰ p o.1
    pub sends_unknown :
        (p : PktHeader T)
        → Memᴰ p
            (process_pending_unknown v blank
              (merged v now header s)
              s.node_address
              header.source
              s.pending_interest_unknown).1
        → Memᴰ p o.1

  -- The assertions hold: the handler returns.
  pub hello-Answers :
      (now : Time) (header : PktHeader T) (s : PaymentNetwork R C M)
      → IsConsistent s
      → (o : PaymentNetwork R C M × List (PktHeader T)) × Answers now header s o
  unfolding handle_hello
  hello-Answers now header s h =
      let r = merged v now header s in
      let d = process_pending_data v blank r s.node_address header.source s.pending_data in
      let u =
        process_pending_unknown v blank r s.node_address header.source s.pending_interest_unknown in
      let s' = record s { relationship = r } in
      let first = decide_digest v blank header.source s' in
      let (k, done, same) =
        process_known_total v blank r s.node_address header.source s.pending_interest_known h in
      (
        (
          record s' {
            pending_data = d.0;
            pending_interest_known = k.0;
            pending_interest_unknown = u.0;
          },
          first ++ d.1 ++ k.1 ++ u.1,
        ),
        record {
          handled = rw (done, handle_hello) refl;
          consistent = same;
          same_address = refl;
          same_request = refl;
          waits = refl;
          sends_data =
              λ p m. Memᴰ.append_left u.1 (Memᴰ.append_left k.1 (Memᴰ.append_right first m));
          sends_unknown = λ p m. Memᴰ.append_right (first ++ d.1 ++ k.1) m;
        },
      )
