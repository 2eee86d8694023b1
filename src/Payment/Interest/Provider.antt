-- ===== src/Payment/Interest/Provider.antt =====
-- The assertions of model/payment-network.cc: the content provider of a pending interest is the
-- requested content.
use cnrlchain.Base.{
  ◌≡◌, refl, ◌⊎◌, inl, inr, true, Option, some, List, [], ◌∷◌, ◌++◌, arith, Address, Time,
  any_address, ◌==◌, ==_self, ◌>>=◌, All, All-append, Bool-cases,
}
use cnrlchain.Payment.{
  PktHeader, PendingInterestEntryKnownContentProvider, Services, PaymentNetwork, new_network,
  request_content, start_application, handle_digest, create_interest_header_known,
}
use cnrlchain.Payment.Pending.{
  relays_by_tie, process_pending_data, process_pending_unknown, process_pending_known,
  decide_digest, handle_hello,
}
use cnrlchain.Payment.Interest.{
  known_entry, interest_of, handle_data, serve, save_known, save_unknown, record_interest,
  handle_interest_known, handle_interest_unknown,
}

-- The asserted equation of one entry.
abbrev pub NamesProvider : PendingInterestEntryKnownContentProvider → Type 0
NamesProvider e = (e.requested_content == e.content_provider) ≡ true

abbrev pub IsConsistent {ℓ κ μ} :
    {R : Type ℓ} {C : Type κ} {M : Type μ} → PaymentNetwork R C M → Type 0
IsConsistent s = All NamesProvider s.pending_interest_known

-- A packet that comes in, by its handler; a hello comes with the time.
pub data Call {τ} (T : Type τ) : Type τ where
  hears : Time → PktHeader T → Call T
  digests : PktHeader T → Call T
  gets : PktHeader T → Call T
  asked_known : PktHeader T → Call T
  asked_unknown : PktHeader T → Call T

module _ {ℓ κ μ τ} {R : Type ℓ} {C : Type κ} {M : Type μ} {T : Type τ} (v : Services R C M T)
    (blank : PktHeader T) where
  unfoldable pub step :
      Call T → PaymentNetwork R C M → Option (PaymentNetwork R C M × List (PktHeader T))
  unfolding handle_digest handle_hello handle_data handle_interest_known handle_interest_unknown
  step (hears now h) s = handle_hello v blank now h s
  step (digests h) s = some (handle_digest v h s, [])
  step (gets h) s = some (handle_data h s, [])
  step (asked_known h) s = handle_interest_known v blank h s
  step (asked_unknown h) s = some (handle_interest_unknown v blank h s)

  unfoldable pub run : List (Call T) → PaymentNetwork R C M → Option (PaymentNetwork R C M)
  unfolding step
  run [] s = some s
  run (c ∷ cs) s = step c s >>= λ (s', sent). run cs s'

  -- Every packet but an interest with a known provider, and of those each that names the requested
  -- content as its provider.
  abbrev pub IsProper : Call T → Type 0
  IsProper (asked_known h) = (h.requested_content == h.content_provider_id) ≡ true
  IsProper (hears now h) = Unit
  IsProper (digests h) = Unit
  IsProper (gets h) = Unit
  IsProper (asked_unknown h) = Unit

  pub process_known_total :
      (r : R) (me encounter : Address) (es : List PendingInterestEntryKnownContentProvider)
      → All NamesProvider es
      → (o : List PendingInterestEntryKnownContentProvider × List (PktHeader T))
        × (process_pending_known v blank r me encounter es ≡ some o)
        × All NamesProvider o.0
  unfolding process_pending_known
  process_known_total r me encounter [] h = (([], []), refl, tt)
  process_known_total r me encounter (e ∷ es) h =
      let (o, done, same) = process_known_total r me encounter es h.1 in
      let packet =
        create_interest_header_known blank me e.requester encounter e.broadcast_id
          e.requested_content e.content_provider in
      elim (Bool-cases (e.content_provider == encounter)) [
        | inl a ↦ ((e ∷ o.0, packet ∷ o.1), ground arith, (h.0, same))
        | inr b ↦
            elim (Bool-cases
              (relays_by_tie v blank r me encounter e.last_relay_node e.content_provider)) [
                | inl c ↦ (
                  (record e { last_relay_node = encounter } ∷ o.0, packet ∷ o.1),
                  ground arith,
                  (h.0, same),
                )
                | inr d ↦ ((e ∷ o.0, o.1), ground arith, (h.0, same))
              ]
      ]

  pub hello-IsConsistent :
      (now : Time) (header : PktHeader T) (s : PaymentNetwork R C M)
      → IsConsistent s
      → (o : PaymentNetwork R C M × List (PktHeader T)) × (handle_hello v blank now header s
          ≡ some o)
        × IsConsistent o.0
  unfolding handle_hello
  hello-IsConsistent now header s h =
      let r =
        v.update_and_merge_payment_table header.source now header.payment_tie_table
          s.relationship in
      let (o, done, same) =
        process_known_total r s.node_address header.source s.pending_interest_known h in
      let d = process_pending_data v blank r s.node_address header.source s.pending_data in
      let u =
        process_pending_unknown v blank r s.node_address header.source s.pending_interest_unknown in
      let s' = record s { relationship = r } in
      (
        (
          record s' {
            pending_data = d.0;
            pending_interest_known = o.0;
            pending_interest_unknown = u.0;
          },
          decide_digest v blank header.source s' ++ d.1 ++ o.1 ++ u.1,
        ),
        rw (done, handle_hello) refl,
        same,
      )

  -- What the handlers of data and of interests do to the vector of interests with a provider.
  data-known :
      (header : PktHeader T) (s : PaymentNetwork R C M)
      → (handle_data header s).pending_interest_known ≡ s.pending_interest_known
  unfolding handle_data
  data-known header s = ground arith

  digest-known :
      (header : PktHeader T) (s : PaymentNetwork R C M)
      → (handle_digest v header s).pending_interest_known ≡ s.pending_interest_known
  unfolding handle_digest
  digest-known header s = ground arith

  serve-known :
      (header : PktHeader T) (s : PaymentNetwork R C M)
      → (serve v blank header s).0.pending_interest_known ≡ s.pending_interest_known
  unfolding serve
  serve-known header s = ground arith

  unknown-known :
      (header : PktHeader T) (s : PaymentNetwork R C M)
      → let known = (handle_interest_unknown v blank header s).0.pending_interest_known in
        (known ≡ s.pending_interest_known)
        ⊎ (known ≡ s.pending_interest_known ++ known_entry header header.requested_content ∷ [])
  unfolding handle_interest_unknown save_known save_unknown record_interest
  unknown-known header s = ground (arith, serve-known header (record_interest v blank header s))

  snoc-NamesProvider :
      (es : List PendingInterestEntryKnownContentProvider)
      (e : PendingInterestEntryKnownContentProvider)
      → NamesProvider e
      → All NamesProvider es
      → All NamesProvider (es ++ e ∷ [])
  snoc-NamesProvider es e same h = All-append NamesProvider es (e ∷ []) h (same, tt)

  unknown-IsConsistent :
      (header : PktHeader T) (s : PaymentNetwork R C M)
      → IsConsistent s
      → IsConsistent (handle_interest_unknown v blank header s).0
  unknown-IsConsistent header s h = elim (unknown-known header s) [
    | inl same ↦ rw same h
    | inr more ↦ rw more (
        snoc-NamesProvider s.pending_interest_known (known_entry header header.requested_content)
          (==_self header.requested_content) h)
  ]

  known_total :
      (header : PktHeader T) (s : PaymentNetwork R C M)
      → (header.requested_content == header.content_provider_id) ≡ true
      → IsConsistent s
      → (r : PaymentNetwork R C M × List (PktHeader T)) × (handle_interest_known v blank header s
          ≡ some r)
        × IsConsistent r.0
  unfolding handle_interest_known save_known record_interest
  known_total header s names h =
      let s' = record_interest v blank header s in
      elim (Bool-cases (s.node_address == header.destination)) [
        | inr e ↦ ((s, []), rw (e, handle_interest_known) refl, h)
        | inl e ↦ elim (Bool-cases (v.interest_exist s.interest_manager (interest_of header))) [
          | inl old ↦ ((s, []), ground arith, h)
          | inr new ↦ elim (Bool-cases (s.node_address == header.requested_content)) [
            | inl mine ↦ (serve v blank header s', ground arith, rw (serve-known header s') h)
            | inr other ↦ (
              (save_known v blank header header.content_provider_id s', []),
              ground arith,
              snoc-NamesProvider s.pending_interest_known
                  (known_entry header header.content_provider_id) names h,
            )
          ]
        ]
      ]

  pub step_total :
      (c : Call T) (s : PaymentNetwork R C M)
      → IsProper c
      → IsConsistent s
      → (r : PaymentNetwork R C M × List (PktHeader T)) × (step c s ≡ some r) × IsConsistent r.0
  unfolding step handle_digest
  step_total (hears now header) s p h = hello-IsConsistent now header s h
  step_total (digests header) s p h =
      ((handle_digest v header s, []), refl, rw (digest-known header s) h)
  step_total (gets header) s p h = ((handle_data header s, []), refl, rw (data-known header s) h)
  step_total (asked_known header) s p h = known_total header s p h
  step_total (asked_unknown header) s p h =
      (handle_interest_unknown v blank header s, refl, unknown-IsConsistent header s h)

  pub run_total :
      (cs : List (Call T)) (s : PaymentNetwork R C M)
      → All IsProper cs
      → IsConsistent s
      → (s' : PaymentNetwork R C M) × (run cs s ≡ some s') × IsConsistent s'
  unfolding run
  run_total [] s p h = (s, refl, h)
  run_total (c ∷ cs) s p h =
      let (r, done, same) = step_total c s p.0 h in
      let (s', rest, all) = run_total cs r.0 p.1 same in (s', rw (done, run) rest, all)

  start-IsConsistent :
      (s : PaymentNetwork R C M) → IsConsistent s → IsConsistent (start_application v s)
  unfolding start_application
  start-IsConsistent s h = elim (Bool-cases (s.initial_requested_content == any_address)) [
    | inl e ↦ rw (e, start_application) h
    | inr e ↦ rw (e, start_application) h
  ]

  -- A node that was constructed and started handles every sequence of hellos, digests, data and
  -- interests without a failed assertion, if each interest with a known provider names the
  -- requested content as the provider; afterwards each of its own pending interests does so too.
  pub run-IsConsistent :
      (address : Address) (relationship : R) (owned request : Address) (contents : C)
      (interests : M) (cs : List (Call T))
      → All IsProper cs
      → (s' : PaymentNetwork R C M) × (run cs (
            start_application v
              (request_content request (new_network address relationship owned contents interests)))
          ≡ some s')
        × IsConsistent s'
  unfolding new_network request_content
  run-IsConsistent address relationship owned request contents interests cs p =
      let s = request_content request (new_network address relationship owned contents interests) in
      run_total cs (start_application v s) p (start-IsConsistent s tt)
