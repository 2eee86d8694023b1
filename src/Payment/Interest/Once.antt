-- ===== src/Payment/Interest/Once.antt =====
-- How often the handlers of model/payment-network.cc act on the same data and the same interest.
use cnrlchain.Base.{
  ℕ, ◌≡◌, refl, inl, inr, true, false, some, [], ◌∷◌, arith, Address, exists, ◌==◌, ◌++◌, List,
  Time, bind-some, ==_self, Bool-cases, exists-append_right,
}
use cnrlchain.Payment.Pending.{
  process_pending_data, process_pending_unknown, process_pending_known, decide_digest, handle_hello,
}
use cnrlchain.Payment.Interest.Provider.{
  Call, hears, digests, gets, asked_known, asked_unknown, step, run,
}
use cnrlchain.Payment.{PktHeader, InterestEntry, Services, PaymentNetwork, handle_digest}
use cnrlchain.Payment.Interest.{
  data_entry, same_data, handle_data, interest_of, serve, save_known, save_unknown, record_interest,
  handle_interest_known, handle_interest_unknown,
}

-- What the handlers rely on of InterestManager: an interest that was inserted exists, and goes on
-- existing.
pub record KeepsInterests {ℓ κ μ τ} {R : Type ℓ} {C : Type κ} {M : Type μ} {T : Type τ}
    (v : Services R C M T) : Type μ where
  pub exist_insert : (m : M) (i : InterestEntry) → v.interest_exist (v.interest_insert i m) i ≡ true
  pub exist_kept :
      (m : M) (i j : InterestEntry)
      → v.interest_exist m i ≡ true
      → v.interest_exist (v.interest_insert j m) i ≡ true

module _ {ℓ κ μ τ} {R : Type ℓ} {C : Type κ} {M : Type μ} {T : Type τ} (v : Services R C M T)
    (blank : PktHeader T) where
  unknown-records :
      KeepsInterests v
      → (header : PktHeader T) (s : PaymentNetwork R C M)
      → (s.node_address == header.destination) ≡ true
      → let s' = (handle_interest_unknown v blank header s).0 in
        (v.interest_exist s'.interest_manager (interest_of header) ≡ true)
        × (s'.node_address ≡ s.node_address)
  unfolding handle_interest_unknown serve save_known save_unknown record_interest
  unknown-records law header s mine =
      ground (arith, law.exist_insert s.interest_manager (interest_of header))

  unknown_old :
      (header : PktHeader T) (s : PaymentNetwork R C M)
      → v.interest_exist s.interest_manager (interest_of header) ≡ true
      → handle_interest_unknown v blank header s ≡ (s, [])
  unfolding handle_interest_unknown
  unknown_old header s old = elim (Bool-cases (s.node_address == header.destination)) [
    | inl e ↦ rw (e, handle_interest_unknown) (rw (old, handle_interest_unknown) refl)
    | inr e ↦ rw (e, handle_interest_unknown) refl
  ]

  known_old :
      (header : PktHeader T) (s : PaymentNetwork R C M)
      → v.interest_exist s.interest_manager (interest_of header) ≡ true
      → (header.requested_content == header.content_provider_id) ≡ true
      → handle_interest_known v blank header s ≡ some (s, [])
  unfolding handle_interest_known
  known_old header s old provider = elim (Bool-cases (s.node_address == header.destination)) [
    | inl e ↦
        rw (e, handle_interest_known)
          (rw (provider, handle_interest_known) (rw (old, handle_interest_known) refl))
    | inr e ↦ rw (e, handle_interest_known) refl
  ]

  -- What every handler leaves: the interest that exists.
  abbrev Exists : InterestEntry → PaymentNetwork R C M → Type 0
  Exists i s = v.interest_exist s.interest_manager i ≡ true

  hello-Exists :
      (now : Time) (header : PktHeader T) (s : PaymentNetwork R C M) (i : InterestEntry)
      {o : PaymentNetwork R C M × List (PktHeader T)}
      → handle_hello v blank now header s ≡ some o
      → Exists i s
      → Exists i o.0
  unfolding handle_hello
  hello-Exists now header s i {o} h e =
      let r =
        v.update_and_merge_payment_table header.source now header.payment_tie_table
          s.relationship in
      let (k, _, done) =
        bind-some
          (process_pending_known v blank r s.node_address header.source s.pending_interest_known)
          (λ k. some (
            record s {
              relationship = r;
              pending_data =
                  (process_pending_data v blank r s.node_address header.source s.pending_data).0;
              pending_interest_known = k.0;
              pending_interest_unknown =
                  (process_pending_unknown v blank r s.node_address header.source
                    s.pending_interest_unknown).0;
            },
            decide_digest v blank header.source (record s { relationship = r })
                ++ (process_pending_data v blank r s.node_address header.source s.pending_data).1
                ++ k.1
                ++ (process_pending_unknown v blank r s.node_address header.source
                    s.pending_interest_unknown).1,
          ))
          h in
      ground arith

  step-Exists :
      KeepsInterests v
      → (c : Call T) (s : PaymentNetwork R C M) (i : InterestEntry)
        {o : PaymentNetwork R C M × List (PktHeader T)}
      → step v blank c s ≡ some o
      → Exists i s
      → Exists i o.0
  unfolding step handle_digest handle_data handle_interest_known handle_interest_unknown serve
      save_known save_unknown record_interest
  step-Exists law (hears now header) s i {o} h e = hello-Exists now header s i {o = o} h e
  step-Exists law (digests header) s i {o} h e = ground arith
  step-Exists law (gets header) s i {o} h e = ground arith
  step-Exists law (asked_known header) s i {o} h e =
      ground (arith, law.exist_kept s.interest_manager i (interest_of header))
  step-Exists law (asked_unknown header) s i {o} h e =
      ground (arith, law.exist_kept s.interest_manager i (interest_of header))

  run-Exists :
      KeepsInterests v
      → (cs : List (Call T)) (s : PaymentNetwork R C M) (i : InterestEntry)
        {s' : PaymentNetwork R C M}
      → run v blank cs s ≡ some s'
      → Exists i s
      → Exists i s'
  unfolding run
  run-Exists law [] s i {s'} h e = ground arith
  run-Exists law (c ∷ cs) s i {s'} h e =
      let (o, here, rest) = bind-some (step v blank c s) (λ o. run v blank cs o.0) h in
      run-Exists law cs o.0 i {s' = s'} rest (step-Exists law c s i {o = o} here e)

  -- Once an interest for this node was handled as one whose provider is not known, it is handled
  -- for good, if an interest that was inserted goes on existing: whatever packets the node handles
  -- in between, if no assertion fails, a second header of the same interest changes nothing and
  -- sends nothing, as one whose provider is not known and, if it names the requested content as its
  -- provider, as the other kind too.
  pub handle_interest-once :
      KeepsInterests v
      → (header again : PktHeader T) (s : PaymentNetwork R C M) (cs : List (Call T))
        {s' : PaymentNetwork R C M}
      → (s.node_address == header.destination) ≡ true
      → run v blank cs (handle_interest_unknown v blank header s).0 ≡ some s'
      → again.requester_id ≡ header.requester_id
      → again.interest_broadcast_id ≡ header.interest_broadcast_id
      → again.requested_content ≡ header.requested_content
      → (handle_interest_unknown v blank again s' ≡ (s', []))
        × ((again.requested_content == again.content_provider_id) ≡ true
            → handle_interest_known v blank again s' ≡ some (s', []))
  unfolding interest_of
  handle_interest-once law header again s cs {s'} mine between requester id content =
      let (known, _) = unknown-records law header s mine in
      let kept =
        run-Exists law cs (handle_interest_unknown v blank header s).0 (interest_of header)
          {s' = s'} between known in
      let exists_again : v.interest_exist s'.interest_manager (interest_of again) ≡ true =
        rw (requester, id, content) kept in
      (unknown_old again s' exists_again, λ provider. known_old again s' exists_again provider)

exists-data_entry {τ} :
    {T : Type τ} (header : PktHeader T)
    → exists (same_data header.requester_id header.interest_broadcast_id) (data_entry header ∷ [])
      ≡ true
unfolding exists same_data
exists-data_entry header =
    ground (arith, ==_self header.requester_id, ==_self header.interest_broadcast_id)

-- The vector of pending data has an entry of the request.
abbrev pub HasData {ℓ κ μ} :
    {R : Type ℓ} {C : Type κ} {M : Type μ} → Address → ℕ → PaymentNetwork R C M → Type 0
HasData requester id s = exists (same_data requester id) s.pending_data ≡ true

module _ {ℓ κ μ τ} {R : Type ℓ} {C : Type κ} {M : Type μ} {T : Type τ} where
  data-HasData :
      (header : PktHeader T) (s : PaymentNetwork R C M)
      → (s.node_address == header.destination) ≡ true
      → (s.initial_requested_content == header.requested_content) ≡ false
      → let s' = handle_data header s in
        HasData header.requester_id header.interest_broadcast_id s'
        × (s'.initial_requested_content ≡ s.initial_requested_content)
  unfolding handle_data
  data-HasData header s mine other =
      let p = same_data header.requester_id header.interest_broadcast_id in
      elim (Bool-cases (exists p s.pending_data)) [
        | inl old ↦
            rw (mine, handle_data) (rw (other, handle_data) (rw (old, handle_data) (old, refl)))
        | inr new ↦
            rw (mine, handle_data)
              (rw (other, handle_data)
                (rw (new, handle_data)
                  (
                    exists-append_right p s.pending_data (data_entry header ∷ [])
                        (exists-data_entry header),
                    refl,
                  )))
      ]

  HasData-handle_data :
      (again : PktHeader T) (s : PaymentNetwork R C M)
      → HasData again.requester_id again.interest_broadcast_id s
      → (s.initial_requested_content == again.requested_content) ≡ false
      → handle_data again s ≡ s
  unfolding handle_data
  HasData-handle_data again s old other = elim (Bool-cases (s.node_address == again.destination)) [
    | inl mine ↦ rw (mine, handle_data) (rw (other, handle_data) (rw (old, handle_data) refl))
    | inr e ↦ rw (e, handle_data) refl
  ]

  -- Data for this node that it did not ask for itself waits for its requester afterwards, and
  -- handling the same data again changes nothing.
  handle_data-twice :
      (header again : PktHeader T) (s : PaymentNetwork R C M)
      → (s.node_address == header.destination) ≡ true
      → (s.initial_requested_content == header.requested_content) ≡ false
      → again.requester_id ≡ header.requester_id
      → again.interest_broadcast_id ≡ header.interest_broadcast_id
      → again.requested_content ≡ header.requested_content
      → let s' = handle_data header s in
        HasData header.requester_id header.interest_broadcast_id s' × (handle_data again s' ≡ s')
  handle_data-twice header again s mine other requester id content =
      let (there, same) = data-HasData header s mine other in
      (
        there,
        HasData-handle_data again (handle_data header s) (rw (requester, id) there)
            (rw (same, content) other),
      )
