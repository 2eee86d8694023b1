-- ===== src/Payment/Delivery/Held.antt =====
-- The data that wait in PaymentNetwork of model/payment-network.cc: no handler removes an entry of
-- the pending data, and what an entry is for stays the same.
use cnrlchain.Base.{
  ℕ, ◌≡◌, refl, true, Bool, ◌&&◌, some, List, [], ◌∷◌, ◌++◌, arith, Address, Time, ◌==◌, exists,
  exists-append_left, bind-some, ◌∙◌,
}
use cnrlchain.Payment.{PktHeader, PendingDataEntry, Services, PaymentNetwork, handle_digest}
use cnrlchain.Payment.Pending.{
  process_pending_data, process_pending_unknown, process_pending_known, decide_digest, handle_hello,
}
use cnrlchain.Payment.Interest.{
  data_entry, handle_data, serve, save_known, save_unknown, record_interest, handle_interest_known,
  handle_interest_unknown,
}
use cnrlchain.Payment.Interest.Provider.{
  Call, hears, digests, gets, asked_known, asked_unknown, step, run,
}
use cnrlchain.Payment.Relay.Hello.{merged}

-- The entry is for the requester's interest with that broadcast id in that content.
unfoldable pub is_for : Address → ℕ → Address → PendingDataEntry → Bool
is_for requester broadcast_id content e =
    e.requester == requester && e.broadcast_id == broadcast_id && e.requested_content == content

module _ (p : PendingDataEntry → Bool) where
  -- The test does not read the last relay node.
  abbrev pub IsKept : Type 0
  IsKept = (e : PendingDataEntry) (a : Address) → p (record e { last_relay_node = a }) ≡ p e

pub is_for-IsKept : (q : Address) (b : ℕ) (c : Address) → IsKept (is_for q b c)
unfolding is_for
is_for-IsKept q b c e a = refl

module _ {ℓ κ μ τ} {R : Type ℓ} {C : Type κ} {M : Type μ} {T : Type τ} (v : Services R C M T)
    (blank : PktHeader T) (p : PendingDataEntry → Bool) (kept : IsKept p) where
  pub exists-process_pending_data :
      (r : R) (me encounter : Address) (es : List PendingDataEntry)
      → exists p (process_pending_data v blank r me encounter es).0 ≡ exists p es
  unfolding exists process_pending_data
  exists-process_pending_data r me encounter [] = refl
  exists-process_pending_data r me encounter (e ∷ es) =
      ground (arith, exists-process_pending_data r me encounter es, kept e encounter)

  -- What a handler leaves of a state: the address, the request and the entries of the test.
  abbrev pub Keeps : PaymentNetwork R C M → PaymentNetwork R C M → Type 0
  Keeps s s' =
      (s'.node_address ≡ s.node_address)
      × (s'.initial_requested_content ≡ s.initial_requested_content)
      × (exists p s.pending_data ≡ true → exists p s'.pending_data ≡ true)

  hello-Keeps :
      (now : Time) (header : PktHeader T) (s : PaymentNetwork R C M)
      {o : PaymentNetwork R C M × List (PktHeader T)}
      → handle_hello v blank now header s ≡ some o
      → Keeps s o.0
  unfolding handle_hello
  hello-Keeps now header s {o} h =
      let r = merged v now header s in
      let d = process_pending_data v blank r s.node_address header.source s.pending_data in
      let u =
        process_pending_unknown v blank r s.node_address header.source s.pending_interest_unknown in
      let s' = record s { relationship = r } in
      let (k, _, done) =
        bind-some
          (process_pending_known v blank r s.node_address header.source s.pending_interest_known)
          (λ k. some (
            record s' {
              pending_data = d.0;
              pending_interest_known = k.0;
              pending_interest_unknown = u.0;
            },
            decide_digest v blank header.source s' ++ d.1 ++ k.1 ++ u.1,
          ))
          h in
      ground (arith, exists-process_pending_data r s.node_address header.source s.pending_data)

  digest-Keeps :
      (header : PktHeader T) (s : PaymentNetwork R C M) → Keeps s (handle_digest v header s)
  unfolding handle_digest
  digest-Keeps header s = ground arith

  data-Keeps : (header : PktHeader T) (s : PaymentNetwork R C M) → Keeps s (handle_data header s)
  unfolding handle_data
  data-Keeps header s = ground (arith, exists-append_left p s.pending_data (data_entry header ∷ []))

  serve-Keeps :
      (header : PktHeader T) (s : PaymentNetwork R C M) → Keeps s (serve v blank header s).0
  unfolding serve
  serve-Keeps header s =
      ground (arith, exists-append_left p s.pending_data (data_entry header ∷ []))

  pub unknown-Keeps :
      (header : PktHeader T) (s : PaymentNetwork R C M)
      → Keeps s (handle_interest_unknown v blank header s).0
  unfolding handle_interest_unknown save_known save_unknown record_interest
  unknown-Keeps header s = ground (arith, serve-Keeps header (record_interest v blank header s))

  known-Keeps :
      (header : PktHeader T) (s : PaymentNetwork R C M)
      {o : PaymentNetwork R C M × List (PktHeader T)}
      → handle_interest_known v blank header s ≡ some o
      → Keeps s o.0
  unfolding handle_interest_known save_known record_interest
  known-Keeps header s {o} h = ground (arith, serve-Keeps header (record_interest v blank header s))

  step-Keeps :
      (c : Call T) (s : PaymentNetwork R C M) {o : PaymentNetwork R C M × List (PktHeader T)}
      → step v blank c s ≡ some o
      → Keeps s o.0
  unfolding step
  step-Keeps (hears now header) s {o} h = hello-Keeps now header s {o = o} h
  step-Keeps (digests header) s {o} h = ground (arith, digest-Keeps header s)
  step-Keeps (gets header) s {o} h = ground (arith, data-Keeps header s)
  step-Keeps (asked_known header) s {o} h = known-Keeps header s {o = o} h
  step-Keeps (asked_unknown header) s {o} h = ground (arith, unknown-Keeps header s)

  pub run-Keeps :
      (cs : List (Call T)) (s : PaymentNetwork R C M) {s' : PaymentNetwork R C M}
      → run v blank cs s ≡ some s'
      → Keeps s s'
  unfolding run
  run-Keeps [] s {s'} h = ground arith
  run-Keeps (c ∷ cs) s {s'} h =
      let (o, here, rest) = bind-some (step v blank c s) (λ o. run v blank cs o.0) h in
      let (address, content, held) = step-Keeps c s {o = o} here in
      let (address', content', held') = run-Keeps cs o.0 {s' = s'} rest in
      (address' ∙ address, content' ∙ content, λ e. held' (held e))
