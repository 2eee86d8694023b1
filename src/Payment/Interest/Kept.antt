-- ===== src/Payment/Interest/Kept.antt =====
-- What becomes of an interest in HandleInterestUnknownContentProvider of model/payment-network.cc.
use mathlib.Core.List.{Perm, append-nil, map-append, perm_middle}
use mathlib.Core.List.Perm
use cnrlchain.Base.{
  ◌≡◌, refl, inl, inr, true, false, ◌&&◌, List, [], ◌∷◌, ◌++◌, map, arith, Address, ◌==◌, not,
  Bool-cases, subst, All,
}
use cnrlchain.Payment.{
  PktHeader, InterestEntry, Services, PaymentNetwork, PendingDataEntry,
  PendingInterestEntryKnownContentProvider, PendingInterestEntryUnknownContentProvider,
  create_data_packet_header,
}
use cnrlchain.Payment.Interest.{
  data_entry, known_entry, unknown_entry, interest_of, serve, save_known, save_unknown,
  record_interest, handle_interest_unknown,
}

-- The interest that an entry waits for.
abbrev pub data_interest : PendingDataEntry → InterestEntry
data_interest e = record {
  requester = e.requester;
  broadcast_id = e.broadcast_id;
  requested_content = e.requested_content;
}

abbrev pub known_interest : PendingInterestEntryKnownContentProvider → InterestEntry
known_interest e = record {
  requester = e.requester;
  broadcast_id = e.broadcast_id;
  requested_content = e.requested_content;
}

abbrev pub unknown_interest : PendingInterestEntryUnknownContentProvider → InterestEntry
unknown_interest e = record {
  requester = e.requester;
  broadcast_id = e.broadcast_id;
  requested_content = e.requested_content;
}

-- The interests of all three vectors.
abbrev pub interests {ℓ κ μ} :
    {R : Type ℓ} {C : Type κ} {M : Type μ} → PaymentNetwork R C M → List InterestEntry
interests s =
    map known_interest s.pending_interest_known
    ++ (map unknown_interest s.pending_interest_unknown ++ map data_interest s.pending_data)

perm_snoc {ℓ} : {A : Type ℓ} (x : A) (xs : List A) → Perm (xs ++ x ∷ []) (x ∷ xs)
perm_snoc x xs = subst (λ l. Perm (xs ++ x ∷ []) (x ∷ l)) (append-nil xs) (perm_middle xs [])

module _ {ℓ} {A : Type ℓ} (x : A) (ks us ds : List A) where
  perm_known : Perm ((ks ++ x ∷ []) ++ (us ++ ds)) (x ∷ (ks ++ (us ++ ds)))
  perm_known = Perm.append_right (us ++ ds) (perm_snoc x ks)

  perm_unknown : Perm (ks ++ ((us ++ x ∷ []) ++ ds)) (x ∷ (ks ++ (us ++ ds)))
  perm_unknown =
      Perm.trans (Perm.append_left ks (Perm.append_right ds (perm_snoc x us)))
        (perm_middle ks (us ++ ds))

  perm_data : Perm (ks ++ (us ++ (ds ++ x ∷ []))) (x ∷ (ks ++ (us ++ ds)))
  perm_data =
      Perm.trans (Perm.append_left ks (Perm.append_left us (perm_snoc x ds)))
        (Perm.trans (Perm.append_left ks (perm_middle us ds)) (perm_middle ks (us ++ ds)))

module _ {ℓ κ μ τ} {R : Type ℓ} {C : Type κ} {M : Type μ} {T : Type τ} (v : Services R C M T)
    (blank : PktHeader T) where
  -- The interest of the header joins those that wait, or is answered to the node that it came from.
  abbrev pub Accounts :
      PktHeader T → PaymentNetwork R C M → PaymentNetwork R C M × List (PktHeader T) → Type 0
  Accounts header s r =
      Perm (interests r.0 ++ map interest_of r.1) (interest_of header ∷ interests s)
      × All (λ p. p.destination ≡ header.source) r.1

  save_known-Accounts :
      (header : PktHeader T) (provider : Address) (s : PaymentNetwork R C M)
      → Accounts header s (save_known v blank header provider s, [])
  unfolding save_known interest_of
  save_known-Accounts header provider s =
      let ks = map known_interest s.pending_interest_known in
      let us = map unknown_interest s.pending_interest_unknown in
      let ds = map data_interest s.pending_data in
      let e = known_entry header provider in
      (
        rw
            (
              append-nil (interests (save_known v blank header provider s)),
              map-append known_interest s.pending_interest_known (e ∷ []),
            )
            (perm_known (interest_of header) ks us ds),
        tt,
      )

  save_unknown-Accounts :
      (header : PktHeader T) (s : PaymentNetwork R C M)
      → Accounts header s (save_unknown v blank header s, [])
  unfolding save_unknown interest_of
  save_unknown-Accounts header s =
      let ks = map known_interest s.pending_interest_known in
      let us = map unknown_interest s.pending_interest_unknown in
      let ds = map data_interest s.pending_data in
      (
        rw
            (
              append-nil (interests (save_unknown v blank header s)),
              map-append unknown_interest s.pending_interest_unknown (unknown_entry header ∷ []),
            )
            (perm_unknown (interest_of header) ks us ds),
        tt,
      )

  data-Accounts :
      (header : PktHeader T) (s : PaymentNetwork R C M)
      → Accounts header s (record s { pending_data = s.pending_data ++ data_entry header ∷ [] }, [])
  unfolding interest_of
  data-Accounts header s =
      let ks = map known_interest s.pending_interest_known in
      let us = map unknown_interest s.pending_interest_unknown in
      let ds = map data_interest s.pending_data in
      let s' = record s { pending_data = s.pending_data ++ data_entry header ∷ [] } in
      (
        rw
            (
              append-nil (interests s'),
              map-append data_interest s.pending_data (data_entry header ∷ []),
            )
            (perm_data (interest_of header) ks us ds),
        tt,
      )

  serve-Accounts :
      (header : PktHeader T) (s : PaymentNetwork R C M) → Accounts header s (serve v blank header s)
  unfolding serve create_data_packet_header interest_of
  serve-Accounts header s = elim (Bool-cases (header.source == header.requester_id)) [
    | inl direct ↦ rw (direct, serve) (perm_snoc (interest_of header) (interests s), (refl, tt))
    | inr relayed ↦ rw (relayed, serve) (data-Accounts header s)
  ]

  serve-manager :
      (header : PktHeader T) (s : PaymentNetwork R C M)
      → (serve v blank header s).0.interest_manager ≡ s.interest_manager
  unfolding serve
  serve-manager header s = ground arith

  new-Accounts :
      (header : PktHeader T) (s : PaymentNetwork R C M)
      → (s.node_address == header.destination
          && not (v.interest_exist s.interest_manager (interest_of header)))
        ≡ true
      → let r = handle_interest_unknown v blank header s in
        Accounts header s r
        × (r.0.interest_manager ≡ v.interest_insert (interest_of header) s.interest_manager)
  unfolding handle_interest_unknown record_interest save_known save_unknown
  new-Accounts header s new =
      let s' = record_interest v blank header s in
      elim (Bool-cases (s.node_address == header.requested_content)) [
        | inl mine ↦
            let same : handle_interest_unknown v blank header s ≡ serve v blank header s' =
              ground arith in
            rw same (serve-Accounts header s', serve-manager header s')
        | inr other ↦
            elim (Bool-cases (v.content_exist s.content_manager header.requested_content)) [
              | inl has ↦
                  let same : handle_interest_unknown v blank header s
                      ≡ (save_known v blank header header.requested_content s', []) =
                    ground arith in
                  rw same (save_known-Accounts header header.requested_content s', refl)
              | inr lacks ↦
                  let same : handle_interest_unknown v blank header s
                      ≡ (save_unknown v blank header s', []) =
                    ground arith in
                  rw same (save_unknown-Accounts header s', refl)
            ]
      ]

  -- An interest whose content provider is not known is not lost: if it is for this node and new, it
  -- is recorded, and the interests of the entries that wait together with those that packets answer
  -- are afterwards those that waited before and this one, in some order; a packet that answers goes
  -- to the node that the interest came from. One that exists already, or that is for another node,
  -- leaves the state as it is and sends nothing.
  pub handle_interest_unknown_conserves :
      (header : PktHeader T) (s : PaymentNetwork R C M)
      → let r = handle_interest_unknown v blank header s in
        let new =
          s.node_address == header.destination
          && not (v.interest_exist s.interest_manager (interest_of header)) in
        (new ≡ false → r ≡ (s, []))
        × (new ≡ true
            → Accounts header s r
              × (r.0.interest_manager ≡ v.interest_insert (interest_of header) s.interest_manager))
  unfolding handle_interest_unknown record_interest
  handle_interest_unknown_conserves header s =
      (λ old. ground arith, λ new. new-Accounts header s new)
