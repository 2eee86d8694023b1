-- ===== src/Table/Invariant.antt =====
-- What every operation of the routing table of model/rtable.cc keeps.
use cnrlchain.Base.{
  ℕ, ◌≡◌, refl, ◌⊎◌, inl, inr, Bool, true, Option, none, some, List, [], ◌∷◌, arith, Address, Time,
  if◌then◌else◌, is_some, Bool-cases, sym, subst,
}
use mathlib.Core.Option.{some-injective}
use cnrlchain.Base.Map.{
  AddressMap, IsSorted, Every, find, insert, adjust, sweep, erase, insert-IsSorted, adjust-IsSorted,
  sweep-IsSorted, erase-IsSorted, Every-insert, Every-sweep, Every-erase, Every-adjust_at,
}
use cnrlchain.Route.{RouteFlags, is_in_search, invalidate, Interfaces, RoutingTableEntry}
use cnrlchain.Table.{
  RoutingTable, new_table, set_bad_link_lifetime, age, purge, lookup_route, delete_route, settle,
  add_route, update, set_entry_state, get_list_of_destination_with_next_hop, invalidate_listed,
  invalidate_routes_with_dst, delete_all_routes_from_interface, clear, mark_link_as_unidirectional,
}

-- An entry under its own destination, with requests counted only while the route is searched for.
abbrev pub IsFiled {ℓ} : {I : Type ℓ} → Address → RoutingTableEntry I → Type 0
IsFiled k e = (e.route.destination ≡ k) × ((is_in_search e.flag ≡ true) ⊎ (e.req_count ≡ 0))

-- The keys are in strict order, so no destination has two entries, and every entry is filed.
pub record IsWellFormed {ℓ} {I : Type ℓ} (t : RoutingTable I) : Type 0 where
  pub sorted : IsSorted t.entries
  pub filed : Every IsFiled t.entries

-- One call of the class.
pub data Call {ℓ} (I : Type ℓ) : Type ℓ where
  purges : Call I
  looks : Address → Call I
  deletes : Address → Call I
  adds : RoutingTableEntry I → Call I
  updates : RoutingTableEntry I → Call I
  sets : Address → RouteFlags → Call I
  lists : Address → Call I
  breaks : AddressMap ℕ → Call I
  unplugs : I → Call I
  clears : Call I
  marks : Address → Time → Call I
  times : Time → Call I

module _ {ℓ} {I : Type ℓ} (net : Interfaces I) where
  unfoldable pub step : Time → Call I → RoutingTable I → RoutingTable I
  step now purges t = purge now t
  step now (looks id) t = (lookup_route now id t).0
  step now (deletes dst) t = (delete_route now dst t).0
  step now (adds rt) t = (add_route now rt t).0
  step now (updates rt) t = (update rt t).0
  step now (sets id state) t = (set_entry_state id state t).0
  step now (lists hop) t = (get_list_of_destination_with_next_hop now hop t).0
  step now (breaks us) t = invalidate_routes_with_dst now us t
  step now (unplugs iface) t = delete_all_routes_from_interface net iface t
  step now clears t = clear t
  step now (marks n out) t = (mark_link_as_unidirectional n out t).0
  step now (times bad) t = set_bad_link_lifetime bad t

  unfoldable pub run : List (Time × Call I) → RoutingTable I → RoutingTable I
  run [] t = t
  run ((now, call) ∷ calls) t = run calls (step now call t)

module _ {ℓ} {I : Type ℓ} where
  age-IsFiled :
      (now bad : Time) (k : Address) (e e' : RoutingTableEntry I)
      → age now bad e ≡ some e'
      → IsFiled k e
      → IsFiled k e'
  unfolding age
  age-IsFiled now bad k e e' a h = ground arith

  invalidate_listed-IsFiled :
      (now bad : Time) (k : Address) (us : AddressMap ℕ) (e : RoutingTableEntry I)
      → IsFiled k e
      → IsFiled k (invalidate_listed now bad k us e)
  unfolding invalidate_listed invalidate
  invalidate_listed-IsFiled now bad k [] e h = h
  invalidate_listed-IsFiled now bad k ((j, s) ∷ us) e h =
      invalidate_listed-IsFiled now bad k us _ (ground arith)

  settle-IsFiled :
      (k : Address) (rt : RoutingTableEntry I) → rt.route.destination ≡ k → IsFiled k (settle rt)
  unfolding settle
  settle-IsFiled k rt e = ground arith

  pub settle-destination :
      (rt : RoutingTableEntry I) → (settle rt).route.destination ≡ rt.route.destination
  unfolding settle
  settle-destination rt = ground arith

  insert-IsWellFormed :
      (rt : RoutingTableEntry I) (t : RoutingTable I)
      → IsWellFormed t
      → IsWellFormed
          (record t { entries = (insert (settle rt).route.destination (settle rt) t.entries).0 })
  insert-IsWellFormed rt t h = record {
    sorted = insert-IsSorted _ _ t.entries h.sorted;
    filed =
        Every-insert IsFiled _ _ t.entries (settle-IsFiled _ rt (sym (settle-destination rt)))
          h.filed;
  }

  -- A write through an iterator of `find` that files what it writes.
  adjust-IsWellFormed :
      (k : Address) (f : RoutingTableEntry I → RoutingTableEntry I) (t : RoutingTable I)
      → ((e : RoutingTableEntry I) → IsFiled k e → IsFiled k (f e))
      → IsWellFormed t
      → IsWellFormed (record t { entries = adjust k f t.entries })
  adjust-IsWellFormed k f t keep h = record {
    sorted = adjust-IsSorted k f t.entries h.sorted;
    filed = Every-adjust_at IsFiled k f t.entries keep h.filed;
  }

  update-IsWellFormed :
      (rt : RoutingTableEntry I) (t : RoutingTable I)
      → IsWellFormed t
      → IsWellFormed (update rt t).0
  unfolding update
  update-IsWellFormed rt t h = elim (Bool-cases (is_some (find rt.route.destination t.entries))) [
    | inl e ↦
        rw (e, update)
          (adjust-IsWellFormed rt.route.destination (λ _. settle rt) t
            (λ _ _. settle-IsFiled _ rt refl) h)
    | inr e ↦ rw (e, update) h
  ]

  set_entry_state-IsWellFormed :
      (id : Address) (state : RouteFlags) (t : RoutingTable I)
      → IsWellFormed t
      → IsWellFormed (set_entry_state id state t).0
  unfolding set_entry_state
  set_entry_state-IsWellFormed id state t h = elim (Bool-cases (is_some (find id t.entries))) [
    | inl e ↦ rw (e, set_entry_state) (adjust-IsWellFormed id _ t (λ e f. (f.0, inr refl)) h)
    | inr e ↦ rw (e, set_entry_state) h
  ]

  mark_link-IsWellFormed :
      (n : Address) (out : Time) (t : RoutingTable I)
      → IsWellFormed t
      → IsWellFormed (mark_link_as_unidirectional n out t).0
  unfolding mark_link_as_unidirectional
  mark_link-IsWellFormed n out t h = elim (Bool-cases (is_some (find n t.entries))) [
    | inl e ↦
        rw (e, mark_link_as_unidirectional) (adjust-IsWellFormed n _ t (λ e f. (f.0, inr refl)) h)
    | inr e ↦ rw (e, mark_link_as_unidirectional) h
  ]

  -- A loop over the map that files what it leaves.
  pub sweep-IsWellFormed :
      (f : Address → RoutingTableEntry I → Option (RoutingTableEntry I)) (t : RoutingTable I)
      → ((k : Address) (e e' : RoutingTableEntry I) → f k e ≡ some e' → IsFiled k e → IsFiled k e')
      → IsWellFormed t
      → IsWellFormed (record t { entries = sweep f t.entries })
  sweep-IsWellFormed f t keep h = record {
    sorted = sweep-IsSorted f t.entries h.sorted;
    filed = Every-sweep IsFiled f t.entries keep h.filed;
  }

  pub purge-IsWellFormed :
      (now : Time) (t : RoutingTable I) → IsWellFormed t → IsWellFormed (purge now t)
  unfolding purge
  purge-IsWellFormed now t h =
      sweep-IsWellFormed _ t (λ k e e' a. age-IsFiled now t.bad_link_lifetime k e e' a) h

  delete-IsWellFormed :
      (dst : Address) (t : RoutingTable I)
      → IsWellFormed t
      → IsWellFormed (record t { entries = erase dst t.entries })
  delete-IsWellFormed dst t h = record {
    sorted = erase-IsSorted dst t.entries h.sorted;
    filed = Every-erase IsFiled dst t.entries h.filed;
  }

module _ {ℓ} {I : Type ℓ} (net : Interfaces I) where
  step-IsWellFormed :
      (now : Time) (call : Call I) (t : RoutingTable I)
      → IsWellFormed t
      → IsWellFormed (step net now call t)
  unfolding step lookup_route delete_route add_route get_list_of_destination_with_next_hop
      invalidate_routes_with_dst delete_all_routes_from_interface clear set_bad_link_lifetime
  step-IsWellFormed now purges t h = purge-IsWellFormed now t h
  step-IsWellFormed now (looks id) t h = purge-IsWellFormed now t h
  step-IsWellFormed now (deletes dst) t h =
      delete-IsWellFormed dst (purge now t) (purge-IsWellFormed now t h)
  step-IsWellFormed now (adds rt) t h =
      insert-IsWellFormed rt (purge now t) (purge-IsWellFormed now t h)
  step-IsWellFormed now (updates rt) t h = update-IsWellFormed rt t h
  step-IsWellFormed now (sets id state) t h = set_entry_state-IsWellFormed id state t h
  step-IsWellFormed now (lists hop) t h = purge-IsWellFormed now t h
  step-IsWellFormed now (breaks us) t h =
      sweep-IsWellFormed _ (purge now t)
        (λ k e e' a f.
          subst (IsFiled k) (some-injective _ _ a)
            (invalidate_listed-IsFiled now t.bad_link_lifetime k us e f))
        (purge-IsWellFormed now t h)
  step-IsWellFormed now (unplugs iface) t h =
      sweep-IsWellFormed _ t (λ k e e' a f. kept k e e' (net.same e.iface iface) a f) h
    where
      kept :
          (k : Address) (e e' : RoutingTableEntry I) (b : Bool)
          → (if b then none else some e) ≡ some e'
          → IsFiled k e
          → IsFiled k e'
      kept k e e' b a f = ground arith
  step-IsWellFormed now clears t h = record { sorted = tt; filed = tt }
  step-IsWellFormed now (marks n out) t h = mark_link-IsWellFormed n out t h
  step-IsWellFormed now (times bad) t h = record { sorted = h.sorted; filed = h.filed }

  run_from-IsWellFormed :
      (calls : List (Time × Call I)) (t : RoutingTable I)
      → IsWellFormed t
      → IsWellFormed (run net calls t)
  unfolding run
  run_from-IsWellFormed [] t h = h
  run_from-IsWellFormed ((now, call) ∷ calls) t h =
      run_from-IsWellFormed calls (step net now call t) (step-IsWellFormed now call t h)

  -- After any history of calls on a new table, at any times and with any entries: the keys are in
  -- strict order, every entry stands under its own destination, and an entry that is not in search
  -- counts no requests.
  pub run-IsWellFormed :
      (bad : Time) (calls : List (Time × Call I)) → IsWellFormed (run net calls (new_table bad))
  unfolding new_table
  run-IsWellFormed bad calls = run_from-IsWellFormed calls _ (record { sorted = tt; filed = tt })
