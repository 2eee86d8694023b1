-- ===== src/Table/Broken.antt =====
-- A broken link in model/rtable.cc: which destinations are unreachable, and what happens to their
-- routes.
use mathlib.Core.Bool.{and-false}
use mathlib.Core.Path.{fun_ext}
use cnrlchain.Base.{
  ℕ, ◌≡◌, refl, inl, inr, Bool, true, false, Option, none, some, [], ◌∷◌, arith, Address, Time,
  ◌+ℤ◌, ◌>>=◌, ◌&&◌, ◌==◌, if◌then◌else◌, is_some, ap, ◌∙◌,
}
use cnrlchain.Base.Map.{AddressMap, IsSorted, find, find-Above, insert, find-insert, find-sweep}
use cnrlchain.Route.{invalid, is_valid, flag_cases, invalidate, RoutingTableEntry}
use cnrlchain.Table.Invariant.{IsWellFormed, purge-IsWellFormed}
use cnrlchain.Table.{
  RoutingTable, purge, collect, get_list_of_destination_with_next_hop, invalidate_listed,
  invalidate_routes_with_dst,
}

module _ {ℓ} {I : Type ℓ} where
  -- The sequence number of an entry whose next hop is the given one.
  abbrev pub seq_through : Address → RoutingTableEntry I → Option ℕ
  seq_through hop e = if e.route.gateway == hop then some e.seq_no else none

  collect_lem :
      (hop k : Address) (m : AddressMap (RoutingTableEntry I)) (acc : AddressMap ℕ)
      → IsSorted m
      → find k (collect hop m acc)
        ≡ (elim (find k acc) [ none ↦ find k m >>= seq_through hop | some s ↦ some s ])
  unfolding collect find
  collect_lem hop k [] acc h = ground arith
  collect_lem hop k ((j, e) ∷ m) acc h = ground (
    arith,
    collect_lem hop k m acc h.1,
    collect_lem hop k m (insert j e.seq_no acc).0 h.1,
    find-insert j k e.seq_no acc,
    find-Above j m h.0,
  )

  -- `GetListOfDestinationWithNextHop` lists exactly the destinations of the purged table whose next
  -- hop is the given one, each with the sequence number of its entry, whatever the precursors, the
  -- state and the age of the entry.
  get_list_lem :
      (now : Time) (hop k : Address) (t : RoutingTable I)
      → IsWellFormed t
      → find k (get_list_of_destination_with_next_hop now hop t).1
        ≡ (find k (purge now t).entries >>= seq_through hop)
  unfolding get_list_of_destination_with_next_hop find
  get_list_lem now hop k t h =
      collect_lem hop k (purge now t).entries [] (purge-IsWellFormed now t h).sorted

  invalidate_listed_not_valid :
      (now bad : Time) (k : Address) (us : AddressMap ℕ) (e : RoutingTableEntry I)
      → is_valid e.flag ≡ false
      → invalidate_listed now bad k us e ≡ e
  unfolding invalidate_listed
  invalidate_listed_not_valid now bad k [] e h = refl
  invalidate_listed_not_valid now bad k ((j, s) ∷ us) e h =
      rw (h, and-false (k == j)) (invalidate_listed_not_valid now bad k us e h)

  not_valid-invalidate :
      (now bad : Time) (e : RoutingTableEntry I) → is_valid (invalidate now bad e).flag ≡ false
  unfolding invalidate
  not_valid-invalidate now bad e = elim (flag_cases e.flag) [
    | inl v ↦ rw (v, invalidate)
    | inr (inl v) ↦ rw (v, invalidate)
    | inr (inr v) ↦ rw (v, invalidate)
  ]

  invalidate_listed_lem :
      (now bad : Time) (k : Address) (us : AddressMap ℕ) (e : RoutingTableEntry I)
      → invalidate_listed now bad k us e
        ≡ (if is_some (find k us) && is_valid e.flag then invalidate now bad e else e)
  unfolding invalidate_listed find
  invalidate_listed_lem now bad k [] e = refl
  invalidate_listed_lem now bad k ((j, s) ∷ us) e = ground (
    arith,
    invalidate_listed_lem now bad k us e,
    invalidate_listed_not_valid now bad k us e,
    invalidate_listed_not_valid now bad k us (invalidate now bad e),
    not_valid-invalidate now bad e,
  )

  invalidate_valid :
      (now bad : Time) (b : Bool) (e : RoutingTableEntry I)
      → (if b && is_valid e.flag then invalidate now bad e else e) ≡ (
          if b && is_valid e.flag
          then record e { flag = invalid; req_count = 0; life_time = bad +ℤ now }
          else e)
  unfolding invalidate
  invalidate_valid now bad false e = refl
  invalidate_valid now bad true e = elim (flag_cases e.flag) [
    | inl v ↦ rw v
    | inr (inl v) ↦ ground arith
    | inr (inr v) ↦ ground arith
  ]

  -- `InvalidateRoutesWithDst` makes exactly the listed VALID routes INVALID, to be deleted when the
  -- bad-link lifetime is over and with no requests counted; the sequence number and all else of
  -- such a route, and every other entry of the purged table, stay as they are.
  pub invalidate_routes_lem :
      (now : Time) (us : AddressMap ℕ) (k : Address) (t : RoutingTable I)
      → IsWellFormed t
      → find k (invalidate_routes_with_dst now us t).entries ≡ (
          find k (purge now t).entries >>= λ e. some (
            if is_some (find k us) && is_valid e.flag
            then record e { flag = invalid; req_count = 0; life_time = t.bad_link_lifetime +ℤ now }
            else e))
  unfolding invalidate_routes_with_dst
  invalidate_routes_lem now us k t h =
      find-sweep k _ (purge now t).entries (purge-IsWellFormed now t h).sorted
      ∙ ap (λ f. find k (purge now t).entries >>= f)
          (fun_ext (λ e. ap some (
            invalidate_listed_lem now t.bad_link_lifetime k us e
            ∙ invalidate_valid now t.bad_link_lifetime (is_some (find k us)) e)))
