-- ===== src/Table/Lookup.antt =====
-- What can be read from the routing table of model/rtable.cc after an operation.
use cnrlchain.Base.{
  ◌≡◌, refl, ◌↔◌, inl, inr, true, false, not, none, some, arith, Address, Time, if◌then◌else◌,
  Option-cases, before, ◌&&◌, ◌==◌, ◌>>=◌, before-sub, is_some, ap, sym, ◌∙◌,
}
use cnrlchain.Base.Map.{
  Every-find, find, find-sweep, find-insert, insert_answer, find-erase, find-adjust,
}
use cnrlchain.Route.{valid, is_valid, Interfaces, RoutingTableEntry}
use cnrlchain.Table.Invariant.{IsWellFormed, IsFiled, settle-destination}
use cnrlchain.Table.{
  RoutingTable, age, purge, purge_entries, lookup_valid_route, delete_route, settle, add_route,
  update, delete_all_routes_from_interface,
}

module _ {ℓ} {I : Type ℓ} where
  -- `Purge` treats each destination by itself.
  pub find-purge :
      (now : Time) (k : Address) (t : RoutingTable I)
      → IsWellFormed t
      → find k (purge now t).entries ≡ (find k t.entries >>= age now t.bad_link_lifetime)
  unfolding purge purge_entries
  find-purge now k t h = find-sweep k _ t.entries h.sorted

  age-valid :
      (now bad : Time) (e e' : RoutingTableEntry I)
      → age now bad e ≡ some e'
      → is_valid e'.flag ≡ true
      → (e ≡ e') × (e.flag ≡ valid) × (before e.life_time now ≡ false)
  unfolding age
  age-valid now bad e e' a v = ground (arith, before-sub e.life_time now)

  age_live :
      (now bad : Time) (e : RoutingTableEntry I)
      → before e.life_time now ≡ false
      → age now bad e ≡ some e
  unfolding age
  age_live now bad e live = ground (arith, before-sub e.life_time now)

  lookup-answer :
      (now : Time) (id : Address) (t : RoutingTable I)
      → (lookup_valid_route now id t).2 ≡ true
      → (e : RoutingTableEntry I) × (find id (purge now t).entries ≡ some e)
        × (is_valid e.flag ≡ true)
  unfolding lookup_valid_route
  lookup-answer now id t h = elim (Option-cases (find id (purge now t).entries)) [
    | inl e ↦ absurd (ground arith)
    | inr (e, found) ↦ (e, found, ground arith)
  ]

  -- A VALID entry for the destination that has not expired.
  abbrev pub IsUsable : Time → Address → RoutingTable I → RoutingTableEntry I → Type ℓ
  IsUsable now id t e =
      (find id t.entries ≡ some e) × (e.flag ≡ valid) × (before e.life_time now ≡ false)

  answered-IsUsable :
      (now : Time) (id : Address) (t : RoutingTable I) (e : RoutingTableEntry I)
      → IsWellFormed t
      → find id (purge now t).entries ≡ some e
      → is_valid e.flag ≡ true
      → IsUsable now id t e
  answered-IsUsable now id t e' h found v = elim (Option-cases (find id t.entries)) [
    | inl missing ↦ absurd (ground (arith, find-purge now id t h))
    | inr (e, there) ↦
        let aged : age now t.bad_link_lifetime e ≡ some e' =
          ground (arith, find-purge now id t h) in
        let (same, flag, live) = age-valid now t.bad_link_lifetime e e' aged v in
        (there ∙ ap some same, ap (λ x. x.flag) (sym same) ∙ flag, rw (← same) live)
  ]

  -- `LookupValidRoute` answers true exactly if the table has a VALID entry for the destination that
  -- has not expired; that entry, unchanged, is what the caller gets.
  pub lookup_valid_route_iff :
      (now : Time) (id : Address) (t : RoutingTable I)
      → IsWellFormed t
      → ((lookup_valid_route now id t).2 ≡ true) ↔ (
          (e : RoutingTableEntry I) × IsUsable now id t e
          × ((lookup_valid_route now id t).1 ≡ some e)
          × (e.route.destination ≡ id))
  unfolding lookup_valid_route
  lookup_valid_route_iff now id t h = (
    λ answer.
        let (e, found, v) = lookup-answer now id t answer in
        let usable = answered-IsUsable now id t e h found v in
        (e, usable, found, (Every-find IsFiled id e t.entries usable.0 h.filed).0),
    λ (e, (found, v, live), _, _).
        ground (arith, find-purge now id t h, age_live now t.bad_link_lifetime e live),
  )

  -- `AddRoute` answers true exactly if the purged table has no entry for the destination, and then
  -- adds the entry, with its request count reset unless it is in search; an entry that is there is
  -- not replaced, and the other destinations are as the purge leaves them.
  pub add_route_lem :
      (now : Time) (rt : RoutingTableEntry I) (t : RoutingTable I)
      → let d = rt.route.destination in
        ((add_route now rt t).2 ≡ not (is_some (find d (purge now t).entries)))
        × ((k : Address)
            → find k (add_route now rt t).0.entries ≡ (elim (find k (purge now t).entries) [
              | none ↦ if d == k then some (settle rt) else none
              | some e ↦ some e
            ]))
  unfolding add_route
  add_route_lem now rt t =
      let d = rt.route.destination in
      let m = (purge now t).entries in
      rw (settle-destination rt) (insert_answer d (settle rt) m, λ k. find-insert d k (settle rt) m)

  -- `Update` answers true exactly if the destination has an entry, and then replaces it, with the
  -- request count reset unless the entry is in search; nothing else changes.
  pub update_lem :
      (rt : RoutingTableEntry I) (t : RoutingTable I)
      → let d = rt.route.destination in
        ((update rt t).1 ≡ is_some (find d t.entries))
        × ((k : Address)
            → find k (update rt t).0.entries ≡ (
                if d == k && is_some (find d t.entries)
                then some (settle rt)
                else find k t.entries))
  unfolding update
  update_lem rt t = (
    ground arith,
    λ k. ground (arith, find-adjust rt.route.destination k (λ _. settle rt) t.entries),
  )

  -- `DeleteRoute` answers true exactly if the purged table has an entry for the destination; the
  -- entry is gone, and the other destinations are as the purge leaves them.
  pub delete_route_lem :
      (now : Time) (dst : Address) (t : RoutingTable I)
      → ((delete_route now dst t).1 ≡ is_some (find dst (purge now t).entries))
        × ((k : Address)
            → find k (delete_route now dst t).0.entries
              ≡ (if dst == k then none else find k (purge now t).entries))
  unfolding delete_route
  delete_route_lem now dst t = (refl, λ k. find-erase dst k (purge now t).entries)

  -- `DeleteAllRoutesFromInterface` erases exactly the entries of the interface.
  pub delete_all_routes_lem :
      (net : Interfaces I) (iface : I) (k : Address) (t : RoutingTable I)
      → IsWellFormed t
      → find k (delete_all_routes_from_interface net iface t).entries
        ≡ (find k t.entries >>= λ e. if net.same e.iface iface then none else some e)
  unfolding delete_all_routes_from_interface
  delete_all_routes_lem net iface k t h = find-sweep k _ t.entries h.sorted
