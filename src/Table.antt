-- ===== src/Table.antt =====
-- RoutingTable of model/rtable.h and model/rtable.cc: a std::map from destinations to entries.
-- An operation that purges leaves the purged table, so the table comes first in its result. A loop
-- over an empty map does nothing, so the early returns on an empty map need no case of their own.
pub mod Lookup
pub mod Invariant
pub mod Expiry
pub mod Print
pub mod Broken
use cnrlchain.Base.{
  ℕ, ◌≡◌, Bool, true, false, ◌&&◌, Option, none, some, List, [], ◌∷◌, Address, Time, before, pos,
  ◌==◌, if◌then◌else◌, ◌>>=◌, is_some,
}
use cnrlchain.Base.Map.{AddressMap, find, insert, adjust, sweep, erase}
use cnrlchain.Route.{
  RouteFlags, valid, invalid, in_search, is_valid, is_in_search, Interfaces, RoutingTableEntry,
  get_life_time, invalidate,
}

pub record RoutingTable {ℓ} (I : Type ℓ) : Type ℓ where
  pub entries : AddressMap (RoutingTableEntry I)
  pub bad_link_lifetime : Time

module _ {ℓ} {I : Type ℓ} where
  unfoldable pub new_table : Time → RoutingTable I
  new_table t = record { entries = []; bad_link_lifetime = t }

  unfoldable pub set_bad_link_lifetime : Time → RoutingTable I → RoutingTable I
  set_bad_link_lifetime t r = record r { bad_link_lifetime = t }

  -- What the loop of `Purge` does to one entry; `none` erases it.
  unfoldable pub age : Time → Time → RoutingTableEntry I → Option (RoutingTableEntry I)
  unfolding get_life_time invalidate
  age now bad_link_lifetime e =
      if before (get_life_time now e) (pos 0)
      then (elim e.flag [
        | invalid ↦ none
        | valid ↦ some (invalidate now bad_link_lifetime e)
        | in_search ↦ some e
      ])
      else some e

  -- Both overloads of `Purge`: the map of the table, or the caller's.
  unfoldable pub purge_entries :
      Time → Time → AddressMap (RoutingTableEntry I) → AddressMap (RoutingTableEntry I)
  purge_entries now bad_link_lifetime = sweep (λ k. age now bad_link_lifetime)

  unfoldable pub purge : Time → RoutingTable I → RoutingTable I
  unfolding purge_entries
  purge now t = record t { entries = purge_entries now t.bad_link_lifetime t.entries }

  unfoldable pub lookup_route :
      Time → Address → RoutingTable I → RoutingTable I × Option (RoutingTableEntry I)
  unfolding purge
  lookup_route now id t = (purge now t, find id (purge now t).entries)

  -- The entry is written also where the answer is false.
  unfoldable pub lookup_valid_route :
      Time → Address → RoutingTable I → RoutingTable I × Option (RoutingTableEntry I) × Bool
  unfolding lookup_route
  lookup_valid_route now id t =
      let (t', rt) = lookup_route now id t in
      (t', rt, elim rt [ none ↦ false | some e ↦ is_valid e.flag ])

  unfoldable pub delete_route : Time → Address → RoutingTable I → RoutingTable I × Bool
  unfolding purge
  delete_route now dst t =
      let t' = purge now t in
      (record t' { entries = erase dst t'.entries }, is_some (find dst t'.entries))

  -- `SetRreqCnt (0)`, unless the entry is in search.
  unfoldable pub settle : RoutingTableEntry I → RoutingTableEntry I
  settle rt = if is_in_search rt.flag then rt else record rt { req_count = 0 }

  -- The caller's entry is settled too: it is the second result.
  unfoldable pub add_route :
      Time → RoutingTableEntry I → RoutingTable I → RoutingTable I × RoutingTableEntry I × Bool
  unfolding purge settle
  add_route now rt t =
      let t' = purge now t in
      let (entries', new) = insert (settle rt).route.destination (settle rt) t'.entries in
      (record t' { entries = entries' }, settle rt, new)

  unfoldable pub update : RoutingTableEntry I → RoutingTable I → RoutingTable I × Bool
  unfolding settle
  update rt t =
      if is_some (find rt.route.destination t.entries)
      then (record t { entries = adjust rt.route.destination (λ _. settle rt) t.entries }, true)
      else (t, false)

  unfoldable pub set_entry_state : Address → RouteFlags → RoutingTable I → RoutingTable I × Bool
  set_entry_state id state t =
      if is_some (find id t.entries)
      then (
        record t { entries = adjust id (λ e. record e { flag = state; req_count = 0 }) t.entries },
        true,
      )
      else (t, false)

  -- The loop of `GetListOfDestinationWithNextHop`; `acc` is `unreachable`.
  unfoldable pub collect : Address → AddressMap (RoutingTableEntry I) → AddressMap ℕ → AddressMap ℕ
  collect next_hop [] acc = acc
  collect next_hop ((k, e) ∷ m) acc =
      collect next_hop m (if e.route.gateway == next_hop then (insert k e.seq_no acc).0 else acc)

  unfoldable pub get_list_of_destination_with_next_hop :
      Time → Address → RoutingTable I → RoutingTable I × AddressMap ℕ
  unfolding purge
  get_list_of_destination_with_next_hop now next_hop t =
      let t' = purge now t in (t', collect next_hop t'.entries [])

  -- The inner loop of `InvalidateRoutesWithDst`, over `unreachable`.
  unfoldable pub invalidate_listed :
      Time → Time → Address → AddressMap ℕ → RoutingTableEntry I → RoutingTableEntry I
  invalidate_listed now bad k [] e = e
  invalidate_listed now bad k ((j, s) ∷ us) e =
      invalidate_listed now bad k us (if k == j && is_valid e.flag then invalidate now bad e else e)

  unfoldable pub invalidate_routes_with_dst : Time → AddressMap ℕ → RoutingTable I → RoutingTable I
  unfolding purge
  invalidate_routes_with_dst now unreachable t =
      let t' = purge now t in
      record t' {
        entries =
            sweep (λ k e. some (invalidate_listed now t.bad_link_lifetime k unreachable e))
              t'.entries;
      }

  unfoldable pub delete_all_routes_from_interface :
      Interfaces I → I → RoutingTable I → RoutingTable I
  delete_all_routes_from_interface net iface t = record t {
    entries = sweep (λ k e. if net.same e.iface iface then none else some e) t.entries;
  }

  unfoldable pub clear : RoutingTable I → RoutingTable I
  clear t = record t { entries = [] }

  unfoldable pub mark_link_as_unidirectional :
      Address → Time → RoutingTable I → RoutingTable I × Bool
  mark_link_as_unidirectional neighbor blacklist_timeout t =
      if is_some (find neighbor t.entries)
      then (
        record t {
          entries =
              adjust neighbor
                (λ e. record e {
                  black_list_state = true;
                  black_list_timeout = blacklist_timeout;
                  req_count = 0;
                })
                t.entries;
        },
        true,
      )
      else (t, false)
