-- ===== src/Tests/Routes.antt =====
-- The theorems on model/rtable.cc at concrete inputs.
use cnrlchain.Base.{
  ℕ, ◌≡◌, refl, ◌↔◌, inr, true, ◌&&◌, some, [], ◌∷◌, arith, Address, pos, is_some, ◌+ℤ◌,
  if◌then◌else◌, ◌>>=◌,
}
use cnrlchain.Base.Map.{AddressMap, find}
use cnrlchain.Route.{RoutingTableEntry, new_route, invalid, is_valid}
use cnrlchain.Table.{RoutingTable, new_table, purge, lookup_valid_route, invalidate_routes_with_dst}
use cnrlchain.Table.Invariant.{IsWellFormed, adds, looks, run, run-IsWellFormed}
use cnrlchain.Table.Lookup.{IsUsable, lookup_valid_route_iff}
use cnrlchain.Table.Expiry.{purge_at, purge_at_period}
use cnrlchain.Table.Broken.{invalidate_routes_lem}
use cnrlchain.Tests.{interfaces}

abbrev pub Entry : Type 0
Entry = RoutingTableEntry (Address × Address)

-- Routes to 4 and 6 through 2, until the times 10 and 5.
abbrev pub to_four : Entry
to_four = new_route interfaces (pos 0) 0 4 true 7 (1, 9) 1 50 2 (pos 10)

abbrev pub to_six : Entry
to_six = new_route interfaces (pos 0) 0 6 true 8 (1, 9) 2 50 2 (pos 5)

abbrev pub table : RoutingTable (Address × Address)
table = record { entries = (4, to_four) ∷ (6, to_six) ∷ []; bad_link_lifetime = pos 15 }

table-IsWellFormed : IsWellFormed table
unfolding new_route
table-IsWellFormed = record {
  sorted = ((omega arith, tt), (tt, tt));
  filed = ((refl, inr refl), ((refl, inr refl), tt));
}

run-IsWellFormed_example :
    IsWellFormed
      (run interfaces ((pos 1, adds to_four) ∷ (pos 7, looks 4) ∷ []) (new_table (pos 15)))
run-IsWellFormed_example =
    run-IsWellFormed interfaces (pos 15) ((pos 1, adds to_four) ∷ (pos 7, looks 4) ∷ [])

lookup_valid_route_iff_example : ((lookup_valid_route (pos 7) 4 table).2 ≡ true) ↔ (
    (e : Entry) × IsUsable (pos 7) 4 table e
    × ((lookup_valid_route (pos 7) 4 table).1 ≡ some e)
    × (e.route.destination ≡ 4))
lookup_valid_route_iff_example = lookup_valid_route_iff (pos 7) 4 table table-IsWellFormed

purge_at_period_example : is_some (find 6 (purge_at (pos 6 ∷ pos 20 ∷ []) table).entries) ≡ true
unfolding find new_route ◌+ℤ◌
purge_at_period_example =
    purge_at_period (pos 6) (pos 6 ∷ pos 20 ∷ []) 6 table to_six table-IsWellFormed refl refl
      ((omega arith, omega arith), ((omega arith, omega arith), tt))

abbrev broken : AddressMap ℕ
broken = (4, 7) ∷ []

invalidate_routes_lem_example : find 4 (invalidate_routes_with_dst (pos 7) broken table).entries ≡ (
    find 4 (purge (pos 7) table).entries >>= λ e. some (
      if is_some (find 4 broken) && is_valid e.flag
      then record e { flag = invalid; req_count = 0; life_time = pos 15 +ℤ pos 7 }
      else e))
invalidate_routes_lem_example = invalidate_routes_lem (pos 7) broken 4 table table-IsWellFormed
