-- ===== src/Table/Print.antt =====
-- RoutingTableEntry::Print and RoutingTable::Print of model/rtable.cc. The table's own map is not
-- purged, a copy of it is.
use cnrlchain.Base.{◌≡◌, List, [], ◌∷◌, ◌++◌, Time, pos, ◌-ℤ◌, ◌≤ℤ◌, ap}
use cnrlchain.Base.Map.{AddressMap}
use cnrlchain.Base.Output.{Item, text, number, address, seconds}
use cnrlchain.Route.{valid, invalid, in_search, Interfaces, RoutingTableEntry}
use cnrlchain.Table.{RoutingTable, purge_entries, purge}
use cnrlchain.Table.Expiry.{purge-purge}

module _ {ℓ} {I : Type ℓ} (net : Interfaces I) (now : Time) where
  unfoldable pub print_entry : RoutingTableEntry I → List Item
  print_entry e =
      address e.route.destination
      ∷ text "\t"
      ∷ address e.route.gateway
      ∷ text "\t"
      ∷ address (net.local e.iface)
      ∷ text "\t"
      ∷ text (elim e.flag [ valid ↦ "UP" | invalid ↦ "DOWN" | in_search ↦ "IN_SEARCH" ])
      ∷ text "\t"
      ∷ seconds (e.life_time -ℤ now)
      ∷ text "\t"
      ∷ number e.hops
      ∷ text "\n"
      ∷ []

  unfoldable pub print_entries : AddressMap (RoutingTableEntry I) → List Item
  unfolding print_entry
  print_entries [] = []
  print_entries ((k, e) ∷ m) = print_entry e ++ print_entries m

  unfoldable pub print_table : RoutingTable I → List Item
  unfolding print_entries purge_entries
  print_table t =
      text "\nAODV Routing table\n"
        ∷ text "Destination\tGateway\t\tInterface\tFlag\tExpire\t\tHops\n"
        ∷ print_entries (purge_entries now t.bad_link_lifetime t.entries)
      ++ text "\n" ∷ []

  -- What is printed is the table that a purge leaves: with a bad-link lifetime that is not
  -- negative, a purge at the same time does not change the output.
  print_table-purge :
      (t : RoutingTable I)
      → pos 0 ≤ℤ t.bad_link_lifetime
      → print_table (purge now t) ≡ print_table t
  unfolding print_table purge purge_entries
  print_table-purge t h =
      ap
        (λ s.
          text "\nAODV Routing table\n"
            ∷ text "Destination\tGateway\t\tInterface\tFlag\tExpire\t\tHops\n"
            ∷ print_entries s.entries
          ++ text "\n" ∷ [])
        (purge-purge now t h)
