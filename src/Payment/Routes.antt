-- ===== src/Payment/Routes.antt =====
-- LookupRoute and addNewRoute of model/payment-network.cc. The table, the reply header and the
-- receiver are not declared there: they are arguments, and so is what ns-3 says of the receiver's
-- interface. addNewRoute has no return statement, and its new entry leaves out the transaction
-- amount, the default 0.
use cnrlchain.Base.{
  Bool, true, none, some, Address, Handle, Time, is_some, ◌≡◌, refl, arith, ◌==◌, if◌then◌else◌,
  Option-cases, subst, pos, ◌≤ℤ◌, ◌+ℤ◌, inl, inr,
}
use cnrlchain.Base.Map.{find}
use cnrlchain.Route.{Interfaces, RoutingTableEntry, valid, new_route}
use cnrlchain.Table.{RoutingTable, settle, purge, lookup_route, add_route}
use cnrlchain.Table.Lookup.{add_route_lem}
use cnrlchain.Table.Expiry.{purge-purge}
use cnrlchain.Packet.{Millis, RrepHeader, get_reply_life_time}

module _ {κ} {I : Type κ} where
  unfoldable pub lookup_route_bool : Time → Address → RoutingTable I → RoutingTable I × Bool
  unfolding lookup_route
  lookup_route_bool now dst t = let (t', found) = lookup_route now dst t in (t', is_some found)

  -- The entry that is made of a reply.
  unfoldable pub reply_route :
      Interfaces I → Millis → Time → Handle → I → RrepHeader → RoutingTableEntry I
  unfolding new_route get_reply_life_time
  reply_route net ms now dev iface header =
      new_route net now dev header.dst true header.dst_seq_no iface 1 0 header.dst
        (get_reply_life_time ms header)

  unfoldable pub add_new_route :
      Interfaces I → Millis → Time → Handle → I → RrepHeader → RoutingTable I → RoutingTable I
  unfolding lookup_route add_route reply_route
  add_new_route net ms now dev iface header t =
      let (t', found) = lookup_route now header.dst t in
      elim found [
        | some e ↦ t'
        | none ↦ (add_route now (reply_route net ms now dev iface header) t').0
      ]

  settle-reply_route :
      (net : Interfaces I) (ms : Millis) (now : Time) (dev : Handle) (iface : I)
      (header : RrepHeader)
      → settle (reply_route net ms now dev iface header) ≡ reply_route net ms now dev iface header
  unfolding settle reply_route new_route
  settle-reply_route net ms now dev iface header = refl

  destination-reply_route :
      (net : Interfaces I) (ms : Millis) (now : Time) (dev : Handle) (iface : I)
      (header : RrepHeader)
      → (reply_route net ms now dev iface header).route.destination ≡ header.dst
  unfolding reply_route new_route
  destination-reply_route net ms now dev iface header = refl

  find_new :
      (now : Time) (rt : RoutingTableEntry I) (t : RoutingTable I) (k : Address)
      → pos 0 ≤ℤ t.bad_link_lifetime
      → find k (add_route now rt (purge now t)).0.entries ≡ (elim (find k (purge now t).entries) [
        | none ↦ if rt.route.destination == k then some (settle rt) else none
        | some e ↦ some e
      ])
  find_new now rt t k life =
      subst
        (λ u. find k (add_route now rt (purge now t)).0.entries ≡ (elim (find k u.entries) [
          | none ↦ if rt.route.destination == k then some (settle rt) else none
          | some e ↦ some e
        ]))
        (purge-purge now t life) ((add_route_lem now rt (purge now t)).1 k)

  entries_lem :
      (net : Interfaces I) (ms : Millis) (now : Time) (dev : Handle) (iface : I)
      (header : RrepHeader) (t : RoutingTable I)
      → pos 0 ≤ℤ t.bad_link_lifetime
      → (k : Address)
      → find k (add_new_route net ms now dev iface header t).entries
        ≡ (elim (find k (purge now t).entries) [
          | none ↦ if header.dst == k then some (reply_route net ms now dev iface header) else none
          | some e ↦ some e
        ])
  unfolding add_new_route lookup_route
  entries_lem net ms now dev iface header t life k =
      let rt = reply_route net ms now dev iface header in
      elim (Option-cases (find header.dst (purge now t).entries)) [
        | inl missing ↦ ground (
          arith,
          missing,
          find_new now rt t k life,
          settle-reply_route net ms now dev iface header,
          destination-reply_route net ms now dev iface header,
        )
        | inr (e, found) ↦ ground (arith, found)
      ]

  -- A direct route to the destination of the reply.
  pub record LeadsThere (ms : Millis) (now : Time) (dev : Handle) (iface : I) (header : RrepHeader)
      (e : RoutingTableEntry I) : Type κ where
    pub next_hop : e.route.gateway ≡ header.dst
    pub to_destination : e.route.destination ≡ header.dst
    pub one_hop : e.hops ≡ 1
    pub with_seq_no : e.valid_seq_no ≡ true
    pub same_seq_no : e.seq_no ≡ header.dst_seq_no
    pub marked : e.flag ≡ valid
    pub on : e.iface ≡ iface
    pub by : e.route.output_device ≡ dev
    pub lives : e.life_time ≡ ms.milli_seconds header.life_time +ℤ now

  -- With a bad-link lifetime that is not negative, addNewRoute leaves every destination that has an
  -- entry as a purge leaves it, and of the others only the destination of the reply gets an entry.
  -- That one is VALID, one hop away, with the destination itself as the next hop, the reply's
  -- sequence number as a valid one, the given interface and device, and the reply's lifetime from
  -- now.
  pub add_new_route_lem :
      (net : Interfaces I) (ms : Millis) (now : Time) (dev : Handle) (iface : I)
      (header : RrepHeader) (t : RoutingTable I)
      → pos 0 ≤ℤ t.bad_link_lifetime
      → (k : Address)
      → find k (add_new_route net ms now dev iface header t).entries
          ≡ (elim (find k (purge now t).entries) [
            | none ↦
                if header.dst == k then some (reply_route net ms now dev iface header) else none
            | some e ↦ some e
          ])
        × LeadsThere ms now dev iface header (reply_route net ms now dev iface header)
  unfolding add_new_route lookup_route reply_route new_route
  add_new_route_lem net ms now dev iface header t life k = (
    entries_lem net ms now dev iface header t life k,
    record {
      next_hop = refl;
      to_destination = refl;
      one_hop = refl;
      with_seq_no = refl;
      same_seq_no = refl;
      marked = refl;
      on = refl;
      by = refl;
      lives = refl;
    },
  )
