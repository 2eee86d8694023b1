-- ===== src/Payment/Maintain.antt =====
-- SendChMaintain of model/payment-network.cc: one hello to all hosts, then one to each neighbour of
-- the channel table. The second call of SendHello breaks off after its first argument: `acked` is
-- the missing one. `none` is an index out of range.
use cnrlchain.Base.{
  ℕ, zero, suc, ◌≡◌, refl, Bool, Option, some, ◌>>=◌, List, [], ◌∷◌, ◌++◌, Address, length,
  length-snoc, get_elem?, subst, sym, ◌∙◌,
}
use mathlib.Core.List.{append_assoc}
use cnrlchain.Neighbors.{Neighbor, Neighbors, get_ngb_ip_addr_by_index}
use cnrlchain.Routing.{RoutingProtocol, Action, Env, send_hello_broadcast, send_hello_to}

module _ {ℓ κ} {H : Type ℓ} {I : Type κ} where
  -- The loop from index `i`, with the number of rounds left until the size of the table.
  unfoldable pub send_to_each :
      Env I → Bool → ℕ → ℕ → Neighbors → RoutingProtocol H I → Option (List (Action I))
  unfolding get_ngb_ip_addr_by_index send_hello_to
  send_to_each env acked zero i table s = some []
  send_to_each env acked (suc rounds) i table s = get_ngb_ip_addr_by_index i table >>= λ a.
      send_to_each env acked rounds (suc i) table s >>= λ rest.
      some (send_hello_to env a acked s ++ rest)

  unfoldable pub send_ch_maintain :
      Env I → Address → I → Bool → Neighbors → RoutingProtocol H I → Option (List (Action I))
  unfolding send_to_each send_hello_broadcast
  send_ch_maintain env dst iface acked table s =
      send_to_each env acked (length table.nb) 0 table s >>= λ sent.
      some (send_hello_broadcast env dst iface s ++ sent)

  -- One hello to each of the neighbours, in their order.
  abbrev pub hello_to_each : Env I → Bool → List Neighbor → RoutingProtocol H I → List (Action I)
  hello_to_each env acked [] s = []
  hello_to_each env acked (n ∷ ns) s =
      send_hello_to env n.neighbor_address acked s ++ hello_to_each env acked ns s

get_elem?-append :
    (ns : List Neighbor) (n : Neighbor) (rest : List Neighbor)
    → get_elem? (ns ++ n ∷ rest) (length ns) ≡ some n
get_elem?-append [] n rest = refl
get_elem?-append (m ∷ ns) n rest = get_elem?-append ns n rest

address_at :
    (table : Neighbors) (before : List Neighbor) (n : Neighbor) (rest : List Neighbor)
    → table.nb ≡ before ++ n ∷ rest
    → get_ngb_ip_addr_by_index (length before) table ≡ some n.neighbor_address
unfolding get_ngb_ip_addr_by_index
address_at table before n rest e =
    let found : get_elem? table.nb (length before) ≡ some n =
      subst (λ l. get_elem? l (length before) ≡ some n) (sym e) (get_elem?-append before n rest) in
    rw (found, get_ngb_ip_addr_by_index) refl

module _ {ℓ κ} {H : Type ℓ} {I : Type κ} where
  send_to_each_rest :
      (env : Env I) (acked : Bool) (table : Neighbors) (s : RoutingProtocol H I)
      (before ns : List Neighbor)
      → table.nb ≡ before ++ ns
      → send_to_each env acked (length ns) (length before) table s
        ≡ some (hello_to_each env acked ns s)
  unfolding send_to_each
  send_to_each_rest env acked table s before [] e = refl
  send_to_each_rest env acked table s before (n ∷ ns) e =
      let next : send_to_each env acked (length ns) (suc (length before)) table s
          ≡ some (hello_to_each env acked ns s) =
        subst
          (λ i. send_to_each env acked (length ns) i table s ≡ some (hello_to_each env acked ns s))
          (length-snoc before n)
          (send_to_each_rest env acked table s (before ++ n ∷ []) ns
            (e ∙ sym (append_assoc before (n ∷ []) ns))) in
      rw (address_at table before n ns e, next) refl

  -- SendChMaintain never reads outside the channel table, and what it sends is the hello to all
  -- hosts and then one hello to each neighbour of the table, in their order.
  pub send_ch_maintain_lem :
      (env : Env I) (dst : Address) (iface : I) (acked : Bool) (table : Neighbors)
      (s : RoutingProtocol H I)
      → send_ch_maintain env dst iface acked table s
        ≡ some (send_hello_broadcast env dst iface s ++ hello_to_each env acked table.nb s)
  unfolding send_ch_maintain
  send_ch_maintain_lem env dst iface acked table s =
      rw (send_to_each_rest env acked table s [] table.nb refl) refl
