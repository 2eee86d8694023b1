-- ===== src/Tests/Lifecycle.antt =====
-- The theorems on the socket, the upkeep and the routes of model/payment-network.cc and on the
-- failures of model/neighbors.cc at concrete inputs.
use cnrlchain.Base.{
  ℕ, ◌+◌, ◌≡◌, true, is_some, ◌||◌, none, some, [], ◌∷◌, ◌++◌, arith, pos, discard, select, ◌==◌,
  if◌then◌else◌,
}
use cnrlchain.Base.Map.{find}
use cnrlchain.Neighbors.{Neighbor, close_neighbor}
use cnrlchain.Neighbors.Failure.{told, addresses, process_tx_error, process_tx_error_lem}
use cnrlchain.Table.{purge}
use cnrlchain.Routing.{send_hello_broadcast}
use cnrlchain.Payment.Socket.{new_port, sets_up, starts, stops, run}
use cnrlchain.Payment.Socket.Balance.{Allowed, life, run-Allowed}
use cnrlchain.Payment.Socket.Send.{send_packet, is_some-send_packet}
use cnrlchain.Tests.Network.{blank}
use cnrlchain.Payment.Maintain.{send_ch_maintain, hello_to_each, send_ch_maintain_lem}
use cnrlchain.Payment.Routes.{LeadsThere, reply_route, add_new_route, add_new_route_lem}
use cnrlchain.Tests.{interfaces, millis}
use cnrlchain.Tests.Headers.{answer}
use cnrlchain.Tests.Channels.{book}
use cnrlchain.Tests.Requests.{env, node}
use cnrlchain.Tests.Routes.{table}

run-Allowed_example :
    let r = run (starts 4 ∷ starts 5 ∷ stops ∷ sets_up 9 ∷ starts 6 ∷ []) (new_port 8) in
    Allowed (life (new_port 8).socket) r.1 (life r.0.socket)
run-Allowed_example =
    run-Allowed (starts 4 ∷ starts 5 ∷ stops ∷ sets_up 9 ∷ starts 6 ∷ []) (new_port 8)

-- Packets are their sizes; a header adds ten.
is_some-send_packet_example :
    is_some (
      send_packet
        (λ size. size)
        (λ header p. p + 10)
        512
        blank
        (run (starts 4 ∷ stops ∷ sets_up 9 ∷ starts 6 ∷ sets_up 2 ∷ []) (new_port 8)).0)
    ≡ true
unfolding new_port
is_some-send_packet_example =
    is_some-send_packet (λ size. size) (λ header p. p + 10) 512 blank
      (starts 4 ∷ stops ∷ sets_up 9 ∷ starts 6 ∷ sets_up 2 ∷ []) (new_port 8)

send_ch_maintain_lem_example :
    send_ch_maintain (env (pos 3)) 7 (1, 9) true book node
    ≡ some (
        send_hello_broadcast (env (pos 3)) 7 (1, 9) node
        ++ hello_to_each (env (pos 3)) true book.nb node)
send_ch_maintain_lem_example = send_ch_maintain_lem (env (pos 3)) 7 (1, 9) true book node

-- The hardware address of a neighbour is its IP address plus 100.
abbrev hardware : Neighbor → ℕ
hardware n = n.neighbor_address + 100

process_tx_error_lem_example :
    let r = process_tx_error hardware (pos 3) 104 book in
    (r.0.nb ≡ discard (λ n. close_neighbor (pos 3) n || hardware n == 104) book.nb)
    × (told r.1 ≡ (
        if book.handle_link_failure
        then addresses (select (λ n. close_neighbor (pos 3) n || hardware n == 104) book.nb)
        else []))
process_tx_error_lem_example = process_tx_error_lem hardware (pos 3) 104 book

add_new_route_lem_example :
    find answer.dst (add_new_route interfaces millis (pos 7) 0 (1, 9) answer table).entries
      ≡ (elim (find answer.dst (purge (pos 7) table).entries) [
        | none ↦
            if answer.dst == answer.dst
            then some (reply_route interfaces millis (pos 7) 0 (1, 9) answer)
            else none
        | some e ↦ some e
      ])
    × LeadsThere millis
        (pos 7)
        0
        (1, 9)
        answer
        (reply_route interfaces millis (pos 7) 0 (1, 9) answer)
add_new_route_lem_example =
    add_new_route_lem interfaces millis (pos 7) 0 (1, 9) answer table (omega arith) answer.dst
