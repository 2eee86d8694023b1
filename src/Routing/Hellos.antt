-- ===== src/Routing/Hellos.antt =====
-- The hellos of model/offchain-routing.cc: how a payment channel is agreed on and kept.
use cnrlchain.Base.{
  ◌≡◌, refl, ◌≢◌, true, List, [], ◌∷◌, ◌++◌, map, Address, Time, ◌≤ℤ◌, ◌<◌, ◌+ℤ◌, if◌then◌else◌,
  ==_self, ap, ltb,
}
use cnrlchain.Packet.{
  hello, new_type, HelloHeader, new_hello, set_hello_ack_required, get_hello_ack_required,
}
use cnrlchain.Packet.Flags.{get_hello_ack-set}
use cnrlchain.Neighbors.{Effect, is_neighbor, update, returns_minus_one}
use cnrlchain.Neighbors.Orderly.{IsOrderly}
use cnrlchain.Neighbors.Updates.{is_neighbor-update}
use cnrlchain.Routing.{
  RoutingProtocol, send_hello, neighbor_effect, Env, hello_life_time, send_hello_to, recv_hello,
}

module _ {ℓ κ} {H : Type ℓ} {I : Type κ} where
  -- The branch of a hello to this node that asks for an acknowledgement.
  recv_hello_ack :
      (env : Env I) (header : HelloHeader) (sender : Address) (s : RoutingProtocol H I)
      → get_hello_ack_required header ≡ true
      → let u =
          update env.now sender header.ch_avail_deposit
            (hello_life_time s)
            true
            env.avail
            env.peer_avail
            s.nb in
        recv_hello env header env.this_address sender s ≡ (
          record s { nb = u.0 },
          map neighbor_effect u.2 ++ send_hello_to env sender true (record s { nb = u.0 }),
        )
  unfolding recv_hello
  recv_hello_ack env header sender s ack = rw (==_self env.this_address, ack) refl

  send_hello_to-acked :
      (env : Env I) (dst : Address) (s : RoutingProtocol H I)
      → env.flags < 256
      → (h : HelloHeader) × (send_hello_to env dst true s ≡ send_hello (new_type hello) h dst ∷ [])
        × (get_hello_ack_required h ≡ true)
  unfolding send_hello_to
  send_hello_to-acked env dst s byte =
      let deposit = if ltb env.avail_deposit 0 then env.default_deposit else env.avail_deposit in
      let h =
        new_hello env.millis env.flags dst s.seq_no env.this_address (hello_life_time s) deposit in
      (set_hello_ack_required true h, refl, get_hello_ack-set h true byte)

  -- A hello that arrives on this node's own address and asks for an acknowledgement is answered by
  -- one hello to the sender that asks for an acknowledgement too, whatever the table of neighbours
  -- does with it, if the flags of a hello are a byte. If moreover the table has one channel per
  -- address, none of them marked to be closed, and does not refuse the amount, and AllowedHelloLoss
  -- hello intervals from now is not before now, then the sender is a neighbour until then.
  pub recv_hello-acked :
      (env : Env I) (header : HelloHeader) (sender : Address) (s : RoutingProtocol H I) (t : Time)
      → get_hello_ack_required header ≡ true
      → env.flags < 256
      → let r = recv_hello env header env.this_address sender s in
        ((h : HelloHeader) × (effects : List Effect) × (r.1
            ≡ map neighbor_effect effects ++ send_hello (new_type hello) h sender ∷ [])
          × (get_hello_ack_required h ≡ true))
        × (IsOrderly s.nb
            → env.now ≤ℤ hello_life_time s +ℤ env.now
            → t ≤ℤ hello_life_time s +ℤ env.now
            → (update env.now sender header.ch_avail_deposit
                (hello_life_time s)
                true
                env.avail
                env.peer_avail
                s.nb).1
              ≢ returns_minus_one
            → (is_neighbor t sender r.0.nb).1 ≡ true)
  recv_hello-acked env header sender s t ack byte =
      let u =
        update env.now sender header.ch_avail_deposit (hello_life_time s) true env.avail
          env.peer_avail s.nb in
      let (answer, sent, asks) = send_hello_to-acked env sender (record s { nb = u.0 }) byte in
      rw (recv_hello_ack env header sender s ack) (
        (answer, u.2, ap (λ a. map neighbor_effect u.2 ++ a) sent, asks),
        λ h future early accepted.
            is_neighbor-update env.now sender header.ch_avail_deposit (hello_life_time s) env.avail
              env.peer_avail s.nb t h future accepted early,
      )
