-- ===== src/Payment/Arrival.antt =====
-- A routing message on its way: the bytes that SendTo of model/offchain-routing.cc gives to the
-- socket, HandleOffchainMsg of model/payment-network.cc and the RemoveHeader at the top of
-- RecvRReq. RecvRRep is declared only: `recv_rrep` stands for it.
use cnrlchain.Base.{ℕ, ◌≡◌, refl, Option, some, List, [], ◌++◌, ◌>>=◌, Address, subst}
use mathlib.Core.List.{append-nil}
use cnrlchain.Packet.{rreq, hello, new_type, RreqHeader, HelloHeader}
use cnrlchain.Packet.Codec.{
  Wire, serialize_type, serialize_rreq, deserialize_rreq, serialize_hello, deserialize_hello,
}
use cnrlchain.Packet.RoundTrip.{FitsRreq, deserialize-serialize_rreq}
use cnrlchain.Routing.{RoutingProtocol, Action, Env, recv_hello}
use cnrlchain.Routing.Receive.{recv_rreq}
use cnrlchain.Payment.Dispatch.{Handler, handle_offchain_msg, handle_offchain_msg_lem}

module _ {ℓ κ} {H : Type ℓ} {I : Type κ} (w : Wire) (blank : HelloHeader)
    (recv_rrep : List ℕ
      → RoutingProtocol H I
      → Option (RoutingProtocol H I × List (Action I))) where
  -- RemoveHeader and the rest of RecvRReq.
  unfoldable pub take_rreq :
      Env I
      → Address
      → Address
      → List ℕ
      → RoutingProtocol H I
      → Option (RoutingProtocol H I × List (Action I))
  unfolding recv_rreq
  take_rreq env receiver src bytes s =
      deserialize_rreq w bytes >>= λ (h, rest). recv_rreq env receiver src h s

  take_rreq_read :
      (env : Env I) (receiver src : Address) (h : RreqHeader) (s : RoutingProtocol H I)
      → FitsRreq h
      → take_rreq env receiver src (serialize_rreq w h) s ≡ recv_rreq env receiver src h s
  unfolding take_rreq
  take_rreq_read env receiver src h s fits =
      let read : deserialize_rreq w (serialize_rreq w h) ≡ some (h, []) =
        subst (λ bytes. deserialize_rreq w bytes ≡ some (h, [])) (append-nil (serialize_rreq w h))
          (deserialize-serialize_rreq w h [] fits).1 in
      rw read refl

  unfoldable pub deliver :
      Env I
      → Address
      → Address
      → List ℕ
      → RoutingProtocol H I
      → Option (RoutingProtocol H I × List (Action I))
  unfolding handle_offchain_msg take_rreq recv_hello
  deliver env receiver src bytes s = handle_offchain_msg w bytes >>= λ (handler, rest).
      elim handler [
        | Handler.recv_rreq ↦ take_rreq env receiver src rest s
        | Handler.recv_rrep ↦ recv_rrep rest s
        | Handler.recv_hello ↦
            deserialize_hello w blank rest >>= λ (h, left). some (recv_hello env h receiver src s)
      ]

  -- What the receiver makes of the bytes that a sender gives to its socket: a RREQ whose fields fit
  -- is handled by RecvRReq with the very header that was sent; a HELLO never reaches RecvHello, its
  -- bytes are read as a RREQ and what they give is handled by RecvRReq.
  pub deliver_lem :
      (env : Env I) (receiver src : Address) (h : RreqHeader) (greeting : HelloHeader)
      (s : RoutingProtocol H I)
      → FitsRreq h
      → (deliver env receiver src (serialize_type w (new_type rreq) ++ serialize_rreq w h) s
          ≡ recv_rreq env receiver src h s)
        × (deliver env receiver src
              (serialize_type w (new_type hello) ++ serialize_hello w greeting)
              s
            ≡ take_rreq env receiver src (serialize_hello w greeting) s)
  unfolding deliver new_type
  deliver_lem env receiver src h greeting s fits = (
    rw (handle_offchain_msg_lem w (new_type rreq) (serialize_rreq w h))
        (take_rreq_read env receiver src h s fits),
    rw (handle_offchain_msg_lem w (new_type hello) (serialize_hello w greeting)) refl,
  )
