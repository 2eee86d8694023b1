-- ===== src/Payment/Dispatch.antt =====
-- HandleOffchainMsg of model/payment-network.cc: which handler gets a routing message. The bytes of
-- the packet come first; what is left of them is handed on.
use cnrlchain.Base.{ℕ, ◌≡◌, refl, Option, some, List, ◌++◌, ◌>>=◌, ap, ◌∙◌}
use cnrlchain.Packet.{MessageType, rreq, rrep, hello, TypeHeader, new_type}
use cnrlchain.Packet.Codec.{Wire, serialize_type, deserialize_type}
use cnrlchain.Packet.RoundTrip.{received, deserialize-serialize_type}

-- The handler that is called: RecvRReq, RecvRRep or RecvHello.
pub data Handler : Type 0 where
  recv_rreq recv_rrep recv_hello : Handler

abbrev pub handler_of : MessageType → Handler
handler_of rreq = recv_rreq
handler_of rrep = recv_rrep
handler_of hello = recv_hello

-- The handler of each type of message that was sent.
abbrev pub reached : MessageType → Handler
reached rreq = recv_rreq
reached rrep = recv_rrep
reached hello = recv_rreq

reached_lem : (t : MessageType) → handler_of (received (new_type rreq) t).type ≡ reached t
unfolding new_type
reached_lem rreq = refl
reached_lem rrep = refl
reached_lem hello = refl

module _ (w : Wire) where
  -- The validity of the header is not tested.
  unfoldable pub handle_offchain_msg : List ℕ → Option (Handler × List ℕ)
  unfolding deserialize_type
  handle_offchain_msg bytes = deserialize_type w (new_type rreq) bytes >>= λ (header, rest).
      some (handler_of header.type, rest)

  -- A message that was sent with a type header reaches the handler of its type if it is a RREQ or a
  -- RREP, but a HELLO reaches RecvRReq, for the reader of the header does not know its type; the
  -- handler gets the rest of the bytes.
  pub handle_offchain_msg_lem :
      (header : TypeHeader) (rest : List ℕ)
      → handle_offchain_msg (serialize_type w header ++ rest) ≡ some (reached header.type, rest)
  unfolding handle_offchain_msg
  handle_offchain_msg_lem header rest =
      ap (λ o. o >>= λ (h, left). some (handler_of h.type, left))
        (deserialize-serialize_type w header (new_type rreq) rest)
      ∙ ap (λ h. some (h, rest)) (reached_lem header.type)
