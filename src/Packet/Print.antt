-- ===== src/Packet/Print.antt =====
-- The Print methods of model/payroute-packet.cc, and what a reader of the output can tell.
use cnrlchain.Base.{◌≡◌, ◌↔◌, List, [], ◌∷◌, ◌++◌, arith, ◌==◌, if◌then◌else◌}
use cnrlchain.Base.Output.{Item, text, number, character, address, flag}
use cnrlchain.Packet.{
  rreq, rrep, hello, TypeHeader, RreqHeader, RrepHeader, HelloHeader, get_gratious_rrep,
  get_destination_only, get_unknown_seqno, get_reply_ack_required,
}

unfoldable pub print_type : TypeHeader → List Item
print_type h = elim h.type [
  | rreq ↦ text "RREQ" ∷ []
  | rrep ↦ text "RREP" ∷ []
  | hello ↦ text "UNKNOWN_TYPE" ∷ []
]

unfoldable pub print_rreq : RreqHeader → List Item
print_rreq h =
    text "RREQ ID "
    ∷ number h.request_id
    ∷ text " destination: ipv4 "
    ∷ address h.dst
    ∷ text " sequence number "
    ∷ number h.dst_seq_no
    ∷ text " source: ipv4 "
    ∷ address h.origin
    ∷ text " sequence number "
    ∷ number h.origin_seq_no
    ∷ text " transaction amount "
    ∷ number h.transaction_amount
    ∷ text " flags:"
    ∷ text " Gratuitous RREP "
    ∷ flag (get_gratious_rrep h)
    ∷ text " Destination only "
    ∷ flag (get_destination_only h)
    ∷ text " Unknown sequence number "
    ∷ flag (get_unknown_seqno h)
    ∷ []

unfoldable pub print_rrep : RrepHeader → List Item
print_rrep h =
    text "destination: ipv4 "
      ∷ address h.dst
      ∷ text " sequence number "
      ∷ number h.dst_seq_no
      ∷ (if h.prefix_size == 0 then [] else text " prefix size " ∷ character h.prefix_size ∷ [])
    ++ text " source ipv4 "
      ∷ address h.origin
      ∷ text " lifetime "
      ∷ number h.life_time
      ∷ text " rewards "
      ∷ number h.acc_rewards
      ∷ text " acknowledgment required flag "
      ∷ flag (get_reply_ack_required h)
      ∷ []

unfoldable pub print_hello : HelloHeader → List Item
print_hello h =
    text "destination: ipv4 "
    ∷ address h.dst
    ∷ text " sequence number "
    ∷ number h.dst_seq_no
    ∷ text " source ipv4 "
    ∷ address h.origin
    ∷ text " lifetime "
    ∷ number h.life_time
    ∷ text " deposit "
    ∷ number h.ch_avail_deposit
    ∷ []

-- The output of a RREP tells the destination, its sequence number, the prefix size, the originator,
-- the lifetime, the rewards and the acknowledgement flag, and nothing else.
print_rrep_iff :
    (h o : RrepHeader)
    → (print_rrep h ≡ print_rrep o) ↔ (
        (h.dst ≡ o.dst)
        × (h.dst_seq_no ≡ o.dst_seq_no)
        × (h.prefix_size ≡ o.prefix_size)
        × (h.origin ≡ o.origin)
        × (h.life_time ≡ o.life_time)
        × (h.acc_rewards ≡ o.acc_rewards)
        × (get_reply_ack_required h ≡ get_reply_ack_required o))
unfolding print_rrep
print_rrep_iff h o = (λ e. ground arith, λ (a, b, c, d, e, f, g). cc)
