-- ===== src/Packet/Equality.antt =====
-- The comparisons of headers in model/payroute-packet.cc. That of a HELLO reads two members,
-- m_prefixSize and m_hopCount, that a HelloHeader does not have: what they are is an argument.
use cnrlchain.Base.{ℕ, Bool, true, ◌&&◌, not, ◌≡◌, refl, ◌↔◌, arith, ◌==◌, if◌then◌else◌}
use cnrlchain.Packet.{
  MessageType, rreq, rrep, hello, type_byte, TypeHeader, RreqHeader, RrepHeader, HelloHeader,
  same_rreq, same_rrep,
}

-- The comparison of the two enumerators and of the two Booleans.
unfoldable pub same_type : TypeHeader → TypeHeader → Bool
unfolding type_byte
same_type h o =
    type_byte h.type == type_byte o.type && (if h.is_valid then o.is_valid else not o.is_valid)

unfoldable pub same_hello : (HelloHeader → ℕ) → (HelloHeader → ℕ) → HelloHeader → HelloHeader → Bool
same_hello prefix_size hop_count h o =
    h.flags == o.flags
    && prefix_size h == prefix_size o
    && hop_count h == hop_count o
    && h.dst == o.dst
    && h.dst_seq_no == o.dst_seq_no
    && h.origin == o.origin
    && h.life_time == o.life_time
    && h.ch_avail_deposit == o.ch_avail_deposit

type_byte-inj : (t u : MessageType) → type_byte t ≡ type_byte u → t ≡ u
unfolding type_byte
type_byte-inj rreq rreq e = refl
type_byte-inj rrep rrep e = refl
type_byte-inj hello hello e = refl
type_byte-inj rreq rrep e = absurd (omega (arith, e))
type_byte-inj rreq hello e = absurd (omega (arith, e))
type_byte-inj rrep rreq e = absurd (omega (arith, e))
type_byte-inj rrep hello e = absurd (omega (arith, e))
type_byte-inj hello rreq e = absurd (omega (arith, e))
type_byte-inj hello rrep e = absurd (omega (arith, e))

same_type_iff : (h o : TypeHeader) → (same_type h o ≡ true) ↔ (h ≡ o)
unfolding same_type
same_type_iff h o = (λ e. ground (arith, type_byte-inj h.type o.type), λ e. rw e (ground arith))

same_rreq_iff : (h o : RreqHeader) → (same_rreq h o ≡ true) ↔ (h ≡ o)
unfolding same_rreq
same_rreq_iff h o = (λ e. ground arith, λ e. rw e (ground arith))

same_rrep_iff : (h o : RrepHeader) → (same_rrep h o ≡ true) ↔ (h ≡ o)
unfolding same_rrep
same_rrep_iff h o = (λ e. ground arith, λ e. rw e (ground arith))

same_hello_iff :
    (prefix_size hop_count : HelloHeader → ℕ) (h o : HelloHeader)
    → (same_hello prefix_size hop_count h o ≡ true) ↔ (h ≡ o)
unfolding same_hello
same_hello_iff prefix_size hop_count h o = (λ e. ground arith, λ e. rw e (ground arith))

-- The four comparisons decide equality: each answers true exactly for two headers that agree in all
-- members, whatever the two undeclared members of a HELLO are.
pub same_header_iff :
    (prefix_size hop_count : HelloHeader → ℕ) (t u : TypeHeader) (h o : RreqHeader)
    (p q : RrepHeader) (a b : HelloHeader)
    → ((same_type t u ≡ true) ↔ (t ≡ u))
      × ((same_rreq h o ≡ true) ↔ (h ≡ o))
      × ((same_rrep p q ≡ true) ↔ (p ≡ q))
      × ((same_hello prefix_size hop_count a b ≡ true) ↔ (a ≡ b))
same_header_iff prefix_size hop_count t u h o p q a b = (
  same_type_iff t u,
  same_rreq_iff h o,
  same_rrep_iff p q,
  same_hello_iff prefix_size hop_count a b,
)
