-- ===== src/Packet.antt =====
-- model/payroute-packet.h and model/payroute-packet.cc: the headers of the routing messages, their
-- flags and their bytes. The type registration of ns-3 is left out.
pub mod Flags
pub mod Equality
pub mod Codec
pub mod Print
pub mod RoundTrip
use Prim.Native.Nat.{bit_and, bit_or}
use cnrlchain.Base.{
  ℕ, ◌%◌, ◌-◌, Bool, true, false, not, ◌&&◌, Address, Time, ℤ, pos, negsuc, ◌==◌, if◌then◌else◌,
}
use cnrlchain.Base.Word.{u32_mod}

-- MessageType, with the values 1, 2 and 3.
pub data MessageType : Type 0 where
  rreq rrep hello : MessageType

unfoldable pub type_byte : MessageType → ℕ
type_byte rreq = 1
type_byte rrep = 2
type_byte hello = 3

pub record TypeHeader : Type 0 where
  pub type : MessageType
  pub is_valid : Bool

unfoldable pub new_type : MessageType → TypeHeader
new_type t = record { type = t; is_valid = true }

pub record RreqHeader : Type 0 where
  pub flags : ℕ
  pub reserved : ℕ
  pub hop_count : ℕ
  pub request_id : ℕ
  pub dst : Address
  pub dst_seq_no : ℕ
  pub origin : Address
  pub origin_seq_no : ℕ
  pub transaction_amount : ℕ

-- The arguments' defaults.
abbrev pub empty_rreq : RreqHeader
empty_rreq = record {
  flags = 0;
  reserved = 0;
  hop_count = 0;
  request_id = 0;
  dst = 0;
  dst_seq_no = 0;
  origin = 0;
  origin_seq_no = 0;
  transaction_amount = 0;
}

pub record RrepHeader : Type 0 where
  pub flags : ℕ
  pub prefix_size : ℕ
  pub hop_count : ℕ
  pub dst : Address
  pub dst_seq_no : ℕ
  pub origin : Address
  pub life_time : ℕ
  pub acc_rewards : ℕ

pub record HelloHeader : Type 0 where
  pub flags : ℕ
  pub dst : Address
  pub dst_seq_no : ℕ
  pub origin : Address
  pub life_time : ℕ
  pub ch_avail_deposit : ℕ

-- A count of milliseconds that is stored in a uint32_t.
unfoldable pub to_word32 : ℤ → ℕ
to_word32 (pos n) = n % u32_mod
to_word32 (negsuc n) = u32_mod - 1 - n % u32_mod

-- Time::GetMilliSeconds and MilliSeconds.
pub record Millis : Type 0 where
  pub get_milli_seconds : Time → ℤ
  pub milli_seconds : ℕ → Time

module _ (ms : Millis) where
  unfoldable pub new_rrep : ℕ → ℕ → Address → ℕ → Address → Time → ℕ → RrepHeader
  unfolding to_word32
  new_rrep prefix hop dst dst_seq_no origin life_time reward = record {
    flags = 0;
    prefix_size = prefix;
    hop_count = hop;
    dst = dst;
    dst_seq_no = dst_seq_no;
    origin = origin;
    life_time = to_word32 (ms.get_milli_seconds life_time);
    acc_rewards = reward;
  }

  -- The constructor leaves `m_flags` as it finds it: `flags` is what was there.
  unfoldable pub new_hello : ℕ → Address → ℕ → Address → Time → ℕ → HelloHeader
  unfolding to_word32
  new_hello flags dst dst_seq_no origin life_time deposit = record {
    flags = flags;
    dst = dst;
    dst_seq_no = dst_seq_no;
    origin = origin;
    life_time = to_word32 (ms.get_milli_seconds life_time);
    ch_avail_deposit = deposit;
  }

  unfoldable pub set_reply_life_time : Time → RrepHeader → RrepHeader
  unfolding to_word32
  set_reply_life_time t h = record h { life_time = to_word32 (ms.get_milli_seconds t) }

  unfoldable pub get_reply_life_time : RrepHeader → Time
  get_reply_life_time h = ms.milli_seconds h.life_time

  unfoldable pub set_hello_life_time : Time → HelloHeader → HelloHeader
  unfolding to_word32
  set_hello_life_time t h = record h { life_time = to_word32 (ms.get_milli_seconds t) }

  unfoldable pub get_hello_life_time : HelloHeader → Time
  get_hello_life_time h = ms.milli_seconds h.life_time

-- `flags |= (1 << bit)` and `flags &= ~(1 << bit)` on a uint8_t; `mask` is `1 << bit`.
unfoldable pub set_flag : ℕ → Bool → ℕ → ℕ
set_flag mask f flags = if f then bit_or flags mask else bit_and flags (255 - mask)

unfoldable pub get_flag : ℕ → ℕ → Bool
get_flag mask flags = not (bit_and flags mask == 0)

abbrev pub gratuitous_mask : ℕ
gratuitous_mask = 32

abbrev pub destination_mask : ℕ
destination_mask = 16

abbrev pub unknown_mask : ℕ
unknown_mask = 8

abbrev pub ack_mask : ℕ
ack_mask = 64

unfoldable pub set_gratious_rrep : Bool → RreqHeader → RreqHeader
set_gratious_rrep f h = record h { flags = set_flag gratuitous_mask f h.flags }

unfoldable pub get_gratious_rrep : RreqHeader → Bool
get_gratious_rrep h = get_flag gratuitous_mask h.flags

unfoldable pub set_destination_only : Bool → RreqHeader → RreqHeader
set_destination_only f h = record h { flags = set_flag destination_mask f h.flags }

unfoldable pub get_destination_only : RreqHeader → Bool
get_destination_only h = get_flag destination_mask h.flags

unfoldable pub set_unknown_seqno : Bool → RreqHeader → RreqHeader
set_unknown_seqno f h = record h { flags = set_flag unknown_mask f h.flags }

unfoldable pub get_unknown_seqno : RreqHeader → Bool
get_unknown_seqno h = get_flag unknown_mask h.flags

unfoldable pub set_reply_ack_required : Bool → RrepHeader → RrepHeader
set_reply_ack_required f h = record h { flags = set_flag ack_mask f h.flags }

unfoldable pub get_reply_ack_required : RrepHeader → Bool
get_reply_ack_required h = get_flag ack_mask h.flags

unfoldable pub set_hello_ack_required : Bool → HelloHeader → HelloHeader
set_hello_ack_required f h = record h { flags = set_flag ack_mask f h.flags }

unfoldable pub get_hello_ack_required : HelloHeader → Bool
get_hello_ack_required h = get_flag ack_mask h.flags

-- RreqHeader::operator== and RrepHeader::operator==
unfoldable pub same_rreq : RreqHeader → RreqHeader → Bool
same_rreq h o =
    h.flags == o.flags
    && h.reserved == o.reserved
    && h.hop_count == o.hop_count
    && h.request_id == o.request_id
    && h.dst == o.dst
    && h.dst_seq_no == o.dst_seq_no
    && h.origin == o.origin
    && h.origin_seq_no == o.origin_seq_no
    && h.transaction_amount == o.transaction_amount

unfoldable pub same_rrep : RrepHeader → RrepHeader → Bool
same_rrep h o =
    h.flags == o.flags
    && h.prefix_size == o.prefix_size
    && h.hop_count == o.hop_count
    && h.dst == o.dst
    && h.dst_seq_no == o.dst_seq_no
    && h.origin == o.origin
    && h.life_time == o.life_time
    && h.acc_rewards == o.acc_rewards
