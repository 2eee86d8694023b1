-- ===== src/Packet/RoundTrip.antt =====
-- What is read back of the headers of model/payroute-packet.cc.
use mathlib.Core.List.{append_assoc}
use cnrlchain.Base.{
  ℕ, ◌<◌, ◌^◌, ◌≡◌, Bool, true, false, some, List, ◌++◌, arith, length, length-append,
}
use cnrlchain.Packet.{
  MessageType, rreq, rrep, hello, type_byte, TypeHeader, RreqHeader, RrepHeader, HelloHeader,
}
use cnrlchain.Packet.Codec.{
  Wire, rreq_size, rrep_size, hello_size, serialize_type, deserialize_type, serialize_rreq,
  deserialize_rreq, serialize_rrep, deserialize_rrep, serialize_hello, deserialize_hello,
}

-- Every field fits the word that it is declared with.
pub record FitsRreq (h : RreqHeader) : Type 0 where
  pub flags : h.flags < 2 ^ 8
  pub reserved : h.reserved < 2 ^ 8
  pub hop_count : h.hop_count < 2 ^ 8
  pub request_id : h.request_id < 2 ^ 32
  pub dst : h.dst < 2 ^ 32
  pub dst_seq_no : h.dst_seq_no < 2 ^ 32
  pub origin : h.origin < 2 ^ 32
  pub origin_seq_no : h.origin_seq_no < 2 ^ 32
  pub transaction_amount : h.transaction_amount < 2 ^ 32

pub record FitsRrep (h : RrepHeader) : Type 0 where
  pub flags : h.flags < 2 ^ 8
  pub prefix_size : h.prefix_size < 2 ^ 8
  pub hop_count : h.hop_count < 2 ^ 8
  pub dst : h.dst < 2 ^ 32
  pub dst_seq_no : h.dst_seq_no < 2 ^ 32
  pub origin : h.origin < 2 ^ 32
  pub life_time : h.life_time < 2 ^ 32
  pub acc_rewards : h.acc_rewards < 2 ^ 32

pub record FitsHello (h : HelloHeader) : Type 0 where
  pub dst : h.dst < 2 ^ 32
  pub dst_seq_no : h.dst_seq_no < 2 ^ 32
  pub origin : h.origin < 2 ^ 32
  pub life_time : h.life_time < 2 ^ 32
  pub ch_avail_deposit : h.ch_avail_deposit < 2 ^ 32

-- What `Deserialize` makes of each type.
abbrev pub received : TypeHeader → MessageType → TypeHeader
received old rreq = record { type = rreq; is_valid = true }
received old rrep = record { type = rrep; is_valid = true }
received old hello = record old { is_valid = false }

module _ (w : Wire) where
  open w use {
    read_write_u8, read_write_u32, read_write_address, length_u8, length_u32, length_address,
  }

  -- The bytes of a RREQ are `GetSerializedSize` many, and reading them gives the header back and
  -- leaves what follows.
  pub deserialize-serialize_rreq :
      (h : RreqHeader) (rest : List ℕ)
      → FitsRreq h
      → (length (serialize_rreq w h) ≡ rreq_size)
        × (deserialize_rreq w (serialize_rreq w h ++ rest) ≡ some (h, rest))
  unfolding serialize_rreq deserialize_rreq
  deserialize-serialize_rreq h rest fits = (
    simp (length-append, length_u8, length_u32, length_address),
    simp append_assoc (
        rw (
          read_write_u8, fits.flags, read_write_u8, fits.reserved, read_write_u8, fits.hop_count,
          read_write_u32, fits.request_id, read_write_address, fits.dst, read_write_u32,
          fits.dst_seq_no, read_write_address, fits.origin, read_write_u32, fits.origin_seq_no,
          read_write_u32, fits.transaction_amount,
        )),
  )

  -- The bytes of a RREP are as many as announced, and reading them gives the header back and leaves
  -- what follows.
  deserialize-serialize_rrep :
      (h : RrepHeader) (rest : List ℕ)
      → FitsRrep h
      → (length (serialize_rrep w h) ≡ rrep_size)
        × (deserialize_rrep w (serialize_rrep w h ++ rest) ≡ some (h, rest))
  unfolding serialize_rrep deserialize_rrep
  deserialize-serialize_rrep h rest fits = (
    simp (length-append, length_u8, length_u32, length_address),
    simp append_assoc (
        rw (
          read_write_u8, fits.flags, read_write_u8, fits.prefix_size, read_write_u8, fits.hop_count,
          read_write_address, fits.dst, read_write_u32, fits.dst_seq_no, read_write_address,
          fits.origin, read_write_u32, fits.life_time, read_write_u32, fits.acc_rewards,
        )),
  )

  -- The bytes of a HELLO are `GetSerializedSize` many, and carry every field but the flags: the
  -- header that is read has the flags of the header that was written over, whatever the sender set.
  pub deserialize-serialize_hello :
      (h old : HelloHeader) (rest : List ℕ)
      → FitsHello h
      → (length (serialize_hello w h) ≡ hello_size)
        × (deserialize_hello w old (serialize_hello w h ++ rest)
            ≡ some (record h { flags = old.flags }, rest))
  unfolding serialize_hello deserialize_hello
  deserialize-serialize_hello h old rest fits = (
    simp (length-append, length_u32, length_address),
    simp append_assoc (
        rw (
          read_write_address, fits.dst, read_write_u32, fits.dst_seq_no, read_write_address,
          fits.origin, read_write_u32, fits.life_time, read_write_u32, fits.ch_avail_deposit,
        )),
  )

  read_type :
      (t : MessageType) (v : Bool) (old : TypeHeader) (rest : List ℕ)
      → deserialize_type w old (serialize_type w (record { type = t; is_valid = v }) ++ rest)
        ≡ some (received old t, rest)
  unfolding serialize_type deserialize_type type_byte
  read_type rreq v old rest = rw (read_write_u8 1 rest (omega arith))
  read_type rrep v old rest = rw (read_write_u8 2 rest (omega arith))
  read_type hello v old rest = rw (read_write_u8 3 rest (omega arith))

  -- The type of a RREQ or a RREP is read back. That of a HELLO is not known to `Deserialize`: the
  -- header is marked as not valid and keeps the type that it had.
  pub deserialize-serialize_type :
      (h old : TypeHeader) (rest : List ℕ)
      → deserialize_type w old (serialize_type w h ++ rest) ≡ some (received old h.type, rest)
  deserialize-serialize_type h old rest = read_type h.type h.is_valid old rest
