-- ===== src/Packet/Codec.antt =====
-- The bytes of the headers of model/payroute-packet.cc. ns-3's buffer iterator and its helpers for
-- addresses are the parameter `w`.
use cnrlchain.Base.{
  ℕ, ◌<◌, ◌^◌, ◌≡◌, true, false, Option, some, List, ◌++◌, Address, length, ◌==◌, if◌then◌else◌,
  ◌>>=◌,
}
use cnrlchain.Packet.{rreq, rrep, type_byte, TypeHeader, RreqHeader, RrepHeader, HelloHeader}

-- Buffer::Iterator and address-utils: WriteU8, WriteHtonU32, WriteTo, and ReadU8, ReadNtohU32,
-- ReadFrom, on what is left of the buffer; a read past its end is `none`. As documented, a value in
-- range is read back as it was written, and takes one byte or four.
pub record Wire : Type 0 where
  pub write_u8 : ℕ → List ℕ
  pub write_u32 : ℕ → List ℕ
  pub write_address : Address → List ℕ
  pub read_u8 : List ℕ → Option (ℕ × List ℕ)
  pub read_u32 : List ℕ → Option (ℕ × List ℕ)
  pub read_address : List ℕ → Option (Address × List ℕ)
  pub read_write_u8 :
      (x : ℕ) (rest : List ℕ) → x < 2 ^ 8 → read_u8 (write_u8 x ++ rest) ≡ some (x, rest)
  pub read_write_u32 :
      (x : ℕ) (rest : List ℕ) → x < 2 ^ 32 → read_u32 (write_u32 x ++ rest) ≡ some (x, rest)
  pub read_write_address :
      (x : Address) (rest : List ℕ)
      → x < 2 ^ 32
      → read_address (write_address x ++ rest) ≡ some (x, rest)
  pub length_u8 : (x : ℕ) → length (write_u8 x) ≡ 1
  pub length_u32 : (x : ℕ) → length (write_u32 x) ≡ 4
  pub length_address : (x : Address) → length (write_address x) ≡ 4

-- GetSerializedSize of the four headers.
abbrev pub type_size : ℕ
type_size = 1

abbrev pub rreq_size : ℕ
rreq_size = 27

abbrev pub rrep_size : ℕ
rrep_size = 23

abbrev pub hello_size : ℕ
hello_size = 20

module _ (w : Wire) where
  open w use {write_u8, write_u32, write_address, read_u8, read_u32, read_address}

  unfoldable pub serialize_type : TypeHeader → List ℕ
  unfolding type_byte
  serialize_type h = write_u8 (type_byte h.type)

  -- `old` is the header that is written over.
  unfoldable pub deserialize_type : TypeHeader → List ℕ → Option (TypeHeader × List ℕ)
  deserialize_type old start = do
    (type, i) ← read_u8 start
    some (
      if type == 1
          then record { type = rreq; is_valid = true }
          else if type == 2
          then record { type = rrep; is_valid = true }
          else record old { is_valid = false },
      i,
    )

  unfoldable pub serialize_rreq : RreqHeader → List ℕ
  serialize_rreq h =
      write_u8 h.flags
      ++ (write_u8 h.reserved
          ++ (write_u8 h.hop_count
              ++ (write_u32 h.request_id
                  ++ (write_address h.dst
                      ++ (write_u32 h.dst_seq_no
                          ++ (write_address h.origin
                              ++ (write_u32 h.origin_seq_no ++ write_u32 h.transaction_amount)))))))

  unfoldable pub deserialize_rreq : List ℕ → Option (RreqHeader × List ℕ)
  deserialize_rreq start = do
    (flags, i) ← read_u8 start
    (reserved, i) ← read_u8 i
    (hop_count, i) ← read_u8 i
    (request_id, i) ← read_u32 i
    (dst, i) ← read_address i
    (dst_seq_no, i) ← read_u32 i
    (origin, i) ← read_address i
    (origin_seq_no, i) ← read_u32 i
    (transaction_amount, i) ← read_u32 i
    some (
      record {
        flags = flags;
        reserved = reserved;
        hop_count = hop_count;
        request_id = request_id;
        dst = dst;
        dst_seq_no = dst_seq_no;
        origin = origin;
        origin_seq_no = origin_seq_no;
        transaction_amount = transaction_amount;
      },
      i,
    )

  unfoldable pub serialize_rrep : RrepHeader → List ℕ
  serialize_rrep h =
      write_u8 h.flags
      ++ (write_u8 h.prefix_size
          ++ (write_u8 h.hop_count
              ++ (write_address h.dst
                  ++ (write_u32 h.dst_seq_no
                      ++ (write_address h.origin
                          ++ (write_u32 h.life_time ++ write_u32 h.acc_rewards))))))

  unfoldable pub deserialize_rrep : List ℕ → Option (RrepHeader × List ℕ)
  deserialize_rrep start = do
    (flags, i) ← read_u8 start
    (prefix_size, i) ← read_u8 i
    (hop_count, i) ← read_u8 i
    (dst, i) ← read_address i
    (dst_seq_no, i) ← read_u32 i
    (origin, i) ← read_address i
    (life_time, i) ← read_u32 i
    (acc_rewards, i) ← read_u32 i
    some (
      record {
        flags = flags;
        prefix_size = prefix_size;
        hop_count = hop_count;
        dst = dst;
        dst_seq_no = dst_seq_no;
        origin = origin;
        life_time = life_time;
        acc_rewards = acc_rewards;
      },
      i,
    )

  unfoldable pub serialize_hello : HelloHeader → List ℕ
  serialize_hello h =
      write_address h.dst
      ++ (write_u32 h.dst_seq_no
          ++ (write_address h.origin ++ (write_u32 h.life_time ++ write_u32 h.ch_avail_deposit)))

  -- `old` is the header that is written over: its flags stay.
  unfoldable pub deserialize_hello : HelloHeader → List ℕ → Option (HelloHeader × List ℕ)
  deserialize_hello old start = do
    (dst, i) ← read_address start
    (dst_seq_no, i) ← read_u32 i
    (origin, i) ← read_address i
    (life_time, i) ← read_u32 i
    (ch_avail_deposit, i) ← read_u32 i
    some (
      record old {
        dst = dst;
        dst_seq_no = dst_seq_no;
        origin = origin;
        life_time = life_time;
        ch_avail_deposit = ch_avail_deposit;
      },
      i,
    )
