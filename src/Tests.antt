-- ===== src/Tests.antt =====
-- Concrete inputs for the theorems about model/: the data that the tests share.
mod Queue
mod Routes
mod Channels
mod Headers
mod Requests
mod Network
mod Relay
mod Delivery
mod Discovery
mod Protocol
mod Lifecycle
use cnrlchain.Base.{
  ℕ, ◌+◌, ◌*◌, ◌/◌, ◌%◌, ◌^◌, ◌<◌, ◌≡◌, refl, Bool, false, Option, none, some, List, [], ◌∷◌, ◌++◌,
  arith, Address, Time, pos, ◌==◌, length, ap,
}
use cnrlchain.Dpd.{Packets}
use cnrlchain.Route.{Interfaces}
use cnrlchain.Packet.{Millis}
use cnrlchain.Packet.Codec.{Wire}

-- A header is its source and destination; the uid of a packet is its handle.
abbrev pub net : Packets (Address × Address)
net = record { uid = λ p. p; source = λ h. h.0; destination = λ h. h.1 }

-- An interface is its address and its broadcast address.
abbrev pub interfaces : Interfaces (Address × Address)
interfaces = record {
  local = λ i. i.0;
  host_mask = λ i. false;
  broadcast = λ i. i.1;
  same = λ i j. i.0 == j.0;
  unset = (0, 0);
}

-- One step of the time is a millisecond.
abbrev pub millis : Millis
millis = record { get_milli_seconds = λ t. t; milli_seconds = pos }

abbrev pub big_endian : ℕ → List ℕ
big_endian x = x / 2 ^ 24 ∷ x / 2 ^ 16 % 2 ^ 8 ∷ x / 2 ^ 8 % 2 ^ 8 ∷ x % 2 ^ 8 ∷ []

abbrev read_byte : List ℕ → Option (ℕ × List ℕ)
read_byte [] = none
read_byte (x ∷ xs) = some (x, xs)

abbrev pub read_word : List ℕ → Option (ℕ × List ℕ)
read_word (a ∷ b ∷ c ∷ d ∷ xs) = some (a * 2 ^ 24 + b * 2 ^ 16 + c * 2 ^ 8 + d, xs)
read_word _ = none

pub read_big_endian :
    (x : ℕ) (rest : List ℕ) → x < 2 ^ 32 → read_word (big_endian x ++ rest) ≡ some (x, rest)
read_big_endian x rest lt = ap (λ y. some (y, rest)) (omega arith)

-- Bytes in network order.
abbrev pub wire : Wire
wire = record {
  write_u8 = λ x. x ∷ [];
  write_u32 = big_endian;
  write_address = big_endian;
  read_u8 = read_byte;
  read_u32 = read_word;
  read_address = read_word;
  read_write_u8 = λ x rest lt. refl;
  read_write_u32 = read_big_endian;
  read_write_address = read_big_endian;
  length_u8 = λ x. refl;
  length_u32 = λ x. refl;
  length_address = λ x. refl;
}
