-- ===== src/Base/Output.antt =====
-- What is put on a std::ostream, in order. How a stream writes the characters of a value is not
-- part of the model.
use Prim.Native.String.{String}
use cnrlchain.Base.{ℕ, Bool, Address, Time}

pub data Item : Type 0 where
  text : String → Item
  number : ℕ → Item
  -- A uint8_t is an unsigned char: the stream writes the character and not the number.
  character : ℕ → Item
  address : Address → Item
  flag : Bool → Item
  -- The seconds of a Time, fixed with two digits, left in a field of 14.
  seconds : Time → Item
