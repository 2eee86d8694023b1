-- ===== src/Tests/Headers.antt =====
-- The theorems on model/payroute-packet.cc and on the dispatch at concrete inputs.
use cnrlchain.Base.{◌≡◌, some, [], ◌++◌, arith, length}
use cnrlchain.Packet.{RreqHeader, empty_rreq, RrepHeader, HelloHeader}
use cnrlchain.Packet.Codec.{hello_size, serialize_hello, deserialize_hello}
use cnrlchain.Packet.RoundTrip.{deserialize-serialize_hello}
use cnrlchain.Tests.{wire}

abbrev pub request : RreqHeader
request = record empty_rreq {
  flags = 8;
  hop_count = 3;
  request_id = 70000;
  dst = 0x0a00_0002;
  origin = 0x0a00_0001;
  origin_seq_no = 5;
  transaction_amount = 40;
}

abbrev pub answer : RrepHeader
answer = record {
  flags = 64;
  prefix_size = 0;
  hop_count = 2;
  dst = 0x0a00_0002;
  dst_seq_no = 9;
  origin = 0x0a00_0001;
  life_time = 5600;
  acc_rewards = 3;
}

abbrev pub greeting : HelloHeader
greeting = record {
  flags = 64;
  dst = 0x0a00_0002;
  dst_seq_no = 9;
  origin = 0x0a00_0001;
  life_time = 2000;
  ch_avail_deposit = 70;
}

-- The flags of the greeting, 64, are gone in what is read.
abbrev pub blank : HelloHeader
blank = record greeting { flags = 0; ch_avail_deposit = 0 }

deserialize-serialize_hello_example :
    (length (serialize_hello wire greeting) ≡ hello_size)
    × (deserialize_hello wire blank (serialize_hello wire greeting ++ [])
        ≡ some (record greeting { flags = 0 }, []))
deserialize-serialize_hello_example = deserialize-serialize_hello wire greeting blank [] (record {
  dst = omega arith;
  dst_seq_no = omega arith;
  origin = omega arith;
  life_time = omega arith;
  ch_avail_deposit = omega arith;
})
