-- ===== src/Mbr/Header/Tests.antt =====
-- Runs and instances of the header's theorems, on one hello of a node.

use map_based_relay.Prelude.{◌≡◌, refl, [], ◌∷◌, ◌++◌, some, none, arith}
use map_based_relay.Wire.LittleEndian.{little_endian}
use map_based_relay.Mbr.Header.{MbrHeader, mbr_header, serialize, deserialize}
use map_based_relay.Mbr.Header.RoundTrip.{InRange, deserialize-serialize}

-- A vehicle that heads east.
abbrev hello : MbrHeader
hello = record {
  flags = 0;
  prefix_size = 0;
  hop_count = 0;
  dst = 0x0a000001;
  dst_seq_no = 0;
  origin = 0x0a000001;
  geohash = 0xabcdef;
  mac = 1 ∷ 2 ∷ 3 ∷ 4 ∷ 5 ∷ 6 ∷ [];
  direction = 90;
  latitude = 0x42200000;
  longitude = 0x42e90000;
  life_time = 0;
}

abbrev blank : MbrHeader
blank = record hello { direction = 0; geohash = 0; mac = [] }

hello-InRange : InRange hello
hello-InRange = record {
  flags = omega arith;
  prefix_size = omega arith;
  hop_count = omega arith;
  dst = omega arith;
  dst_seq_no = omega arith;
  origin = omega arith;
  life_time = omega arith;
  geohash = omega arith;
  mac_length = refl;
  mac_bytes = omega arith;
  latitude = omega arith;
  longitude = omega arith;
}

deserialize-serialize_example :
    deserialize little_endian blank (serialize little_endian hello ++ 7 ∷ [])
    ≡ some (record hello { direction = 0 }, 7 ∷ [])
deserialize-serialize_example =
    deserialize-serialize little_endian blank hello (7 ∷ []) hello-InRange

lifetime_wraps : (mbr_header 0 0 1 0 1 0x1_0000_0005 0 none 0 0 0 []).life_time ≡ 5
unfolding mbr_header
lifetime_wraps = refl
