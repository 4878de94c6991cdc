-- ===== src/Wire.antt =====
-- The byte buffer of ns-3 (Buffer::Iterator and address-utils), which the packet headers of
-- NS3/mbr-neighbor and NS3/gpsr write to and read from. ns-3 is no part of the repository, so
-- this is an interface: what its documentation says of a write and of the read that matches it.
pub mod LittleEndian
use map_based_relay.Prelude.{ℕ, ◌^◌, ◌<◌, ◌≡◌, List, ◌++◌, Option, some, length}

-- One pair of a write and a read, for a field of `width` bytes. A buffer is the list of the bytes
-- that lie ahead; a read gives the value and what lies behind it, or fails at the end of the buffer.
pub record Codec (width : ℕ) : Type 0 where
  pub write : ℕ → List ℕ
  pub read : List ℕ → Option (ℕ × List ℕ)
  pub length-write : (x : ℕ) → length (write x) ≡ width
  pub read-write :
      (x : ℕ) (rest : List ℕ) → x < 256 ^ width → read (write x ++ rest) ≡ some (x, rest)

-- WriteU8 and ReadU8; WriteHtonU32 and ReadNtohU32; WriteHtonU64 and ReadNtohU64; WriteU32 and
-- ReadU32; WriteTo and ReadFrom of an Ipv4Address; WriteHtolsbU16 and ReadLsbtohU16; WriteTo and ReadFrom of a
-- Mac48Address.
pub record Buffer : Type 0 where
  pub u8 : Codec 1
  pub hton32 : Codec 4
  pub hton64 : Codec 8
  pub u32 : Codec 4
  pub ip : Codec 4
  pub lsb16 : Codec 2
  pub mac48 : Codec 6
