-- ===== src/Mbr/Header.antt =====
-- NS3/mbr-neighbor/model/mbr-header.cc and mbr-header.h: the header of a hello packet, its
-- constructor and setters, and its serialised form. The two `float` fields are the bit patterns
-- that `memcpy` moves; an address is its 32-bit value.
pub mod RoundTrip
pub mod Flags
mod Tests
use Prim.Native.Nat.{bit_and, bit_or}
use map_based_relay.Prelude.{
  ℕ, zero, suc, ◌-◌, ◌%◌, ◌^◌, List, [], ◌∷◌, ◌++◌, Option, some, Bool, not, ◌&&◌, ◌==◌,
  if◌then◌else◌, ◌>>=◌,
}
use map_based_relay.Wire.{Buffer}

pub record MbrHeader : Type 0 where
  pub flags : ℕ
  pub prefix_size : ℕ
  pub hop_count : ℕ
  pub dst : ℕ
  pub dst_seq_no : ℕ
  pub origin : ℕ
  pub geohash : ℕ
  pub mac : List ℕ
  pub direction : ℕ
  pub latitude : ℕ
  pub longitude : ℕ
  pub life_time : ℕ

-- The lifetime is handed over in milliseconds and is cut to 32 bits. Where no address is handed
-- over `m_mac` stays as it is in memory, which is `unset`.
unfoldable pub mbr_header :
    (prefix_size hop_count dst dst_seq_no origin life_ms geohash : ℕ)
    → Option (List ℕ)
    → (direction latitude longitude : ℕ) → (unset : List ℕ) → MbrHeader
mbr_header prefix_size hop_count dst dst_seq_no origin life_ms geohash mac dir lat lon unset =
    record {
      flags = 0;
      prefix_size = prefix_size;
      hop_count = hop_count;
      dst = dst;
      dst_seq_no = dst_seq_no;
      origin = origin;
      geohash = geohash;
      mac = elim mac [ some m ↦ m | _ ↦ unset ];
      direction = dir;
      latitude = lat;
      longitude = lon;
      life_time = life_ms % 2 ^ 32;
    }

abbrev pub serialized_size : ℕ
serialized_size = 41

module _ (b : Buffer) where
  open b use {u8, hton32, hton64, ip}

  pub write_mac : List ℕ → List ℕ
  write_mac [] = []
  write_mac (x ∷ xs) = u8.write x ++ write_mac xs

  pub serialize : MbrHeader → List ℕ
  serialize h =
      u8.write h.flags
      ++ (u8.write h.prefix_size
          ++ (u8.write h.hop_count
              ++ (ip.write h.dst
                  ++ (hton32.write h.dst_seq_no
                      ++ (ip.write h.origin
                          ++ (hton32.write h.life_time
                              ++ (hton64.write h.geohash
                                  ++ (write_mac h.mac
                                      ++ (hton32.write h.latitude
                                          ++ hton32.write h.longitude)))))))))

  pub read_mac : ℕ → List ℕ → Option (List ℕ × List ℕ)
  read_mac zero i = some ([], i)
  read_mac (suc n) i = do (x, i) ← u8.read i; (xs, i) ← read_mac n i; some (x ∷ xs, i)

  -- The header object that is read into keeps its direction.
  pub deserialize : MbrHeader → List ℕ → Option (MbrHeader × List ℕ)
  deserialize this i = do
    (flags, i) ← u8.read i
    (prefix_size, i) ← u8.read i
    (hop_count, i) ← u8.read i
    (dst, i) ← ip.read i
    (dst_seq_no, i) ← hton32.read i
    (origin, i) ← ip.read i
    (life_time, i) ← hton32.read i
    (geohash, i) ← hton64.read i
    (mac, i) ← read_mac 6 i
    (t1, i) ← hton32.read i
    (t2, i) ← hton32.read i
    some (
      record {
        flags = flags;
        prefix_size = prefix_size;
        hop_count = hop_count;
        dst = dst;
        dst_seq_no = dst_seq_no;
        origin = origin;
        geohash = geohash;
        mac = mac;
        direction = this.direction;
        latitude = t1;
        longitude = t2;
        life_time = life_time;
      },
      i,
    )

pub set_life_time : MbrHeader → ℕ → MbrHeader
set_life_time h ms = record h { life_time = ms % 2 ^ 32 }

-- `1 << 6`, and its complement among the eight bits of the flags.
abbrev pub ack_bit : ℕ
ack_bit = 64

pub set_ack_required : MbrHeader → Bool → MbrHeader
set_ack_required h f =
    if f
    then record h { flags = bit_or h.flags ack_bit }
    else record h { flags = bit_and h.flags (255 - ack_bit) }

pub get_ack_required : MbrHeader → Bool
get_ack_required h = not (bit_and h.flags ack_bit == 0)

pub set_hello : MbrHeader → (origin src_seq_no life_ms : ℕ) → MbrHeader
set_hello h origin src_seq_no life_ms = record h {
  flags = 0;
  prefix_size = 0;
  hop_count = 0;
  dst = origin;
  dst_seq_no = src_seq_no;
  origin = origin;
  life_time = life_ms % 2 ^ 32;
}

-- `operator==`: it reads neither the position fields nor the address and the direction.
pub header_eq : MbrHeader → MbrHeader → Bool
header_eq h o =
    h.flags == o.flags
    && (h.prefix_size == o.prefix_size
        && (h.hop_count == o.hop_count
            && (h.dst == o.dst
                && (h.dst_seq_no == o.dst_seq_no
                    && (h.origin == o.origin && h.life_time == o.life_time)))))
