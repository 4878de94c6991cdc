-- ===== src/Gpsr/Packet.antt =====
-- NS3/gpsr/model/gpsr-packet.cc and gpsr-packet.h: the type tag, the hello header and the position
-- header. A `double` field is the 64-bit pattern that `memcpy` moves.
pub mod RoundTrip
use map_based_relay.Prelude.{
  ℕ, List, ◌++◌, Option, some, Bool, true, false, ◌&&◌, ◌==◌, if◌then◌else◌, ◌>>=◌,
}
use map_based_relay.Wire.{Buffer}

-- `MessageType` is the byte that travels.
abbrev pub gpsrtype_hello : ℕ
gpsrtype_hello = 1

abbrev pub gpsrtype_pos : ℕ
gpsrtype_pos = 2

pub record TypeHeader : Type 0 where
  pub type : ℕ
  pub valid : Bool

-- A type header is made valid, whatever the type.
abbrev pub type_header : ℕ → TypeHeader
type_header t = record { type = t; valid = true }

pub record HelloHeader : Type 0 where
  pub origin_posx : ℕ
  pub origin_posy : ℕ

pub record PositionHeader : Type 0 where
  pub dst_posx : ℕ
  pub dst_posy : ℕ
  pub updated : ℕ
  pub rec_posx : ℕ
  pub rec_posy : ℕ
  pub in_rec : ℕ
  pub last_posx : ℕ
  pub last_posy : ℕ
  pub src_posx : ℕ
  pub src_posy : ℕ

abbrev pub type_size : ℕ
type_size = 1

abbrev pub hello_size : ℕ
hello_size = 16

abbrev pub position_size : ℕ
position_size = 69

module _ (b : Buffer) where
  open b use {u8, hton64, u32}

  pub serialize_type : TypeHeader → List ℕ
  serialize_type h = u8.write h.type

  -- On an unknown byte the header keeps its type and is marked invalid.
  pub deserialize_type : TypeHeader → List ℕ → Option (TypeHeader × List ℕ)
  deserialize_type this i = do
    (type, i) ← u8.read i
    some (
      if type == gpsrtype_hello
          then type_header type
          else if type == gpsrtype_pos
          then type_header type
          else record this { valid = false },
      i,
    )

  pub serialize_hello : HelloHeader → List ℕ
  serialize_hello h = hton64.write h.origin_posx ++ hton64.write h.origin_posy

  pub deserialize_hello : List ℕ → Option (HelloHeader × List ℕ)
  deserialize_hello i = do
    (x, i) ← hton64.read i
    (y, i) ← hton64.read i
    some (record { origin_posx = x; origin_posy = y }, i)

  pub serialize_position : PositionHeader → List ℕ
  serialize_position h =
      hton64.write h.src_posx
      ++ (hton64.write h.src_posy
          ++ (hton64.write h.dst_posx
              ++ (hton64.write h.dst_posy
                  ++ (u32.write h.updated
                      ++ (hton64.write h.rec_posx
                          ++ (hton64.write h.rec_posy
                              ++ (u8.write h.in_rec
                                  ++ (hton64.write h.last_posx ++ hton64.write h.last_posy))))))))

  pub deserialize_position : List ℕ → Option (PositionHeader × List ℕ)
  deserialize_position i = do
    (src_posx, i) ← hton64.read i
    (src_posy, i) ← hton64.read i
    (dst_posx, i) ← hton64.read i
    (dst_posy, i) ← hton64.read i
    (updated, i) ← u32.read i
    (rec_posx, i) ← hton64.read i
    (rec_posy, i) ← hton64.read i
    (in_rec, i) ← u8.read i
    (last_posx, i) ← hton64.read i
    (last_posy, i) ← hton64.read i
    some (
      record {
        dst_posx = dst_posx;
        dst_posy = dst_posy;
        updated = updated;
        rec_posx = rec_posx;
        rec_posy = rec_posy;
        in_rec = in_rec;
        last_posx = last_posx;
        last_posy = last_posy;
        src_posx = src_posx;
        src_posy = src_posy;
      },
      i,
    )
