-- ===== src/Gpsr/Packet/RoundTrip.antt =====
-- A header that is read back is the header that was written, and takes the bytes that its size says.
use map_based_relay.Prelude.{
  ℕ, ◌^◌, ◌<◌, ◌≡◌, ◌⊎◌, List, ◌++◌, append_assoc, some, true, arith, length, length-append,
}
use map_based_relay.Wire.{Buffer}
use map_based_relay.Gpsr.Packet.{
  TypeHeader, HelloHeader, PositionHeader, gpsrtype_hello, gpsrtype_pos, hello_size, position_size,
  serialize_type, deserialize_type, serialize_hello, deserialize_hello, serialize_position,
  deserialize_position,
}

pub record HelloInRange (h : HelloHeader) : Type 0 where
  pub x : h.origin_posx < 2 ^ 64
  pub y : h.origin_posy < 2 ^ 64

pub record PositionInRange (h : PositionHeader) : Type 0 where
  pub dst_x : h.dst_posx < 2 ^ 64
  pub dst_y : h.dst_posy < 2 ^ 64
  pub updated : h.updated < 2 ^ 32
  pub rec_x : h.rec_posx < 2 ^ 64
  pub rec_y : h.rec_posy < 2 ^ 64
  pub in_rec : h.in_rec < 256
  pub last_x : h.last_posx < 2 ^ 64
  pub last_y : h.last_posy < 2 ^ 64
  pub src_x : h.src_posx < 2 ^ 64
  pub src_y : h.src_posy < 2 ^ 64

module _ (b : Buffer) where
  -- A type byte that is one of the two known types is read back as a valid header of that type.
  pub deserialize-serialize_type :
      (this h : TypeHeader) (rest : List ℕ)
      → (h.type ≡ gpsrtype_hello) ⊎ (h.type ≡ gpsrtype_pos)
      → deserialize_type b this (serialize_type b h ++ rest)
        ≡ some (record { type = h.type; valid = true }, rest)
  unfolding serialize_type deserialize_type
  deserialize-serialize_type this h rest known =
      rw (b.u8.read-write h.type rest (omega arith)) (ground arith)

  -- A hello header whose fields fit their types is read back whole, and takes 16 bytes.
  pub deserialize-serialize_hello :
      (h : HelloHeader) (rest : List ℕ)
      → HelloInRange h
      → (deserialize_hello b (serialize_hello b h ++ rest) ≡ some (h, rest))
        × (length (serialize_hello b h) ≡ hello_size)
  unfolding serialize_hello deserialize_hello
  deserialize-serialize_hello h rest r = (
    simp (
      append_assoc,
      b.hton64.read-write h.origin_posx _ r.x,
      b.hton64.read-write h.origin_posy _ r.y,
    ),
    simp (length-append, b.hton64.length-write),
  )

  -- A position header whose fields fit their types is read back whole, and takes 69 bytes.
  pub deserialize-serialize_position :
      (h : PositionHeader) (rest : List ℕ)
      → PositionInRange h
      → (deserialize_position b (serialize_position b h ++ rest) ≡ some (h, rest))
        × (length (serialize_position b h) ≡ position_size)
  unfolding serialize_position deserialize_position
  deserialize-serialize_position h rest r = (
    simp (
      append_assoc,
      b.hton64.read-write h.src_posx _ r.src_x,
      b.hton64.read-write h.src_posy _ r.src_y,
      b.hton64.read-write h.dst_posx _ r.dst_x,
      b.hton64.read-write h.dst_posy _ r.dst_y,
      b.u32.read-write h.updated _ r.updated,
      b.hton64.read-write h.rec_posx _ r.rec_x,
      b.hton64.read-write h.rec_posy _ r.rec_y,
      b.u8.read-write h.in_rec _ r.in_rec,
      b.hton64.read-write h.last_posx _ r.last_x,
      b.hton64.read-write h.last_posy _ r.last_y,
    ),
    simp (length-append, b.hton64.length-write, b.u32.length-write, b.u8.length-write),
  )
