-- ===== src/Mbr/Header/RoundTrip.antt =====
-- What a hello header carries over the air.
use map_based_relay.Prelude.{
  ℕ, ◌^◌, ◌<◌, ◌≡◌, refl, subst, List, [], ◌∷◌, ◌++◌, append_assoc, some, arith, length,
  length-append, All,
}
use map_based_relay.Wire.{Buffer}
use map_based_relay.Mbr.Header.{
  MbrHeader, serialized_size, write_mac, serialize, read_mac, deserialize,
}

-- Every field fits the width of its type.
pub record InRange (h : MbrHeader) : Type 0 where
  pub flags : h.flags < 256
  pub prefix_size : h.prefix_size < 256
  pub hop_count : h.hop_count < 256
  pub dst : h.dst < 2 ^ 32
  pub dst_seq_no : h.dst_seq_no < 2 ^ 32
  pub origin : h.origin < 2 ^ 32
  pub life_time : h.life_time < 2 ^ 32
  pub geohash : h.geohash < 2 ^ 64
  pub mac_length : length h.mac ≡ 6
  pub mac_bytes : All (λ x. x < 256) h.mac
  pub latitude : h.latitude < 2 ^ 32
  pub longitude : h.longitude < 2 ^ 32

module _ (b : Buffer) where
  pub length-write_mac : (xs : List ℕ) → length (write_mac b xs) ≡ length xs
  unfolding write_mac
  length-write_mac [] = refl
  length-write_mac (x ∷ xs) = omega (
    arith,
    length-append (b.u8.write x) (write_mac b xs),
    b.u8.length-write x,
    length-write_mac xs,
  )

  pub read_mac-write_mac :
      (xs rest : List ℕ)
      → All (λ x. x < 256) xs
      → read_mac b (length xs) (write_mac b xs ++ rest) ≡ some (xs, rest)
  unfolding read_mac write_mac
  read_mac-write_mac [] rest h = refl
  read_mac-write_mac (x ∷ xs) rest h = rw (
    append_assoc (b.u8.write x) (write_mac b xs) rest,
    b.u8.read-write x (write_mac b xs ++ rest) h.0,
    read_mac-write_mac xs rest h.1,
  )

  -- A header takes the 41 bytes that GetSerializedSize says, if its address has six bytes.
  length-serialize : (h : MbrHeader) → length h.mac ≡ 6 → length (serialize b h) ≡ serialized_size
  unfolding serialize
  length-serialize h six = simp (
    length-append, b.u8.length-write, b.ip.length-write, b.hton32.length-write,
    b.hton64.length-write, length-write_mac, six,
  )

  -- A header whose fields fit their types is read back as it was written, up to its last byte, but for
  -- the direction: that stays what it was in the header object that reads.
  pub deserialize-serialize :
      (this h : MbrHeader) (rest : List ℕ)
      → InRange h
      → deserialize b this (serialize b h ++ rest)
        ≡ some (record h { direction = this.direction }, rest)
  unfolding serialize deserialize
  deserialize-serialize this h rest r = simp (
    append_assoc,
    b.u8.read-write h.flags _ r.flags,
    b.u8.read-write h.prefix_size _ r.prefix_size,
    b.u8.read-write h.hop_count _ r.hop_count,
    b.ip.read-write h.dst _ r.dst,
    b.hton32.read-write h.dst_seq_no _ r.dst_seq_no,
    b.ip.read-write h.origin _ r.origin,
    b.hton32.read-write h.life_time _ r.life_time,
    b.hton64.read-write h.geohash _ r.geohash,
    mac_trip,
    b.hton32.read-write h.latitude _ r.latitude,
    b.hton32.read-write h.longitude _ r.longitude,
  )
    where
      mac_trip : (i : List ℕ) → read_mac b 6 (write_mac b h.mac ++ i) ≡ some (h.mac, i)
      mac_trip i =
          subst (λ n. read_mac b n (write_mac b h.mac ++ i) ≡ some (h.mac, i)) r.mac_length
            (read_mac-write_mac h.mac i r.mac_bytes)
