-- ===== src/Wave/Codec.antt =====
-- NS3/wave/model/geohash.c: `geohash_encode` and `geohash_decode`, which halve the ranges bit by bit,
-- `geohash_fast_decode`, and the four quarters of a block. The pointers of the results are not NULL. A
-- shift by 64 or more, which a step over 32 would ask for, is undefined in the source.
pub mod Bits
pub mod RoundTrip
mod Tests
use map_based_relay.Prelude.{
  ℕ, zero, suc, ◌+◌, ◌-◌, ◌*◌, ◌/◌, ◌%◌, ◌^◌, Bool, true, false, ltb, ◌||◌, ◌==◌, if◌then◌else◌,
}
use map_based_relay.Doubles.{Double, Doubles}
use map_based_relay.Wave.GeoHash.{GeoHashBits}
use map_based_relay.Wave.Encode.{GeoHashRange, outside, deinterleave64}

pub record GeoHashArea : Type 0 where
  pub hash : GeoHashBits
  pub latitude : GeoHashRange
  pub longitude : GeoHashRange

-- 2 and 1.0
abbrev two : Double
two = 0x4000000000000000

abbrev one : Double
one = 0x3ff0000000000000

abbrev pub middle : Doubles → GeoHashRange → Double
middle f r = f.div (f.add r.max r.min) two

-- The half of a range that a bit stands for: 0 for the lower one.
abbrev pub half : Doubles → (bit : ℕ) → GeoHashRange → GeoHashRange
half f bit r = if bit == 0 then record r { max = middle f r } else record r { min = middle f r }

-- The bit of a coordinate: 0 where it is no nearer to the upper end.
abbrev pub half_bit : Doubles → GeoHashRange → (d : Double) → ℕ
half_bit f r d = if f.le (f.sub d r.min) (f.sub r.max d) then 0 else 1

-- `bits <<= 1; bits += bit;`
abbrev pub shift_in : (bits bit : ℕ) → ℕ
shift_in bits bit = (bits * 2 % 2 ^ 64 + bit) % 2 ^ 64

-- The rounds that are left of the loop.
pub encode_loop :
    Doubles
    → (rounds : ℕ) → (lat_range lon_range : GeoHashRange) → (latitude longitude : Double)
    → (bits : ℕ) → ℕ
encode_loop f zero lat_range lon_range latitude longitude bits = bits
encode_loop f (suc n) lat_range lon_range latitude longitude bits =
    let lat_bit = half_bit f lat_range latitude in
    let lon_bit = half_bit f lon_range longitude in
    encode_loop f n (half f lat_bit lat_range) (half f lon_bit lon_range) latitude longitude
      (shift_in (shift_in bits lon_bit) lat_bit)

-- The hash that is left, and whether the result is 0 and not -1.
pub geohash_encode :
    Doubles
    → (lat_range lon_range : GeoHashRange) → (latitude longitude : Double) → (step : ℕ)
    → GeoHashBits
    → GeoHashBits × Bool
unfolding encode_loop
geohash_encode f lat_range lon_range latitude longitude step hash =
    if ltb 32 step || step == 0
    then (hash, false)
    else if outside f lat_range latitude || outside f lon_range longitude
    then (record { bits = 0; step = step }, false)
    else (
      record { bits = encode_loop f step lat_range lon_range latitude longitude 0; step = step },
      true,
    )

abbrev pub get_bit : (bits pos : ℕ) → ℕ
get_bit bits pos = bits / 2 ^ pos % 2

-- `rounds` is `hash.step - i`.
pub decode_loop : Doubles → (rounds : ℕ) → GeoHashArea → GeoHashArea
decode_loop f zero area = area
decode_loop f (suc n) area = decode_loop f n (record area {
  latitude = half f (get_bit area.hash.bits (suc n * 2 - 2)) area.latitude;
  longitude = half f (get_bit area.hash.bits (suc n * 2 - 1)) area.longitude;
})

pub geohash_decode : Doubles → (lat_range lon_range : GeoHashRange) → GeoHashBits → GeoHashArea
unfolding decode_loop
geohash_decode f lat_range lon_range hash =
    decode_loop f hash.step (record { hash = hash; latitude = lat_range; longitude = lon_range })

-- The part of a range from the block `i` on, of `2 ^ step` blocks; `i + 1` is a uint32_t.
abbrev pub blocks : Doubles → (step i : ℕ) → GeoHashRange → GeoHashRange
blocks f step i r =
    let scale = f.sub r.max r.min in
    let border = λ (k : ℕ).
      f.add r.min (f.mul (f.div (f.mul (f.of_uint k) one) (f.of_uint (2 ^ step))) scale) in
    record { min = border i; max = border ((i + 1) % 2 ^ 32) }

pub geohash_fast_decode : Doubles → (lat_range lon_range : GeoHashRange) → GeoHashBits → GeoHashArea
unfolding deinterleave64
geohash_fast_decode f lat_range lon_range hash =
    let xyhilo = deinterleave64 hash.bits in
    record {
      hash = hash;
      latitude = blocks f hash.step (xyhilo % 2 ^ 32) lat_range;
      longitude = blocks f hash.step (xyhilo / 2 ^ 32) lon_range;
    }

-- One step finer: the quarter with the two new bits. The step is a uint8_t.
abbrev pub quarter : GeoHashBits → (bit2 : ℕ) → GeoHashBits
quarter h bit2 = record {
  bits = (h.bits * 4 % 2 ^ 64 + bit2) % 2 ^ 64;
  step = (h.step + 1) % 2 ^ 8;
}

abbrev pub geohash_next_leftbottom : GeoHashBits → GeoHashBits
geohash_next_leftbottom h = quarter h 0

abbrev pub geohash_next_rightbottom : GeoHashBits → GeoHashBits
geohash_next_rightbottom h = quarter h 2

abbrev pub geohash_next_lefttop : GeoHashBits → GeoHashBits
geohash_next_lefttop h = quarter h 1

abbrev pub geohash_next_righttop : GeoHashBits → GeoHashBits
geohash_next_righttop h = quarter h 3
