-- ===== src/Wave/Encode.antt =====
-- NS3/wave/model/geohash.c: `geohash_fast_encode` and `interleave64`, from coordinates to a block. The
-- cast of a double to uint32_t is the parameter `to_uint`.
pub mod Inverse
mod Tests
use Prim.Native.Nat.{bit_and, bit_or}
use map_based_relay.Prelude.{
  true, false, ℕ, zero, suc, ◌+◌, ◌*◌, ◌/◌, ◌%◌, ◌^◌, Bool, ltb, ◌||◌, ◌==◌, Option, none, some,
  if◌then◌else◌,
}
use map_based_relay.Doubles.{Double, Doubles}
use map_based_relay.Wave.GeoHash.{GeoHashBits}

pub record GeoHashRange : Type 0 where
  pub max : Double
  pub min : Double

-- The patterns of 39.74732, 40.15929, 116.16677 and 116.73407.
abbrev pub lat_range : GeoHashRange
lat_range = record { max = 0x404414639d5e4a38; min = 0x4043dfa82e87d2c8 }

abbrev pub lon_range : GeoHashRange
lon_range = record { max = 0x405d2efb00bcbe62; min = 0x405d0aac5c13fd0d }

-- One line of interleave64 on a uint64_t: `(x | (x << s)) & mask`.
abbrev pub spread_step : (s mask x : ℕ) → ℕ
spread_step s mask x = bit_and (bit_or x (x * 2 ^ s % 2 ^ 64)) mask

unfoldable pub spread : ℕ → ℕ
spread x = spread_step 1 0x5555555555555555 (
    spread_step 2 0x3333333333333333 (
      spread_step 4 0x0f0f0f0f0f0f0f0f
        (spread_step 8 0x00ff00ff00ff00ff (spread_step 16 0x0000ffff0000ffff x))))

-- The bits of x at the even places, those of y at the odd ones.
unfoldable pub interleave64 : (xlo ylo : ℕ) → ℕ
unfolding spread
interleave64 xlo ylo = bit_or (spread xlo) (spread ylo * 2 % 2 ^ 64)

-- One line of deinterleave64: `(x | (x >> s)) & mask`.
abbrev pub gather_step : (s mask x : ℕ) → ℕ
gather_step s mask x = bit_and (bit_or x (x / 2 ^ s)) mask

unfoldable pub gather : ℕ → ℕ
gather x = gather_step 16 0x00000000ffffffff (
    gather_step 8 0x0000ffff0000ffff (
      gather_step 4 0x00ff00ff00ff00ff (
        gather_step 2 0x0f0f0f0f0f0f0f0f
          (gather_step 1 0x3333333333333333 (gather_step 0 0x5555555555555555 x)))))

unfoldable pub deinterleave64 : (interleaved : ℕ) → ℕ
unfolding gather
deinterleave64 interleaved =
    bit_or (gather interleaved) (gather (interleaved / 2) * 2 ^ 32 % 2 ^ 64)

abbrev pub outside : Doubles → GeoHashRange → Double → Bool
outside f r d = f.lt d r.min || f.lt r.max d

-- The coordinate as a number of blocks from the border of the range. A shift of `1` by 32, which the
-- source does not refuse, is undefined there.
abbrev pub offset : Doubles → (to_uint : Double → ℕ) → GeoHashRange → (step : ℕ) → Double → ℕ
offset f to_uint r step d =
    to_uint (f.mul (f.div (f.sub d r.min) (f.sub r.max r.min)) (f.of_uint (2 ^ step)))

-- The hash that is left, and whether the result is 0 and not -1. Nothing is written where the step is
-- refused.
unfoldable pub geohash_fast_encode :
    Doubles
    → (to_uint : Double → ℕ) → (lat_range lon_range : GeoHashRange) → (latitude longitude : Double)
    → (step : ℕ) → GeoHashBits
    → GeoHashBits × Bool
unfolding interleave64
geohash_fast_encode f to_uint lat_range lon_range latitude longitude step hash =
    if ltb 32 step || step == 0
    then (hash, false)
    else if outside f lat_range latitude || outside f lon_range longitude
    then (record { bits = 0; step = step }, false)
    else (
      record {
        bits =
            interleave64 (offset f to_uint lat_range step latitude)
              (offset f to_uint lon_range step longitude);
        step = step;
      },
      true,
    )
