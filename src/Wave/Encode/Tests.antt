-- ===== src/Wave/Encode/Tests.antt =====
-- Runs of the encoding.
use map_based_relay.Prelude.{true, ◌≡◌, refl, ◌+◌, ◌*◌, ◌^◌}
use map_based_relay.Gpsr.Samples.{whole_numbers}
use map_based_relay.Wave.Encode.{
  GeoHashRange, geohash_fast_encode, interleave64, deinterleave64, spread, gather,
}

interleave_run : interleave64 0b1011 0b0110 ≡ 0b01101101
unfolding interleave64 spread
interleave_run = refl

deinterleave_run : deinterleave64 (interleave64 3021 1999) ≡ 3021 + 1999 * 2 ^ 32
unfolding interleave64 deinterleave64 spread gather
deinterleave_run = refl

-- Whole numbers stand for the doubles: the coordinates lie 3 and 2 blocks from the border.
abbrev four : GeoHashRange
four = record { max = 14; min = 10 }

encode_run :
    geohash_fast_encode
      (record whole_numbers { div = λ a b. a; mul = λ a b. a })
      (λ d. d)
      four
      four
      13
      12
      2
      (record { bits = 9; step = 0 })
    ≡ (record { bits = 13; step = 2 }, true)
unfolding geohash_fast_encode interleave64 spread
encode_run = refl
