-- ===== src/Wave/Codec/Tests.antt =====
-- Ranges from 0 to 64 and whole numbers, of which the half is rounded down.
use map_based_relay.Prelude.{◌≡◌, ◌/◌, refl}
use map_based_relay.Doubles.{Doubles}
use map_based_relay.Gpsr.Samples.{whole_numbers}
use map_based_relay.Wave.GeoHash.{GeoHashBits}
use map_based_relay.Wave.Encode.{GeoHashRange}
use map_based_relay.Wave.Codec.{geohash_encode, encode_loop}

abbrev halves : Doubles
halves = record whole_numbers { div = λ a b. a / 2 }

abbrev wide : GeoHashRange
wide = record { max = 64; min = 0 }

abbrev blank : GeoHashBits
blank = record { bits = 9; step = 9 }

-- 50 lies in the upper half twice and then in the lower one, 9 twice in the lower half and then in the
-- upper one.
three_steps : (geohash_encode halves wide wide 50 9 3 blank).0.bits ≡ 0b010110
unfolding geohash_encode encode_loop
three_steps = refl
