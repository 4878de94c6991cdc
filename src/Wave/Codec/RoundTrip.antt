-- ===== src/Wave/Codec/RoundTrip.antt =====
-- What `geohash_encode` writes, `geohash_decode` reads: an area around the place.
use map_based_relay.Prelude.{ℕ, zero, suc, ◌≡◌, Bool, false}
use map_based_relay.Doubles.{Double, Doubles}
use map_based_relay.Wave.GeoHash.{GeoHashBits}
use map_based_relay.Wave.Encode.{GeoHashRange}
use map_based_relay.Wave.Codec.{
  GeoHashArea, half, half_bit, encode_loop, geohash_encode, geohash_decode,
}

-- Each range is halved towards the coordinate, on its own.
unfoldable pub bisect : Doubles → (n : ℕ) → GeoHashRange → (d : Double) → GeoHashRange
bisect f zero r d = r
bisect f (suc n) r d = bisect f n (half f (half_bit f r d) r) d

abbrev pub Within : Doubles → GeoHashRange → (d : Double) → Type 0
Within f r d = (f.lt d r.min ≡ false) × (f.lt r.max d ≡ false)

module _ (f : Doubles) (latitude longitude : Double) where
  -- The area that is left of the one that the decoding starts with.
  abbrev Bisected : (n : ℕ) → (lat_range lon_range : GeoHashRange) → GeoHashBits → GeoHashArea
  Bisected n lat_range lon_range hash = record {
    hash = hash;
    latitude = bisect f n lat_range latitude;
    longitude = bisect f n lon_range longitude;
  }

module _ (f : Doubles) (lat_range lon_range : GeoHashRange) (latitude longitude : Double) (step : ℕ)
    (hash : GeoHashBits) where
  abbrev pub encoded : GeoHashBits × Bool
  encoded = geohash_encode f lat_range lon_range latitude longitude step hash

  abbrev pub decoded : GeoHashArea
  decoded = geohash_decode f lat_range lon_range encoded.0

  abbrev whole_hash : GeoHashBits
  whole_hash = record {
    bits = encode_loop f step lat_range lon_range latitude longitude 0;
    step = step;
  }
