-- ===== src/Wave/Codec/Bits.antt =====
-- The bits that the loop of `geohash_encode` shifts in stand where `geohash_decode` looks for them.
use native.Mathlib.Nat.{pow-suc, one-le-pow, mul-add-div_right, div-div-eq-div-mul, div-eq_of_lt}
use map_based_relay.Prelude.{ℕ, zero, suc, ◌+◌, ◌-◌, ◌*◌, ◌/◌, ◌^◌, ◌≡◌, ◌≤◌, ◌<◌, refl, arith, ◌∙◌}
use map_based_relay.Doubles.{Double, Doubles}
use map_based_relay.Wave.Encode.{GeoHashRange}
use map_based_relay.Wave.Codec.{half, half_bit, shift_in, get_bit, encode_loop}

pow_pos : (n : ℕ) → 1 ≤ 4 ^ n
pow_pos n = one-le-pow n 4 (omega arith)

pub even_place : (n : ℕ) → 2 ^ (suc n * 2 - 2) ≡ 4 ^ n
even_place zero = refl
even_place (suc m) =
    let e : suc (suc m) * 2 - 2 ≡ suc (suc (suc m * 2 - 2)) = omega arith in
    rw (e, pow-suc 2 (suc (suc m * 2 - 2)), pow-suc 2 (suc m * 2 - 2), even_place m, pow-suc 4 m)
      (omega arith)

pub odd_place : (n : ℕ) → 2 ^ (suc n * 2 - 1) ≡ 4 ^ n * 2
odd_place n =
    let e : suc n * 2 - 1 ≡ suc (suc n * 2 - 2) = omega arith in
    rw (e, pow-suc 2 (suc n * 2 - 2), even_place n) refl

top_part : (n top low : ℕ) → low < 4 ^ n → (top * 4 ^ n + low) / 4 ^ n ≡ top
top_part n top low h = mul-add-div_right (pow_pos n) top low ∙ rw (div-eq_of_lt h) (omega arith)

-- The pairs of bits of `n` rounds, the first round's highest.
unfoldable pub code :
    Doubles → (n : ℕ) → (lat_range lon_range : GeoHashRange) → (latitude longitude : Double) → ℕ
code f zero lat_range lon_range latitude longitude = 0
code f (suc n) lat_range lon_range latitude longitude =
    let lat_bit = half_bit f lat_range latitude in
    let lon_bit = half_bit f lon_range longitude in
    (lon_bit * 2 + lat_bit) * 4 ^ n
    + code f n (half f lat_bit lat_range) (half f lon_bit lon_range) latitude longitude

pub bit_bound : (f : Doubles) (r : GeoHashRange) (d : Double) → half_bit f r d < 2
bit_bound f r d = ground arith

pair_bound : (k p c : ℕ) → k < 4 → c < p → k * p + c < p * 4
pair_bound k p c h l = grind arith

shift_pair :
    (bits a b : ℕ)
    → a < 2
    → b < 2
    → (bits + 1) * 4 ≤ 2 ^ 64
    → shift_in (shift_in bits a) b ≡ bits * 4 + (a * 2 + b)
shift_pair bits a b ha hb h = omega arith

room : (bits p m : ℕ) → 1 ≤ p → (bits + 1) * (p * 4) ≤ m → (bits + 1) * 4 ≤ m
room bits p m pos h = grind arith

room_after : (bits k p m : ℕ) → k < 4 → (bits + 1) * (p * 4) ≤ m → (bits * 4 + k + 1) * p ≤ m
room_after bits k p m hk h = grind arith

regroup : (bits k p c : ℕ) → (bits * 4 + k) * p + c ≡ bits * (p * 4) + (k * p + c)
regroup bits k p c = grind arith

module _ (f : Doubles) (latitude longitude : Double) where
  pub code_bound :
      (n : ℕ) (lat_range lon_range : GeoHashRange)
      → code f n lat_range lon_range latitude longitude < 4 ^ n
  unfolding code
  code_bound zero lat_range lon_range = omega arith
  code_bound (suc n) lat_range lon_range =
      let lat_bit = half_bit f lat_range latitude in
      let lon_bit = half_bit f lon_range longitude in
      rw (pow-suc 4 n) (
        pair_bound (lon_bit * 2 + lat_bit) (4 ^ n) _
          (omega (arith, bit_bound f lat_range latitude, bit_bound f lon_range longitude))
          (code_bound n (half f lat_bit lat_range) (half f lon_bit lon_range)))

  -- No bit is shifted out.
  pub encode_loop-code :
      (n : ℕ) (lat_range lon_range : GeoHashRange) (bits : ℕ)
      → (bits + 1) * 4 ^ n ≤ 2 ^ 64
      → encode_loop f n lat_range lon_range latitude longitude bits
        ≡ bits * 4 ^ n + code f n lat_range lon_range latitude longitude
  unfolding encode_loop code
  encode_loop-code zero lat_range lon_range bits h = omega arith
  encode_loop-code (suc n) lat_range lon_range bits h =
      let lat_bit = half_bit f lat_range latitude in
      let lon_bit = half_bit f lon_range longitude in
      let lat_small = bit_bound f lat_range latitude in
      let lon_small = bit_bound f lon_range longitude in
      let k = lon_bit * 2 + lat_bit in
      let pair : k < 4 = omega arith in
      let h' : (bits + 1) * (4 ^ n * 4) ≤ 2 ^ 64 = rw (← pow-suc 4 n) h in
      rw
        (
          shift_pair bits lon_bit lat_bit lon_small lat_small
              (room bits (4 ^ n) (2 ^ 64) (pow_pos n) h'),
          encode_loop-code n (half f lat_bit lat_range) (half f lon_bit lon_range) (bits * 4 + k)
              (room_after bits k (4 ^ n) (2 ^ 64) pair h'),
          pow-suc 4 n,
        )
        (regroup bits k (4 ^ n) _)

-- The two bits that a round put in are the lowest two of what stands above the later ones.
module _ (n top a b low bits : ℕ) (ha : a < 2) (hb : b < 2) (small : low < 4 ^ n)
    (e : bits ≡ top * 4 ^ suc n + ((a * 2 + b) * 4 ^ n + low)) where
  pub above : bits ≡ (top * 4 + (a * 2 + b)) * 4 ^ n + low
  above = rw (regroup top (a * 2 + b) (4 ^ n) low, ← pow-suc 4 n) e

  pub get_bit-even : get_bit bits (suc n * 2 - 2) ≡ b
  get_bit-even =
      rw (even_place n, above, top_part n (top * 4 + (a * 2 + b)) low small) (omega arith)

  pub get_bit-odd : get_bit bits (suc n * 2 - 1) ≡ a
  get_bit-odd =
      rw
        (
          odd_place n,
          ← div-div-eq-div-mul bits (4 ^ n) 2,
          above,
          top_part n (top * 4 + (a * 2 + b)) low small,
        )
        (omega arith)
