-- ===== src/Wave/Encode/Inverse.antt =====
-- The two halves of a block of at most twelve bits each, as GEOHASH_STEP_BIT says, are found again.
use map_based_relay.Prelude.{
  ℕ, ◌<◌, ◌≡◌, refl, Bool, true, ◌==◌, ==_iff, passes_under, passes_under_at, ◌^◌, ◌*◌,
}
use map_based_relay.Wave.Encode.{spread, gather, interleave64, deinterleave64}

abbrev low_returns : ℕ → Bool
low_returns x = deinterleave64 (interleave64 x 0) == x

abbrev high_returns : ℕ → Bool
high_returns y = deinterleave64 (interleave64 0 y) == y * 2 ^ 32

low_table : passes_under low_returns 4096 ≡ true
unfolding passes_under interleave64 deinterleave64 spread gather
low_table = refl

high_table : passes_under high_returns 4096 ≡ true
unfolding passes_under interleave64 deinterleave64 spread gather
high_table = refl

-- The latitude's half of a block on the border, and the longitude's, are read back.
pub deinterleave64-interleave64 :
    (n : ℕ)
    → n < 4096
    → (deinterleave64 (interleave64 n 0) ≡ n) × (deinterleave64 (interleave64 0 n) ≡ n * 2 ^ 32)
deinterleave64-interleave64 n small = (
  (==_iff (deinterleave64 (interleave64 n 0)) n).0
      (passes_under_at low_returns 4096 n small low_table),
  (==_iff (deinterleave64 (interleave64 0 n)) (n * 2 ^ 32)).0
      (passes_under_at high_returns 4096 n small high_table),
)
