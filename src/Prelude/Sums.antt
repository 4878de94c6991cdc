-- ===== src/Prelude/Sums.antt =====
-- Sums of a function over the numbers under a bound.
use Prim.Native.Nat.{ℕ, zero, suc, ◌+◌, ◌<◌}
use mathlib.Core.Path.{◌≡◌, refl}
use native.Mathlib.Omega.{arith}
use map_based_relay.Prelude.Tests.{ltb, ◌==◌, if◌then◌else◌}

abbrev pub sum_below : (ℕ → ℕ) → ℕ → ℕ
sum_below f zero = 0
sum_below f (suc n) = f n + sum_below f n

-- Two functions that differ by `k` at one place.
pub sum_below-add_at :
    (f f' : ℕ → ℕ) (k at n : ℕ)
    → ((q : ℕ) → f' q ≡ f q + (if q == at then k else 0))
    → sum_below f' n ≡ sum_below f n + (if ltb at n then k else 0)
sum_below-add_at f f' k at zero h = ground arith
sum_below-add_at f f' k at (suc n) h = ground (arith, h n, sum_below-add_at f f' k at n h)

pub sum_below-eq :
    (f f' : ℕ → ℕ) (n : ℕ) → ((q : ℕ) → q < n → f' q ≡ f q) → sum_below f' n ≡ sum_below f n
sum_below-eq f f' zero h = refl
sum_below-eq f f' (suc n) h =
    omega (arith, h n (omega arith), sum_below-eq f f' n (λ q lt. h q (omega arith)))

pub sum_below-zero : (n : ℕ) → sum_below (λ q. 0) n ≡ 0
sum_below-zero zero = refl
sum_below-zero (suc n) = omega (arith, sum_below-zero n)
