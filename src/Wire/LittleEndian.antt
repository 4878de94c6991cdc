-- ===== src/Wire/LittleEndian.antt =====
-- A buffer that writes every field low byte first: the interface of the parent can be met. The
-- theorems on headers hold of any byte order.
use native.Mathlib.Nat.{pow-suc}
use map_based_relay.Prelude.{
  ℕ, zero, suc, ◌+◌, ◌*◌, ◌/◌, ◌%◌, ◌^◌, ◌<◌, ◌≡◌, refl, ap, List, [], ◌∷◌, ◌++◌, Option, none,
  some, arith, length, ◌>>=◌,
}
use map_based_relay.Wire.{Codec, Buffer}

unfoldable pub put : ℕ → ℕ → List ℕ
put zero x = []
put (suc w) x = (x % 256) ∷ put w (x / 256)

unfoldable pub take_in : ℕ → List ℕ → Option (ℕ × List ℕ)
take_in zero i = some (0, i)
take_in (suc w) [] = none
take_in (suc w) (b ∷ i) = do (v, rest) ← take_in w i; some (b + 256 * v, rest)

pub length-put : (w x : ℕ) → length (put w x) ≡ w
unfolding put
length-put zero x = refl
length-put (suc w) x = ap suc (length-put w (x / 256))

pub take_in-put :
    (w x : ℕ) (rest : List ℕ) → x < 256 ^ w → take_in w (put w x ++ rest) ≡ some (x, rest)
unfolding put take_in
take_in-put zero x rest h = ap (λ n. some (n, rest)) (omega arith)
take_in-put (suc w) x rest h =
    rw (take_in-put w (x / 256) rest (omega (arith, pow-suc 256 w)))
      (ap (λ n. some (n, rest)) (omega arith))

unfoldable pub codec : (w : ℕ) → Codec w
unfolding put take_in
codec w = record {
  write = put w;
  read = take_in w;
  length-write = length-put w;
  read-write = take_in-put w;
}

unfoldable pub little_endian : Buffer
unfolding codec
little_endian = record {
  u8 = codec 1;
  hton32 = codec 4;
  hton64 = codec 8;
  u32 = codec 4;
  ip = codec 4;
  lsb16 = codec 2;
  mac48 = codec 6;
}
