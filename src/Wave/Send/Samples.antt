-- ===== src/Wave/Send/Samples.antt =====
-- Addresses as six bytes, the last one first.
use map_based_relay.Prelude.{ℕ, ◌+◌, ◌*◌, ◌/◌, ◌%◌, List, [], ◌∷◌, refl, arith}
use map_based_relay.Wave.Send.{Addresses}
use map_based_relay.Wave.Send.Frames.{Copies}

-- The value of a list of bytes, and a list of the bytes of a small address.
pub bytes_value : List ℕ → ℕ
bytes_value [] = 0
bytes_value (x ∷ xs) = x + 256 * bytes_value xs

abbrev pub digits : Addresses
digits = record {
  copy_to = λ m. m % 256 ∷ m / 256 % 256 ∷ 0 ∷ 0 ∷ 0 ∷ 0 ∷ [];
  copy_from = bytes_value;
}

pub digits-Copies : Copies digits 77
unfolding bytes_value
digits-Copies = record { six = refl; bytes = omega arith; back = refl }
