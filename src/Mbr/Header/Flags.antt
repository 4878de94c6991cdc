-- ===== src/Mbr/Header/Flags.antt =====
-- The acknowledgment flag of the hello header.
use Prim.Native.Nat.{bit_and, bit_or}
use map_based_relay.Prelude.{
  ℕ, ◌-◌, ◌/◌, ◌%◌, ◌<◌, ◌≡◌, refl, Bool, true, false, not, ◌&&◌, arith, ltb, ◌==◌, passes_under,
  passes_under_at,
}
use map_based_relay.Mbr.Header.{MbrHeader, ack_bit, set_ack_required, get_ack_required}

-- What a value of the flags must satisfy, as a test on one byte.
abbrev set_is_right : ℕ → Bool
set_is_right x =
    let y = bit_or x ack_bit in
    not (bit_and y ack_bit == 0) && (ltb y 256 && (y % 64 == x % 64 && y / 128 == x / 128))

abbrev clear_is_right : ℕ → Bool
clear_is_right x =
    let y = bit_and x (255 - ack_bit) in
    bit_and y ack_bit == 0 && (ltb y 256 && (y % 64 == x % 64 && y / 128 == x / 128))

set_table : passes_under set_is_right 256 ≡ true
unfolding passes_under
set_table = refl

clear_table : passes_under clear_is_right 256 ≡ true
unfolding passes_under
clear_table = refl

-- On flags of one byte, the acknowledgment flag reads as it was set, the flags stay one byte, and the
-- seven other bits are unchanged.
pub get-set_ack_required :
    (h : MbrHeader) (f : Bool)
    → h.flags < 256
    → let h' = set_ack_required h f in
      (get_ack_required h' ≡ f)
      × (h'.flags < 256)
      × (h'.flags % 64 ≡ h.flags % 64)
      × (h'.flags / 128 ≡ h.flags / 128)
unfolding set_ack_required get_ack_required
get-set_ack_required h true r = ground (arith, passes_under_at set_is_right 256 h.flags r set_table)
get-set_ack_required h false r =
    ground (arith, passes_under_at clear_is_right 256 h.flags r clear_table)
