-- ===== src/Gpsr/Angle/Tests.antt =====
-- The node of the samples, with the entries at 20 and 30 at angles of these numbers.
use map_based_relay.Prelude.{refl, arith, ap, length, ◌≡◌, inr, ℕ}
use map_based_relay.Gpsr.Samples.{
  at, two_entries, whole_numbers, whole_numbers-IsOrdered, along_x, places,
}
use map_based_relay.Gpsr.Ptable.{purge}
use map_based_relay.Gpsr.Planar.{rng_planarize}
use map_based_relay.Gpsr.Angle.{get_angle, ComplexNumbers, best_angle, or_first}
use map_based_relay.Gpsr.Angle.Choice.{IsLeast, turns, best_angle-IsLeast}

best_angle-IsLeast_example :
    let planar =
      rng_planarize whole_numbers along_x places
        (at 10)
        1600000000
        (purge 1600000000 two_entries) in
    (r : ℕ) × ((best_angle whole_numbers
        (λ a b c. c.x)
        along_x
        places
        (at 10)
        1600000000
        two_entries
        (at 0)
        (at 10))
      ≡ (planar.0, or_first planar.0.table r))
    × IsLeast whole_numbers (λ c. c.x) r (turns whole_numbers (λ c. c.x) planar.1)
best_angle-IsLeast_example =
    best_angle-IsLeast whole_numbers (λ a b c. c.x) along_x places (at 10) 1600000000 two_entries
      (at 0) (at 10) whole_numbers-IsOrdered (inr (λ e. omega (arith, ap length e)))

-- Complex numbers that drop the second operand; the edge to the node at 30 has the length 20.
abbrev first_operand : ComplexNumbers
first_operand = record {
  mul = λ a b. a;
  div = λ a b. a;
  log = λ a. a;
  norm = λ a. 1;
  pi = 0x4066800000000000;
}

angle_twenty : get_angle whole_numbers first_operand (at 10) (at 30) (at 20) ≡ 20
unfolding get_angle
angle_twenty = refl
