-- ===== src/Gpsr/Planar/Tests.antt =====
-- Three neighbours on a line.
use map_based_relay.Prelude.{◌↔◌, refl, true, ◌≡◌, any_of, [], false, ◌∷◌}
use map_based_relay.Mbr.Neighbors.{neighbors}
use map_based_relay.Gpsr.Samples.{whole_numbers, at, along_x}
use map_based_relay.Gpsr.Ptable.{
  PositionTable, position_table, has_id, map_insert, candidates, purge,
}
use map_based_relay.Gpsr.Planar.{rng_planarize}
use map_based_relay.Gpsr.Planar.Subset.{IsChosen, rng_planarize-IsChosen}

abbrev line : PositionTable
line = record (position_table false (neighbors 5)) {
  table =
      record { id = 1; position = at 20; time = 9 }
      ∷ record { id = 2; position = at 30; time = 9 }
      ∷ record { id = 3; position = at 60; time = 9 }
      ∷ [];
}

-- The first neighbour lies between the node at 10 and the third one, but comes earlier in the table.
line_third : any_of (has_id 3) (rng_planarize whole_numbers along_x [] (at 10) 9 line).1 ≡ true
unfolding rng_planarize purge candidates map_insert
line_third = refl

rng_planarize-IsChosen_example :
    (any_of (has_id 3) (rng_planarize whole_numbers along_x [] (at 10) 9 line).1 ≡ true)
    ↔ IsChosen whole_numbers along_x
        (at 10)
        3
        (candidates [] (rng_planarize whole_numbers along_x [] (at 10) 9 line).0)
rng_planarize-IsChosen_example = rng_planarize-IsChosen whole_numbers along_x [] (at 10) 9 line 3
