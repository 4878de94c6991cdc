-- ===== src/Mbr/Neighbors/Tests.antt =====
-- Runs and instances of the neighbour table's theorems: a purge every 10 ticks, beacons good for 20.

use map_based_relay.Prelude.{◌*◌, ℕ, ◌+◌, ◌≡◌, refl, [], ◌∷◌, some, ◌==◌, if◌then◌else◌}
use map_based_relay.Wave.GeoHash.{GeoHashSetCoordinate}
use map_based_relay.Mbr.Neighbors.{
  Neighbors, Beacon, neighbors, new_neighbor, get_nb_from_set_best, get_dtime, purge,
}
use map_based_relay.Mbr.Neighbors.Invariant.{IsValid, beacon, fires, run, run-neighbors-IsValid}

abbrev from_block : ℕ → Beacon
from_block geohash = record { mac = 0x10; geohash = geohash; direction = 90; x = 1; y = 2 }

-- Node 5 in block 4, heading east.
abbrev table : Neighbors
table = record {
  nb = new_neighbor 0 20 (from_block 4) 5 ∷ [];
  delay = 10;
  timer = some 10;
  arp = [];
}

-- Blocks 0 to 8, by rows.
abbrev blocks : GeoHashSetCoordinate
blocks = record { cell = λ i j. 10 * i + j; sx = 3; sy = 3 }

abbrev at_origin : GeoHashSetCoordinate
at_origin = record { cell = λ i j. if i == 0 then (if j == 0 then 4 else 0) else 0; sx = 3; sy = 3 }

run-neighbors-IsValid_example :
    let r = run 0 (neighbors 10) ((0, beacon 5 20 (from_block 4)) ∷ (10, fires) ∷ []) in
    IsValid r.0 r.1
run-neighbors-IsValid_example =
    run-neighbors-IsValid 10 0 ((0, beacon 5 20 (from_block 4)) ∷ (10, fires) ∷ [])

chosen : (get_nb_from_set_best 7 table at_origin).1 ≡ some 0x10
unfolding get_nb_from_set_best get_dtime purge
chosen = refl
