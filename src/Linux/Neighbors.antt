-- ===== src/Linux/Neighbors.antt =====
-- Linux/kernel-module/neighbors.c and neighbors.h: the table of neighbours, which a process writes to
-- the shared memory. The table is the list of its first `*neigh_count` entries; a pointer to an entry
-- is the entry. A direction is the 32-bit pattern of an `int`: a negative one is under 45 in the source
-- and at least 315 here, and takes the same branch.
pub mod Best
mod Tests
use map_based_relay.Prelude.{
  ℕ, true, false, List, [], ◌∷◌, Option, none, some, Bool, ltb, ◌==◌, if◌then◌else◌, find_if,
  is_some,
}
use map_based_relay.Wave.GeoHash.{GeoHashSetCoordinate, unsupported, scan_cells}
use map_based_relay.Mbr.Neighbors.{blocks_ahead}

pub record NeighborTable : Type 0 where
  pub ip : ℕ
  pub mac : ℕ
  pub geo_hash : ℕ
  pub direction : ℕ
  pub isvalid : Bool

-- `none` stands for the result -1.
unfoldable pub neighbor_getnode_fromip : List NeighborTable → (ip : ℕ) → Option NeighborTable
neighbor_getnode_fromip table ip = find_if (λ n. n.ip == ip) table

pub neighbor_getgeohash_fromip : List NeighborTable → (ip : ℕ) → ℕ
neighbor_getgeohash_fromip table ip = elim (find_if (λ (n : NeighborTable). n.ip == ip) table) [
  | some n ↦ n.geo_hash
  | none ↦ 0
]

-- The first entry whose block is one of the set's; `none` stands for the result 0.
pub neighbor_getnode_fromset_random :
    List NeighborTable → GeoHashSetCoordinate → Option NeighborTable
unfolding scan_cells
neighbor_getnode_fromset_random table g =
    let in_set = λ (n : NeighborTable).
      is_some (scan_cells (λ j k. if n.geo_hash == g.cell j k then some j else none) g.sx g.sy 0) in
    if unsupported g then none else find_if in_set table

-- `none` stands for -1.
unfoldable pub get_dtime : NeighborTable → GeoHashSetCoordinate → Option ℕ
unfolding blocks_ahead scan_cells
get_dtime node_info g =
    let body = λ (i j : ℕ).
      if node_info.geo_hash == g.cell i j then blocks_ahead g node_info.direction i j else none in
    if unsupported g then none else scan_cells body g.sx g.sy 0

-- `best` is not set before the first entry with a dwelling time.
unfoldable pub best_loop :
    GeoHashSetCoordinate
    → (dtime_max : ℕ) → (best : Option NeighborTable) → (dtime_best : ℕ) → List NeighborTable
    → Option NeighborTable
unfolding get_dtime
best_loop g dtime_max best dtime_best [] = if ltb 0 dtime_best then best else none
best_loop g dtime_max best dtime_best (n ∷ ns) = elim (get_dtime n g) [
  | none ↦ best_loop g dtime_max best dtime_best ns
  | some d ↦ elim (d == dtime_max) [
    | true ↦ some n
    | false ↦
        best_loop g dtime_max (if ltb dtime_best d then some n else best)
          (if ltb dtime_best d then d else dtime_best) ns
  ]
]

-- `none` stands for the result 0.
unfoldable pub neighbor_getnode_fromset_best :
    List NeighborTable → GeoHashSetCoordinate → Option NeighborTable
unfolding best_loop
neighbor_getnode_fromset_best table g =
    let dtime_max = if ltb g.sy g.sx then g.sx else g.sy in
    if unsupported g then none else best_loop g dtime_max none 0 table
