-- ===== src/Linux/Forward.antt =====
-- Linux/kernel-module/mbr_route.c: `mbr_forward`, which names the relay of a packet. `nexthop` is the
-- address that the kernel's route gives (`rt_nexthop`), `geohash_this` that of the module's status. The
-- inner `none` stands for the result -1, the outer one for a read through a null pointer: a graph
-- without a vertex, or an unusable tree. `mbr_forward_by_table` is the same function as it is compiled with CONFIG_MBR_TABLE.
pub mod Cache
pub mod Decides
mod Tests
use map_based_relay.Prelude.{ℕ, List, Option, none, some, ◌==◌, if◌then◌else◌, ◌>>=◌}
use map_based_relay.Wave.GeoHash.{GeoHashSetCoordinate, geohash_get_neighbors_in_set}
use map_based_relay.Wave.Graph.{Graph}
use map_based_relay.Linux.Neighbors.{
  NeighborTable, neighbor_getnode_fromip, neighbor_getnode_fromset_best,
}
use map_based_relay.Linux.Table.{RelayTableList, mbrtable_get_nexthop_geohash, update_mbrtable}
use map_based_relay.Linux.Cross.{find_vertex_by_vehicle_position, cross_vertex}

pub record Relayed : Type 0 where
  pub dst_mac : ℕ
  pub relay_mac : ℕ

-- The cells are uninitialised, and each is written before it is read.
abbrev pub set_intersection_size : GeoHashSetCoordinate
set_intersection_size = record { cell = λ i j. 0; sx = 3; sy = 3 }

-- The block of the intersection between two blocks.
unfoldable pub intersection : Graph → (this_geohash dst_geohash : ℕ) → Option (Option ℕ)
intersection g this_geohash dst_geohash = do
  this_vertex ← find_vertex_by_vehicle_position g this_geohash
  dst_vertex ← find_vertex_by_vehicle_position g dst_geohash
  v ← cross_vertex g this_vertex dst_vertex
  some (elim v [ none ↦ none | some p ↦ some (g.heap p).geo_hash ])

-- The best neighbour around the block is the relay.
unfoldable pub relay_at :
    List NeighborTable → (dst_mac : ℕ) → (nexthop_geohash : ℕ) → Option Relayed
relay_at neighbors dst_mac nexthop_geohash =
    let set = geohash_get_neighbors_in_set set_intersection_size nexthop_geohash in
    elim (neighbor_getnode_fromset_best neighbors set) [
      | none ↦ none
      | some n ↦ some (record { dst_mac = dst_mac; relay_mac = n.mac })
    ]

abbrev pub relay_through : List NeighborTable → (dst_mac : ℕ) → Option ℕ → Option Relayed
relay_through neighbors dst_mac none = none
relay_through neighbors dst_mac (some h) = relay_at neighbors dst_mac h

unfoldable pub mbr_forward :
    Graph → List NeighborTable → (geohash_this nexthop : ℕ) → Option (Option Relayed)
mbr_forward g neighbors geohash_this nexthop = elim (neighbor_getnode_fromip neighbors nexthop) [
  | none ↦ some none
  | some n ↦ intersection g geohash_this n.geo_hash >>= λ h. some (relay_through neighbors n.mac h)
]

-- After a miss: the table and the result.
abbrev pub settle :
    List NeighborTable
    → List RelayTableList
    → (geohash_this : ℕ) → (n : NeighborTable) → Option ℕ
    → List RelayTableList × Option Relayed
settle neighbors table geohash_this n none = (table, none)
settle neighbors table geohash_this n (some h) =
    (update_mbrtable geohash_this n.geo_hash h table, relay_at neighbors n.mac h)

pub look_up :
    Graph
    → List NeighborTable
    → List RelayTableList
    → (geohash_this : ℕ) → (n : NeighborTable) → Option (List RelayTableList × Option Relayed)
look_up g neighbors table geohash_this n =
    let nexthop_geohash = mbrtable_get_nexthop_geohash table n.geo_hash in
    let miss = intersection g geohash_this n.geo_hash >>= λ h.
    some (settle neighbors table geohash_this n h) in
    if nexthop_geohash == 0 then miss else some (table, relay_at neighbors n.mac nexthop_geohash)

pub mbr_forward_by_table :
    Graph
    → List NeighborTable
    → List RelayTableList
    → (geohash_this nexthop : ℕ) → Option (List RelayTableList × Option Relayed)
mbr_forward_by_table g neighbors table geohash_this nexthop =
    elim (neighbor_getnode_fromip neighbors nexthop) [
      | none ↦ some (table, none)
      | some n ↦ look_up g neighbors table geohash_this n
    ]
