-- ===== src/Linux/Forward/Tests.antt =====
-- The corner of two roads; the neighbour with the address 77 is in the block of its vertex.

use map_based_relay.Prelude.{List, [], ◌∷◌, some, ◌≡◌, inl, refl, true, OnSome}
use map_based_relay.Wave.Graph.{str_eq}
use map_based_relay.Wave.GeoHash.{geohash_get_neighbors_in_set, scan_cells, scan_columns}
use map_based_relay.Mbr.Neighbors.{blocks_ahead}
use map_based_relay.Linux.Table.Lookup.{get-empty}
use map_based_relay.Linux.Neighbors.{
  NeighborTable, neighbor_getnode_fromip, neighbor_getnode_fromset_best, best_loop, get_dtime,
}
use map_based_relay.Linux.Cross.{
  find_vertex_by_vehicle_position, nearest_loop, cross_vertex, search_from, visit_edges,
  print_crossnode, turn_loop,
}
use map_based_relay.Wave.Route.Samples.{corner}
use map_based_relay.Linux.Forward.{intersection, relay_at, mbr_forward, mbr_forward_by_table}
use map_based_relay.Linux.Forward.Cache.{IsFresh, verdict, mbr_forward_by_table-mbr_forward}

abbrev neighbors : List NeighborTable
neighbors =
    record { ip = 9; mac = 99; geo_hash = 2000; direction = 0; isvalid = true }
    ∷ record { ip = 8; mac = 77; geo_hash = 0xc00000; direction = 90; isvalid = true }
    ∷ []

over_the_corner :
    mbr_forward corner neighbors 1000 9 ≡ some (some (record { dst_mac = 99; relay_mac = 77 }))
unfolding str_eq mbr_forward intersection relay_at neighbor_getnode_fromip
    neighbor_getnode_fromset_best best_loop get_dtime geohash_get_neighbors_in_set scan_cells
    scan_columns blocks_ahead cross_vertex search_from visit_edges print_crossnode turn_loop
    find_vertex_by_vehicle_position nearest_loop
over_the_corner = refl

empty-IsFresh : IsFresh corner 1000 []
empty-IsFresh dst = inl (get-empty dst)

mbr_forward_by_table-mbr_forward_example :
    (verdict (mbr_forward_by_table corner neighbors [] 1000 9)
      ≡ mbr_forward corner neighbors 1000 9)
    × OnSome (λ r. IsFresh corner 1000 r.0) (mbr_forward_by_table corner neighbors [] 1000 9)
mbr_forward_by_table-mbr_forward_example =
    mbr_forward_by_table-mbr_forward corner neighbors [] 1000 9 empty-IsFresh
