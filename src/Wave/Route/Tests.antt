-- ===== src/Wave/Route/Tests.antt =====
-- Runs and instances of the theorems on the decision, at the corner of Samples.

use map_based_relay.Prelude.{some, [], ◌≡◌, ◌∷◌, refl}
use map_based_relay.Mbr.Neighbors.{
  get_nb_from_set_best, best_loop, get_dtime, blocks_ahead, purge, schedule_timer,
}
use map_based_relay.Wave.GeoHash.{
  geohash_get_neighbors_in_set, geohash_is_geohash_in_set, scan_cells, scan_columns,
}
use map_based_relay.Wave.Graph.{str_eq}
use map_based_relay.Wave.Cross.{
  find_vertex, climb, print_crossnode, find_vertexlist, visit, collect, visit_edges, search_from,
  cross_vertex,
}
use map_based_relay.Wave.Locate.{
  get_distance, nearer, place, nearest_loop, three_loop, find_vertex_by_vehicle_position,
}
use map_based_relay.Wave.Route.{
  mbr_route, Outcome, too_near, relay_loop, conclude, conclude_list, intersections, forward_between,
}
use map_based_relay.Wave.Route.Whole.{IsJustifiedFor, mbr_forward-IsJustifiedFor}
use map_based_relay.Wave.Route.Relay.{IsJustified, forward_between-IsJustified}
use map_based_relay.Wave.Route.Samples.{
  forty, corner, here, there, table, table_both, relayed_both, corner_forward,
}

corner_way : intersections forty corner here there ≡ some (1 ∷ [])
unfolding intersections cross_vertex search_from visit_edges visit collect print_crossnode climb
    find_vertex find_vertexlist str_eq find_vertex_by_vehicle_position get_distance nearer place
    nearest_loop three_loop
corner_way = refl

abbrev relayed : Outcome
relayed = record {
  route = record mbr_route { relayed_pkt_num = 1 };
  nb = record table { timer = some 15 };
  relay_mac = some 77;
}

corner_relayed : forward_between forty mbr_route corner 10 here there table ≡ some relayed
unfolding forward_between intersections cross_vertex search_from visit_edges visit collect
    print_crossnode climb find_vertex find_vertexlist str_eq find_vertex_by_vehicle_position
    get_distance nearer place nearest_loop three_loop conclude_list relay_loop conclude too_near
    get_nb_from_set_best best_loop get_dtime blocks_ahead purge schedule_timer
    geohash_get_neighbors_in_set geohash_is_geohash_in_set scan_cells scan_columns
corner_relayed = refl

forward_between-IsJustified_example :
    IsJustified forty mbr_route corner 10 here there (1 ∷ []) 77 relayed
forward_between-IsJustified_example =
    forward_between-IsJustified forty mbr_route corner 10 here there table relayed (1 ∷ []) 77
      corner_way corner_relayed refl

mbr_forward-IsJustifiedFor_example :
    IsJustifiedFor forty mbr_route corner 10 here table_both 5 77 relayed_both
mbr_forward-IsJustifiedFor_example =
    mbr_forward-IsJustifiedFor forty mbr_route corner 10 here table_both 5 relayed_both 77
      corner_forward refl
