-- ===== src/Linux/Cross/Tests.antt =====
-- The corner of two roads: the way from the vertex 0 over 1 to 2 turns at 1.

use map_based_relay.Prelude.{some, none, ◌≡◌, refl}
use map_based_relay.Wave.Graph.{str_eq}
use map_based_relay.Wave.Route.Samples.{corner}
use map_based_relay.Linux.Cross.{
  turn_loop, print_crossnode, visit_edges, search_from, nearest_loop,
  find_vertex_by_vehicle_position, cross_vertex,
}
use map_based_relay.Linux.Cross.Turn.{IsTurn, cross_vertex-IsTurn}
use map_based_relay.Linux.Cross.Nearest.{IsNearest, find_vertex_by_vehicle_position-IsNearest}

on_the_corner : cross_vertex corner 0 2 ≡ some (some 1)
unfolding cross_vertex search_from visit_edges print_crossnode turn_loop str_eq
on_the_corner = refl

no_turn : cross_vertex corner 0 1 ≡ some none
unfolding cross_vertex search_from visit_edges print_crossnode turn_loop str_eq
no_turn = refl

nearest : find_vertex_by_vehicle_position corner 1100 ≡ some 0
unfolding find_vertex_by_vehicle_position nearest_loop
nearest = refl

cross_vertex-IsTurn_example : IsTurn corner 0 2 1
cross_vertex-IsTurn_example = cross_vertex-IsTurn corner 0 2 1 on_the_corner

find_vertex_by_vehicle_position-IsNearest_example :
    IsNearest corner 1100 corner.vertices (find_vertex_by_vehicle_position corner 1100)
find_vertex_by_vehicle_position-IsNearest_example =
    find_vertex_by_vehicle_position-IsNearest corner 1100
