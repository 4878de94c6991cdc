-- ===== src/Wave/Locate/Tests.antt =====
-- A graph with one vertex; every distance is 40.

use map_based_relay.Prelude.{◌+◌, ◌==◌, some, leb, [], ltb, ◌≡◌, ◌∷◌, refl}
use map_based_relay.Doubles.{Doubles}
use map_based_relay.Wave.Graph.{Graph, blank_vertex}
use map_based_relay.Wave.Locate.{
  get_distance, nearer, place, nearest_loop, three_loop, find_vertex_by_vehicle_position,
}

abbrev forty : Doubles
forty = record {
  lt = ltb;
  le = leb;
  eq = λ a b. a == b;
  add = λ a b. a + b;
  sub = λ a b. a;
  mul = λ a b. 40;
  div = λ a b. a;
  sqrt = λ a. a;
  acos = λ a. a;
  sin = λ a. a;
  cos = λ a. a;
  asin = λ a. a;
  pow = λ a b. a;
  round = λ a. a;
  of_uint = λ a. a;
}

abbrev lone : Graph
lone = record { heap = λ p. blank_vertex; next = 5; vertices = 4 ∷ [] }

lone_found : find_vertex_by_vehicle_position forty lone 3 1 2 ≡ some 4
unfolding find_vertex_by_vehicle_position get_distance nearer place nearest_loop three_loop
lone_found = refl
