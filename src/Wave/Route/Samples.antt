-- ===== src/Wave/Route/Samples.antt =====
-- A corner with a relay: the node and the destination are on the two roads that meet at the vertex 1,
-- and the neighbour with the address 77 is in the block of that vertex. Every distance is 40.

use map_based_relay.Prelude.{
  ◌+◌, ◌==◌, leb, zero, some, false, List, [], ltb, ◌≡◌, suc, ℕ, ◌∷◌, refl,
}
use map_based_relay.Doubles.{Doubles}
use map_based_relay.Mbr.Neighbors.{
  Neighbor, get_geohash_from_ip_in_nb, Neighbors, neighbors, get_nb_from_set_best, best_loop,
  get_dtime, blocks_ahead, purge, schedule_timer,
}
use map_based_relay.Wave.GeoHash.{
  geohash_get_neighbors_in_set, geohash_is_geohash_in_set, scan_cells, scan_columns,
}
use map_based_relay.Wave.Graph.{Edge, Graph, blank_vertex, str_eq}
use map_based_relay.Wave.Cross.{
  find_vertex, climb, print_crossnode, find_vertexlist, visit, collect, visit_edges, search_from,
  cross_vertex,
}
use map_based_relay.Wave.Locate.{
  get_distance, nearer, place, nearest_loop, three_loop, find_vertex_by_vehicle_position,
}
use map_based_relay.Wave.Route.{
  mbr_route, Place, Outcome, too_near, relay_loop, conclude, conclude_list, intersections,
  forward_between, mbr_forward,
}

abbrev pub forty : Doubles
forty = record {
  lt = ltb;
  le = leb;
  eq = λ a b. a == b;
  add = λ a b. a + b;
  sub = λ a b. a;
  mul = λ a b. 40;
  div = λ a b. a;
  sqrt = λ a. a;
  acos = λ a. a;
  sin = λ a. a;
  cos = λ a. a;
  asin = λ a. a;
  pow = λ a b. a;
  round = λ a. a;
  of_uint = λ a. a;
}

abbrev pub roads : ℕ → List Edge
roads zero = record { vertex = 1; road_id = 7 } ∷ []
roads (suc zero) = record { vertex = 0; road_id = 7 } ∷ record { vertex = 2; road_id = 8 } ∷ []
roads (suc (suc zero)) = record { vertex = 1; road_id = 8 } ∷ []
roads (suc (suc (suc p))) = []

abbrev pub block : ℕ → ℕ
block zero = 1000
block (suc zero) = 0xc00000
block (suc (suc p)) = 2000

abbrev pub corner : Graph
corner = record {
  heap = λ p. record blank_vertex { id_str = p ∷ []; edges = roads p; geo_hash = block p };
  next = 3;
  vertices = 0 ∷ 1 ∷ 2 ∷ [];
}

abbrev pub here : Place
here = record { geohash = 1000; x = 1; y = 1 }

abbrev pub there : Place
there = record { geohash = 2000; x = 2; y = 2 }

abbrev pub table : Neighbors
table = record (neighbors 5) {
  nb =
      record {
        ip_address = 9;
        hardware_address = 77;
        expire_time = 100;
        setting_time = 0;
        close = false;
        geohash = 0xc00000;
        direction = 90;
        x = 3;
        y = 3;
      }
      ∷ [];
}

-- The table has the destination, too.
abbrev pub target : Neighbor
target = record {
  ip_address = 5;
  hardware_address = 55;
  expire_time = 100;
  setting_time = 0;
  close = false;
  geohash = 2000;
  direction = 0;
  x = 2;
  y = 2;
}

abbrev pub table_both : Neighbors
table_both = record table { nb = target ∷ table.nb }

abbrev pub relayed_both : Outcome
relayed_both = record {
  route = record mbr_route { relayed_pkt_num = 1 };
  nb = record table_both { timer = some 15 };
  relay_mac = some 77;
}

pub corner_forward :
    mbr_forward forty mbr_route (some corner) 10 here table_both 5 ≡ some relayed_both
unfolding mbr_forward get_geohash_from_ip_in_nb forward_between intersections cross_vertex
    search_from visit_edges visit collect print_crossnode climb find_vertex find_vertexlist str_eq
    find_vertex_by_vehicle_position get_distance nearer place nearest_loop three_loop conclude_list
    relay_loop conclude too_near get_nb_from_set_best best_loop get_dtime blocks_ahead purge
    schedule_timer geohash_get_neighbors_in_set geohash_is_geohash_in_set scan_cells scan_columns
corner_forward = refl
