-- ===== src/Wave/Division.antt =====
-- NS3/wave/model/graph.cc: `edge_division` and `graph_division`, which put vertices on long streets.
-- `print` is make_coordinate_string, by sprintf. The loop over the list of vertices, to which the
-- division appends, has `rounds`; the result says whether it came to the end of the list.
pub mod Kept
mod Tests
use map_based_relay.Prelude.{
  ℕ, zero, suc, List, [], ◌∷◌, Option, none, some, Bool, true, false, get_elem?, if◌then◌else◌,
}
use map_based_relay.Doubles.{Double, Doubles}
use map_based_relay.Wave.GeoHash.{GeoHashBits}
use map_based_relay.Wave.Encode.{lat_range, lon_range, geohash_fast_encode}
use map_based_relay.Wave.Locate.{get_distance}
use map_based_relay.Wave.Graph.{
  Graph, Vertex, Edge, vertex_create, graph_add_vertex, find_road_id,
  vertex_add_edge_to_vertex_undirect, vertex_remove_edge_to_vertex_undirect,
}

-- 75.0 and 50.0, in metres.
abbrev max_dist : Double
max_dist = 0x4052c00000000000

abbrev average_dist : Double
average_dist = 0x4049000000000000

abbrev geohash_step_bit : ℕ
geohash_step_bit = 12

-- The street from one vertex over the new one to the other, in place of the direct one.
abbrev pub detour : Graph × ℕ → (from to : ℕ) → Graph
detour c from to =
    let road_id = find_road_id c.0 from to in
    vertex_remove_edge_to_vertex_undirect
      (vertex_add_edge_to_vertex_undirect (vertex_add_edge_to_vertex_undirect c.0 from c.1 road_id)
        c.1 to road_id)
      from to

module _ (f : Doubles) (to_uint : Double → ℕ) (print : (x y : Double) → List ℕ) where
  abbrev pub length_of : Graph → (from to : ℕ) → Double
  length_of g from to = get_distance f (g.heap from).y (g.heap from).x (g.heap to).y (g.heap to).x

  abbrev pub is_long : Graph → (from to : ℕ) → Bool
  is_long g from to = f.lt max_dist (length_of g from to)

  -- A new vertex at the place, which the graph has then.
  abbrev pub new_vertex : Graph → (lat lng : Double) → Graph × ℕ
  new_vertex g lat lng =
      let blank : GeoHashBits = record { bits = 0; step = 0 } in
      let geo =
        (geohash_fast_encode f to_uint lat_range lon_range lat lng geohash_step_bit blank).0 in
      let c = vertex_create g (print lat lng) lng lat geo.bits false in
      (graph_add_vertex c.0 c.1, c.1)

  pub edge_division : Graph → (from to : ℕ) → Graph
  edge_division g from to =
      let v = g.heap from in
      let w = g.heap to in
      let a = f.round (f.div (length_of g from to) average_dist) in
      let lat3 = f.add v.y (f.div (f.sub w.y v.y) a) in
      let lng3 = f.add v.x (f.div (f.sub w.x v.x) a) in
      if is_long g from to then detour (new_vertex g lat3 lng3) from to else g

  -- The inner loop, over the edges that the vertex had before: what it adds comes in front of them, and
  -- what it removes lies no further back than the edge at hand.
  pub divide_edges : Graph → (v : ℕ) → List Edge → Graph
  unfolding edge_division
  divide_edges g v [] = g
  divide_edges g v (e ∷ es) = divide_edges (edge_division g v e.vertex) v es

  -- One vertex, and what comes behind it; at the end of the list nothing does.
  pub divide_at : Option ℕ → Graph → (Graph → Graph × Bool) → Graph × Bool
  unfolding divide_edges
  divide_at none g rest = (g, true)
  divide_at (some v) g rest = rest (divide_edges g v (g.heap v).edges)

  pub division_loop : (rounds i : ℕ) → Graph → Graph × Bool
  unfolding divide_at
  division_loop zero i g = (g, false)
  division_loop (suc rounds) i g =
      divide_at (get_elem? g.vertices i) g (division_loop rounds (suc i))

  abbrev pub graph_division : (rounds : ℕ) → Graph → Graph × Bool
  graph_division rounds g = division_loop rounds 0 g
