-- ===== src/Linux/Cross.antt =====
-- Linux/kernel-module/graph.c: the nearest vertex, and `cross_vertex`, the breadth-first search that
-- stops at its target. The graph is that of NS3/wave/model/graph.h; the module's vertices have no
-- coordinates and no mark of an intersection, and these fields are not read. The list of
-- `path` nodes is a list, a `path *` is a position in it, `tail` is the last position. `none` stands for a
-- read through a null pointer, or for a loop that has used up its fuel.
pub mod Ends
pub mod Turn
pub mod Nearest
mod Tests
use map_based_relay.Prelude.{
  ℕ, zero, suc, ◌-◌, List, [], ◌∷◌, ◌++◌, Option, none, some, Bool, true, false, ltb, ◌==◌,
  if◌then◌else◌, length, get_elem?, any_of, ◌>>=◌,
}
use map_based_relay.Wave.Graph.{Graph, Edge}
use map_based_relay.Wave.Cross.{PathNode, same_id}

abbrev pub geohash_compare : (a b : ℕ) → ℕ
geohash_compare a b = if ltb b a then a - b else b - a

abbrev pub uint64_max : ℕ
uint64_max = 0xffffffffffffffff

-- The loop of find_Vertex_by_VehiclePosition.
unfoldable pub nearest_loop :
    Graph → (geo_hash min : ℕ) → (v : Option ℕ) → (vertices : List ℕ) → Option ℕ
nearest_loop g geo_hash min v [] = v
nearest_loop g geo_hash min v (index ∷ rest) =
    let temp = geohash_compare (g.heap index).geo_hash geo_hash in
    nearest_loop g geo_hash (if ltb temp min then temp else min)
      (if ltb temp min then some index else v) rest

unfoldable pub find_vertex_by_vehicle_position : Graph → (geo_hash : ℕ) → Option ℕ
unfolding nearest_loop
find_vertex_by_vehicle_position g geo_hash = nearest_loop g geo_hash uint64_max none g.vertices

abbrev pub find_vertex : List PathNode → (v : ℕ) → Bool
find_vertex path v = any_of (λ n. n.v == v) path

-- The loop of print_crossnode from the node `p` on.
unfoldable pub turn_loop :
    (fuel : ℕ) → List PathNode → (p : PathNode) → (first : ℕ) → Option (Option ℕ)
turn_loop zero path p first = none
turn_loop (suc fuel) path p first = elim p.ancest [
  | none ↦ some none
  | some a ↦
      let rest : Option (Option ℕ) = (do q ← get_elem? path a; turn_loop fuel path q p.road_id) in
      if first == p.road_id then rest else some (some p.v)
]

-- The first vertex above `p` at which the road changes. The root has no edge to read.
unfoldable pub print_crossnode : List PathNode → (p : PathNode) → Option (Option ℕ)
unfolding turn_loop
print_crossnode path p = do
  a ← p.ancest
  q ← get_elem? path a
  turn_loop (length path) path q p.road_id

-- The edges of the vertex at `index`: the tree, and the node of the target where one of them led to it.
unfoldable pub visit_edges :
    Graph → (to index : ℕ) → List PathNode → List Edge → List PathNode × Option PathNode
visit_edges g to index path [] = (path, none)
visit_edges g to index path (e ∷ es) =
    let temp : PathNode = record { v = e.vertex; ancest = some index; road_id = e.road_id } in
    let skip = visit_edges g to index path es in
    let rest = visit_edges g to index (path ++ temp ∷ []) es in
    if find_vertex path e.vertex
    then skip
    else if same_id g e.vertex to
    then (path ++ temp ∷ [], some temp)
    else rest

-- The tree and the tail, where the search reaches its target.
unfoldable pub search_from :
    (fuel : ℕ) → Graph → (to index : ℕ) → List PathNode → Option (List PathNode × Option PathNode)
unfolding visit_edges
search_from zero g to index path = elim (get_elem? path index) [
  | none ↦ some (path, none)
  | some n ↦ none
]
search_from (suc fuel) g to index path = elim (get_elem? path index) [
  | none ↦ some (path, none)
  | some n ↦
      let r = visit_edges g to index path (g.heap n.v).edges in
      elim r.1 [ some tail ↦ some r | none ↦ search_from fuel g to (suc index) r.0 ]
]

abbrev pub root : (from : ℕ) → PathNode
root from = record { v = from; ancest = none; road_id = 0 }

abbrev pub crossnode : List PathNode × Option PathNode → Option (Option ℕ)
crossnode r = elim r.1 [ none ↦ some none | some tail ↦ print_crossnode r.0 tail ]

-- The intersection. The fuel is one round for each vertex of the graph.
unfoldable pub cross_vertex : Graph → (from to : ℕ) → Option (Option ℕ)
unfolding search_from
cross_vertex g from to = search_from (length g.vertices) g to 0 (root from ∷ []) >>= crossnode
