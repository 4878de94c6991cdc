-- ===== src/Wave/Graph.antt =====
-- NS3/wave/model/graph.cc and graph.h: the road graph. A `Vertex *` is a number, the heap maps it to
-- the vertex, `next` is the first number not yet allocated, and `vertices` is the list of the graph.
-- The lists of list.c are lists: the free callbacks have no counterpart. A road id is the 32-bit
-- pattern of an `int`; an id string is the list of its bytes.
pub mod Degrees
pub mod Balance
mod Tests
use map_based_relay.Prelude.{
  ◌<◌, length, ℕ, suc, ◌+◌, ◌-◌, List, [], ◌∷◌, ◌++◌, Option, none, some, Bool, true, false, not,
  ◌&&◌, ◌==◌, ltb, if◌then◌else◌, find_if,
}
use map_based_relay.Doubles.{Double}

pub record Edge : Type 0 where
  pub vertex : ℕ
  pub road_id : ℕ

pub record Vertex : Type 0 where
  pub id_str : List ℕ
  pub x : Double
  pub y : Double
  pub geo_hash : ℕ
  pub edges : List Edge
  pub indegree : ℕ
  pub outdegree : ℕ
  pub is_intersection : Bool

pub record Graph : Type 0 where
  pub heap : ℕ → Vertex
  pub next : ℕ
  pub vertices : List ℕ

-- `strcmp (a, b) == 0`
unfoldable pub str_eq : List ℕ → List ℕ → Bool
str_eq [] [] = true
str_eq [] (b ∷ bs) = false
str_eq (a ∷ as_) [] = false
str_eq (a ∷ as_) (b ∷ bs) = a == b && str_eq as_ bs

abbrev pub blank_vertex : Vertex
blank_vertex = record {
  id_str = [];
  x = 0;
  y = 0;
  geo_hash = 0;
  edges = [];
  indegree = 0;
  outdegree = 0;
  is_intersection = false;
}

unfoldable pub graph_create : Graph
graph_create = record { heap = λ p. blank_vertex; next = 0; vertices = [] }

-- A write through a pointer.
abbrev pub modify : ℕ → (Vertex → Vertex) → Graph → Graph
modify p f g = record g { heap = λ q. if q == p then f (g.heap q) else g.heap q }

-- The source copies the name of a vertex with `strcpy` to `char idStr[25]`, whose last byte is the zero
-- behind it.
abbrev pub IsShort : List ℕ → Type 0
IsShort id_str = length id_str < 25

-- The vertex is allocated, but is no part of the graph yet. This is the function on short names; a longer
-- one is written over the fields behind it, and Wave/Sumo.antt gives no result there.
unfoldable pub vertex_create :
    Graph
    → (id_str : List ℕ) → (x y : Double) → (geo_hash : ℕ) → (is_intersection : Bool) → Graph × ℕ
vertex_create g id_str x y geo_hash is_intersection =
    let v : Vertex = record {
      id_str = id_str;
      x = x;
      y = y;
      geo_hash = geo_hash;
      edges = [];
      indegree = 0;
      outdegree = 0;
      is_intersection = is_intersection;
    } in
    (record (modify g.next (λ old. v) g) { next = suc g.next }, g.next)

unfoldable pub graph_add_vertex : Graph → ℕ → Graph
graph_add_vertex g v = record g { vertices = g.vertices ++ v ∷ [] }

abbrev edge_create : (vertex road_id : ℕ) → Edge
edge_create vertex road_id = record { vertex = vertex; road_id = road_id }

unfoldable pub vertex_add_edge_to_vertex : Graph → (from to road_id : ℕ) → Graph
vertex_add_edge_to_vertex g from to road_id =
    modify from (λ v. record v { outdegree = v.outdegree + 1 })
      (modify to (λ v. record v { indegree = v.indegree + 1 })
        (modify from (λ v. record v { edges = edge_create to road_id ∷ v.edges }) g))

-- The edges without the first one to `to`; `none` where there is none.
pub unlink : (to : ℕ) → List Edge → Option (List Edge)
unlink to [] = none
unlink to (e ∷ es) =
    if e.vertex == to
    then some es
    else elim (unlink to es) [ none ↦ none | some es' ↦ some (e ∷ es') ]

unfoldable pub vertex_remove_edge_to_vertex : Graph → (from to : ℕ) → Graph
unfolding unlink
vertex_remove_edge_to_vertex g from to = elim (unlink to (g.heap from).edges) [
  | none ↦ g
  | some es ↦
      modify from (λ v. record v { outdegree = v.outdegree - 1 })
        (modify to (λ v. record v { indegree = v.indegree - 1 })
          (modify from (λ v. record v { edges = es }) g))
]

unfoldable pub vertex_add_edge_to_vertex_undirect : Graph → (from to road_id : ℕ) → Graph
vertex_add_edge_to_vertex_undirect g from to road_id =
    vertex_add_edge_to_vertex (vertex_add_edge_to_vertex g from to road_id) to from road_id

unfoldable pub vertex_remove_edge_to_vertex_undirect : Graph → (from to : ℕ) → Graph
vertex_remove_edge_to_vertex_undirect g from to =
    vertex_remove_edge_to_vertex (vertex_remove_edge_to_vertex g from to) to from

unfoldable pub vertex_add_edge_to_vertex_undirect_exclusive : Graph → (from to road_id : ℕ) → Graph
vertex_add_edge_to_vertex_undirect_exclusive g from to road_id =
    vertex_add_edge_to_vertex_undirect (vertex_remove_edge_to_vertex_undirect g from to) from to
      road_id

pub balanced_from : Graph → List ℕ → Bool
balanced_from g [] = true
balanced_from g (p ∷ ps) =
    if (g.heap p).indegree == (g.heap p).outdegree then balanced_from g ps else false

pub graph_is_balanced : Graph → Bool
unfolding balanced_from
graph_is_balanced g = balanced_from g g.vertices

unfoldable pub get_vertex : Graph → (id_str : List ℕ) → Option ℕ
unfolding str_eq
get_vertex g id_str = find_if (λ p. str_eq (g.heap p).id_str id_str) g.vertices

-- -1 where there is no edge.
abbrev pub no_road : ℕ
no_road = 0xffffffff

pub find_road_id : Graph → (from to : ℕ) → ℕ
find_road_id g from to = elim (find_if (λ (e : Edge). e.vertex == to) (g.heap from).edges) [
  | some e ↦ e.road_id
  | none ↦ no_road
]
