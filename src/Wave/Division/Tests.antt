-- ===== src/Wave/Division/Tests.antt =====
-- One street between two vertices, divided.
use Prim.{tt}
use map_based_relay.Prelude.{false, ◌≡◌, ◌∷◌, [], true, arith}
use map_based_relay.Doubles.{Doubles}
use map_based_relay.Gpsr.Samples.{whole_numbers}
use map_based_relay.Wave.Graph.{
  Graph, graph_create, vertex_create, graph_add_vertex, vertex_add_edge_to_vertex,
  vertex_add_edge_to_vertex_undirect, graph_is_balanced,
}
use map_based_relay.Wave.Graph.Balance.{empty, create, add_vertex, link}
use map_based_relay.Wave.Division.{graph_division}
use map_based_relay.Wave.Division.Kept.{IsStreets, graph_division-balanced}

-- Everything is far.
abbrev far : Doubles
far = record whole_numbers { lt = λ a b. true }

abbrev one : Graph
one = graph_add_vertex (vertex_create graph_create (65 ∷ []) 1 2 3 true).0 0

abbrev two : Graph
two = graph_add_vertex (vertex_create one (66 ∷ []) 4 5 6 false).0 1

abbrev street : Graph
street = vertex_add_edge_to_vertex_undirect two 0 1 9

street-IsStreets : IsStreets street
unfolding graph_create vertex_create graph_add_vertex vertex_add_edge_to_vertex_undirect
    vertex_add_edge_to_vertex
street-IsStreets = record {
  undirected = link 0 1 9 (omega arith) (omega arith) (
      add_vertex 1
        (create (66 ∷ []) 4 5 6 false (add_vertex 0 (create (65 ∷ []) 1 2 3 true empty))));
  allocated = (omega arith, (omega arith, tt));
}

graph_division-balanced_example :
    graph_is_balanced (graph_division far (λ d. d) (λ x y. x ∷ y ∷ []) 2 street).0 ≡ true
graph_division-balanced_example =
    graph_division-balanced far (λ d. d) (λ x y. x ∷ y ∷ []) 2 street street-IsStreets
