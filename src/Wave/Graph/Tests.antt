-- ===== src/Wave/Graph/Tests.antt =====
-- Two vertices, joined by a street.
use map_based_relay.Prelude.{arith, ◌≡◌, ◌∷◌, [], true, false, refl}
use map_based_relay.Wave.Graph.{
  Graph, graph_create, vertex_create, graph_add_vertex, vertex_add_edge_to_vertex,
  vertex_add_edge_to_vertex_undirect, vertex_add_edge_to_vertex_undirect_exclusive,
  vertex_remove_edge_to_vertex_undirect, vertex_remove_edge_to_vertex, unlink, graph_is_balanced,
  find_road_id,
}
use map_based_relay.Wave.Graph.Degrees.{IsExact}
use map_based_relay.Wave.Graph.Balance.{
  Made-IsExact, Undirected-balanced, empty, create, add_vertex, link, relink,
}

abbrev one : Graph
one = graph_add_vertex (vertex_create graph_create (65 ∷ []) 1 2 3 true).0 0

abbrev two : Graph
two = graph_add_vertex (vertex_create one (66 ∷ []) 4 5 6 false).0 1

-- The street gets another number.
abbrev street : Graph
street =
    vertex_add_edge_to_vertex_undirect_exclusive (vertex_add_edge_to_vertex_undirect two 0 1 9) 0 1
      8

street_road : find_road_id street 1 0 ≡ 8
unfolding find_road_id graph_create vertex_create graph_add_vertex vertex_add_edge_to_vertex
    vertex_add_edge_to_vertex_undirect vertex_add_edge_to_vertex_undirect_exclusive
    vertex_remove_edge_to_vertex_undirect vertex_remove_edge_to_vertex unlink
street_road = refl

street_next : street.next ≡ 2
unfolding graph_create vertex_create graph_add_vertex vertex_add_edge_to_vertex
    vertex_add_edge_to_vertex_undirect vertex_add_edge_to_vertex_undirect_exclusive
    vertex_remove_edge_to_vertex_undirect vertex_remove_edge_to_vertex unlink
street_next = refl

Made-IsExact_example : IsExact (vertex_add_edge_to_vertex two 1 0 9)
unfolding graph_create vertex_create graph_add_vertex
Made-IsExact_example = Made-IsExact (
    link 1 0 9 (omega arith) (omega arith) (
      add_vertex 1
        (create (66 ∷ []) 4 5 6 false (add_vertex 0 (create (65 ∷ []) 1 2 3 true empty)))))

Undirected-balanced_example : graph_is_balanced street ≡ true
unfolding graph_create vertex_create graph_add_vertex vertex_add_edge_to_vertex_undirect
    vertex_add_edge_to_vertex
Undirected-balanced_example = Undirected-balanced (
    relink 0 1 8 (omega arith) (omega arith) (
      link 0 1 9 (omega arith) (omega arith) (
        add_vertex 1
          (create (66 ∷ []) 4 5 6 false (add_vertex 0 (create (65 ∷ []) 1 2 3 true empty))))))
