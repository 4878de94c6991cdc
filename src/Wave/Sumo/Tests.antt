-- ===== src/Wave/Sumo/Tests.antt =====
-- A map with two junctions and a street between them, whose shape has three points inside.
use map_based_relay.Prelude.{
  is_some, ◌≡◌, refl, ℕ, List, [], ◌∷◌, some, none, true, false, OnSome, map, is_some, false,
}
use map_based_relay.Doubles.{Doubles}
use map_based_relay.Gpsr.Samples.{whole_numbers}
use map_based_relay.Wave.Encode.{geohash_fast_encode}
use map_based_relay.Wave.Strings.{tokenize, tokenize_from, parse_osm_wayid}
use map_based_relay.Wave.Graph.{
  Graph, Edge, graph_create, vertex_create, graph_add_vertex, graph_is_balanced, str_eq, get_vertex,
  vertex_add_edge_to_vertex, vertex_remove_edge_to_vertex, vertex_add_edge_to_vertex_undirect,
  vertex_remove_edge_to_vertex_undirect, vertex_add_edge_to_vertex_undirect_exclusive,
}
use map_based_relay.Wave.Sumo.{
  Boundary, Junction, Street, Loading, load_edge, load_sumo_map, initialize,
}
use map_based_relay.Wave.Sumo.Kept.{initialize-balanced}

-- "a,,b," and "-12#3".
two_tokens : tokenize (97 ∷ 44 ∷ 44 ∷ 98 ∷ 44 ∷ []) 44 ≡ (97 ∷ []) ∷ (98 ∷ []) ∷ []
unfolding tokenize_from
two_tokens = refl

backward_way : parse_osm_wayid (45 ∷ 49 ∷ 50 ∷ 35 ∷ 51 ∷ []) ≡ some (49 ∷ 50 ∷ [])
unfolding parse_osm_wayid tokenize_from
backward_way = refl

-- Nothing is far or outside of a range.
abbrev near : Doubles
near = record whole_numbers { lt = λ a b. false }

abbrev no_offset : Boundary
no_offset = record { netoffset_x = 0; netoffset_y = 0; conv = []; orig = [] }

-- The number that a string starts with is its first byte.
abbrev first_byte : List ℕ → ℕ
first_byte [] = 0
first_byte (c ∷ cs) = c

abbrev junctions : List Junction
junctions =
    record { id = 65 ∷ []; x = 1 ∷ []; y = 2 ∷ [] }
    ∷ record { id = 66 ∷ []; x = 3 ∷ []; y = 4 ∷ [] }
    ∷ []

abbrev streets : List Street
streets =
    record {
      id = 49 ∷ [];
      from = 65 ∷ [];
      to = 66 ∷ [];
      shape = some (101 ∷ 32 ∷ 102 ∷ 32 ∷ 103 ∷ 32 ∷ 104 ∷ 32 ∷ 105 ∷ []);
    }
    ∷ []

initialize-balanced_example :
    OnSome
      (λ r. graph_is_balanced r.0 ≡ true)
      (initialize near
        (λ d. 5)
        first_byte
        (λ p. p)
        no_offset
        (λ x y. x ∷ y ∷ [])
        9
        none
        []
        junctions
        streets)
initialize-balanced_example =
    initialize-balanced near (λ d. 5) first_byte (λ p. p) no_offset (λ x y. x ∷ y ∷ []) 9 none []
      junctions streets

abbrev ends_of : Graph → ℕ → List ℕ
ends_of g p = map (λ (e : Edge). e.vertex) (g.heap p).edges

-- The vertices 2, 3 and 4 are the inner points. 3 and 4 are joined to 2, and not 4 to 3.
streets_loaded :
    OnSome
      (λ (s : Loading).
        (ends_of s.graph 2 ≡ 0 ∷ 4 ∷ 3 ∷ [])
        × (ends_of s.graph 3 ≡ 2 ∷ [])
        × (ends_of s.graph 4 ≡ 1 ∷ 2 ∷ []))
      (load_sumo_map near (λ d. 5) first_byte (λ p. p) no_offset none [] junctions streets)
unfolding load_sumo_map load_edge geohash_fast_encode graph_create vertex_create graph_add_vertex
    str_eq get_vertex vertex_add_edge_to_vertex vertex_remove_edge_to_vertex
    vertex_add_edge_to_vertex_undirect vertex_remove_edge_to_vertex_undirect
    vertex_add_edge_to_vertex_undirect_exclusive
streets_loaded = (refl, refl, refl)

-- A junction that comes twice.
twice_none :
    load_sumo_map near
      (λ d. 5)
      first_byte
      (λ p. p)
      no_offset
      none
      []
      (record { id = 65 ∷ []; x = 1 ∷ []; y = 2 ∷ [] }
        ∷ record { id = 65 ∷ []; x = 1 ∷ []; y = 2 ∷ [] }
        ∷ [])
      []
    ≡ none
unfolding load_sumo_map geohash_fast_encode str_eq
twice_none = refl
