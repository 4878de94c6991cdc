-- ===== src/Linux/Control/Built.antt =====
-- The commands keep the edges inside the graph.
use Prim.{tt}
use map_based_relay.Prelude.{
  ℕ, List, [], ◌∷◌, some, Bool, ◌≡◌, inl, inr, All, All-mono, ◌==◌, if◌then◌else◌, find_if, arith,
  refl, Option-cases, Bool-cases, OnSome,
}
use map_based_relay.Wave.Graph.{
  str_eq, Graph, Edge, vertex_create as vertex_create_ns3, graph_create, get_vertex,
  vertex_add_edge_to_vertex, vertex_add_edge_to_vertex_undirect,
}
use map_based_relay.Wave.Cross.Ids.{In}
use map_based_relay.Linux.Control.{
  GraphDeliver, del_node, new_node, new_edge, other, netlink_recv_cb, vertex_create,
  graph_add_vertex,
}

-- The edges of all vertices, those that are no part of the graph too, lead to vertices of the graph.
abbrev pub AreInside : List ℕ → List Edge → Type 0
AreInside vs es = All (λ e. In vs e.vertex) es

abbrev pub IsInside : Graph → Type 0
IsInside g = (p : ℕ) → AreInside g.vertices (g.heap p).edges

find_if-In : (test : ℕ → Bool) (vs : List ℕ) (p : ℕ) → find_if test vs ≡ some p → In vs p
find_if-In test [] p e = cc
find_if-In test (v ∷ vs) p e = elim (Bool-cases (test v)) [
  | inl on ↦ inl (ground (arith, on, e))
  | inr off ↦ inr (find_if-In test vs p (ground (arith, off, e)))
]

edges-add :
    (g : Graph) (from to road_id q : ℕ)
    → ((vertex_add_edge_to_vertex g from to road_id).heap q).edges ≡ (
        if q == from
        then record { vertex = to; road_id = road_id } ∷ (g.heap q).edges
        else (g.heap q).edges)
unfolding vertex_add_edge_to_vertex
edges-add g from to road_id q = ground arith

vertices-add :
    (g : Graph) (from to road_id : ℕ)
    → (vertex_add_edge_to_vertex g from to road_id).vertices ≡ g.vertices
unfolding vertex_add_edge_to_vertex
vertices-add g from to road_id = refl

add-IsInside :
    (g : Graph) (from to road_id : ℕ)
    → In g.vertices to
    → IsInside g
    → IsInside (vertex_add_edge_to_vertex g from to road_id)
add-IsInside g from to road_id i w q =
    rw (vertices-add g from to road_id, edges-add g from to road_id q)
      (elim (Bool-cases (q == from)) [ inl here ↦ rw here (i, w q) | inr there ↦ rw there (w q) ])

module _ (g : Graph) (id_str : List ℕ) (geohash : ℕ) where
  abbrev added : Graph
  added = graph_add_vertex (vertex_create g id_str geohash).0 (vertex_create g id_str geohash).1

  edges-new : (q : ℕ) → (added.heap q).edges ≡ (if q == g.next then [] else (g.heap q).edges)
  unfolding graph_add_vertex vertex_create vertex_create_ns3
  edges-new q = ground arith

  vertices-new : added.vertices ≡ g.next ∷ g.vertices
  unfolding graph_add_vertex vertex_create vertex_create_ns3
  vertices-new = refl

  new-IsInside : IsInside g → IsInside added
  new-IsInside w q =
      rw (vertices-new, edges-new q)
        (elim (Bool-cases (q == g.next)) [
          | inl fresh ↦ rw fresh tt
          | inr old ↦ rw old (All-mono _ _ (λ e i. inr i) (g.heap q).edges (w q))
        ])

get_vertex-In :
    (g : Graph) (id_str : List ℕ) (p : ℕ) → get_vertex g id_str ≡ some p → In g.vertices p
unfolding get_vertex
get_vertex-In g id_str p e = find_if-In (λ p. str_eq (g.heap p).id_str id_str) g.vertices p e

undirect-IsInside :
    (g : Graph) (p q road_id : ℕ)
    → In g.vertices p
    → In g.vertices q
    → IsInside g
    → IsInside (vertex_add_edge_to_vertex_undirect g p q road_id)
unfolding vertex_add_edge_to_vertex_undirect
undirect-IsInside g p q road_id hp hq w =
    add-IsInside (vertex_add_edge_to_vertex g p q road_id) q p road_id
      (rw (vertices-add g p q road_id) hp) (add-IsInside g p q road_id hq w)

pub recv-IsInside :
    (g : Graph) (d : GraphDeliver) → IsInside g → OnSome IsInside (netlink_recv_cb g d)
unfolding netlink_recv_cb
recv-IsInside g (del_node vertex) w = tt
recv-IsInside g (new_node vertex geohash) w = new-IsInside g vertex geohash w
recv-IsInside g (new_edge from to road_id) w = elim (Option-cases (get_vertex g from)) [
  | inl e ↦ rw e tt
  | inr (p, e) ↦ elim (Option-cases (get_vertex g to)) [
    | inl f ↦ rw (e, f) tt
    | inr (q, f) ↦
        rw (e, f)
          (undirect-IsInside g p q road_id (get_vertex-In g from p e) (get_vertex-In g to q f) w)
  ]
]
recv-IsInside g (other mode) w = w

pub create-IsInside : IsInside graph_create
unfolding graph_create
create-IsInside p = tt
