-- ===== src/Wave/Graph/Balance.antt =====
-- A graph that is changed through the undirected interface alone stays symmetric, so it is balanced.

use map_based_relay.Prelude.{
  ℕ, ◌<◌, ◌≡◌, refl, sym, ◌∙◌, List, [], ◌∷◌, Bool, true, arith, length, All, sum_below,
  sum_below-add_at, sum_below-eq, sum_below-zero,
}
use map_based_relay.Doubles.{Double}
use map_based_relay.Wave.Graph.{
  Edge, Graph, graph_create, vertex_create, graph_add_vertex, vertex_add_edge_to_vertex,
  vertex_remove_edge_to_vertex, vertex_add_edge_to_vertex_undirect,
  vertex_remove_edge_to_vertex_undirect, vertex_add_edge_to_vertex_undirect_exclusive,
  balanced_from, graph_is_balanced,
}
use map_based_relay.Wave.Graph.Degrees.{
  edges_to-beyond, add_vertex-IsExact, IsExact, edges_to, links, links-add, links-remove,
  taken-unlink, next-add, next-remove, add_edge-IsExact, remove_edge-IsExact, create-IsExact,
  graph_create-IsExact, links-create,
}

-- The graphs that the interface makes from the empty one. The ends of an edge are allocated.
pub data Made : Graph → Type 0 where
  empty : Made graph_create
  create :
      {g : Graph} (id_str : List ℕ) (x y : Double) (geo_hash : ℕ) (is_intersection : Bool)
      → Made g
      → Made (vertex_create g id_str x y geo_hash is_intersection).0
  add_vertex : {g : Graph} (p : ℕ) → Made g → Made (graph_add_vertex g p)
  link :
      {g : Graph} (from to road_id : ℕ)
      → from < g.next
      → to < g.next
      → Made g
      → Made (vertex_add_edge_to_vertex g from to road_id)
  cut :
      {g : Graph} (from to : ℕ)
      → from < g.next
      → Made g
      → Made (vertex_remove_edge_to_vertex g from to)

-- After any sequence of creations of vertices and of single additions and removals of edges between
-- allocated vertices, every edge leads to an allocated vertex, the out-degree of every vertex is the
-- number of its edges, and its in-degree the number of edges of all vertices that lead to it.
pub Made-IsExact : {g : Graph} → Made g → IsExact g
Made-IsExact empty = graph_create-IsExact
Made-IsExact (create id_str x y geo_hash is_intersection m) =
    create-IsExact _ id_str x y geo_hash is_intersection (Made-IsExact m)
Made-IsExact (add_vertex {g} p m) = add_vertex-IsExact g p (Made-IsExact m)
Made-IsExact (link {g} from to road_id hf ht m) =
    add_edge-IsExact g from to road_id hf ht (Made-IsExact m)
Made-IsExact (cut {g} from to hf m) = remove_edge-IsExact g from to hf (Made-IsExact m)

-- As many edges lead one way as the other.
abbrev pub Symmetric : Graph → Type 0
Symmetric g = (p q : ℕ) → links g p q ≡ links g q p

Symmetric-add :
    (g : Graph) (from to road_id : ℕ)
    → Symmetric g
    → Symmetric (vertex_add_edge_to_vertex_undirect g from to road_id)
unfolding vertex_add_edge_to_vertex_undirect
Symmetric-add g from to road_id s p q =
    let h = vertex_add_edge_to_vertex g from to road_id in
    ground (
      arith,
      s p q,
      links-add g from to road_id p q,
      links-add g from to road_id q p,
      links-add h to from road_id p q,
      links-add h to from road_id q p,
    )

Symmetric-remove :
    (g : Graph) (from to : ℕ)
    → Symmetric g
    → Symmetric (vertex_remove_edge_to_vertex_undirect g from to)
unfolding vertex_remove_edge_to_vertex_undirect
Symmetric-remove g from to s p q =
    let h = vertex_remove_edge_to_vertex g from to in
    ground (
      arith,
      s p q,
      s from to,
      links-remove g from to p q,
      links-remove g from to q p,
      links-remove g from to to from,
      links-remove h to from p q,
      links-remove h to from q p,
      taken-unlink to (g.heap from).edges,
      taken-unlink from (h.heap to).edges,
    )

-- The graphs that the undirected interface makes.
pub data Undirected : Graph → Type 0 where
  empty : Undirected graph_create
  create :
      {g : Graph} (id_str : List ℕ) (x y : Double) (geo_hash : ℕ) (is_intersection : Bool)
      → Undirected g
      → Undirected (vertex_create g id_str x y geo_hash is_intersection).0
  add_vertex : {g : Graph} (p : ℕ) → Undirected g → Undirected (graph_add_vertex g p)
  link :
      {g : Graph} (from to road_id : ℕ)
      → from < g.next
      → to < g.next
      → Undirected g
      → Undirected (vertex_add_edge_to_vertex_undirect g from to road_id)
  cut :
      {g : Graph} (from to : ℕ)
      → from < g.next
      → to < g.next
      → Undirected g
      → Undirected (vertex_remove_edge_to_vertex_undirect g from to)
  relink :
      {g : Graph} (from to road_id : ℕ)
      → from < g.next
      → to < g.next
      → Undirected g
      → Undirected (vertex_add_edge_to_vertex_undirect_exclusive g from to road_id)

pub next-link :
    (g : Graph) (from to road_id : ℕ)
    → (vertex_add_edge_to_vertex_undirect g from to road_id).next ≡ g.next
unfolding vertex_add_edge_to_vertex_undirect
next-link g from to road_id = next-add _ to from road_id ∙ next-add g from to road_id

pub next-cut :
    (g : Graph) (from to : ℕ) → (vertex_remove_edge_to_vertex_undirect g from to).next ≡ g.next
unfolding vertex_remove_edge_to_vertex_undirect
next-cut g from to = next-remove _ to from ∙ next-remove g from to

link-IsExact :
    (g : Graph) (from to road_id : ℕ)
    → from < g.next
    → to < g.next
    → IsExact g
    → IsExact (vertex_add_edge_to_vertex_undirect g from to road_id)
unfolding vertex_add_edge_to_vertex_undirect
link-IsExact g from to road_id hf ht v =
    let e = next-add g from to road_id in
    add_edge-IsExact _ to from road_id (rw e ht) (rw e hf)
      (add_edge-IsExact g from to road_id hf ht v)

cut-IsExact :
    (g : Graph) (from to : ℕ)
    → from < g.next
    → to < g.next
    → IsExact g
    → IsExact (vertex_remove_edge_to_vertex_undirect g from to)
unfolding vertex_remove_edge_to_vertex_undirect
cut-IsExact g from to hf ht v =
    remove_edge-IsExact _ to from (rw (next-remove g from to) ht)
      (remove_edge-IsExact g from to hf v)

pub Undirected-IsExact : {g : Graph} → Undirected g → IsExact g
unfolding vertex_add_edge_to_vertex_undirect_exclusive
Undirected-IsExact empty = graph_create-IsExact
Undirected-IsExact (create id_str x y geo_hash is_intersection u) =
    create-IsExact _ id_str x y geo_hash is_intersection (Undirected-IsExact u)
Undirected-IsExact (add_vertex {g} p u) = add_vertex-IsExact g p (Undirected-IsExact u)
Undirected-IsExact (link {g} from to road_id hf ht u) =
    link-IsExact g from to road_id hf ht (Undirected-IsExact u)
Undirected-IsExact (cut {g} from to hf ht u) = cut-IsExact g from to hf ht (Undirected-IsExact u)
Undirected-IsExact (relink {g} from to road_id hf ht u) =
    let e = next-cut g from to in
    link-IsExact (vertex_remove_edge_to_vertex_undirect g from to) from to road_id (rw e hf)
      (rw e ht) (cut-IsExact g from to hf ht (Undirected-IsExact u))

-- A new vertex has no edges, and none leads to it.
Symmetric-create :
    (g : Graph) (id_str : List ℕ) (x y geo_hash : ℕ) (is_intersection : Bool)
    → IsExact g
    → Symmetric g
    → Symmetric (vertex_create g id_str x y geo_hash is_intersection).0
Symmetric-create g id_str x y geo_hash is_intersection v s p q = ground (
  arith,
  s p q,
  links-create g id_str x y geo_hash is_intersection p q,
  links-create g id_str x y geo_hash is_intersection q p,
  edges_to-beyond g.next p (g.heap q).edges,
  edges_to-beyond g.next q (g.heap p).edges,
  v.closed p,
  v.closed q,
)

add_vertex-Symmetric : (g : Graph) (p : ℕ) → Symmetric g → Symmetric (graph_add_vertex g p)
unfolding graph_add_vertex
add_vertex-Symmetric g p s = s

Undirected-Symmetric : {g : Graph} → Undirected g → Symmetric g
unfolding vertex_add_edge_to_vertex_undirect_exclusive graph_create
Undirected-Symmetric empty = λ p q. refl
Undirected-Symmetric (create {g} id_str x y geo_hash is_intersection u) =
    Symmetric-create g id_str x y geo_hash is_intersection (Undirected-IsExact u)
      (Undirected-Symmetric u)
Undirected-Symmetric (add_vertex {g} p u) = add_vertex-Symmetric g p (Undirected-Symmetric u)
Undirected-Symmetric (link {g} from to road_id hf ht u) =
    Symmetric-add g from to road_id (Undirected-Symmetric u)
Undirected-Symmetric (cut {g} from to hf ht u) = Symmetric-remove g from to (Undirected-Symmetric u)
Undirected-Symmetric (relink {g} from to road_id hf ht u) =
    Symmetric-add (vertex_remove_edge_to_vertex_undirect g from to) from to road_id
      (Symmetric-remove g from to (Undirected-Symmetric u))

-- Each edge to an allocated vertex is counted once.
sum-edges_to :
    (n : ℕ) (es : List Edge)
    → All (λ e. e.vertex < n) es
    → sum_below (λ q. edges_to q es) n ≡ length es
sum-edges_to n [] a = sum_below-zero n
sum-edges_to n (e ∷ es) a = ground (
  arith,
  sum-edges_to n es a.1,
  sum_below-add_at (λ q. edges_to q es) (λ q. edges_to q (e ∷ es)) 1 e.vertex n (λ q. ground arith),
)

degrees_meet :
    (g : Graph) (p : ℕ) → IsExact g → Symmetric g → (g.heap p).indegree ≡ (g.heap p).outdegree
degrees_meet g p v s =
    v.indegree p
    ∙ (sum_below-eq (λ q. links g p q) (λ q. links g q p) g.next (λ q lt. s q p)
        ∙ (sum-edges_to g.next (g.heap p).edges (v.closed p) ∙ sym (v.outdegree p)))

balanced_from_lem : (g : Graph) (ps : List ℕ) → IsExact g → Symmetric g → balanced_from g ps ≡ true
unfolding balanced_from
balanced_from_lem g [] v s = refl
balanced_from_lem g (p ∷ ps) v s = ground (arith, degrees_meet g p v s, balanced_from_lem g ps v s)

-- After any sequence of creations of vertices and of undirected, also exclusive, additions and of
-- undirected removals of edges between allocated vertices, `graph_is_balanced` says yes.
pub Undirected-balanced : {g : Graph} → Undirected g → graph_is_balanced g ≡ true
unfolding graph_is_balanced
Undirected-balanced {g} u =
    balanced_from_lem g g.vertices (Undirected-IsExact u) (Undirected-Symmetric u)
