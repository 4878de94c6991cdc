-- ===== src/Wave/Graph/Degrees.antt =====
-- The degree counters of every vertex are exact: the out-degree is the number of its edges, and the
-- in-degree the number of edges of all vertices that lead to it.
use Prim.{tt}
use map_based_relay.Prelude.{
  ◌∙◌, ==_iff, Bool-cases, Bool, ℕ, suc, ◌+◌, ◌-◌, ◌≤◌, ◌<◌, ◌≡◌, refl, inl, inr, List, [], ◌∷◌,
  Option, none, some, arith, ◌==◌, ltb, if◌then◌else◌, length, count, All, All-mono, sum_below,
  sum_below-add_at, sum_below-eq, sum_below-zero,
}
use map_based_relay.Wave.Graph.{
  graph_add_vertex, Edge, Graph, graph_create, vertex_create, vertex_add_edge_to_vertex, unlink,
  vertex_remove_edge_to_vertex,
}

-- How many of the edges lead to `p`, and how many edges of the vertex `q` do.
abbrev pub edges_to : ℕ → List Edge → ℕ
edges_to p es = count (λ e. e.vertex == p) es

abbrev pub links : Graph → (q p : ℕ) → ℕ
links g q p = edges_to p (g.heap q).edges

pub record IsExact (g : Graph) : Type 0 where
  pub closed : (q : ℕ) → All (λ e. e.vertex < g.next) (g.heap q).edges
  pub outdegree : (q : ℕ) → (g.heap q).outdegree ≡ length (g.heap q).edges
  pub indegree : (p : ℕ) → (g.heap p).indegree ≡ sum_below (λ q. links g q p) g.next

-- What an added edge changes, field by field.
module _ (g : Graph) (from to road_id q : ℕ) where
  edges-add : ((vertex_add_edge_to_vertex g from to road_id).heap q).edges ≡ (
      if q == from
      then record { vertex = to; road_id = road_id } ∷ (g.heap q).edges
      else (g.heap q).edges)
  unfolding vertex_add_edge_to_vertex
  edges-add = ground arith

  indegree-add :
      ((vertex_add_edge_to_vertex g from to road_id).heap q).indegree
      ≡ (g.heap q).indegree + (if q == to then 1 else 0)
  unfolding vertex_add_edge_to_vertex
  indegree-add = ground arith

  outdegree-add :
      ((vertex_add_edge_to_vertex g from to road_id).heap q).outdegree
      ≡ (g.heap q).outdegree + (if q == from then 1 else 0)
  unfolding vertex_add_edge_to_vertex
  outdegree-add = ground arith

  pub links-add :
      (p : ℕ)
      → links (vertex_add_edge_to_vertex g from to road_id) q p
        ≡ links g q p + (if q == from then (if to == p then 1 else 0) else 0)
  links-add p = ground (arith, edges-add)

pub next-add :
    (g : Graph) (from to road_id : ℕ) → (vertex_add_edge_to_vertex g from to road_id).next ≡ g.next
unfolding vertex_add_edge_to_vertex
next-add g from to road_id = refl

pub add_edge-IsExact :
    (g : Graph) (from to road_id : ℕ)
    → from < g.next
    → to < g.next
    → IsExact g
    → IsExact (vertex_add_edge_to_vertex g from to road_id)
add_edge-IsExact g from to road_id hf ht v = record {
  closed = λ q.
      rw (next-add g from to road_id, edges-add g from to road_id q)
        (elim (Bool-cases (q == from)) [
          | inl e ↦ rw e (ht, v.closed q)
          | inr e ↦ rw e (v.closed q)
        ]);
  outdegree = λ q.
      ground
        (arith, edges-add g from to road_id q, outdegree-add g from to road_id q, v.outdegree q);
  indegree = λ p.
      let h = vertex_add_edge_to_vertex g from to road_id in
      rw (next-add g from to road_id) (
        ground (
          arith,
          indegree-add g from to road_id p,
          v.indegree p,
          sum_below-add_at (λ q. links g q p) (λ q. links h q p) (if to == p then 1 else 0) from
              g.next (λ q. links-add g from to road_id q p),
        ));
}

-- What `unlink` leaves, and how many edges it takes out.
abbrev linked : List Edge → Option (List Edge) → List Edge
linked es none = es
linked es (some es') = es'

abbrev pub taken : Option (List Edge) → ℕ
taken none = 0
taken (some es) = 1

-- The same edges by plain recursion.
unlink_first : ℕ → List Edge → List Edge
unlink_first to [] = []
unlink_first to (e ∷ es) = if e.vertex == to then es else e ∷ unlink_first to es

linked-unlink : (to : ℕ) (es : List Edge) → linked es (unlink to es) ≡ unlink_first to es
unfolding unlink unlink_first
linked-unlink to [] = refl
linked-unlink to (e ∷ es) = ground (arith, linked-unlink to es)

All-unlink_first :
    (n to : ℕ) (es : List Edge)
    → All (λ e. e.vertex < n) es
    → All (λ e. e.vertex < n) (unlink_first to es)
unfolding unlink_first
All-unlink_first n to [] a = tt
All-unlink_first n to (e ∷ es) a = ground (arith, All-unlink_first n to es a.1)

length-unlink :
    (to : ℕ) (es : List Edge) → length es ≡ length (linked es (unlink to es)) + taken (unlink to es)
unfolding unlink
length-unlink to [] = refl
length-unlink to (e ∷ es) = ground (arith, length-unlink to es)

edges_to-unlink :
    (to p : ℕ) (es : List Edge)
    → edges_to p es
      ≡ edges_to p (linked es (unlink to es)) + (if to == p then taken (unlink to es) else 0)
unfolding unlink
edges_to-unlink to p [] = ground arith
edges_to-unlink to p (e ∷ es) = ground (arith, edges_to-unlink to p es)

-- An edge is taken out exactly where there is one.
pub taken-unlink :
    (to : ℕ) (es : List Edge) → taken (unlink to es) ≡ (if ltb 0 (edges_to to es) then 1 else 0)
unfolding unlink
taken-unlink to [] = refl
taken-unlink to (e ∷ es) = ground (arith, taken-unlink to es)

-- What a removed edge changes, field by field.
module _ (g : Graph) (from to q : ℕ) where
  abbrev pub cut : Option (List Edge)
  cut = unlink to (g.heap from).edges

  edges-remove :
      ((vertex_remove_edge_to_vertex g from to).heap q).edges
      ≡ (if q == from then linked (g.heap q).edges cut else (g.heap q).edges)
  unfolding vertex_remove_edge_to_vertex
  edges-remove = ground arith

  indegree-remove :
      ((vertex_remove_edge_to_vertex g from to).heap q).indegree
      ≡ (g.heap q).indegree - (if q == to then taken cut else 0)
  unfolding vertex_remove_edge_to_vertex
  indegree-remove = ground arith

  outdegree-remove :
      ((vertex_remove_edge_to_vertex g from to).heap q).outdegree
      ≡ (g.heap q).outdegree - (if q == from then taken cut else 0)
  unfolding vertex_remove_edge_to_vertex
  outdegree-remove = ground arith

  pub links-remove :
      (p : ℕ)
      → links g q p
        ≡ links (vertex_remove_edge_to_vertex g from to) q p
          + (if q == from then (if to == p then taken cut else 0) else 0)
  links-remove p = ground (arith, edges-remove, edges_to-unlink to p (g.heap from).edges)

pub next-remove : (g : Graph) (from to : ℕ) → (vertex_remove_edge_to_vertex g from to).next ≡ g.next
unfolding vertex_remove_edge_to_vertex
next-remove g from to = ground arith

pub remove_edge-IsExact :
    (g : Graph) (from to : ℕ)
    → from < g.next
    → IsExact g
    → IsExact (vertex_remove_edge_to_vertex g from to)
remove_edge-IsExact g from to hf v = record {
  closed = λ q.
      rw (next-remove g from to, edges-remove g from to q)
        (elim (Bool-cases (q == from)) [
          | inl e ↦ rw e (kept q ((==_iff q from).0 e))
          | inr e ↦ rw e (v.closed q)
        ]);
  outdegree = λ q. ground (
    arith,
    edges-remove g from to q,
    outdegree-remove g from to q,
    v.outdegree q,
    length-unlink to (g.heap from).edges,
  );
  indegree = λ p.
      let h = vertex_remove_edge_to_vertex g from to in
      rw (next-remove g from to) (
        ground (
          arith,
          indegree-remove g from to p,
          v.indegree p,
          sum_below-add_at (λ q. links h q p) (λ q. links g q p)
              (if to == p then taken (unlink to (g.heap from).edges) else 0) from g.next
              (λ q. links-remove g from to q p),
        ));
}
  where
    kept :
        (q : ℕ)
        → q ≡ from
        → All (λ e. e.vertex < g.next) (linked (g.heap q).edges (unlink to (g.heap from).edges))
    kept q e =
        rw (e, linked-unlink to (g.heap from).edges)
          (All-unlink_first g.next to (g.heap from).edges (v.closed from))

pub edges_to-beyond :
    (n p : ℕ) (es : List Edge) → n ≤ p → All (λ e. e.vertex < n) es → edges_to p es ≡ 0
edges_to-beyond n p [] h a = refl
edges_to-beyond n p (e ∷ es) h a = ground (arith, edges_to-beyond n p es h a.1)

links-beyond :
    (g : Graph) (p : ℕ) → IsExact g → g.next ≤ p → sum_below (λ q. links g q p) g.next ≡ 0
links-beyond g p v h =
    sum_below-eq (λ q. 0) (λ q. links g q p) g.next
      (λ q lt. edges_to-beyond g.next p (g.heap q).edges h (v.closed q))
    ∙ sum_below-zero g.next

module _ (g : Graph) (id_str : List ℕ) (x y geo_hash : ℕ) (is_intersection : Bool) where
  abbrev pub created : Graph
  created = (vertex_create g id_str x y geo_hash is_intersection).0

  edges-create : (q : ℕ) → (created.heap q).edges ≡ (if q == g.next then [] else (g.heap q).edges)
  unfolding vertex_create
  edges-create q = ground arith

  pub links-create : (q p : ℕ) → links created q p ≡ (if q == g.next then 0 else links g q p)
  links-create q p = ground (arith, edges-create q)

  indegree-create :
      (q : ℕ) → (created.heap q).indegree ≡ (if q == g.next then 0 else (g.heap q).indegree)
  unfolding vertex_create
  indegree-create q = ground arith

  outdegree-create :
      (q : ℕ) → (created.heap q).outdegree ≡ (if q == g.next then 0 else (g.heap q).outdegree)
  unfolding vertex_create
  outdegree-create q = ground arith

  pub next-create : created.next ≡ suc g.next
  unfolding vertex_create
  next-create = refl

  pub create-IsExact : IsExact g → IsExact created
  create-IsExact v = record {
    closed = λ q.
        rw (next-create, edges-create q)
          (elim (Bool-cases (q == g.next)) [
            | inl e ↦ rw e tt
            | inr e ↦ rw e (
                All-mono _ _ (λ d (h : d.vertex < g.next). omega arith) (g.heap q).edges
                  (v.closed q))
          ]);
    outdegree = λ q. ground (arith, edges-create q, outdegree-create q, v.outdegree q);
    indegree = λ p. rw next-create (
        ground (
          arith,
          indegree-create p,
          links-create g.next p,
          v.indegree p,
          links-beyond g p v,
          sum_below-eq (λ q. links g q p) (λ q. links created q p) g.next
              (λ q (lt : q < g.next). ground (arith, links-create q p)),
        ));
  }

pub add_vertex-IsExact : (g : Graph) (p : ℕ) → IsExact g → IsExact (graph_add_vertex g p)
unfolding graph_add_vertex
add_vertex-IsExact g p v = record {
  closed = v.closed;
  outdegree = v.outdegree;
  indegree = v.indegree;
}

pub graph_create-IsExact : IsExact graph_create
unfolding graph_create
graph_create-IsExact = record { closed = λ q. tt; outdegree = λ q. refl; indegree = λ p. refl }
