-- ===== src/Wave/Division/Kept.antt =====
-- The division goes through the undirected interface, and leaves short streets alone.
use Prim.{tt}
use map_based_relay.Prelude.{
  ◌≡◌, ◌≤◌, ◌<◌, refl, subst, ap, ◌∙◌, ℕ, zero, suc, ◌+◌, List, [], ◌∷◌, Option, none, some, Bool,
  true, false, All, All-mono, All-append, arith, get_elem?, if◌then◌else◌, length,
}
use map_based_relay.Doubles.{Double, Doubles}
use map_based_relay.Wave.Graph.{
  vertex_remove_edge_to_vertex, vertex_add_edge_to_vertex, Graph, Edge, vertex_create,
  graph_add_vertex, find_road_id, graph_is_balanced, vertex_add_edge_to_vertex_undirect,
  vertex_remove_edge_to_vertex_undirect,
}
use map_based_relay.Wave.Graph.Balance.{
  Undirected, create, add_vertex, link, cut, next-link, next-cut, Undirected-IsExact,
  Undirected-balanced,
}
use map_based_relay.Wave.Division.{
  divide_at, edge_division, divide_edges, division_loop, graph_division, new_vertex, detour,
  is_long,
}

-- A graph of the undirected interface whose vertices are allocated.
pub record IsStreets (g : Graph) : Type 0 where
  pub undirected : Undirected g
  pub allocated : All (λ p. p < g.next) g.vertices

pub vertices-link :
    (g : Graph) (from to road_id : ℕ)
    → (vertex_add_edge_to_vertex_undirect g from to road_id).vertices ≡ g.vertices
unfolding vertex_add_edge_to_vertex_undirect vertex_add_edge_to_vertex
vertices-link g from to road_id = refl

vertices-remove :
    (g : Graph) (from to : ℕ) → (vertex_remove_edge_to_vertex g from to).vertices ≡ g.vertices
unfolding vertex_remove_edge_to_vertex
vertices-remove g from to = ground arith

pub vertices-cut :
    (g : Graph) (from to : ℕ)
    → (vertex_remove_edge_to_vertex_undirect g from to).vertices ≡ g.vertices
unfolding vertex_remove_edge_to_vertex_undirect
vertices-cut g from to = vertices-remove _ to from ∙ vertices-remove g from to

-- Nothing is freed.
abbrev Grows : Graph → Graph → Type 0
Grows g g' = IsStreets g' × (g.next ≤ g'.next)

detour-Grows :
    (c : Graph × ℕ) (from to : ℕ)
    → IsStreets c.0
    → c.1 < c.0.next
    → from < c.0.next
    → to < c.0.next
    → Grows c.0 (detour c from to)
detour-Grows (h, n) from to s hn hf ht =
    let road = find_road_id h from to in
    let g2 = vertex_add_edge_to_vertex_undirect h from n road in
    let g3 = vertex_add_edge_to_vertex_undirect g2 n to road in
    let e2 : g2.next ≡ h.next = next-link h from n road in
    let e3 : g3.next ≡ h.next = next-link g2 n to road ∙ e2 in
    let e4 = next-cut g3 from to ∙ e3 in
    let same =
      vertices-cut g3 from to ∙ (vertices-link g2 n to road ∙ vertices-link h from n road) in
    (
      record {
        undirected =
            cut from to (rw e3 hf) (rw e3 ht)
              (link n to road (rw e2 hn) (rw e2 ht) (link from n road hf hn s.undirected));
        allocated = rw same (rw e4 s.allocated);
      },
      omega (arith, e4),
    )

-- A new vertex, which the graph has then.
pub placed-IsStreets :
    (g : Graph) (id_str : List ℕ) (x y : Double) (geo_hash : ℕ) (is_intersection : Bool)
    → IsStreets g
    → let c = vertex_create g id_str x y geo_hash is_intersection in
      IsStreets (graph_add_vertex c.0 c.1)
unfolding vertex_create graph_add_vertex
placed-IsStreets g id_str x y geo_hash is_intersection s = record {
  undirected = add_vertex g.next (create id_str x y geo_hash is_intersection s.undirected);
  allocated =
      All-append (λ p. p < suc g.next) g.vertices (g.next ∷ [])
        (All-mono _ _ (λ p h. omega (arith, h)) g.vertices s.allocated) (omega arith, tt);
}

module _ (f : Doubles) (to_uint : Double → ℕ) (print : (x y : Double) → List ℕ) where
  new_vertex-IsStreets :
      (g : Graph) (lat lng : Double)
      → IsStreets g
      → let c = new_vertex f to_uint print g lat lng in
        IsStreets c.0 × (c.1 < c.0.next) × (c.0.next ≡ suc g.next)
  unfolding vertex_create graph_add_vertex
  new_vertex-IsStreets g lat lng s =
      (placed-IsStreets g (print lat lng) lng lat _ false s, omega arith, refl)

  divided-Grows :
      (b : Bool) (g : Graph) (lat lng : Double) (from to : ℕ)
      → IsStreets g
      → from < g.next
      → to < g.next
      → Grows g (if b then detour (new_vertex f to_uint print g lat lng) from to else g)
  divided-Grows true g lat lng from to s hf ht =
      let (n, small, one) = new_vertex-IsStreets g lat lng s in
      let (d, more) =
        detour-Grows (new_vertex f to_uint print g lat lng) from to n small (omega (arith, one, hf))
          (omega (arith, one, ht)) in
      (d, omega (arith, one, more))
  divided-Grows false g lat lng from to s hf ht = (s, omega arith)

  divide_edges-Grows :
      (g : Graph) (v : ℕ) (es : List Edge)
      → IsStreets g
      → v < g.next
      → All (λ e. e.vertex < g.next) es
      → Grows g (divide_edges f to_uint print g v es)
  unfolding divide_edges edge_division
  divide_edges-Grows g v [] s hv a = (s, omega arith)
  divide_edges-Grows g v (e ∷ es) s hv a =
      let (d, more) = divided-Grows _ g _ _ v e.vertex s hv a.0 in
      let (d', more') =
        divide_edges-Grows (edge_division f to_uint print g v e.vertex) v es d
          (omega (arith, more, hv)) (All-mono _ _ (λ x h. omega (arith, more, h)) es a.1) in
      (d', omega (arith, more, more'))

  allocated_at :
      (g : Graph) (ps : List ℕ) (i : ℕ) (v : ℕ)
      → All (λ p. p < g.next) ps
      → get_elem? ps i ≡ some v
      → v < g.next
  allocated_at g [] i v a h = ground (arith, h)
  allocated_at g (p ∷ ps) zero v a h = ground (arith, h, a.0)
  allocated_at g (p ∷ ps) (suc i) v a h = allocated_at g ps i v a.1 h

  divide_at-IsStreets :
      (i : ℕ) (g : Graph) (o : Option ℕ) (rest : Graph → Graph × Bool)
      → get_elem? g.vertices i ≡ o
      → IsStreets g
      → ((h : Graph) → IsStreets h → IsStreets (rest h).0)
      → IsStreets (divide_at f to_uint print o g rest).0
  unfolding divide_at
  divide_at-IsStreets i g none rest e s loop = s
  divide_at-IsStreets i g (some v) rest e s loop =
      loop _
        (divide_edges-Grows g v (g.heap v).edges s (allocated_at g g.vertices i v s.allocated e)
          ((Undirected-IsExact s.undirected).closed v)).0

  division_loop-IsStreets :
      (rounds i : ℕ) (g : Graph)
      → IsStreets g
      → IsStreets (division_loop f to_uint print rounds i g).0
  unfolding division_loop
  division_loop-IsStreets zero i g s = s
  division_loop-IsStreets (suc rounds) i g s =
      divide_at-IsStreets i g (get_elem? g.vertices i)
        (division_loop f to_uint print rounds (suc i)) refl s
        (division_loop-IsStreets rounds (suc i))

  -- After any number of rounds of graph_division on a graph of the undirected interface, whose vertices
  -- are allocated, the graph is balanced: each vertex has as many edges in as out.
  pub graph_division-balanced :
      (rounds : ℕ) (g : Graph)
      → IsStreets g
      → graph_is_balanced (graph_division f to_uint print rounds g).0 ≡ true
  graph_division-balanced rounds g s =
      Undirected-balanced (division_loop-IsStreets rounds 0 g s).undirected

  abbrev AllShort : Graph → (v : ℕ) → List Edge → Type 0
  AllShort g v es = All (λ e. is_long f to_uint print g v e.vertex ≡ false) es

  divide_edges-short :
      (g : Graph) (v : ℕ) (es : List Edge)
      → AllShort g v es
      → divide_edges f to_uint print g v es ≡ g
  unfolding divide_edges edge_division
  divide_edges-short g v [] a = refl
  divide_edges-short g v (e ∷ es) a = rw a.0 (divide_edges-short g v es a.1)

  short_at :
      (g : Graph) (ps : List ℕ) (i v : ℕ)
      → All (λ p. AllShort g p (g.heap p).edges) ps
      → get_elem? ps i ≡ some v
      → AllShort g v (g.heap v).edges
  short_at g [] i v a h = let never : ⊥ = ground (arith, h) in elim never [ ]
  short_at g (p ∷ ps) zero v a h =
      let same : p ≡ v = ground (arith, h) in subst (λ q. AllShort g q (g.heap q).edges) same a.0
  short_at g (p ∷ ps) (suc i) v a h = short_at g ps i v a.1 h

  within : (ps : List ℕ) (i v : ℕ) → get_elem? ps i ≡ some v → i < length ps
  within [] i v h = ground (arith, h)
  within (p ∷ ps) zero v h = omega arith
  within (p ∷ ps) (suc i) v h = omega (arith, within ps i v h)

  divide_at-short :
      (i : ℕ) (g : Graph) (o : Option ℕ) (rest : Graph → Graph × Bool)
      → get_elem? g.vertices i ≡ o
      → All (λ p. AllShort g p (g.heap p).edges) g.vertices
      → (suc i ≤ length g.vertices → rest g ≡ (g, true))
      → divide_at f to_uint print o g rest ≡ (g, true)
  unfolding divide_at
  divide_at-short i g none rest e a loop = refl
  divide_at-short i g (some v) rest e a loop =
      ap rest (divide_edges-short g v (g.heap v).edges (short_at g g.vertices i v a e))
      ∙ loop (within g.vertices i v e)

  division_loop-short :
      (rounds i : ℕ) (g : Graph)
      → length g.vertices < rounds + i
      → i ≤ length g.vertices
      → All (λ p. AllShort g p (g.heap p).edges) g.vertices
      → division_loop f to_uint print rounds i g ≡ (g, true)
  unfolding division_loop
  division_loop-short zero i g enough at a = let never : ⊥ = omega arith in elim never [ ]
  division_loop-short (suc rounds) i g enough at a =
      divide_at-short i g (get_elem? g.vertices i) (division_loop f to_uint print rounds (suc i))
        refl a (λ inside. division_loop-short rounds (suc i) g (omega arith) inside a)

  -- Where no edge of a vertex of the graph is longer than MAX_DIST, one round more than there are
  -- vertices comes to the end of the list, and the graph is as it was.
  graph_division-short :
      (rounds : ℕ) (g : Graph)
      → length g.vertices < rounds
      → All (λ p. AllShort g p (g.heap p).edges) g.vertices
      → graph_division f to_uint print rounds g ≡ (g, true)
  graph_division-short rounds g enough a =
      division_loop-short rounds 0 g (omega arith) (omega arith) a
