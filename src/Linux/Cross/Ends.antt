-- ===== src/Linux/Cross/Ends.antt =====
-- The search ends: each round takes one vertex that is in the graph.
use Prim.{tt}
use map_based_relay.Prelude.{
  ℕ, zero, suc, ◌+◌, ◌≤◌, ◌<◌, List, [], ◌∷◌, ◌++◌, Option, none, some, true, false, ◌≡◌, inl, inr,
  All, All-append, ◌==◌, length, length-append, get_elem?, any_of, is_some, arith, refl,
  Option-cases, Bool-cases, sym, ◌∙◌, subst,
}
use map_based_relay.Wave.Graph.{Graph, Edge}
use map_based_relay.Wave.Cross.{PathNode, same_id}
use map_based_relay.Wave.Cross.Ranks.{Before, Ranked, Ranked-concat, get-Ranked_root, get_below}
use map_based_relay.Wave.Cross.Ids.{
  ids, In, unseen, ids-append, length-ids, get-ids, get-below, unseen-less, unseen-bound,
}
use map_based_relay.Linux.Cross.{
  find_vertex, turn_loop, print_crossnode, visit_edges, search_from, root, cross_vertex, crossnode,
}

-- Edges lead from the vertices of the graph to vertices of the graph.
abbrev pub IsClosed : Graph → Type 0
IsClosed g = (p : ℕ) → In g.vertices p → All (λ e. In g.vertices e.vertex) (g.heap p).edges

record IsSearching (g : Graph) (path : List PathNode) : Type 0 where
  ranked : Ranked 0 path
  known : All (λ u. In g.vertices u) (ids path)
  room : length (ids path) + unseen (ids path) g.vertices ≤ length g.vertices

-- The tail hangs under a node of the tree.
abbrev Aimed : List PathNode × Option PathNode → Type 0
Aimed (path, none) = Unit {0}
Aimed (path, some t) = (a : ℕ) × (t.ancest ≡ some a) × (a < length path)

find_vertex-ids :
    (path : List PathNode) (v : ℕ) → find_vertex path v ≡ any_of (λ u. u == v) (ids path)
find_vertex-ids [] v = refl
find_vertex-ids (n ∷ path) v = ground (arith, find_vertex-ids path v)

append-IsSearching :
    (g : Graph) (index v road_id : ℕ) (path : List PathNode)
    → index < length path
    → In g.vertices v
    → find_vertex path v ≡ false
    → IsSearching g path
    → IsSearching g (path ++ record { v = v; ancest = some index; road_id = road_id } ∷ [])
append-IsSearching g index v road_id path lt i new s =
    let n : PathNode = record { v = v; ancest = some index; road_id = road_id } in
    let new' = sym (find_vertex-ids path v) ∙ new in
    let eq = ids-append path n in
    record {
      ranked = Ranked-concat 0 path n s.ranked (omega arith);
      known = rw eq (All-append _ (ids path) (v ∷ []) s.known (i, tt));
      room = rw eq (
          omega (
            arith,
            s.room,
            unseen-less (ids path) g.vertices v i new',
            length-append (ids path) (v ∷ []),
          ));
    }

visit_edges-IsSearching :
    (g : Graph) (to index : ℕ) (path : List PathNode) (es : List Edge)
    → index < length path
    → All (λ e. In g.vertices e.vertex) es
    → IsSearching g path
    → IsSearching g (visit_edges g to index path es).0 × Aimed (visit_edges g to index path es)
unfolding visit_edges
visit_edges-IsSearching g to index path [] lt i s = (s, tt)
visit_edges-IsSearching g to index path (e ∷ es) lt i s =
    let t : PathNode = record { v = e.vertex; ancest = some index; road_id = e.road_id } in
    let lt' : index < length (path ++ t ∷ []) = omega (arith, length-append path (t ∷ [])) in
    elim (Bool-cases (find_vertex path e.vertex)) [
      | inl old ↦ rw old (visit_edges-IsSearching g to index path es lt i.1 s)
      | inr new ↦
          let s' = append-IsSearching g index e.vertex e.road_id path lt i.0 new s in
          elim (Bool-cases (same_id g e.vertex to)) [
            | inl found ↦ rw (new, found) (s', (index, refl, lt'))
            | inr other ↦
                rw (new, other) (visit_edges-IsSearching g to index (path ++ t ∷ []) es lt' i.1 s')
          ]
    ]

-- The way up from a node with a position under the fuel ends at the root.
turn_loop-some :
    (fuel : ℕ) (path : List PathNode) (n : PathNode) (first k : ℕ)
    → Ranked 0 path
    → Before n.ancest k
    → k < fuel
    → k ≤ length path
    → is_some (turn_loop fuel path n first) ≡ true
unfolding turn_loop
turn_loop-some zero path n first k r b lt le = elim lt [ ]
turn_loop-some (suc fuel) path n first k r b lt le = elim (Option-cases n.ancest) [
  | inl e ↦ ground (arith, e)
  | inr (a, e) ↦
      let b' : a < k = rw e at b in
      let (n', e') = get_below a path (omega arith) in
      ground (
        arith,
        e,
        e',
        turn_loop-some fuel path n' n.road_id a r (get-Ranked_root a path e' r) (omega arith)
            (omega arith),
      )
]

crossnode-some :
    (g : Graph) (r : List PathNode × Option PathNode)
    → IsSearching g r.0
    → Aimed r
    → is_some (crossnode r) ≡ true
unfolding print_crossnode
crossnode-some g (path, none) s a = refl
crossnode-some g (path, some t) s (a, up, lt) =
    let (n, e) = get_below a path lt in
    ground (
      arith,
      up,
      e,
      turn_loop-some (length path) path n t.road_id a s.ranked (get-Ranked_root a path e s.ranked)
          lt (omega arith),
    )

is_some-none : {A : Type 0} {o : Option A} → o ≡ none → is_some o ≡ true → ⊥
is_some-none e h = cc

All-at : (P : ℕ → Type 0) (us : List ℕ) (k v : ℕ) → get_elem? us k ≡ some v → All P us → P v
All-at P [] k v e a = cc
All-at P (u ∷ us) zero v e a = let eq : u ≡ v = cc in subst P eq a.0
All-at P (u ∷ us) (suc k) v e a = All-at P us k v e a.1

-- A search that ends has a tree, and the tail hangs in it.
abbrev Ended : Graph → Option (List PathNode × Option PathNode) → Type 0
Ended g none = ⊥
Ended g (some r) = IsSearching g r.0 × Aimed r

search_from-Ended :
    (fuel : ℕ) (g : Graph) (to index : ℕ) (path : List PathNode)
    → IsClosed g
    → length g.vertices ≤ fuel + index
    → IsSearching g path
    → Ended g (search_from fuel g to index path)
unfolding search_from
search_from-Ended zero g to index path closed le s = elim (Option-cases (get_elem? path index)) [
  | inl e ↦ rw (e, search_from) (s, tt)
  | inr (n, e) ↦
      let small = get-below index n.v (ids path) (get-ids index path n e) in
      let room = s.room in let never : ⊥ = omega arith in elim never [ ]
]
search_from-Ended (suc fuel) g to index path closed le s =
    elim (Option-cases (get_elem? path index)) [
      | inl e ↦ rw (e, search_from) (s, tt)
      | inr (n, e) ↦
          let edges = (g.heap n.v).edges in
          let here = get-ids index path n e in
          let i = All-at (λ u. In g.vertices u) (ids path) index n.v here s.known in
          let lt : index < length path =
            omega (arith, length-ids path, get-below index n.v (ids path) here) in
          let (s', aimed) = visit_edges-IsSearching g to index path edges lt (closed n.v i) s in
          elim (Option-cases (visit_edges g to index path edges).1) [
            | inl on ↦
                rw (e, search_from)
                  (rw on (search_from-Ended fuel g to (suc index) _ closed (omega arith) s'))
            | inr (t, at) ↦ rw (e, search_from) (rw at (s', aimed))
          ]
    ]

-- The search ends and answers, where it starts at a vertex of the graph and the edges of the vertices
-- of the graph lead to vertices of the graph.
pub cross_vertex-ends :
    (g : Graph) (from to : ℕ)
    → IsClosed g
    → In g.vertices from
    → is_some (cross_vertex g from to) ≡ true
unfolding cross_vertex
cross_vertex-ends g from to closed i =
    let less = unseen-less [] g.vertices from i refl in
    let most = unseen-bound [] g.vertices in
    let ended =
      search_from-Ended (length g.vertices) g to 0 (root from ∷ []) closed (omega arith)
        (record { ranked = (tt, tt); known = (i, tt); room = omega arith }) in
    elim (Option-cases (search_from (length g.vertices) g to 0 (root from ∷ []))) [
      | inl e ↦ elim (subst (Ended g) e ended) [ ]
      | inr (r, e) ↦ let (s, aimed) = subst (Ended g) e ended in rw e (crossnode-some g r s aimed)
    ]
