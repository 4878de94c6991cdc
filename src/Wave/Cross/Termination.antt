-- ===== src/Wave/Cross/Termination.antt =====
-- The search ends, and gives its list: each round takes one vertex that is in the graph.
use Prim.{tt}
use map_based_relay.Prelude.{
  Bool-cases, inr, zero, suc, inl, Option-cases, is_some, refl, ◌∙◌, true, sym, length-append,
  All-append, ap, if◌then◌else◌, [], subst, ◌-◌, ◌∷◌, ◌∷◌, ◌++◌, false, ◌==◌, none, any_of, arith,
  ◌+◌, ◌<◌, ◌≡◌, some, ◌≢◌, Bool, ◌≤◌, get_elem?, length, List, Option, All, ℕ,
}
use map_based_relay.Wave.Graph.{Edge, Graph}
use map_based_relay.Wave.Cross.{
  add_crossing, PathNode, Search, find_vertex, print_crossnode, same_id, visit, collect,
  visit_edges, search_from, start, cross_vertex,
}
use map_based_relay.Wave.Cross.Ranks.{
  Before, Ranked, rehang, rehang-Ranked, Ranked-concat, print_crossnode-some,
}
use map_based_relay.Wave.Cross.Ids.{
  ids, In, unseen, ids-rehang, ids-append, length-ids, get-ids, get-append_keep, get-below,
  find_vertex-none, find_vertex-some, unseen-less, visit-old, unseen-bound,
}

-- Edges lead from the vertices of the graph to vertices of the graph, and to other ones.
pub record IsTidy (g : Graph) : Type 0 where
  pub inside : (p : ℕ) → In g.vertices p → All (λ e. In g.vertices e.vertex) (g.heap p).edges
  pub no_loops : (p : ℕ) → In g.vertices p → All (λ e. e.vertex ≢ p) (g.heap p).edges

pub record IsSearching (g : Graph) (path : List PathNode) (target : Option ℕ) : Type 0 where
  pub ranked : Ranked 0 path
  pub aimed : Before target (length path)
  pub known : All (λ u. In g.vertices u) (ids path)
  pub room : length (ids path) + unseen (ids path) g.vertices ≤ length g.vertices

Before-mono : (t : Option ℕ) (k l : ℕ) → Before t k → k ≤ l → Before t l
Before-mono none k l b le = tt
Before-mono (some a) k l b le = omega arith

rehang-length : (index v : ℕ) (path : List PathNode) → length (rehang index v 0 path) ≡ length path
rehang-length index v path = omega (
  arith,
  length-ids path,
  length-ids (rehang index v 0 path),
  ap length (ids-rehang index v 0 path),
)

sub_zero : (k : ℕ) → k - 0 ≡ k
sub_zero k = omega arith

some-eq : {a b : ℕ} → some a ≡ some b → a ≡ b
some-eq e = cc

-- A hypothesis of `rehang-Ranked` from the vertex at the front.
other :
    (index v w : ℕ) (path : List PathNode)
    → get_elem? (ids path) index ≡ some v
    → w ≢ v
    → (n : PathNode) → 0 ≤ index
    → get_elem? path (index - 0) ≡ some n
    → n.v ≢ w
other index v w path here ne n le e eq =
    let at_front : get_elem? (ids path) index ≡ some n.v =
      get-ids index path n (subst (λ k. get_elem? path k ≡ some n) (sub_zero index) e) in
    ne (sym eq ∙ some-eq (sym at_front ∙ here))

rehang-IsSearching :
    (g : Graph) (index v w : ℕ) (path : List PathNode) (target : Option ℕ)
    → get_elem? (ids path) index ≡ some v
    → w ≢ v
    → IsSearching g path target
    → IsSearching g (rehang index w 0 path) target
rehang-IsSearching g index v w path target here ne s =
    let eq = ids-rehang index w 0 path in
    record {
      ranked = rehang-Ranked index w 0 path (other index v w path here ne) s.ranked;
      aimed = Before-mono target _ _ s.aimed (omega (arith, rehang-length index w path));
      known = rw eq s.known;
      room = rw eq s.room;
    }

aimed_at :
    (path : List PathNode) (n : PathNode) (target : Option ℕ) (found : Bool)
    → Before target (length path)
    → Before (if found then some (length path) else target) (length (path ++ n ∷ []))
aimed_at path n target true b = omega (arith, length-append path (n ∷ []))
aimed_at path n target false b =
    Before-mono target _ _ b (omega (arith, length-append path (n ∷ [])))

append-IsSearching :
    (g : Graph) (index w road_id : ℕ) (path : List PathNode) (target : Option ℕ) (found : Bool)
    → index < length path
    → In g.vertices w
    → any_of (λ u. u == w) (ids path) ≡ false
    → IsSearching g path target
    → IsSearching g
        (path ++ record { v = w; ancest = some index; road_id = road_id } ∷ [])
        (if found then some (length path) else target)
append-IsSearching g index w road_id path target found lt i new s =
    let n : PathNode = record { v = w; ancest = some index; road_id = road_id } in
    let eq = ids-append path n in
    record {
      ranked = Ranked-concat 0 path n s.ranked (omega arith);
      aimed = aimed_at path n target found s.aimed;
      known = rw eq (All-append _ (ids path) (w ∷ []) s.known (i, tt));
      room = rw eq (
          omega (
            arith,
            s.room,
            unseen-less (ids path) g.vertices w i new,
            length-append (ids path) (w ∷ []),
          ));
    }

abbrev Stays : Graph → (index v : ℕ) → Search → Type 0
Stays g index v s = IsSearching g s.path s.target × (get_elem? (ids s.path) index ≡ some v)

visit-Stays :
    (g : Graph) (to index v : ℕ) (s : Search) (e : Edge)
    → e.vertex ≢ v
    → In g.vertices e.vertex
    → Stays g index v s
    → Stays g index v (visit g to index s e)
unfolding visit
visit-Stays g to index v s e ne i (st, here) =
    elim (Option-cases (find_vertex index e.vertex 0 s.path)) [
      | inl new ↦
          rw (new, visit)
            (
              append-IsSearching g index e.vertex e.road_id s.path s.target (same_id g e.vertex to)
                  (omega (arith, length-ids s.path, get-below index v (ids s.path) here)) i
                  (find_vertex-none index e.vertex 0 s.path new) st,
              rw (ids-append s.path _) (get-append_keep index v e.vertex (ids s.path) here),
            )
      | inr (path, old) ↦
          let eq = find_vertex-some index e.vertex 0 s.path path old in
          subst (Stays g index v) (sym (visit-old g to index s e path old)) (
            rw eq (rehang-IsSearching g index v e.vertex s.path s.target here ne st),
            rw (eq, ids-rehang index e.vertex 0 s.path) here,
          )
    ]

is_some-none : {A : Type 0} {o : Option A} → o ≡ none → is_some o ≡ true → ⊥
is_some-none e h = cc

collect-Stays :
    (g : Graph) (index v : ℕ) (s : Search)
    → Stays g index v s
    → (s' : Search) × (collect s ≡ some s') × Stays g index v s'
unfolding collect
collect-Stays g index v s st = elim (Bool-cases s.flag) [
  | inl on ↦ elim (Option-cases (print_crossnode s.path s.target)) [
    | inl e ↦
        let some_ = print_crossnode-some s.path s.target st.0.ranked st.0.aimed in
        elim (is_some-none e some_) [ ]
    | inr (c, e) ↦ (record s { crossings = add_crossing s.crossings c }, ground (arith, on, e), st)
  ]
  | inr off ↦ (s, ground (arith, off), st)
]

visit_edges-Stays :
    (g : Graph) (to index v : ℕ) (s : Search) (es : List Edge)
    → All (λ e. e.vertex ≢ v) es
    → All (λ e. In g.vertices e.vertex) es
    → Stays g index v s
    → (s' : Search) × (visit_edges g to index s es ≡ some s') × Stays g index v s'
unfolding visit_edges
visit_edges-Stays g to index v s [] n i st = (s, refl, st)
visit_edges-Stays g to index v s (e ∷ es) n i st =
    let (s', eq, st') =
      collect-Stays g index v (visit g to index s e) (visit-Stays g to index v s e n.0 i.0 st) in
    let (s2, eq2, st2) = visit_edges-Stays g to index v s' es n.1 i.1 st' in (s2, rw eq eq2, st2)

All-at : (P : ℕ → Type 0) (us : List ℕ) (k v : ℕ) → get_elem? us k ≡ some v → All P us → P v
All-at P [] k v e a = cc
All-at P (u ∷ us) zero v e a = subst P (some-eq e) a.0
All-at P (u ∷ us) (suc k) v e a = All-at P us k v e a.1

search_from-some :
    (fuel : ℕ) (g : Graph) (to index : ℕ) (s : Search)
    → IsTidy g
    → length g.vertices ≤ fuel + index
    → IsSearching g s.path s.target
    → is_some (search_from fuel g to index s) ≡ true
unfolding search_from
search_from-some zero g to index s tidy le st = elim (Option-cases (get_elem? s.path index)) [
  | inl e ↦ ground (arith, e)
  | inr (n, e) ↦
      let small = get-below index n.v (ids s.path) (get-ids index s.path n e) in
      let room = st.room in let never : ⊥ = omega arith in elim never [ ]
]
search_from-some (suc fuel) g to index s tidy le st = elim (Option-cases (get_elem? s.path index)) [
  | inl e ↦ ground (arith, e)
  | inr (n, e) ↦ elim (Bool-cases (same_id g n.v to)) [
    | inl found ↦ ground (arith, e, found)
    | inr other_ ↦
        let here = get-ids index s.path n e in
        let i = All-at (λ u. In g.vertices u) (ids s.path) index n.v here st.known in
        let (s', eq, st') =
          visit_edges-Stays g to index n.v s (g.heap n.v).edges (tidy.no_loops n.v i)
            (tidy.inside n.v i) (st, here) in
        ground
          (arith, e, other_, eq, search_from-some fuel g to (suc index) s' tidy (omega arith) st'.0)
  ]
]

-- The search ends and gives a list, where it starts at a vertex of the graph and the edges of the
-- vertices of the graph lead to other vertices of the graph.
pub cross_vertex-some :
    (g : Graph) (from to : ℕ)
    → IsTidy g
    → In g.vertices from
    → is_some (cross_vertex g from to) ≡ true
unfolding cross_vertex
cross_vertex-some g from to tidy i =
    let less = unseen-less [] g.vertices from i refl in
    let most = unseen-bound [] g.vertices in
    let s =
      search_from-some (length g.vertices) g to 0 (start from) tidy (omega arith)
        (record { ranked = (tt, tt); aimed = tt; known = (i, tt); room = omega arith }) in
    elim (Option-cases (search_from (length g.vertices) g to 0 (start from))) [
      | inl e ↦ elim (is_some-none e s) [ ]
      | inr (t, e) ↦ ground (arith, e)
    ]
