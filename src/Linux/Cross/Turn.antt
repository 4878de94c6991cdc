-- ===== src/Linux/Cross/Turn.antt =====
-- The intersection is a vertex on a way to the target at which the road changes.
use Prim.{tt}
use map_based_relay.Prelude.{
  ℕ, zero, suc, List, [], ◌∷◌, ◌++◌, Option, none, some, true, ◌≡◌, ◌≢◌, ◌⊎◌, inl, inr, Any,
  ==_cases, length, get_elem?, arith, refl, subst, sym, Option-cases, Bool-cases, OnSome, Any-mono,
  All, All-mono, ap, ◌>>=◌, ◌∙◌,
}
use map_based_relay.Wave.Graph.{Graph, Edge}
use map_based_relay.Wave.Cross.{PathNode, same_id}
use map_based_relay.Wave.Cross.Reachability.{Reach, there, along}
use map_based_relay.Linux.Cross.{
  find_vertex, turn_loop, print_crossnode, visit_edges, search_from, root, cross_vertex, crossnode,
}

-- The graph has an edge of the road from `p` to `q`.
abbrev pub Link : Graph → (road p q : ℕ) → Type 0
Link g road p q = Any (λ e. (e.vertex ≡ q) × (e.road_id ≡ road)) (g.heap p).edges

-- A way of one edge or more, all of one road.
pub data Straight (g : Graph) (road : ℕ) : ℕ → ℕ → Type 0 where
  one_edge : {p q : ℕ} → Link g road p q → Straight g road p q
  before : {p q r : ℕ} → Link g road p q → Straight g road q r → Straight g road p r

pub record IsTurn (g : Graph) (from to v : ℕ) : Type 0 where
  pub entry : ℕ
  pub end : ℕ
  pub road : ℕ
  pub new_road : ℕ
  pub reached : Reach g from entry
  pub link : Link g road entry v
  pub turns : new_road ≢ road
  pub straight : Straight g new_road v end
  pub arrives : same_id g end to ≡ true

abbrev Hangs : Graph → List PathNode → PathNode → Type 0
Hangs g path n =
    (a : ℕ) × (q : PathNode) × (n.ancest ≡ some a)
    × (get_elem? path a ≡ some q)
    × Link g n.road_id q.v n.v

abbrev At : List PathNode → PathNode → Type 0
At path n = (k : ℕ) × (get_elem? path k ≡ some n)

-- Each node is reached, and is the root or hangs by an edge of the graph under a node of the tree.
abbrev IsTree : Graph → (from : ℕ) → List PathNode → Type 0
IsTree g from path =
    (n : PathNode) → At path n → Reach g from n.v × ((n.ancest ≡ none) ⊎ Hangs g path n)

get-append_keep :
    (k : ℕ) (path : List PathNode) (n t : PathNode)
    → get_elem? path k ≡ some n
    → get_elem? (path ++ t ∷ []) k ≡ some n
get-append_keep k [] n t e = cc
get-append_keep zero (m ∷ path) n t e = e
get-append_keep (suc k) (m ∷ path) n t e = get-append_keep k path n t e

get-append_last :
    (path : List PathNode) (t : PathNode) → get_elem? (path ++ t ∷ []) (length path) ≡ some t
get-append_last [] t = refl
get-append_last (m ∷ path) t = get-append_last path t

get-append_cases :
    (k : ℕ) (path : List PathNode) (n t : PathNode)
    → get_elem? (path ++ t ∷ []) k ≡ some n
    → (get_elem? path k ≡ some n) ⊎ (t ≡ n)
get-append_cases zero [] n t e = inr cc
get-append_cases (suc k) [] n t e = cc
get-append_cases zero (m ∷ path) n t e = inl e
get-append_cases (suc k) (m ∷ path) n t e = get-append_cases k path n t e

Hangs-append :
    (g : Graph) (path : List PathNode) (n t : PathNode)
    → Hangs g path n
    → Hangs g (path ++ t ∷ []) n
Hangs-append g path n t (a, q, up, e, l) = (a, q, up, get-append_keep a path q t e, l)

append-IsTree :
    (g : Graph) (from : ℕ) (path : List PathNode) (t : PathNode)
    → Reach g from t.v
    → Hangs g path t
    → IsTree g from path
    → IsTree g from (path ++ t ∷ [])
append-IsTree g from path t r h w n (k, e) = elim (get-append_cases k path n t e) [
  | inl old ↦
      let (r', h') = w n (k, old) in
      elim h' [ inl top ↦ (r', inl top) | inr under ↦ (r', inr (Hangs-append g path n t under)) ]
  | inr new ↦
      subst (λ n. Reach g from n.v × ((n.ancest ≡ none) ⊎ Hangs g (path ++ t ∷ []) n)) new
        (r, inr (Hangs-append g path t t h))
]

abbrev Found : Graph → (from to : ℕ) → List PathNode × Option PathNode → Type 0
Found g from to r = IsTree g from r.0 × OnSome (λ t. At r.0 t × (same_id g t.v to ≡ true)) r.1

Any-Link :
    (g : Graph) (p : ℕ) (e : Edge) → Any (λ d. d ≡ e) (g.heap p).edges → Link g e.road_id p e.vertex
Any-Link g p e i =
    Any-mono (λ d. d ≡ e) (λ d. (d.vertex ≡ e.vertex) × (d.road_id ≡ e.road_id))
      (λ d eq. (ap (λ d. d.vertex) eq, ap (λ d. d.road_id) eq)) (g.heap p).edges i

Reach-Link : (g : Graph) (from road p q : ℕ) → Link g road p q → Reach g from p → Reach g from q
Reach-Link g from road p q l r =
    along (Any-mono _ (λ d. d.vertex ≡ q) (λ d both. both.0) (g.heap p).edges l) r

visit_edges-Found :
    (g : Graph) (from to index : ℕ) (path : List PathNode) (n : PathNode) (es : List Edge)
    → get_elem? path index ≡ some n
    → Reach g from n.v
    → All (λ e. Any (λ d. d ≡ e) (g.heap n.v).edges) es
    → IsTree g from path
    → Found g from to (visit_edges g to index path es)
unfolding visit_edges
visit_edges-Found g from to index path n [] here r a w = (w, tt)
visit_edges-Found g from to index path n (e ∷ es) here r a w =
    let t : PathNode = record { v = e.vertex; ancest = some index; road_id = e.road_id } in
    let l = Any-Link g n.v e a.0 in
    let w' =
      append-IsTree g from path t (Reach-Link g from e.road_id n.v e.vertex l r)
        (index, n, refl, here, l) w in
    elim (Bool-cases (find_vertex path e.vertex)) [
      | inl old ↦ rw old (visit_edges-Found g from to index path n es here r a.1 w)
      | inr new ↦ elim (Bool-cases (same_id g e.vertex to)) [
        | inl found ↦ rw (new, found) (w', ((length path, get-append_last path t), found))
        | inr other ↦
            rw (new, other)
              (visit_edges-Found g from to index (path ++ t ∷ []) n es
                (get-append_keep index path n t here) r a.1 w')
      ]
    ]

all_in : (es : List Edge) → All (λ e. Any (λ d. d ≡ e) es) es
all_in [] = tt
all_in (e ∷ es) = (inl refl, All-mono _ _ (λ d i. inr i) es (all_in es))

search_from-Found :
    (fuel : ℕ) (g : Graph) (from to index : ℕ) (path : List PathNode)
    → IsTree g from path
    → OnSome (Found g from to) (search_from fuel g to index path)
unfolding search_from
search_from-Found zero g from to index path w = elim (Option-cases (get_elem? path index)) [
  | inl e ↦ rw (e, search_from) (w, tt)
  | inr (n, e) ↦ rw (e, search_from) tt
]
search_from-Found (suc fuel) g from to index path w = elim (Option-cases (get_elem? path index)) [
  | inl e ↦ rw (e, search_from) (w, tt)
  | inr (n, e) ↦
      let edges = (g.heap n.v).edges in
      let found =
        visit_edges-Found g from to index path n edges e (w n (index, e)).0 (all_in edges) w in
      elim (Option-cases (visit_edges g to index path edges).1) [
        | inl on ↦
            rw (e, search_from) (rw on (search_from-Found fuel g from to (suc index) _ found.0))
        | inr (t, at) ↦ rw (e, search_from) (rw at found)
      ]
]

module _ (fuel : ℕ) (path : List PathNode) (p : PathNode) (first : ℕ) where
  turn_loop-top : p.ancest ≡ none → turn_loop (suc fuel) path p first ≡ some none
  unfolding turn_loop
  turn_loop-top top = ground (arith, top)

  turn_loop-straight :
      (a : ℕ) (q : PathNode)
      → p.ancest ≡ some a
      → get_elem? path a ≡ some q
      → first ≡ p.road_id
      → turn_loop (suc fuel) path p first ≡ turn_loop fuel path q p.road_id
  unfolding turn_loop
  turn_loop-straight a q up hit straight = ground (arith, up, hit, straight)

  turn_loop-turn :
      (a : ℕ)
      → p.ancest ≡ some a
      → first ≢ p.road_id
      → turn_loop (suc fuel) path p first ≡ some (some p.v)
  unfolding turn_loop
  turn_loop-turn a up turn = ground (arith, up, turn)

some-injective : {A : Type 0} {a b : A} → some a ≡ some b → a ≡ b
some-injective e = cc

never_some : {A B : Type 0} {o : Option A} {a : A} → o ≡ none → o ≡ some a → B
never_some e f = cc

-- From a node on, below which the way to the target is of one road.
turn_loop-IsTurn :
    (fuel : ℕ) (g : Graph) (from to : ℕ) (path : List PathNode) (p : PathNode) (first v w : ℕ)
    → IsTree g from path
    → At path p
    → Straight g first p.v w
    → same_id g w to ≡ true
    → turn_loop fuel path p first ≡ some (some v)
    → IsTurn g from to v
unfolding turn_loop
turn_loop-IsTurn zero g from to path p first v w tree at s same e = never_some refl e
turn_loop-IsTurn (suc fuel) g from to path p first v w tree at s same e = elim (tree p at).1 [
  | inl top ↦ never_some refl (some-injective (sym (turn_loop-top fuel path p first top) ∙ e))
  | inr (a, q, up, hit, l) ↦ elim (==_cases first p.road_id) [
    | inl straight ↦
        turn_loop-IsTurn fuel g from to path q p.road_id v w tree (a, hit)
          (before l (subst (λ r. Straight g r p.v w) straight s)) same
          (sym (turn_loop-straight fuel path p first a q up hit straight) ∙ e)
    | inr turn ↦
        let here : p.v ≡ v =
          some-injective (some-injective (sym (turn_loop-turn fuel path p first a up turn) ∙ e)) in
        subst (IsTurn g from to) here (record {
          entry = q.v;
          end = w;
          road = p.road_id;
          new_road = first;
          reached = (tree q (a, hit)).0;
          link = l;
          turns = turn;
          straight = s;
          arrives = same;
        })
  ]
]

module _ (path : List PathNode) (t : PathNode) where
  print_crossnode-top : t.ancest ≡ none → print_crossnode path t ≡ none
  unfolding print_crossnode
  print_crossnode-top top = ground (arith, top)

  print_crossnode-under :
      (a : ℕ) (q : PathNode)
      → t.ancest ≡ some a
      → get_elem? path a ≡ some q
      → print_crossnode path t ≡ turn_loop (length path) path q t.road_id
  unfolding print_crossnode
  print_crossnode-under a q up hit = ground (arith, up, hit)

print_crossnode-IsTurn :
    (g : Graph) (from to : ℕ) (path : List PathNode) (t : PathNode) (v : ℕ)
    → IsTree g from path
    → At path t
    → same_id g t.v to ≡ true
    → print_crossnode path t ≡ some (some v)
    → IsTurn g from to v
print_crossnode-IsTurn g from to path t v tree at same e = elim (tree t at).1 [
  | inl top ↦ never_some (print_crossnode-top path t top) e
  | inr (a, q, up, hit, l) ↦
      turn_loop-IsTurn (length path) g from to path q t.road_id v t.v tree (a, hit) (one_edge l)
        same (sym (print_crossnode-under path t a q up hit) ∙ e)
]

crossnode-IsTurn :
    (g : Graph) (from to v : ℕ) (r : List PathNode × Option PathNode)
    → Found g from to r
    → crossnode r ≡ some (some v)
    → IsTurn g from to v
crossnode-IsTurn g from to v (path, none) f e = never_some refl (some-injective e)
crossnode-IsTurn g from to v (path, some t) (tree, (at, same)) e =
    print_crossnode-IsTurn g from to path t v tree at same e

root-IsTree : (g : Graph) (from : ℕ) → IsTree g from (root from ∷ [])
root-IsTree g from n (zero, e) =
    let eq : root from ≡ n = some-injective e in
    subst (λ n. Reach g from n.v × ((n.ancest ≡ none) ⊎ Hangs g (root from ∷ []) n)) eq
      (there, inl refl)
root-IsTree g from n (suc k, e) = never_some refl e

-- An intersection that is found is a vertex in the midst of a way along edges of the graph, from the
-- start to a vertex with the target's id: the road changes at it, and does not change after it.
pub cross_vertex-IsTurn :
    (g : Graph) (from to v : ℕ) → cross_vertex g from to ≡ some (some v) → IsTurn g from to v
unfolding cross_vertex
cross_vertex-IsTurn g from to v e =
    let found =
      search_from-Found (length g.vertices) g from to 0 (root from ∷ []) (root-IsTree g from) in
    elim (Option-cases (search_from (length g.vertices) g to 0 (root from ∷ []))) [
      | inl miss ↦ never_some (ap (λ o. o >>= crossnode) miss) e
      | inr (r, hit) ↦
          crossnode-IsTurn g from to v r (subst (OnSome (Found g from to)) hit found)
            (sym (ap (λ o. o >>= crossnode) hit) ∙ e)
    ]
