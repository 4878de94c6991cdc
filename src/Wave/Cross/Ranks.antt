-- ===== src/Wave/Cross/Ranks.antt =====
-- In the tree every node hangs under an earlier one, so the way up to the root ends.
use Prim.{Unit, tt}
use map_based_relay.Prelude.{
  sym, subst, ℕ, zero, suc, ◌+◌, ◌-◌, ◌≤◌, ◌<◌, ◌≡◌, ◌≢◌, refl, inl, inr, List, [], ◌∷◌, ◌++◌,
  Option, none, some, true, arith, ◌==◌, leb, if◌then◌else◌, Option-cases, length, get_elem?,
  is_some,
}
use map_based_relay.Wave.Cross.{PathNode, find_vertex, climb, print_crossnode}

-- The parent, where there is one, stands before the position.
abbrev pub Before : Option ℕ → ℕ → Type 0
Before none k = Unit {0}
Before (some a) k = a < k

abbrev pub Ranked : ℕ → List PathNode → Type 0
Ranked k [] = Unit {0}
Ranked k (n ∷ ns) = Before n.ancest k × Ranked (suc k) ns

-- What `find_vertex` makes of the tree.
abbrev pub hung : List PathNode → Option (List PathNode) → List PathNode
hung ns none = ns
hung ns (some ns') = ns'

-- The same tree by plain recursion.
unfoldable pub rehang : (index v pos : ℕ) → List PathNode → List PathNode
rehang index v pos [] = []
rehang index v pos (n ∷ ns) =
    if n.v == v
    then (if leb index pos then record n { ancest = some index } else n) ∷ ns
    else n ∷ rehang index v (suc pos) ns

pub hung-find_vertex :
    (index v pos : ℕ) (ns : List PathNode)
    → hung ns (find_vertex index v pos ns) ≡ rehang index v pos ns
unfolding find_vertex rehang
hung-find_vertex index v pos [] = refl
hung-find_vertex index v pos (n ∷ ns) = ground (arith, hung-find_vertex index v (suc pos) ns)

later-get :
    (index pos : ℕ) (n : PathNode) (ns : List PathNode) (m : PathNode)
    → suc pos ≤ index
    → get_elem? ns (index - suc pos) ≡ some m
    → get_elem? (n ∷ ns) (index - pos) ≡ some m
later-get index pos n ns m le e =
    let eq : index - pos ≡ suc (index - suc pos) = omega arith in rw eq e

-- Only a node that is its own neighbour would be hung under itself.
pub rehang-Ranked :
    (index v pos : ℕ) (ns : List PathNode)
    → ((n : PathNode) → pos ≤ index → get_elem? ns (index - pos) ≡ some n → n.v ≢ v)
    → Ranked pos ns
    → Ranked pos (rehang index v pos ns)
unfolding rehang
rehang-Ranked index v pos [] h r = tt
rehang-Ranked index v pos (n ∷ ns) h r = ground (
  arith,
  h n,
  rehang-Ranked index v (suc pos) ns (λ m le e. h m (omega arith) (later-get index pos n ns m le e))
      r.1,
)

add-zero : (k : ℕ) → k + 0 ≡ k
add-zero k = omega arith

add-suc : (k l : ℕ) → k + suc l ≡ suc k + l
add-suc k l = omega arith

pub Ranked-concat :
    (k : ℕ) (ns : List PathNode) (n : PathNode)
    → Ranked k ns
    → Before n.ancest (k + length ns)
    → Ranked k (ns ++ n ∷ [])
Ranked-concat k [] n r b = (subst (Before n.ancest) (add-zero k) b, tt)
Ranked-concat k (m ∷ ns) n r b =
    (r.0, Ranked-concat (suc k) ns n r.1 (subst (Before n.ancest) (add-suc k (length ns)) b))

get-Ranked :
    (j k : ℕ) (ns : List PathNode) {n : PathNode}
    → get_elem? ns k ≡ some n
    → Ranked j ns
    → Before n.ancest (j + k)
get-Ranked j k [] e r = cc
get-Ranked j zero (m ∷ ns) {n} e r =
    let eq : m ≡ n = cc in
    subst (λ m. Before m.ancest (j + 0)) eq (subst (Before m.ancest) (sym (add-zero j)) r.0)
get-Ranked j (suc k) (m ∷ ns) {n} e r =
    subst (Before n.ancest) (sym (add-suc j k)) (get-Ranked (suc j) k ns e r.1)

add_zero_left : (k : ℕ) → 0 + k ≡ k
add_zero_left k = omega arith

pub get-Ranked_root :
    (k : ℕ) (ns : List PathNode) {n : PathNode}
    → get_elem? ns k ≡ some n
    → Ranked 0 ns
    → Before n.ancest k
get-Ranked_root k ns {n} e r = subst (Before n.ancest) (add_zero_left k) (get-Ranked 0 k ns e r)

pub get_below :
    (k : ℕ) (ns : List PathNode) → k < length ns → (n : PathNode) × (get_elem? ns k ≡ some n)
get_below k [] lt = elim lt [ ]
get_below zero (n ∷ ns) lt = (n, refl)
get_below (suc k) (n ∷ ns) lt = get_below k ns (omega arith)

-- The way up from a node with a position under the fuel ends at the root.
climb-some :
    (fuel : ℕ) (path : List PathNode) (n : PathNode) (second : ℕ) (ver : Option ℕ) (count k : ℕ)
    → Ranked 0 path
    → Before n.ancest k
    → k < fuel
    → k ≤ length path
    → is_some (climb fuel path n second ver count) ≡ true
unfolding climb
climb-some zero path n second ver count k r b lt le = elim lt [ ]
climb-some (suc fuel) path n second ver count k r b lt le = elim (Option-cases n.ancest) [
  | inl e ↦ ground (arith, e)
  | inr (a, e) ↦
      let b' : a < k = rw e at b in
      let (n', e') = get_below a path (omega arith) in
      ground (
        arith,
        e,
        e',
        climb-some fuel path n' n.road_id
            (if second == n.road_id then ver else if is_some ver then ver else some n.v)
            (if second == n.road_id then count else suc count) a r (get-Ranked_root a path e' r)
            (omega arith) (omega arith),
      )
]

pub print_crossnode-some :
    (path : List PathNode) (p : Option ℕ)
    → Ranked 0 path
    → Before p (length path)
    → is_some (print_crossnode path p) ≡ true
unfolding print_crossnode
print_crossnode-some path none r b = refl
print_crossnode-some path (some p) r b =
    let (n, e) = get_below p path b in
    elim (Option-cases n.ancest) [
      | inl root ↦ ground (arith, e, root)
      | inr (a, up) ↦
          let a<p : a < p = rw up at (get-Ranked_root p path e r) in
          let (n', e') = get_below a path (omega arith) in
          ground (
            arith,
            e,
            up,
            e',
            climb-some (length path) path n' n.road_id none 0 a r (get-Ranked_root a path e' r)
                (omega arith) (omega arith),
          )
    ]
