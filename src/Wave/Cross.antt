-- ===== src/Wave/Cross.antt =====
-- NS3/wave/model/graph.cc: `cross_vertex`, the breadth-first search for the intersections on the way
-- between two vertices, with `find_vertex`, `print_crossnode` and `find_vertexlist`. The linked list
-- of `path` nodes is a list; a `path *` is a position in it, and the queue's front is `index`.
-- `none` stands for a read through a dangling pointer, or for a loop that has used up its fuel.
pub mod Ranks
pub mod Ids
pub mod Keeps
pub mod Termination
pub mod Reachability
pub mod Crossings
pub mod Turn
mod Tests
use map_based_relay.Prelude.{
  ◌||◌, ℕ, zero, suc, ◌+◌, List, [], ◌∷◌, ◌++◌, Option, none, some, Bool, true, false, not, ◌&&◌,
  ◌==◌, leb, if◌then◌else◌, length, get_elem?, any_of, is_some, ◌>>=◌,
}
use map_based_relay.Wave.Graph.{Edge, Graph, str_eq}

-- `road_id` is that of the edge `e`; the root has none, and its road is never read.
pub record PathNode : Type 0 where
  pub v : ℕ
  pub ancest : Option ℕ
  pub road_id : ℕ

-- Whether a vertex is in the tree. A node that stands at or behind `index` in the queue is hung under
-- `index`; its edge stays the one by which it was found.
unfoldable pub find_vertex : (index v pos : ℕ) → List PathNode → Option (List PathNode)
find_vertex index v pos [] = none
find_vertex index v pos (n ∷ ns) =
    if n.v == v
    then some ((if leb index pos then record n { ancest = some index } else n) ∷ ns)
    else elim (find_vertex index v (suc pos) ns) [ none ↦ none | some ns' ↦ some (n ∷ ns') ]

-- The loop of `print_crossnode` from the node `n` on: the first vertex at which the road changes, and
-- how often it changes.
unfoldable pub climb :
    (fuel : ℕ)
    → List PathNode
    → PathNode
    → (second : ℕ) → (ver : Option ℕ) → (count : ℕ) → Option (Option ℕ × ℕ)
climb zero path n second ver count = none
climb (suc fuel) path n second ver count = elim n.ancest [
  | none ↦ some (ver, count)
  | some a ↦ elim (get_elem? path a) [
    | none ↦ none
    | some n' ↦
        climb fuel path n' n.road_id
          (if second == n.road_id then ver else if is_some ver then ver else some n.v)
          (if second == n.road_id then count else suc count)
  ]
]

-- The vertex at which the road changes, where it changes once on the way up from `p`.
unfoldable pub print_crossnode : List PathNode → (p : Option ℕ) → Option (Option ℕ)
print_crossnode path none = some none
print_crossnode path (some p) = do
  n ← get_elem? path p
  elim n.ancest [
    | none ↦ some none
    | some a ↦ (do
      n' ← get_elem? path a
      r ← climb (length path) path n' n.road_id none 0
      some (if r.1 == 1 then r.0 else none))
  ]

unfoldable pub find_vertexlist : List ℕ → (v : ℕ) → Bool
find_vertexlist list v = any_of (λ u. u == v) list

pub record Search : Type 0 where
  pub path : List PathNode
  pub target : Option ℕ
  pub flag : Bool
  pub crossings : List ℕ

abbrev pub same_id : Graph → (u v : ℕ) → Bool
same_id g u v = str_eq (g.heap u).id_str (g.heap v).id_str

-- The end of an edge is looked up, and added to the tree where it is new.
unfoldable pub visit : Graph → (to index : ℕ) → Search → Edge → Search
visit g to index s e = elim (find_vertex index e.vertex 0 s.path) [
  | some path ↦ record s { path = path; flag = s.flag || is_some s.target && same_id g e.vertex to }
  | none ↦
      let node : PathNode = record { v = e.vertex; ancest = some index; road_id = e.road_id } in
      let found = same_id g e.vertex to in
      record s {
        path = s.path ++ node ∷ [];
        flag = s.flag || found;
        target = if found then some (length s.path) else s.target;
      }
]

abbrev add_crossing : List ℕ → Option ℕ → List ℕ
add_crossing list none = list
add_crossing list (some v) = if find_vertexlist list v then list else list ++ v ∷ []

-- Once the target has been reached, each further edge gives a chance of a crossing.
unfoldable pub collect : Search → Option Search
collect s =
    if s.flag
    then (do
      v ← print_crossnode s.path s.target
      some (record s { crossings = add_crossing s.crossings v }))
    else some s

unfoldable pub visit_edges : Graph → (to index : ℕ) → Search → List Edge → Option Search
visit_edges g to index s [] = some s
visit_edges g to index s (e ∷ es) = do
  s' ← collect (visit g to index s e)
  visit_edges g to index s' es

unfoldable pub search_from : (fuel : ℕ) → Graph → (to index : ℕ) → Search → Option Search
search_from zero g to index s = elim (get_elem? s.path index) [
  | none ↦ some s
  | some n ↦ if same_id g n.v to then some s else none
]
search_from (suc fuel) g to index s = elim (get_elem? s.path index) [
  | none ↦ some s
  | some n ↦ elim (same_id g n.v to) [
    | true ↦ some s
    | false ↦ visit_edges g to index s (g.heap n.v).edges >>= search_from fuel g to (suc index)
  ]
]

abbrev pub start : (from : ℕ) → Search
start from = record {
  path = record { v = from; ancest = none; road_id = 0 } ∷ [];
  target = none;
  flag = false;
  crossings = [];
}

-- The list of the intersections. The fuel is one round for each vertex of the graph.
unfoldable pub cross_vertex : Graph → (from to : ℕ) → Option (List ℕ)
cross_vertex g from to = do
  s ← search_from (length g.vertices) g to 0 (start from)
  some s.crossings
