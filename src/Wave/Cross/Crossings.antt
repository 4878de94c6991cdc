-- ===== src/Wave/Cross/Crossings.antt =====
-- The list of the intersections names each one once.
use Prim.{Unit, tt}
use map_based_relay.Prelude.{
  OnSome, OnSome-bind, subst, All-append, none, ◌++◌, ◌≢◌, Option-cases, length, inr, [], some,
  Option, All, arith, false, inl, Bool-cases, ◌≡◌, List, ℕ, ◌∷◌, any_of, ◌==◌,
}
use map_based_relay.Wave.Graph.{Edge, Graph}
use map_based_relay.Wave.Cross.{
  Search, print_crossnode, find_vertexlist, visit, add_crossing, collect, search_from, start,
  cross_vertex,
}
use map_based_relay.Wave.Cross.Keeps.{visit_edges-keeps, search_from-keeps}

-- No vertex stands twice in the list.
abbrev IsOnce : List ℕ → Type 0
IsOnce [] = Unit {0}
IsOnce (v ∷ vs) = All (λ u. u ≢ v) vs × IsOnce vs

concat-IsOnce :
    (vs : List ℕ) (w : ℕ) → any_of (λ u. u == w) vs ≡ false → IsOnce vs → IsOnce (vs ++ w ∷ [])
concat-IsOnce [] w new o = (tt, tt)
concat-IsOnce (v ∷ vs) w new o = (
  All-append _ vs (w ∷ []) o.0 (ground (arith, new), tt),
  concat-IsOnce vs w (ground (arith, new)) o.1,
)

add_crossing-IsOnce : (list : List ℕ) (c : Option ℕ) → IsOnce list → IsOnce (add_crossing list c)
unfolding find_vertexlist
add_crossing-IsOnce list none o = o
add_crossing-IsOnce list (some v) o = elim (Bool-cases (find_vertexlist list v)) [
  | inl known ↦ rw known o
  | inr new ↦ rw new (concat-IsOnce list v new o)
]

visit-crossings :
    (g : Graph) (to index : ℕ) (s : Search) (e : Edge)
    → (visit g to index s e).crossings ≡ s.crossings
unfolding visit
visit-crossings g to index s e = ground arith

collect-IsOnce : (s : Search) → IsOnce s.crossings → OnSome (λ s. IsOnce s.crossings) (collect s)
unfolding collect
collect-IsOnce s o = elim (Bool-cases s.flag) [
  | inl on ↦ elim (Option-cases (print_crossnode s.path s.target)) [
    | inl e ↦ rw (on, e) tt
    | inr (c, e) ↦ rw (on, e) (add_crossing-IsOnce s.crossings c o)
  ]
  | inr off ↦ rw off o
]

all : (es : List Edge) → All (λ e. Unit {0}) es
all [] = tt
all (e ∷ es) = (tt, all es)

-- No intersection stands twice in the list.
cross_vertex-IsOnce :
    (g : Graph) (from to : ℕ) (list : List ℕ) → cross_vertex g from to ≡ some list → IsOnce list
unfolding cross_vertex
cross_vertex-IsOnce g from to list e =
    let I : Search → Type 0 = λ s. IsOnce s.crossings in
    let w =
      search_from-keeps I g to
        (λ index s n e w.
          visit_edges-keeps I g to index s (g.heap n.v).edges (λ e. Unit {0})
            (λ s e p w. rw (visit-crossings g to index s e) w) collect-IsOnce
            (all (g.heap n.v).edges) w)
        (length g.vertices) 0 (start from) tt in
    let on : OnSome IsOnce (cross_vertex g from to) =
      OnSome-bind _ (search_from (length g.vertices) g to 0 (start from)) _ w (λ s w'. w') in
    subst (OnSome IsOnce) e on
