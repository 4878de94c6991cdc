-- ===== src/Wave/Cross/Keeps.antt =====
-- What every visit and every collection keeps, the search keeps.
use Prim.{tt}
use map_based_relay.Prelude.{
  OnSome, OnSome-bind, zero, suc, suc, Bool-cases, inr, arith, inl, Option-cases, [], none, some,
  All, some, ◌≡◌, List, ℕ, ◌>>=◌, ◌∷◌, get_elem?,
}
use map_based_relay.Wave.Graph.{Edge, Graph}
use map_based_relay.Wave.Cross.{PathNode, Search, same_id, visit, collect, visit_edges, search_from}

module _ (I : Search → Type 0) (g : Graph) (to : ℕ) where
  pub visit_edges-keeps :
      (index : ℕ) (s : Search) (es : List Edge) (P : Edge → Type 0)
      → ((s : Search) (e : Edge) → P e → I s → I (visit g to index s e))
      → ((s : Search) → I s → OnSome I (collect s))
      → All P es
      → I s
      → OnSome I (visit_edges g to index s es)
  unfolding visit_edges
  visit_edges-keeps index s [] P visits collects a w = w
  visit_edges-keeps index s (e ∷ es) P visits collects a w =
      OnSome-bind _ (collect (visit g to index s e)) _
        (collects (visit g to index s e) (visits s e a.0 w))
        (λ s' w'. visit_edges-keeps index s' es P visits collects a.1 w')

  pub search_from-keeps :
      ((index : ℕ) (s : Search) (n : PathNode)
        → get_elem? s.path index ≡ some n
        → I s
        → OnSome I (visit_edges g to index s (g.heap n.v).edges))
      → (fuel index : ℕ) (s : Search) → I s
      → OnSome I (search_from fuel g to index s)
  unfolding search_from
  search_from-keeps rounds zero index s w = elim (Option-cases (get_elem? s.path index)) [
    | inl e ↦ let eq : search_from zero g to index s ≡ some s = ground (arith, e) in rw eq w
    | inr (n, e) ↦ elim (Bool-cases (same_id g n.v to)) [
      | inl found ↦
          let eq : search_from zero g to index s ≡ some s = ground (arith, e, found) in rw eq w
      | inr other ↦
          let eq : search_from zero g to index s ≡ none = ground (arith, e, other) in rw eq tt
    ]
  ]
  search_from-keeps rounds (suc fuel) index s w = elim (Option-cases (get_elem? s.path index)) [
    | inl e ↦ let eq : search_from (suc fuel) g to index s ≡ some s = ground (arith, e) in rw eq w
    | inr (n, e) ↦ elim (Bool-cases (same_id g n.v to)) [
      | inl found ↦
          let eq : search_from (suc fuel) g to index s ≡ some s = ground (arith, e, found) in
          rw eq w
      | inr other ↦
          let edges = (g.heap n.v).edges in
          let eq : search_from (suc fuel) g to index s
              ≡ (visit_edges g to index s edges >>= search_from fuel g to (suc index)) =
            ground (arith, e, other) in
          rw eq (
            OnSome-bind _ (visit_edges g to index s edges) _ (rounds index s n e w)
              (λ s' w'. search_from-keeps rounds fuel (suc index) s' w'))
    ]
  ]
