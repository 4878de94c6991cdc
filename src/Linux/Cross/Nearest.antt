-- ===== src/Linux/Cross/Nearest.antt =====
-- The vertex that stands for a place is the one with the nearest block number.
use Prim.{tt}
use map_based_relay.Prelude.{
  ℕ, ◌≤◌, ◌<◌, List, [], ◌∷◌, Option, none, some, ◌≡◌, inl, inr, All, ltb, arith, refl, Bool-cases,
  Option-cases, subst,
}
use map_based_relay.Wave.Graph.{Graph}
use map_based_relay.Wave.Cross.Ids.{In}
use map_based_relay.Linux.Cross.{
  geohash_compare, uint64_max, nearest_loop, find_vertex_by_vehicle_position,
}

-- How far the block of a vertex is, as a number.
abbrev pub gap : Graph → (geo_hash p : ℕ) → ℕ
gap g geo_hash p = geohash_compare (g.heap p).geo_hash geo_hash

-- The nearest of the vertices; none of them is near enough where there is none.
abbrev pub IsNearest : Graph → (geo_hash : ℕ) → List ℕ → Option ℕ → Type 0
IsNearest g geo_hash vs none = All (λ q. uint64_max ≤ gap g geo_hash q) vs
IsNearest g geo_hash vs (some p) =
    In vs p × (gap g geo_hash p < uint64_max) × All (λ q. gap g geo_hash p ≤ gap g geo_hash q) vs

module _ (g : Graph) (geo_hash : ℕ) where
  nearer-IsNearest :
      (u v : ℕ) (vs : List ℕ) (r : Option ℕ)
      → gap g geo_hash v < gap g geo_hash u
      → IsNearest g geo_hash (v ∷ vs) r
      → IsNearest g geo_hash (u ∷ v ∷ vs) r
  nearer-IsNearest u v vs none lt n = let far = n.0 in (omega arith, n)
  nearer-IsNearest u v vs (some p) lt n = let near = n.2.0 in (inr n.0, n.1, (omega arith, n.2))

  farther-IsNearest :
      (u v : ℕ) (vs : List ℕ) (r : Option ℕ)
      → gap g geo_hash u ≤ gap g geo_hash v
      → IsNearest g geo_hash (u ∷ vs) r
      → IsNearest g geo_hash (u ∷ v ∷ vs) r
  farther-IsNearest u v vs none le n = let far = n.0 in (n.0, (omega arith, n.1))
  farther-IsNearest u v vs (some p) le (i, lt, (near, rest)) = elim i [
    | inl here ↦ (inl here, lt, (near, (omega arith, rest)))
    | inr there ↦ (inr (inr there), lt, (near, (omega arith, rest)))
  ]

  far-IsNearest :
      (v : ℕ) (vs : List ℕ) (r : Option ℕ)
      → uint64_max ≤ gap g geo_hash v
      → IsNearest g geo_hash vs r
      → IsNearest g geo_hash (v ∷ vs) r
  far-IsNearest v vs none le n = (le, n)
  far-IsNearest v vs (some p) le (i, lt, rest) = (inr i, lt, (omega arith, rest))

  -- With a candidate.
  nearest_loop-some :
      (u : ℕ) (vs : List ℕ)
      → gap g geo_hash u < uint64_max
      → IsNearest g geo_hash (u ∷ vs) (nearest_loop g geo_hash (gap g geo_hash u) (some u) vs)
  unfolding nearest_loop
  nearest_loop-some u [] lt = (inl refl, lt, (omega arith, tt))
  nearest_loop-some u (v ∷ vs) lt = elim (Bool-cases (ltb (gap g geo_hash v) (gap g geo_hash u))) [
    | inl less ↦ rw less (
        nearer-IsNearest u v vs _ (ground (arith, less))
          (nearest_loop-some v vs (ground (arith, less, lt))))
    | inr more ↦
        rw more (farther-IsNearest u v vs _ (ground (arith, more)) (nearest_loop-some u vs lt))
  ]

  nearest_loop-none :
      (vs : List ℕ) → IsNearest g geo_hash vs (nearest_loop g geo_hash uint64_max none vs)
  unfolding nearest_loop
  nearest_loop-none [] = tt
  nearest_loop-none (v ∷ vs) = elim (Bool-cases (ltb (gap g geo_hash v) uint64_max)) [
    | inl less ↦ rw less (nearest_loop-some v vs (ground (arith, less)))
    | inr more ↦ rw more (far-IsNearest v vs _ (ground (arith, more)) (nearest_loop-none vs))
  ]

-- The vertex that is found is one of the graph's, and no vertex of the graph has a block number that
-- is nearer to the given one. Where none is found, every vertex is 2^64 - 1 or more away.
pub find_vertex_by_vehicle_position-IsNearest :
    (g : Graph) (geo_hash : ℕ)
    → IsNearest g geo_hash g.vertices (find_vertex_by_vehicle_position g geo_hash)
unfolding find_vertex_by_vehicle_position
find_vertex_by_vehicle_position-IsNearest g geo_hash = nearest_loop-none g geo_hash g.vertices

far_from :
    (g : Graph) (geo_hash p : ℕ) (vs : List ℕ)
    → In vs p
    → All (λ q. uint64_max ≤ gap g geo_hash q) vs
    → uint64_max ≤ gap g geo_hash p
far_from g geo_hash p [] i a = elim i [ ]
far_from g geo_hash p (v ∷ vs) (inl e) a = subst (λ q. uint64_max ≤ gap g geo_hash q) e a.0
far_from g geo_hash p (v ∷ vs) (inr i) a = far_from g geo_hash p vs i a.1

-- Where a vertex is less than 2^64 - 1 away, one is found.
pub find_vertex-found :
    (g : Graph) (geo_hash p : ℕ)
    → In g.vertices p
    → gap g geo_hash p < uint64_max
    → (q : ℕ) × (find_vertex_by_vehicle_position g geo_hash ≡ some q) × In g.vertices q
find_vertex-found g geo_hash p i lt =
    let n = find_vertex_by_vehicle_position-IsNearest g geo_hash in
    elim (Option-cases (find_vertex_by_vehicle_position g geo_hash)) [
      | inl e ↦
          let far =
            far_from g geo_hash p g.vertices i (subst (IsNearest g geo_hash g.vertices) e n) in
          let never : ⊥ = omega arith in elim never [ ]
      | inr (q, e) ↦ (q, e, (subst (IsNearest g geo_hash g.vertices) e n).0)
    ]
