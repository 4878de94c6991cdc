-- ===== src/Wave/Locate/Inside.antt =====
-- The vertex that is found is one of the graph.
use Prim.{Unit, tt}
use map_based_relay.Prelude.{
  false, refl, All-mono, inr, true, if◌then◌else◌, subst, ltb, inl, [], inl, some, Bool-cases, All,
  Bool, Option, List, ◌≡◌, none, ℕ, ◌∷◌,
}
use map_based_relay.Doubles.{Double, Doubles, nine_nine_nine}
use map_based_relay.Wave.Graph.{Graph}
use map_based_relay.Wave.Cross.Ids.{In}
use map_based_relay.Wave.Locate.{
  get_distance, nearer, square_loop, find_vertex_by_square, Nearest, place, nearest_loop, nowhere,
  three_loop, find_vertex_by_vehicle_position, in_square,
}

abbrev Within : List ℕ → Option ℕ → Type 0
Within vs none = Unit {0}
Within vs (some v) = In vs v

pair_if-Within :
    (vs : List ℕ) (b : Bool) (v w : Double × Option ℕ)
    → Within vs v.1
    → Within vs w.1
    → Within vs (if b then v else w).1
pair_if-Within vs true v w hv hw = hv
pair_if-Within vs false v w hv hw = hw

module _ (f : Doubles) (g : Graph) (x y : Double) where
  nearer-Within :
      (vs : List ℕ) (p : ℕ) (best : Double × Option ℕ)
      → In vs p
      → Within vs best.1
      → Within vs (nearer f g x y p best).1
  unfolding nearer
  nearer-Within vs p best i w =
      elim (Bool-cases (f.lt (get_distance f (g.heap p).y (g.heap p).x y x) best.0)) [
        | inl h ↦ rw h i
        | inr h ↦ rw h w
      ]

  square_loop-Within :
      (vs ps : List ℕ) (best : Double × Option ℕ)
      → All (λ p. In vs p) ps
      → Within vs best.1
      → Within vs (square_loop f g x y ps best).1
  unfolding square_loop
  square_loop-Within vs [] best a w = w
  square_loop-Within vs (p ∷ ps) best a w = square_loop-Within vs ps _ a.1 (
      pair_if-Within vs (in_square f (g.heap p) x y) (nearer f g x y p best) best
        (nearer-Within vs p best a.0 w) w)

  three_loop-Within :
      (vs : List ℕ) (os : List (Option ℕ)) (best : Double × Option ℕ)
      → All (Within vs) os
      → Within vs best.1
      → Within vs (three_loop f g x y os best).1
  unfolding three_loop
  three_loop-Within vs [] best a w = w
  three_loop-Within vs (none ∷ os) best a w = w
  three_loop-Within vs (some p ∷ os) best a w =
      three_loop-Within vs os (nearer f g x y p best) a.1 (nearer-Within vs p best a.0 w)

abbrev AllWithin : List ℕ → Nearest → Type 0
AllWithin vs n = Within vs n.v0 × Within vs n.v1 × Within vs n.v2

place-Within :
    (vs : List ℕ) (temp p : ℕ) (n : Nearest)
    → In vs p
    → AllWithin vs n
    → AllWithin vs (place temp p n)
unfolding place
place-Within vs temp p n i w = elim (Bool-cases (ltb temp n.min1)) [
  | inl h ↦ rw h (i, w.0, w.1)
  | inr h ↦ elim (Bool-cases (ltb temp n.min2)) [
    | inl k ↦ rw (h, k) (w.0, i, w.1)
    | inr k ↦ elim (Bool-cases (ltb temp n.min3)) [
      | inl l ↦ rw (h, k, l) (w.0, w.1, i)
      | inr l ↦ rw (h, k, l) w
    ]
  ]
]

nearest_loop-Within :
    (g : Graph) (geo_hash : ℕ) (vs ps : List ℕ) (n : Nearest)
    → All (λ p. In vs p) ps
    → AllWithin vs n
    → AllWithin vs (nearest_loop g geo_hash ps n)
unfolding nearest_loop
nearest_loop-Within g geo_hash vs [] n a w = w
nearest_loop-Within g geo_hash vs (p ∷ ps) n a w =
    nearest_loop-Within g geo_hash vs ps _ a.1 (place-Within vs _ p n a.0 w)

all-In : (vs : List ℕ) → All (λ p. In vs p) vs
all-In [] = tt
all-In (v ∷ vs) = (inl refl, All-mono _ _ (λ u i. inr i) vs (all-In vs))

Within-if :
    (vs : List ℕ) (b : Bool) (v w : Option ℕ)
    → Within vs v
    → Within vs w
    → Within vs (if b then v else w)
Within-if vs true v w hv hw = hv
Within-if vs false v w hv hw = hw

found-Within :
    (f : Doubles) (g : Graph) (geo_hash : ℕ) (x y : Double)
    → Within g.vertices (find_vertex_by_vehicle_position f g geo_hash x y)
unfolding find_vertex_by_vehicle_position find_vertex_by_square
found-Within f g geo_hash x y =
    let a = all-In g.vertices in
    let n = nearest_loop g geo_hash g.vertices nowhere in
    let w = nearest_loop-Within g geo_hash g.vertices g.vertices nowhere a (tt, tt, tt) in
    Within-if g.vertices _ _ _
      (square_loop-Within f g x y g.vertices g.vertices (nine_nine_nine, none) a tt)
      (three_loop-Within f g x y g.vertices (n.v0 ∷ n.v1 ∷ n.v2 ∷ []) (nine_nine_nine, none)
        (w.0, (w.1, (w.2, tt))) tt)

-- The vertex that is found for a vehicle is one of the graph's vertices.
pub find_vertex_by_vehicle_position_inside :
    (f : Doubles) (g : Graph) (geo_hash : ℕ) (x y : Double) (v : ℕ)
    → find_vertex_by_vehicle_position f g geo_hash x y ≡ some v
    → In g.vertices v
find_vertex_by_vehicle_position_inside f g geo_hash x y v e =
    subst (Within g.vertices) e (found-Within f g geo_hash x y)
