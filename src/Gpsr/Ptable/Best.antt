-- ===== src/Gpsr/Ptable/Best.antt =====
-- The greedy choice of the next hop.
use Prim.{tt}
use map_based_relay.Prelude.{
  All-mono, Any-mono, arith, subst, sym, if◌then◌else◌, inr, inr, Bool-cases, true, Bool, refl, inl,
  [], All, ◌⊎◌, false, Any, ◌≡◌, List, ℕ, ◌∷◌,
}
use map_based_relay.Doubles.{Double, Doubles, IsOrdered}
use map_based_relay.Mbr.Neighbors.{Vector, NodeList}
use map_based_relay.Gpsr.Ptable.{
  purge, greedy, PositionTable, candidates, closest, best_neighbor, zero_address,
}

module _ (f : Doubles) (dist : Vector → Double) where
  -- One of the nodes, and none of them is closer.
  abbrev pub IsClosest : (r : ℕ) → (d : Double) → List (ℕ × Vector) → Type 0
  IsClosest r d ps =
      Any (λ p. (p.0 ≡ r) × (dist p.1 ≡ d)) ps × All (λ p. f.lt (dist p.1) d ≡ false) ps

  closest-nearer :
      (best : ℕ) (d : Double) (p : ℕ × Vector) (ps : List (ℕ × Vector))
      → f.lt (dist p.1) d ≡ true
      → closest f dist best d (p ∷ ps) ≡ closest f dist p.0 (dist p.1) ps
  unfolding closest
  closest-nearer best d p ps h = rw h refl

  closest-further :
      (best : ℕ) (d : Double) (p : ℕ × Vector) (ps : List (ℕ × Vector))
      → f.lt (dist p.1) d ≡ false
      → closest f dist best d (p ∷ ps) ≡ closest f dist best d ps
  unfolding closest
  closest-further best d p ps h = rw h refl

  closest-nil : (best : ℕ) (d : Double) → closest f dist best d [] ≡ (best, d)
  unfolding closest
  closest-nil best d = refl

  -- What the loop finds is not further than `d` and than any of the nodes.
  IsLow : (d rd : Double) → List (ℕ × Vector) → Type 0
  IsLow d rd ps = (f.lt d rd ≡ false) × All (λ p. f.lt (dist p.1) rd ≡ false) ps

  closest-IsLow :
      IsOrdered f
      → (best : ℕ) → (d : Double) → (ps : List (ℕ × Vector))
      → IsLow d (closest f dist best d ps).1 ps
  unfolding IsLow
  closest-IsLow o best d [] = rw (closest-nil best d) (o.irrefl d, tt)
  closest-IsLow o best d (p ∷ ps) = elim (Bool-cases (f.lt (dist p.1) d)) [
    | inl h ↦
        let (low, all) = closest-IsLow o p.0 (dist p.1) ps in
        subst (λ r. IsLow d r.1 (p ∷ ps)) (sym (closest-nearer best d p ps h))
          (o.not_lt_trans _ (dist p.1) d low (o.asym (dist p.1) d h), (low, all))
    | inr h ↦
        let (low, all) = closest-IsLow o best d ps in
        subst (λ r. IsLow d r.1 (p ∷ ps)) (sym (closest-further best d p ps h))
          (low, (o.not_lt_trans _ d (dist p.1) low h, all))
  ]

  IsOne : (best : ℕ) → (d : Double) → (r : ℕ × Double) → List (ℕ × Vector) → Type 0
  IsOne best d r ps = ((r.0 ≡ best) × (r.1 ≡ d)) ⊎ Any (λ p. (p.0 ≡ r.0) × (dist p.1 ≡ r.1)) ps

  IsOne-nearer :
      (best : ℕ) (d : Double) (p : ℕ × Vector) (ps : List (ℕ × Vector)) (r : ℕ × Double)
      → IsOne p.0 (dist p.1) r ps
      → IsOne best d r (p ∷ ps)
  unfolding IsOne
  IsOne-nearer best d p ps r (inl e) = inr (inl (sym e.0, sym e.1))
  IsOne-nearer best d p ps r (inr a) = inr (inr a)

  IsOne-further :
      (best : ℕ) (d : Double) (p : ℕ × Vector) (ps : List (ℕ × Vector)) (r : ℕ × Double)
      → IsOne best d r ps
      → IsOne best d r (p ∷ ps)
  unfolding IsOne
  IsOne-further best d p ps r (inl e) = inl e
  IsOne-further best d p ps r (inr a) = inr (inr a)

  closest-IsOne :
      (best : ℕ)
      → (d : Double) → (ps : List (ℕ × Vector)) → IsOne best d (closest f dist best d ps) ps
  unfolding IsOne
  closest-IsOne best d [] = rw (closest-nil best d) (inl (refl, refl))
  closest-IsOne best d (p ∷ ps) = elim (Bool-cases (f.lt (dist p.1) d)) [
    | inl h ↦
        subst (λ r. IsOne best d r (p ∷ ps)) (sym (closest-nearer best d p ps h))
          (IsOne-nearer best d p ps (closest f dist p.0 (dist p.1) ps)
            (closest-IsOne p.0 (dist p.1) ps))
    | inr h ↦
        subst (λ r. IsOne best d r (p ∷ ps)) (sym (closest-further best d p ps h))
          (IsOne-further best d p ps (closest f dist best d ps) (closest-IsOne best d ps))
  ]

  IsOne-first :
      (p : ℕ × Vector) (ps : List (ℕ × Vector)) (r : ℕ × Double)
      → IsOne p.0 (dist p.1) r ps
      → Any (λ q. (q.0 ≡ r.0) × (dist q.1 ≡ r.1)) (p ∷ ps)
  unfolding IsOne
  IsOne-first p ps r (inl e) = inl (sym e.0, sym e.1)
  IsOne-first p ps r (inr a) = inr a

  IsOne-again :
      (p : ℕ × Vector) (ps : List (ℕ × Vector)) (r : ℕ × Double)
      → IsOne p.0 (dist p.1) r (p ∷ ps)
      → Any (λ q. (q.0 ≡ r.0) × (dist q.1 ≡ r.1)) (p ∷ ps)
  unfolding IsOne
  IsOne-again p ps r (inl e) = inl (sym e.0, sym e.1)
  IsOne-again p ps r (inr a) = a

  -- From the first of the nodes on, whether or not it is looked at twice.
  closest-IsClosest :
      IsOrdered f
      → (p : ℕ × Vector) → (ps : List (ℕ × Vector)) → (again : Bool)
      → IsClosest
          (closest f dist p.0 (dist p.1) (if again then ps else p ∷ ps)).0
          (closest f dist p.0 (dist p.1) (if again then ps else p ∷ ps)).1
          (p ∷ ps)
  unfolding IsLow IsOne
  closest-IsClosest o p ps true =
      (IsOne-first p ps _ (closest-IsOne p.0 (dist p.1) ps), closest-IsLow o p.0 (dist p.1) ps)
  closest-IsClosest o p ps false = (
    IsOne-again p ps _ (closest-IsOne p.0 (dist p.1) (p ∷ ps)),
    (closest-IsLow o p.0 (dist p.1) (p ∷ ps)).1,
  )

  -- The loop ends with what it began with, and no node is below that, or with a node below which no
  -- node is.
  pub closest-least :
      IsOrdered f
      → (best : ℕ) → (d : Double) → (ps : List (ℕ × Vector))
      → let r = (closest f dist best d ps).0 in
        ((r ≡ best) × All (λ p. f.lt (dist p.1) d ≡ false) ps)
        ⊎ Any (λ p. (p.0 ≡ r) × All (λ q. f.lt (dist q.1) (dist p.1) ≡ false) ps) ps
  unfolding IsLow IsOne
  closest-least o best d ps =
      let (low, all) = closest-IsLow o best d ps in
      elim (closest-IsOne best d ps) [
        | inl e ↦ inl (e.0, subst (λ x. All (λ p. f.lt (dist p.1) x ≡ false) ps) e.1 all)
        | inr a ↦ inr (
            Any-mono _ _
              (λ p e. (e.0, subst (λ x. All (λ q. f.lt (dist q.1) x ≡ false) ps) (sym e.1) all)) ps
              a)
      ]

-- The neighbour `r` is closer to the destination than the node, and none is closer than it.
abbrev pub IsGreedy :
    Doubles → (Vector → Double) → (initial : Double) → ℕ → List (ℕ × Vector) → Type 0
IsGreedy f dist initial r ps =
    Any
      (λ p.
        (p.0 ≡ r)
        × (f.lt (dist p.1) initial ≡ true)
        × All (λ q. f.lt (dist q.1) (dist p.1) ≡ false) ps)
      ps

-- The choice, or the lack of one.
abbrev pub IsChoice :
    Doubles → (Vector → Double) → (initial : Double) → ℕ → List (ℕ × Vector) → Type 0
IsChoice f dist initial r ps =
    IsGreedy f dist initial r ps
    ⊎ ((r ≡ zero_address) × All (λ p. f.lt (dist p.1) initial ≡ false) ps)

greedy-IsChoice :
    (f : Doubles) (dist : Vector → Double) (initial : Double) (skip : Bool) (ps : List (ℕ × Vector))
    → IsOrdered f
    → IsChoice f dist initial (greedy f dist initial skip ps) ps
unfolding greedy
greedy-IsChoice f dist initial skip [] o = inr (refl, tt)
greedy-IsChoice f dist initial skip (p ∷ ps) o =
    let r = closest f dist p.0 (dist p.1) (if skip then ps else p ∷ ps) in
    let (one, low) = closest-IsClosest f dist o p ps skip in
    elim (Bool-cases (f.lt r.1 initial)) [
      | inl h ↦
          let eq : greedy f dist initial skip (p ∷ ps) ≡ r.0 = ground (arith, h) in
          subst (λ x. IsChoice f dist initial x (p ∷ ps)) (sym eq)
            (inl (
              Any-mono _ _
                (λ q e. (
                  e.0,
                  rw e.1 h,
                  subst (λ d. All (λ q. f.lt (dist q.1) d ≡ false) (p ∷ ps)) (sym e.1) low,
                ))
                (p ∷ ps) one))
      | inr h ↦
          let eq : greedy f dist initial skip (p ∷ ps) ≡ zero_address = ground (arith, h) in
          subst (λ x. IsChoice f dist initial x (p ∷ ps)) (sym eq)
            (inr
              (refl, All-mono _ _ (λ q l. o.not_lt_trans initial r.1 (dist q.1) h l) (p ∷ ps) low))
    ]

-- BestNeighbor gives a neighbour that is strictly closer to the destination than the node and than
-- which no neighbour is closer; or it gives the zero address, and no neighbour is closer than the
-- node. The neighbours are those of the table that it leaves, and the doubles are ordered by `<`.
pub best_neighbor-IsChoice :
    (f : Doubles) (distance : Vector → Vector → Double) (nodes : NodeList) (now : ℕ)
    (s : PositionTable) (position node_pos : Vector)
    → IsOrdered f
    → IsChoice f
        (λ p. distance p position)
        (distance node_pos position)
        (best_neighbor f distance nodes now s position node_pos).1
        (candidates nodes (best_neighbor f distance nodes now s position node_pos).0)
unfolding best_neighbor
best_neighbor-IsChoice f distance nodes now s position node_pos o =
    greedy-IsChoice f (λ p. distance p position) (distance node_pos position) s.nb_from_mbr
      (candidates nodes (if s.nb_from_mbr then s else purge now s)) o
