-- ===== src/Mbr/Neighbors/Best.antt =====
-- The choice of the relay: the neighbour in the set with the longest way before it.
use map_based_relay.Prelude.{
  All-mono, false, ◌∙◌, ap, ==_iff, Bool-cases, refl, [], inr, inl, ◌∷◌, Any, All, ltb, List,
  Option-cases, ℕ, ◌≤◌, ◌<◌, ◌≡◌, ◌⊎◌, Option, none, some, arith, ◌==◌, if◌then◌else◌,
}
use mathlib.Core.Logic.{⊎_elim}
use map_based_relay.Wave.GeoHash.Scan.{scan_cells-some}
use map_based_relay.Wave.GeoHash.{GeoHashSetCoordinate}
use map_based_relay.Mbr.Neighbors.{
  mac48_default, purge, unsupported, Neighbors, get_nb_from_set_best, best_loop, Neighbor,
  blocks_ahead, get_dtime,
}

abbrev pub or_zero : Option ℕ → ℕ
or_zero none = 0
or_zero (some d) = d

-- The number of blocks before a neighbour, 0 where it is in none of the set's.
abbrev pub dtime : GeoHashSetCoordinate → Neighbor → ℕ
dtime g n = or_zero (get_dtime n.geohash n.direction g)

blocks_ahead_bounds :
    (g : GeoHashSetCoordinate) (direct i j : ℕ) {d : ℕ}
    → i < g.sy
    → j < g.sx
    → blocks_ahead g direct i j ≡ some d
    → (0 < d) × ((d ≤ g.sx) ⊎ (d ≤ g.sy))
unfolding blocks_ahead
blocks_ahead_bounds g direct i j p q h = ground arith

-- A dwelling time that is found lies between 1 and the longer side of the set, and is the number of
-- blocks before the vehicle in a cell of the set that has its geohash.
pub get_dtime_sound :
    (geohash direct : ℕ) (g : GeoHashSetCoordinate) (d : ℕ)
    → get_dtime geohash direct g ≡ some d
    → (i : ℕ) × (j : ℕ) × (i < g.sy)
      × (j < g.sx)
      × (g.cell i j ≡ geohash)
      × (blocks_ahead g direct i j ≡ some d)
      × (0 < d)
      × ((d ≤ g.sx) ⊎ (d ≤ g.sy))
unfolding get_dtime
get_dtime_sound geohash direct g d h =
    let (i, j, row, column, e) =
      scan_cells-some (λ i j. if geohash == g.cell i j then blocks_ahead g direct i j else none)
        g.sx g.sy 0 {a = d} (ground arith) in
    let here : (g.cell i j ≡ geohash) × (blocks_ahead g direct i j ≡ some d) = ground arith in
    let bounds = blocks_ahead_bounds g direct i j (omega arith) column here.1 in
    (i, j, omega arith, column, here.0, here.1, bounds.0, bounds.1)

-- The longest way among the neighbours and a start value.
top : GeoHashSetCoordinate → ℕ → List Neighbor → ℕ
top g t [] = t
top g t (n ∷ ns) = top g (if ltb t (dtime g n) then dtime g n else t) ns

abbrev longer_side : GeoHashSetCoordinate → ℕ
longer_side g = if ltb g.sy g.sx then g.sx else g.sy

dtime_bounds : (g : GeoHashSetCoordinate) (n : Neighbor) → dtime g n ≤ longer_side g
dtime_bounds g n = elim (Option-cases (get_dtime n.geohash n.direction g)) [
  | inl e ↦ rw e (omega arith)
  | inr (d, e) ↦
      let (i, j, row, column, same, ahead, pos, le) = get_dtime_sound n.geohash n.direction g d e in
      rw e (ground arith)
]

module _ (g : GeoHashSetCoordinate) where
  top_bounds :
      (t : ℕ) (ns : List Neighbor)
      → t ≤ longer_side g
      → (t ≤ top g t ns) × (top g t ns ≤ longer_side g) × All (λ n. dtime g n ≤ top g t ns) ns
  unfolding top
  top_bounds t [] h = (omega arith, h, tt)
  top_bounds t (n ∷ ns) h =
      let t' = if ltb t (dtime g n) then dtime g n else t in
      let r = top_bounds t' ns (ground (arith, dtime_bounds g n)) in
      (ground arith, r.1, (ground arith, r.2))

  -- What the loop returns, with the best so far, where the longest way is `len`: the address of a
  -- neighbour with the longest way, or the best so far where none has a longer one.
  abbrev Chosen : (len best t : ℕ) → List Neighbor → Option ℕ → Type 0
  Chosen len best t ns none = len ≡ 0
  Chosen len best t ns (some m) =
      (0 < len)
      × ((len ≡ t) × (m ≡ best) ⊎ Any (λ n. (n.hardware_address ≡ m) × (dtime g n ≡ len)) ns)

  Chosen-step :
      (len best t d : ℕ) (n : Neighbor) (ns : List Neighbor) (r : Option ℕ)
      → dtime g n ≡ d
      → Chosen len (if ltb t d then n.hardware_address else best) (if ltb t d then d else t) ns r
      → Chosen len best t (n ∷ ns) r
  Chosen-step len best t d n ns none e h = ground arith
  Chosen-step len best t d n ns (some m) e h = ground arith

  Chosen-skip :
      (len best t : ℕ) (n : Neighbor) (ns : List Neighbor) (r : Option ℕ)
      → Chosen len best t ns r
      → Chosen len best t (n ∷ ns) r
  Chosen-skip len best t n ns none h = h
  Chosen-skip len best t n ns (some m) h = ground arith

  Chosen-first :
      (len best t : ℕ) (n : Neighbor) (ns : List Neighbor)
      → len ≡ top g t (n ∷ ns)
      → t < longer_side g
      → dtime g n ≡ longer_side g
      → Chosen len best t (n ∷ ns) (some n.hardware_address)
  Chosen-first len best t n ns l h e =
      let r = top_bounds t (n ∷ ns) (omega arith) in (omega arith, inr (inl (refl, omega arith)))

  best_loop-Chosen :
      (len best t : ℕ) (ns : List Neighbor)
      → len ≡ top g t ns
      → t < longer_side g
      → Chosen len best t ns (best_loop g (longer_side g) best t ns)
  unfolding best_loop top
  best_loop-Chosen len best t [] l h = ground arith
  best_loop-Chosen len best t (n ∷ ns) l h =
      elim (Option-cases (get_dtime n.geohash n.direction g)) [
        | inl e ↦
            rw (e, best_loop)
              (Chosen-skip len best t n ns _
                (best_loop-Chosen len best t ns (ground (arith, ap or_zero e)) h))
        | inr (d, e) ↦ elim (Bool-cases (d == longer_side g)) [
          | inl reached ↦
              rw (e, reached, best_loop)
                (Chosen-first len best t n ns l h (ap or_zero e ∙ (==_iff d _).0 reached))
          | inr below ↦
              rw (e, below, best_loop)
                (Chosen-step len best t d n ns _ (ap or_zero e) (
                  best_loop-Chosen len (if ltb t d then n.hardware_address else best)
                    (if ltb t d then d else t) ns (ground (arith, ap or_zero e))
                    (ground (arith, dtime_bounds g n, ap or_zero e))))
        ]
      ]

-- What a choice among the entries must be: where one is made, the address of an entry whose way
-- through the set is longest and at least one block; where none is made, no entry has a way.
abbrev pub IsBest : GeoHashSetCoordinate → List Neighbor → Option ℕ → Type 0
IsBest g ns none = All (λ n. dtime g n ≡ 0) ns
IsBest g ns (some m) =
    (len : ℕ) × (0 < len)
    × All (λ n. dtime g n ≤ len) ns
    × Any (λ n. (n.hardware_address ≡ m) × (dtime g n ≡ len)) ns

Chosen-IsBest :
    (g : GeoHashSetCoordinate) (len : ℕ) (ns : List Neighbor) (r : Option ℕ)
    → All (λ n. dtime g n ≤ len) ns
    → Chosen g len mac48_default 0 ns r
    → IsBest g ns r
Chosen-IsBest g len ns none a c = All-mono _ _ (λ n (h : dtime g n ≤ len). omega arith) ns a
Chosen-IsBest g len ns (some m) a c =
    (len, c.0, a, ⊎_elim (λ start. absurd (omega arith)) (λ found. found) c.1)

pub get_nb_from_set_best-IsBest :
    (now : ℕ) (s : Neighbors) (g : GeoHashSetCoordinate)
    → unsupported g ≡ false
    → let r = get_nb_from_set_best now s g in IsBest g r.0.nb r.1
unfolding get_nb_from_set_best
get_nb_from_set_best-IsBest now s g ok =
    let ns = (purge now s).nb in
    let len = top g 0 ns in
    let room : 0 < longer_side g = ground arith in
    rw ok (
      Chosen-IsBest g len ns _ (top_bounds g 0 ns (omega arith)).2
        (best_loop-Chosen g len mac48_default 0 ns refl room))
