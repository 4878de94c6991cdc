-- ===== src/Gpsr/Angle/Choice.antt =====
-- The right-hand rule: BestAngle takes the planar neighbour at the least angle.
use map_based_relay.Prelude.{
  All-mono, Any-mono, ◌≡◌, ◌≢◌, refl, sym, subst, ℕ, ◌∷◌, [], List, true, false, not, ◌&&◌, ◌⊎◌,
  inl, inr, All, Any, map, keep_if, arith, if◌then◌else◌, List-cases, Bool-cases,
}
use map_based_relay.Doubles.{Double, Doubles, IsOrdered, zero_double}
use map_based_relay.Mbr.Neighbors.{Vector, NodeList}
use map_based_relay.Gpsr.Ptable.{TableEntry, PositionTable, purge, zero_address, closest}
use map_based_relay.Gpsr.Ptable.Best.{closest-least}
use map_based_relay.Gpsr.Planar.{rng_planarize}
use map_based_relay.Gpsr.Angle.{angle_loop, or_first, best_angle, three_sixty}

abbrev pub place_of : TableEntry → ℕ × Vector
place_of e = (e.id, e.position)

-- The entries at another angle than 0, with their places.
abbrev pub turns : Doubles → (Vector → Double) → List TableEntry → List (ℕ × Vector)
turns f angle es = map place_of (keep_if (λ e. not (f.eq (angle e.position) zero_double)) es)

-- The loop looks for the least of them.
angle_loop-closest :
    (f : Doubles) (angle : Vector → Double) (best : ℕ) (d : Double) (es : List TableEntry)
    → angle_loop f angle best d es ≡ (closest f angle best d (turns f angle es)).0
unfolding angle_loop closest
angle_loop-closest f angle best d [] = refl
angle_loop-closest f angle best d (e ∷ es) =
    elim (Bool-cases (f.eq (angle e.position) zero_double)) [
      | inl z ↦ rw z (elim (Bool-cases (f.lt (angle e.position) d)) [
        | inl l ↦ rw l (angle_loop-closest f angle best d es)
        | inr l ↦ rw l (angle_loop-closest f angle best d es)
      ])
      | inr z ↦ rw z (elim (Bool-cases (f.lt (angle e.position) d)) [
        | inl l ↦ rw l (angle_loop-closest f angle e.id (angle e.position) es)
        | inr l ↦ rw l (angle_loop-closest f angle best d es)
      ])
    ]

-- `r` is one of the places with the least angle, which is below 360 degrees, or there is none of them
-- below 360 degrees.
abbrev pub IsLeast : Doubles → (Vector → Double) → (r : ℕ) → List (ℕ × Vector) → Type 0
IsLeast f angle r ps =
    ((r ≡ zero_address) × All (λ p. f.lt (angle p.1) three_sixty ≡ false) ps)
    ⊎ Any
        (λ p.
          (p.0 ≡ r)
          × (f.lt (angle p.1) three_sixty ≡ true)
          × All (λ q. f.lt (angle q.1) (angle p.1) ≡ false) ps)
        ps

-- Where no place is below the start, the loop ends with what it began with.
closest-stays :
    (f : Doubles) (angle : Vector → Double) (best : ℕ) (d : Double) (ps : List (ℕ × Vector))
    → All (λ p. f.lt (angle p.1) d ≡ false) ps
    → (closest f angle best d ps).0 ≡ best
unfolding closest
closest-stays f angle best d [] a = refl
closest-stays f angle best d (p ∷ ps) a = rw (closest, a.0) (closest-stays f angle best d ps a.1)

-- The least item itself.
Any-some :
    {A : Type 0} (P : A → Type 0) (xs : List A) → Any P xs → (x : A) × Any (λ y. y ≡ x) xs × P x
Any-some P [] h = elim h [ ]
Any-some P (x ∷ xs) (inl h) = (x, inl refl, h)
Any-some P (x ∷ xs) (inr h) = let (y, i, p) = Any-some P xs h in (y, inr i, p)

closest-IsLeast :
    (f : Doubles) (angle : Vector → Double) (ps : List (ℕ × Vector))
    → IsOrdered f
    → IsLeast f angle (closest f angle zero_address three_sixty ps).0 ps
closest-IsLeast f angle ps o =
    let r = (closest f angle zero_address three_sixty ps).0 in
    elim (closest-least f angle o zero_address three_sixty ps) [
      | inl none_below ↦ inl none_below
      | inr least ↦
          let (p, here, (e, low)) =
            Any-some (λ p. (p.0 ≡ r) × All (λ q. f.lt (angle q.1) (angle p.1) ≡ false) ps) ps
              least in
          elim (Bool-cases (f.lt (angle p.1) three_sixty)) [
            | inl below ↦ inr (
                Any-mono _ _
                  (λ q same.
                    subst
                      (λ q.
                        (q.0 ≡ r)
                        × (f.lt (angle q.1) three_sixty ≡ true)
                        × All (λ x. f.lt (angle x.1) (angle q.1) ≡ false) ps)
                      (sym same) (e, below, low))
                  ps here)
            | inr above ↦
                let all : All (λ q. f.lt (angle q.1) three_sixty ≡ false) ps =
                  All-mono _ _ (λ q h. o.not_lt_trans three_sixty (angle p.1) (angle q.1) above h)
                    ps low in
                inl (closest-stays f angle zero_address three_sixty ps all, all)
          ]
    ]

angle_loop-IsLeast :
    (f : Doubles) (angle : Vector → Double) (es : List TableEntry)
    → IsOrdered f
    → IsLeast f angle (angle_loop f angle zero_address three_sixty es) (turns f angle es)
angle_loop-IsLeast f angle es o =
    subst (λ r. IsLeast f angle r (turns f angle es))
      (sym (angle_loop-closest f angle zero_address three_sixty es))
      (closest-IsLeast f angle (turns f angle es) o)

goes_on :
    (s : PositionTable)
    → (s.nb_from_mbr ≡ true) ⊎ (s.table ≢ [])
    → (not s.nb_from_mbr && (elim s.table [ [] ↦ true | e ∷ es ↦ false ])) ≡ false
goes_on s (inl m) = rw m refl
goes_on s (inr t) = elim (List-cases s.table) [
  | inl e ↦ elim (t e) [ ]
  | inr (x, xs, e) ↦ rw e (ground arith)
]

-- Where the table is not empty or the neighbours are those of MBR, BestAngle looks at the neighbours
-- of the planar graph that are not straight ahead, at an angle of 0. It gives one of them below 360
-- degrees than which none is at a smaller angle; where none of them is below 360 degrees it gives the first
-- address of the table, and has no result where the table is empty. The result is also the first address where the
-- neighbour at the least angle has the zero address.
pub best_angle-IsLeast :
    (f : Doubles) (angle : Vector → Vector → Vector → Double) (distance : Vector → Vector → Double)
    (nodes : NodeList) (my_pos : Vector) (now : ℕ) (s : PositionTable)
    (previous_hop node_pos : Vector)
    → IsOrdered f
    → (s.nb_from_mbr ≡ true) ⊎ (s.table ≢ [])
    → let planar =
        rng_planarize f distance nodes my_pos now (if s.nb_from_mbr then s else purge now s) in
      (r : ℕ) × ((best_angle f angle distance nodes my_pos now s previous_hop node_pos)
        ≡ (planar.0, or_first planar.0.table r))
      × IsLeast f (angle node_pos previous_hop) r (turns f (angle node_pos previous_hop) planar.1)
unfolding best_angle
best_angle-IsLeast f angle distance nodes my_pos now s previous_hop node_pos o some_table =
    let planar =
      rng_planarize f distance nodes my_pos now (if s.nb_from_mbr then s else purge now s) in
    (
      angle_loop f (angle node_pos previous_hop) zero_address three_sixty planar.1,
      rw (goes_on s some_table) refl,
      angle_loop-IsLeast f (angle node_pos previous_hop) planar.1 o,
    )
