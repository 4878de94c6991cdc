-- ===== src/Gpsr/Planar/Subset.antt =====
-- Which neighbours are planar neighbours.
use Prim.{tt}
use map_based_relay.Prelude.{
  not, ◌∙◌, ◌↔◌, ◌⊎◌, ◌&&◌, ◌≢◌, sym, arith, refl, false, [], ◌==◌, true, inr, if◌then◌else◌, inl,
  Bool-cases, any_of, ◌≡◌, All, List, Bool, ℕ, ◌∷◌, ◌||◌,
}
use map_based_relay.Doubles.{Double, Doubles}
use map_based_relay.Mbr.Neighbors.{Vector, NodeList}
use map_based_relay.Gpsr.Ptable.{TableEntry, PositionTable, candidates, map_insert, has_id, purge}
use map_based_relay.Gpsr.Planar.{is_witness, planarize, rng_planarize}

any-insert :
    (v : ℕ) (e : TableEntry) (t : List TableEntry)
    → any_of (has_id v) (map_insert e t) ≡ (e.id == v || any_of (has_id v) t)
unfolding map_insert
any-insert v e [] = ground arith
any-insert v e (x ∷ xs) = ground (arith, any-insert v e xs)

module _ (f : Doubles) (distance : Vector → Vector → Double) (my_pos : Vector) where
  -- `q` is another node than `p`, and nearer both to this node and to `p` than these are to each other.
  abbrev pub IsWitness : (p q : ℕ × Vector) → Type 0
  IsWitness p q =
      (q.0 ≢ p.0)
      × (f.lt (distance my_pos q.1) (distance my_pos p.1) ≡ true)
      × (f.lt (distance p.1 q.1) (distance my_pos p.1) ≡ true)

  -- The address is that of a neighbour without a witness behind it.
  abbrev pub IsChosen : (v : ℕ) → List (ℕ × Vector) → Type 0
  IsChosen v [] = ⊥
  IsChosen v (p ∷ ps) = ((p.0 ≡ v) × All (λ q. IsWitness p q → ⊥) ps) ⊎ IsChosen v ps

  abbrev chosen : (v : ℕ) → List (ℕ × Vector) → Bool
  chosen v [] = false
  chosen v (p ∷ ps) = p.0 == v && not (any_of (is_witness f distance my_pos p) ps) || chosen v ps

  any-All :
      (p : ℕ × Vector) (ps : List (ℕ × Vector))
      → any_of (is_witness f distance my_pos p) ps ≡ false
      → All (λ q. IsWitness p q → ⊥) ps
  any-All p [] e = tt
  any-All p (q ∷ ps) e = (λ w. ground (arith, e, w), any-All p ps (ground (arith, e)))

  All-any :
      (p : ℕ × Vector) (ps : List (ℕ × Vector))
      → All (λ q. IsWitness p q → ⊥) ps
      → any_of (is_witness f distance my_pos p) ps ≡ false
  All-any p [] a = refl
  All-any p (q ∷ ps) a = ground (arith, a.0, All-any p ps a.1)

  chosen-IsChosen : (v : ℕ) (ps : List (ℕ × Vector)) → chosen v ps ≡ true → IsChosen v ps
  chosen-IsChosen v [] e = cc
  chosen-IsChosen v (p ∷ ps) e = elim (Bool-cases (chosen v ps)) [
    | inl later ↦ inr (chosen-IsChosen v ps later)
    | inr not_later ↦
        let free : any_of (is_witness f distance my_pos p) ps ≡ false =
          ground (arith, e, not_later) in
        inl (ground (arith, e, not_later), any-All p ps free)
  ]

  IsChosen-chosen : (v : ℕ) (ps : List (ℕ × Vector)) → IsChosen v ps → chosen v ps ≡ true
  IsChosen-chosen v [] c = elim c [ ]
  IsChosen-chosen v (p ∷ ps) (inl (e, a)) = ground (arith, e, All-any p ps a)
  IsChosen-chosen v (p ∷ ps) (inr c) = ground (arith, IsChosen-chosen v ps c)

  -- A neighbour is no witness against itself, so both starts of the inner loop give the same.
  any-skip :
      (skip : Bool) (p : ℕ × Vector) (ps : List (ℕ × Vector))
      → any_of (is_witness f distance my_pos p) (if skip then ps else p ∷ ps)
        ≡ any_of (is_witness f distance my_pos p) ps
  any-skip true p ps = refl
  any-skip false p ps = ground arith

  planarize-chosen :
      (now : ℕ) (skip : Bool) (ps : List (ℕ × Vector)) (result : List TableEntry) (v : ℕ)
      → any_of (has_id v) (planarize f distance my_pos now skip ps result)
        ≡ (any_of (has_id v) result || chosen v ps)
  unfolding planarize
  planarize-chosen now skip [] result v = ground arith
  planarize-chosen now skip (p ∷ ps) result v =
      let e : TableEntry = record { id = p.0; position = p.1; time = now } in
      elim (Bool-cases (any_of (is_witness f distance my_pos p) ps)) [
        | inl against ↦
            rw (any-skip skip p ps, against) (ground (arith, planarize-chosen now skip ps result v))
        | inr free ↦
            rw (any-skip skip p ps, free)
              (ground (
                arith,
                planarize-chosen now skip ps (map_insert e result) v,
                any-insert v e result,
              ))
      ]

-- An address is that of a planar neighbour exactly where it is that of one of the neighbours that are left
-- after Purge, such that no neighbour behind it in the table, at another address, is nearer both to this
-- node and to that neighbour than these two are to each other.
pub rng_planarize-IsChosen :
    (f : Doubles) (distance : Vector → Vector → Double) (nodes : NodeList) (my_pos : Vector)
    (now : ℕ) (s : PositionTable) (v : ℕ)
    → (any_of (has_id v) (rng_planarize f distance nodes my_pos now s).1 ≡ true)
      ↔ IsChosen f distance my_pos v
          (candidates nodes (rng_planarize f distance nodes my_pos now s).0)
unfolding rng_planarize
rng_planarize-IsChosen f distance nodes my_pos now s v =
    let ps = candidates nodes (if s.nb_from_mbr then s else purge now s) in
    let same = planarize-chosen f distance my_pos now s.nb_from_mbr ps [] v in
    (
      λ e. chosen-IsChosen f distance my_pos v ps (sym same ∙ e),
      λ c. same ∙ IsChosen-chosen f distance my_pos v ps c,
    )
