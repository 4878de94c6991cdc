-- ===== src/Wave/Cross/Turn/Nodes.antt =====
-- Where the nodes of the tree are after one is added or hung elsewhere.

use map_based_relay.Prelude.{
  ℕ, zero, suc, List, [], ◌∷◌, ◌++◌, some, ◌≡◌, ◌⊎◌, inl, inr, leb, ◌==◌, length, get_elem?, arith,
  refl, subst, Bool-cases, ap,
}
use map_based_relay.Wave.Cross.{PathNode}
use map_based_relay.Wave.Cross.Ranks.{rehang}

pub append_keep :
    (k : ℕ) (path : List PathNode) (n t : PathNode)
    → get_elem? path k ≡ some n
    → get_elem? (path ++ t ∷ []) k ≡ some n
append_keep k [] n t e = cc
append_keep zero (m ∷ path) n t e = e
append_keep (suc k) (m ∷ path) n t e = append_keep k path n t e

pub append_last :
    (path : List PathNode) (t : PathNode) → get_elem? (path ++ t ∷ []) (length path) ≡ some t
append_last [] t = refl
append_last (m ∷ path) t = append_last path t

pub append_cases :
    (k : ℕ) (path : List PathNode) (n t : PathNode)
    → get_elem? (path ++ t ∷ []) k ≡ some n
    → (get_elem? path k ≡ some n) ⊎ (t ≡ n)
append_cases zero [] n t e = inr cc
append_cases (suc k) [] n t e = cc
append_cases zero (m ∷ path) n t e = inl e
append_cases (suc k) (m ∷ path) n t e = append_cases k path n t e

-- A node is where it was, and may hang under `index` now.
abbrev pub IsRehung : (index v : ℕ) (m n : PathNode) → Type 0
IsRehung index v m n =
    (m.v ≡ n.v)
    × (m.road_id ≡ n.road_id)
    × ((n.ancest ≡ m.ancest) ⊎ ((n.ancest ≡ some index) × (n.v ≡ v)))

-- One node of the path.
unfoldable pub IsAt : (index v k : ℕ) → List PathNode → PathNode → Type 0
IsAt index v k path n = (m : PathNode) × (get_elem? path k ≡ some m) × IsRehung index v m n

first_rehung :
    (index v k : ℕ) (p p' n : PathNode) (path : List PathNode)
    → get_elem? (p' ∷ path) k ≡ some n
    → IsRehung index v p p'
    → IsAt index v k (p ∷ path) n
unfolding IsAt
first_rehung index v zero p p' n path e r =
    let same : p' ≡ n = cc in (p, refl, subst (IsRehung index v p) same r)
first_rehung index v (suc k) p p' n path e r = (n, e, (refl, refl, inl refl))

further_rehung :
    (index v k : ℕ) (p n : PathNode) (path path' : List PathNode)
    → get_elem? (p ∷ path') k ≡ some n
    → ((k : ℕ) → get_elem? path' k ≡ some n → IsAt index v k path n)
    → IsAt index v k (p ∷ path) n
unfolding IsAt
further_rehung index v zero p n path path' e f = (n, e, (refl, refl, inl refl))
further_rehung index v (suc k) p n path path' e f = f k e

pub rehang-get :
    (index v pos k : ℕ) (path : List PathNode) (n : PathNode)
    → get_elem? (rehang index v pos path) k ≡ some n
    → IsAt index v k path n
unfolding rehang
rehang-get index v pos k [] n e = cc
rehang-get index v pos k (p ∷ path) n e = elim (Bool-cases (p.v == v)) [
  | inl hit ↦ elim (Bool-cases (leb index pos)) [
    | inl late ↦
        let this : p.v ≡ v = ground (arith, hit) in
        let eq : rehang index v pos (p ∷ path) ≡ record p { ancest = some index } ∷ path =
          rw (hit, late) refl in
        first_rehung index v k p (record p { ancest = some index }) n path
          (subst (λ ns. get_elem? ns k ≡ some n) eq e) (refl, refl, inr (refl, this))
    | inr early ↦
        let eq : rehang index v pos (p ∷ path) ≡ p ∷ path = rw (hit, early) refl in
        first_rehung index v k p p n path (subst (λ ns. get_elem? ns k ≡ some n) eq e)
          (refl, refl, inl refl)
  ]
  | inr miss ↦
      further_rehung index v k p n path (rehang index v (suc pos) path) (rw miss at e)
        (λ k e. rehang-get index v (suc pos) k path n e)
]

pub rehang-keep :
    (index v pos k : ℕ) (path : List PathNode) (m : PathNode)
    → get_elem? path k ≡ some m
    → (n : PathNode) × (get_elem? (rehang index v pos path) k ≡ some n) × (n.v ≡ m.v)
unfolding rehang
rehang-keep index v pos k [] m e = cc
rehang-keep index v pos zero (p ∷ path) m e =
    let same : p ≡ m = cc in
    elim (Bool-cases (p.v == v)) [
      | inl hit ↦ elim (Bool-cases (leb index pos)) [
        | inl late ↦ rw (hit, late) (record p { ancest = some index }, refl, ap (λ n. n.v) same)
        | inr early ↦ rw (hit, early) (p, refl, ap (λ n. n.v) same)
      ]
      | inr miss ↦ rw miss (p, refl, ap (λ n. n.v) same)
    ]
rehang-keep index v pos (suc k) (p ∷ path) m e = elim (Bool-cases (p.v == v)) [
  | inl hit ↦ rw hit (m, e, refl)
  | inr miss ↦ rw miss (rehang-keep index v (suc pos) k path m e)
]
