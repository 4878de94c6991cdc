-- ===== src/Wave/GeoHash/Scan.antt =====
-- The loops over the cells of a set.
use map_based_relay.Prelude.{
  ℕ, zero, suc, ◌+◌, ◌<◌, ◌≡◌, inl, inr, Option, some, arith, Option-cases,
}
use map_based_relay.Wave.GeoHash.{scan_columns, scan_cells}

-- A value that the loops over the cells give is the body's value at a cell of the set.
scan_columns-some {ℓ} :
    {A : Type ℓ} (f : ℕ → Option A) (n j : ℕ) {a : A}
    → scan_columns f n j ≡ some a
    → (k : ℕ) × (k < j + n) × (f k ≡ some a)
unfolding scan_columns
scan_columns-some f zero j h = cc
scan_columns-some f (suc n) j {a} h = elim (Option-cases (f j)) [
  | inl miss ↦
      let (k, lt, e) = scan_columns-some f n (suc j) {a = a} (ground arith) in (k, omega arith, e)
  | inr (b, hit) ↦ (j, omega arith, ground arith)
]

pub scan_cells-some {ℓ} :
    {A : Type ℓ} (f : ℕ → ℕ → Option A) (columns n i : ℕ) {a : A}
    → scan_cells f columns n i ≡ some a
    → (k : ℕ) × (j : ℕ) × (k < i + n) × (j < columns) × (f k j ≡ some a)
unfolding scan_cells
scan_cells-some f columns zero i h = cc
scan_cells-some f columns (suc n) i {a} h = elim (Option-cases (scan_columns (f i) columns 0)) [
  | inl miss ↦
      let (k, j, lt, lt', e) = scan_cells-some f columns n (suc i) {a = a} (ground arith) in
      (k, j, omega arith, lt', e)
  | inr (b, hit) ↦
      let (j, lt, e) = scan_columns-some (f i) columns 0 hit in
      (i, j, omega arith, omega arith, ground arith)
]
