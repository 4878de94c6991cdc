-- ===== src/Wave/GeoHash.antt =====
-- NS3/wave/model/geohash.c, geohash.h and mbr-common.h: a geohash interleaves the bits of longitude
-- and latitude; the moves to the eight neighbouring blocks, and the 3 by 3 set of blocks round one.
pub mod Scan
use Prim.Native.Nat.{bit_and, bit_or}
use map_based_relay.Prelude.{
  ℕ, ◌+◌, ◌-◌, ◌*◌, ◌/◌, ◌%◌, ◌^◌, Option, none, some, Bool, true, false, not, ◌&&◌, ◌==◌,
  if◌then◌else◌,
}

-- GEOHASH_STEP_BIT
abbrev pub geohash_step_bit : ℕ
geohash_step_bit = 12

pub record GeoHashBits : Type 0 where
  pub bits : ℕ
  pub step : ℕ

pub data GeoDirection : Type 0 where
  north east west south south_west south_east nort_west nort_east : GeoDirection

-- `cell i j` is geohashset[i][j], for i below `sy` and j below `sx`.
pub record GeoHashSetCoordinate : Type 0 where
  pub cell : ℕ → ℕ → ℕ
  pub sx : ℕ
  pub sy : ℕ

-- The sign of the `int8_t` step of a move.
pub data Delta : Type 0 where
  back stay ahead : Delta

abbrev x_mask : ℕ
x_mask = 0xaaaaaaaaaaaaaaaa

abbrev y_mask : ℕ
y_mask = 0x5555555555555555

-- `mask >> (64 - step * 2)`
abbrev shifted : ℕ → ℕ → ℕ
shifted mask step = mask / 2 ^ (64 - step * 2)

-- One coordinate, with the bits of the other set to ones or zeros so that a carry passes them.
abbrev move_part : (part zz : ℕ) → Delta → ℕ
move_part part zz ahead = (part + (zz + 1)) % 2 ^ 64
move_part part zz _ = (bit_or part zz + 2 ^ 64 - (zz + 1)) % 2 ^ 64

abbrev is_stay : Delta → Bool
is_stay stay = true
is_stay _ = false

pub geohash_move_x : GeoHashBits → Delta → GeoHashBits
geohash_move_x h d =
    if is_stay d
    then h
    else let x = move_part (bit_and h.bits x_mask) (shifted y_mask h.step) d in
      record h { bits = bit_or (bit_and x (shifted x_mask h.step)) (bit_and h.bits y_mask) }

pub geohash_move_y : GeoHashBits → Delta → GeoHashBits
geohash_move_y h d =
    if is_stay d
    then h
    else let y = move_part (bit_and h.bits y_mask) (shifted x_mask h.step) d in
      record h { bits = bit_or (bit_and h.bits x_mask) (bit_and y (shifted y_mask h.step)) }

pub geohash_get_neighbor : GeoHashBits → GeoDirection → GeoHashBits
unfolding geohash_move_x geohash_move_y
geohash_get_neighbor h north = geohash_move_y (geohash_move_x h stay) ahead
geohash_get_neighbor h south = geohash_move_y (geohash_move_x h stay) back
geohash_get_neighbor h east = geohash_move_y (geohash_move_x h ahead) stay
geohash_get_neighbor h west = geohash_move_y (geohash_move_x h back) stay
geohash_get_neighbor h south_west = geohash_move_y (geohash_move_x h back) back
geohash_get_neighbor h south_east = geohash_move_y (geohash_move_x h ahead) back
geohash_get_neighbor h nort_west = geohash_move_y (geohash_move_x h back) ahead
geohash_get_neighbor h nort_east = geohash_move_y (geohash_move_x h ahead) ahead

pub record GeoHashNeighbors : Type 0 where
  pub north : GeoHashBits
  pub east : GeoHashBits
  pub west : GeoHashBits
  pub south : GeoHashBits
  pub north_east : GeoHashBits
  pub south_east : GeoHashBits
  pub north_west : GeoHashBits
  pub south_west : GeoHashBits

abbrev pub geohash_get_neighbors : GeoHashBits → GeoHashNeighbors
geohash_get_neighbors h = record {
  north = geohash_get_neighbor h north;
  east = geohash_get_neighbor h east;
  west = geohash_get_neighbor h west;
  south = geohash_get_neighbor h south;
  north_east = geohash_get_neighbor h nort_east;
  south_east = geohash_get_neighbor h south_east;
  north_west = geohash_get_neighbor h nort_west;
  south_west = geohash_get_neighbor h south_west;
}

abbrev pub write_cell : (ℕ → ℕ → ℕ) → ℕ → ℕ → ℕ → ℕ → ℕ → ℕ
write_cell cell i j v i' j' = if i == i' && j == j' then v else cell i' j'

-- The guard of the operations on a set: it refuses one where neither side is 3.
abbrev pub unsupported : GeoHashSetCoordinate → Bool
unsupported s = not (s.sx == 3) && not (s.sy == 3)

-- The set is left alone where it is refused. The parameter of the step is not read.
unfoldable pub geohash_get_neighbors_in_set : GeoHashSetCoordinate → ℕ → GeoHashSetCoordinate
unfolding geohash_get_neighbor
geohash_get_neighbors_in_set s center =
    let h : GeoHashBits = record { bits = center; step = geohash_step_bit } in
    let at = λ (d : GeoDirection). (geohash_get_neighbor h d).bits in
    let c0 =
      write_cell (write_cell (write_cell s.cell 0 0 (at nort_west)) 0 1 (at north)) 0 2
        (at nort_east) in
    let c1 = write_cell (write_cell (write_cell c0 1 0 (at west)) 1 1 center) 1 2 (at east) in
    let c2 =
      write_cell (write_cell (write_cell c1 2 0 (at south_west)) 2 1 (at south)) 2 2
        (at south_east) in
    if unsupported s then s else record s { cell = c2 }

-- The loops over the rows and columns of a set, from row `i` and column `j` on: the first value that
-- the body gives.
unfoldable pub scan_columns {ℓ} : {A : Type ℓ} → (ℕ → Option A) → (columns : ℕ) → (j : ℕ) → Option A
scan_columns f ℕ.zero j = none
scan_columns f (ℕ.suc n) j = elim (f j) [ some a ↦ some a | none ↦ scan_columns f n (ℕ.suc j) ]

unfoldable pub scan_cells {ℓ} :
    {A : Type ℓ} → (ℕ → ℕ → Option A) → (columns : ℕ) → (rows : ℕ) → (i : ℕ) → Option A
scan_cells f columns ℕ.zero i = none
scan_cells f columns (ℕ.suc n) i = elim (scan_columns (f i) columns 0) [
  | some a ↦ some a
  | none ↦ scan_cells f columns n (ℕ.suc i)
]

-- `geohash_is_geohash_in_set` goes through three rows and three columns, whatever the sides are.
unfoldable pub geohash_is_geohash_in_set : ℕ → GeoHashSetCoordinate → Bool
unfolding scan_cells scan_columns
geohash_is_geohash_in_set geohash s =
    elim (scan_cells (λ i j. if s.cell i j == geohash then some true else none) 3 3 0) [
      | some n ↦ true
      | none ↦ false
    ]
