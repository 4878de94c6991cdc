-- ===== src/Gpsr/Planar.antt =====
-- NS3/gpsr/model/gpsr-ptable.cc: the planar neighbours of the recovery mode (`rng_planarize`), with
-- `angle`, `intersect` and `peri_nexthop`. The node's own position and CalculateDistance are ns-3's,
-- and parameters. The macro PI is the double 3.141593.
pub mod Subset
mod Tests
use map_based_relay.Prelude.{
  none, ◌==◌, any_of, some, [], not, false, Bool, if◌then◌else◌, List, Option, ℕ, ◌∷◌, ◌&&◌,
}
use map_based_relay.Doubles.{Double, Doubles, zero_double, minus_one, nine_nine_nine}
use map_based_relay.Mbr.Neighbors.{Vector, NodeList}
use map_based_relay.Gpsr.Ptable.{
  TableEntry, PositionTable, candidates, map_insert, purge, get_position, is_neighbour,
}

-- The node `q` is nearer both to the node itself and to its neighbour `p` than these are to each other.
abbrev pub is_witness :
    Doubles → (distance : Vector → Vector → Double) → (my_pos : Vector) → (p q : ℕ × Vector) → Bool
is_witness f distance my_pos p q =
    not (q.0 == p.0)
    && f.lt (distance my_pos q.1) (distance my_pos p.1)
    && f.lt (distance p.1 q.1) (distance my_pos p.1)

-- The two loops: a neighbour is taken where no later one is a witness against it. With `skip` the inner
-- loop starts behind the neighbour, else at it.
unfoldable pub planarize :
    Doubles
    → (distance : Vector → Vector → Double) → (my_pos : Vector) → (now : ℕ) → (skip : Bool)
    → List (ℕ × Vector)
    → (result : List TableEntry) → List TableEntry
planarize f distance my_pos now skip [] result = result
planarize f distance my_pos now skip (p ∷ ps) result =
    let against = any_of (is_witness f distance my_pos p) (if skip then ps else p ∷ ps) in
    planarize f distance my_pos now skip ps (
      if against
      then result
      else map_insert (record { id = p.0; position = p.1; time = now }) result)

pub rng_planarize :
    Doubles
    → (distance : Vector → Vector → Double) → NodeList
    → (my_pos : Vector) → (now : ℕ) → PositionTable
    → PositionTable × List TableEntry
unfolding planarize
rng_planarize f distance nodes my_pos now s =
    let s' = if s.nb_from_mbr then s else purge now s in
    (s', planarize f distance my_pos now s.nb_from_mbr (candidates nodes s') [])

abbrev pi : Double
pi = 0x400921fb82c2bd7f

abbrev two : Double
two = 0x4000000000000000

pub angle : Doubles → (v1 v2 : Vector) → Double
angle f v1 v2 =
    let dx = f.sub v2.x v1.x in
    let dy = f.sub v2.y v1.y in
    let line_len = f.sqrt (f.add (f.mul dx dx) (f.mul dy dy)) in
    if f.eq line_len zero_double
    then minus_one
    else (let sin_theta = f.div dy line_len in
        let theta = f.acos (f.div dx line_len) in
        if f.lt sin_theta zero_double then f.sub (f.mul two pi) theta else theta)

abbrev max : Doubles → (a b : Double) → Double
max f a b = if f.le b a then a else b

abbrev min : Doubles → (a b : Double) → Double
min f a b = if f.le b a then b else a

-- Whether the line from (x1, y1) to (x2, y2) crosses the one from (x3, y3) to (x4, y4).
pub crossed : Doubles → (p1 p2 p3 p4 : Vector) → Bool
crossed f p1 p2 p3 p4 =
    let a1 = f.sub p2.y p1.y in
    let b1 = f.sub p1.x p2.x in
    let c1 = f.sub (f.mul p2.x p1.y) (f.mul p1.x p2.y) in
    let a2 = f.sub p4.y p3.y in
    let b2 = f.sub p3.x p4.x in
    let c2 = f.sub (f.mul p4.x p3.y) (f.mul p3.x p4.y) in
    let denom = f.sub (f.mul a1 b2) (f.mul a2 b1) in
    if f.eq denom zero_double
    then false
    else (let x = f.div (f.sub (f.mul b1 c2) (f.mul b2 c1)) denom in
        f.lt (min f p1.x p2.x) x
        && f.lt x (max f p1.x p2.x)
        && f.lt (min f p3.x p4.x) x
        && f.lt x (max f p3.x p4.x))

-- `none` where the assertion that the other node is a neighbour fails.
pub intersect :
    Doubles
    → NodeList
    → (my_pos : Vector) → (past_end now : ℕ) → PositionTable
    → (other : ℕ) → (src_pos dst_pos : Vector) → Option (PositionTable × Bool)
unfolding crossed
intersect f nodes my_pos past_end now s other src_pos dst_pos =
    let r = is_neighbour past_end now s other in
    let o = get_position nodes now r.0 other in
    if r.1 then some (o.0, crossed f my_pos o.1 src_pos dst_pos) else none
