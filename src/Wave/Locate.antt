-- ===== src/Wave/Locate.antt =====
-- NS3/wave/model/graph.cc: `find_Vertex_by_VehiclePosition` and `find_vertex_by_square`, the vertex
-- nearest to a vehicle, with `get_distance` of mbr-utils.c. The numbers are the patterns of the
-- source's double constants.
pub mod Inside
mod Tests
use map_based_relay.Prelude.{
  [], ltb, some, [], some, Bool, List, none, if◌then◌else◌, Option, ℕ, ◌∷◌, ◌-◌, ◌&&◌,
}
use map_based_relay.Doubles.{Double, Doubles, nine_nine_nine}
use map_based_relay.Wave.Graph.{Graph, Vertex}

abbrev pi : Double
pi = 0x400921fb4d12d84a

abbrev earth_radius : Double
earth_radius = 0x40b8ea23126e978d

abbrev radian : Doubles → Double → Double
radian f d = f.div (f.mul d pi) 0x4066800000000000

unfoldable pub get_distance : Doubles → (lat1 lng1 lat2 lng2 : Double) → Double
get_distance f lat1 lng1 lat2 lng2 =
    let two : Double = 0x4000000000000000 in
    let rad_lat1 = radian f lat1 in
    let rad_lat2 = radian f lat2 in
    let a = f.sub rad_lat1 rad_lat2 in
    let b = f.sub (radian f lng1) (radian f lng2) in
    let h =
      f.add (f.pow (f.sin (f.div a two)) two)
        (f.mul (f.mul (f.cos rad_lat1) (f.cos rad_lat2)) (f.pow (f.sin (f.div b two)) two)) in
    let dst = f.mul (f.mul two (f.asin (f.sqrt h))) earth_radius in
    f.mul (f.div (f.round (f.mul dst 0x40c3880000000000)) 0x40c3880000000000) 0x408f400000000000

abbrev geohash_compare : (a b : ℕ) → ℕ
geohash_compare a b = if ltb b a then a - b else b - a

-- A vertex is kept with its distance while the loops look for a nearer one.
unfoldable pub nearer : Doubles → Graph → (x y : Double) → ℕ → Double × Option ℕ → Double × Option ℕ
nearer f g x y p best =
    let dist = get_distance f (g.heap p).y (g.heap p).x y x in
    if f.lt dist best.0 then (dist, some p) else best

abbrev lat_step : Double
lat_step = 0x3f3a36e2eb1c432d

abbrev lon_step : Double
lon_step = 0x3f43a92a30553261

abbrev in_square : Doubles → Vertex → (x y : Double) → Bool
in_square f v x y =
    f.lt (f.sub x lon_step) v.x
    && f.lt v.x (f.add x lon_step)
    && f.lt (f.sub y lat_step) v.y
    && f.lt v.y (f.add y lat_step)

pub square_loop : Doubles → Graph → (x y : Double) → List ℕ → Double × Option ℕ → Double × Option ℕ
unfolding nearer
square_loop f g x y [] best = best
square_loop f g x y (p ∷ ps) best =
    square_loop f g x y ps (if in_square f (g.heap p) x y then nearer f g x y p best else best)

-- `none` stands for the pointer that the source leaves uninitialised.
pub find_vertex_by_square : Doubles → Graph → (x y : Double) → Option ℕ
unfolding square_loop
find_vertex_by_square f g x y = (square_loop f g x y g.vertices (nine_nine_nine, none)).1

-- The three vertices whose geohash is closest, and how far it is.
pub record Nearest : Type 0 where
  pub min1 : ℕ
  pub min2 : ℕ
  pub min3 : ℕ
  pub v0 : Option ℕ
  pub v1 : Option ℕ
  pub v2 : Option ℕ

unfoldable pub place : (temp index : ℕ) → Nearest → Nearest
place temp index n =
    if ltb temp n.min1
    then record { min1 = temp; min2 = n.min1; min3 = n.min2; v0 = some index; v1 = n.v0; v2 = n.v1 }
    else if ltb temp n.min2
    then record n { min2 = temp; min3 = n.min2; v1 = some index; v2 = n.v1 }
    else if ltb temp n.min3
    then record n { min3 = temp; v2 = some index }
    else n

unfoldable pub nearest_loop : Graph → (geo_hash : ℕ) → List ℕ → Nearest → Nearest
unfolding place
nearest_loop g geo_hash [] n = n
nearest_loop g geo_hash (p ∷ ps) n =
    nearest_loop g geo_hash ps (place (geohash_compare (g.heap p).geo_hash geo_hash) p n)

-- UINT64_MAX
abbrev pub nowhere : Nearest
nowhere = record {
  min1 = 0xffffffffffffffff;
  min2 = 0xffffffffffffffff;
  min3 = 0xffffffffffffffff;
  v0 = none;
  v1 = none;
  v2 = none;
}

-- The loop over the three, which ends at the first that is NULL.
unfoldable pub three_loop :
    Doubles → Graph → (x y : Double) → List (Option ℕ) → Double × Option ℕ → Double × Option ℕ
unfolding nearer
three_loop f g x y [] best = best
three_loop f g x y (none ∷ vs) best = best
three_loop f g x y (some p ∷ vs) best = three_loop f g x y vs (nearer f g x y p best)

unfoldable pub find_vertex_by_vehicle_position :
    Doubles → Graph → (geo_hash : ℕ) → (x y : Double) → Option ℕ
unfolding nearest_loop three_loop find_vertex_by_square
find_vertex_by_vehicle_position f g geo_hash x y =
    let n = nearest_loop g geo_hash g.vertices nowhere in
    let best = three_loop f g x y (n.v0 ∷ n.v1 ∷ n.v2 ∷ []) (nine_nine_nine, none) in
    if f.lt 0x4059000000000000 best.0 then find_vertex_by_square f g x y else best.1
