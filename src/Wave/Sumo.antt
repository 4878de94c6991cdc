-- ===== src/Wave/Sumo.antt =====
-- NS3/wave/model/mbr_sumomap.cpp: how a road graph comes from a SUMO map. The elements that tinyxml2
-- finds in the files are lists; `atof`, `pj_inv` of the projection and the cast to uint32_t are
-- parameters. Where an attribute has too few numbers, an end of an edge is no vertex, an NS_ASSERT
-- fails, or the loop over the junctions stays for ever at one that it has seen, there is no result.
pub mod Kept
pub mod Total
pub mod Loads
pub mod Readable
mod Tests
use map_based_relay.Prelude.{
  length, ltb, ℕ, ◌+◌, List, [], ◌∷◌, Option, none, some, Bool, true, false, not, ◌==◌, is_some,
  find_if, if◌then◌else◌, ◌>>=◌,
}
use map_based_relay.Doubles.{Double, Doubles}
use map_based_relay.Wave.GeoHash.{GeoHashBits}
use map_based_relay.Wave.Encode.{lat_range, lon_range, geohash_fast_encode}
use map_based_relay.Wave.Graph.{
  Graph, str_eq, graph_create, vertex_create, graph_add_vertex, get_vertex,
  vertex_add_edge_to_vertex_undirect_exclusive,
}
use map_based_relay.Wave.Strings.{tokenize, parse_osm_wayid, Way, name_of}
use map_based_relay.Wave.Division.{graph_division}

-- The numbers of the `location` element that the conversions read, and those that nothing reads.
pub record Boundary : Type 0 where
  pub netoffset_x : Double
  pub netoffset_y : Double
  pub conv : List Double
  pub orig : List Double

pub record Junction : Type 0 where
  pub id : List ℕ
  pub x : List ℕ
  pub y : List ℕ

pub record Street : Type 0 where
  pub id : List ℕ
  pub from : List ℕ
  pub to : List ℕ
  pub shape : Option (List ℕ)

-- 57.295779513082321
abbrev rad_to_deg : Double
rad_to_deg = 0x404ca5dc1a63c1f8

abbrev two_numbers : (List ℕ → Double) → List (List ℕ) → Option (Double × Double)
two_numbers atof (a ∷ b ∷ rest) = some (atof a, atof b)
two_numbers atof (a ∷ []) = none
two_numbers atof [] = none

abbrev four_numbers : (List ℕ → Double) → List (List ℕ) → Option (List Double)
four_numbers atof (a ∷ b ∷ c ∷ d ∷ rest) = some (atof a ∷ atof b ∷ atof c ∷ atof d ∷ [])
four_numbers atof (a ∷ b ∷ c ∷ []) = none
four_numbers atof (a ∷ b ∷ []) = none
four_numbers atof (a ∷ []) = none
four_numbers atof [] = none

pub parse_boundary :
    (List ℕ → Double) → (net_offset conv_boundary orig_boundary : List ℕ) → Option Boundary
parse_boundary atof net_offset conv_boundary orig_boundary = do
  (x, y) ← two_numbers atof (tokenize net_offset 44)
  conv ← four_numbers atof (tokenize conv_boundary 44)
  orig ← four_numbers atof (tokenize orig_boundary 44)
  some (record { netoffset_x = x; netoffset_y = y; conv = conv; orig = orig })

-- The numbers of the roads, by their names, and the next number.
pub record Loading : Type 0 where
  pub graph : Graph
  pub map_roadid : List (List ℕ × ℕ)
  pub kkk : ℕ

-- The road's number, a new one where it has none.
pub road_number : (roadid_str : List ℕ) → Loading → Loading × ℕ
unfolding str_eq
road_number roadid_str s = elim (find_if (λ (r : List ℕ × ℕ). str_eq r.0 roadid_str) s.map_roadid) [
  | some r ↦ (s, r.1)
  | none ↦ (record s { map_roadid = (roadid_str, s.kkk) ∷ s.map_roadid; kkk = s.kkk + 1 }, s.kkk)
]

-- An edge between the vertices with two names.
pub join : Graph → (fromid toid : List ℕ) → (roadid : ℕ) → Option Graph
join g fromid toid roadid = do
  from ← get_vertex g fromid
  to ← get_vertex g toid
  some (vertex_add_edge_to_vertex_undirect_exclusive g from to roadid)

-- The edges between the inner points of a shape. The vertex that they all start from is the first one,
-- as the loop leaves `last_v` where it is. A point that is no vertex ends the whole function: the
-- result says whether the loop came to its end.
pub inner_edges :
    (roadid : ℕ) → (last_v : Option ℕ) → (tokens : List (List ℕ)) → Graph → Graph × Bool
inner_edges roadid last_v [] g = (g, true)
inner_edges roadid last_v (t ∷ ts) g = elim (get_vertex g t) [
  | none ↦ (g, false)
  | some v ↦ elim last_v [
    | none ↦ inner_edges roadid (some v) ts g
    | some l ↦
        inner_edges roadid (some l) ts (vertex_add_edge_to_vertex_undirect_exclusive g l v roadid)
  ]
]

-- All but the last one.
abbrev pub inner_tokens : List (List ℕ) → List (List ℕ)
inner_tokens [] = []
inner_tokens (t ∷ []) = []
inner_tokens (t ∷ u ∷ us) = t ∷ inner_tokens (u ∷ us)

abbrev pub last_token : (t : List ℕ) → List (List ℕ) → List ℕ
last_token t [] = t
last_token t (u ∷ us) = last_token u us

-- The edges at the ends of a shape.
pub shape_ends :
    (fromid toid : List ℕ) → (roadid : ℕ) → (first last : List ℕ) → Graph → Option Graph
unfolding join
shape_ends fromid toid roadid first last g = do
  h ← join g fromid first roadid
  join h last toid roadid

-- The edges of a shape whose inner points are vertices.
pub shape_edges :
    (fromid toid : List ℕ) → (roadid : ℕ) → (t1 t2 : List ℕ) → List (List ℕ) → Graph → Option Graph
unfolding inner_edges shape_ends
shape_edges fromid toid roadid t1 t2 rest g =
    let r = inner_edges roadid none (inner_tokens (t1 ∷ t2 ∷ rest)) g in
    if r.1
    then shape_ends fromid toid roadid t1 (last_token t1 (inner_tokens (t2 ∷ rest))) r.0
    else some r.0

module _ (f : Doubles) (to_uint : Double → ℕ) (atof : List ℕ → Double)
    (pj_inv : Double × Double → Double × Double) (bound : Boundary) where
  pub sumo_cartesian_to_gps : (input_x input_y : Double) → Double × Double
  sumo_cartesian_to_gps input_x input_y =
      let p = pj_inv (f.sub input_x bound.netoffset_x, f.sub input_y bound.netoffset_y) in
      (f.mul p.0 rad_to_deg, f.mul p.1 rad_to_deg)

  pub sumo_cartesian_to_geohash : (input_x input_y : Double) → ℕ
  unfolding sumo_cartesian_to_gps
  sumo_cartesian_to_geohash input_x input_y =
      let p = sumo_cartesian_to_gps input_x input_y in
      let blank : GeoHashBits = record { bits = 0; step = 0 } in
      (geohash_fast_encode f to_uint lat_range lon_range p.1 p.0 12 blank).0.bits

  -- A vertex for a place of the map; `none` where the assertion on the hash fails, or where the name is too
  -- long for `idStr` and is written over the fields behind it.
  pub add_place : (id : List ℕ) → (x y : Double) → (is_intersection : Bool) → Graph → Option Graph
  unfolding sumo_cartesian_to_geohash
  add_place id x y is_intersection g =
      let geohash = sumo_cartesian_to_geohash x y in
      let p = sumo_cartesian_to_gps x y in
      let c = vertex_create g id p.0 p.1 geohash is_intersection in
      if geohash == 0
      then none
      else if ltb (length id) 25
      then some (graph_add_vertex c.0 c.1)
      else none

  -- The vertices of the inner points: each one at the numbers that the whole tokens `t0` and `t1` of
  -- the shape start with.
  pub inner_vertices : (t0 t1 : List ℕ) → (tokens : List (List ℕ)) → Graph → Option Graph
  unfolding add_place
  inner_vertices t0 t1 [] g = some g
  inner_vertices t0 t1 (t ∷ ts) g =
      (if is_some (get_vertex g t) then some g else add_place t (atof t0) (atof t1) false g)
      >>= inner_vertices t0 t1 ts

  -- A shape of two points or less changes nothing.
  pub shape_tokens : (fromid toid : List ℕ) → (roadid : ℕ) → List (List ℕ) → Graph → Option Graph
  unfolding inner_vertices shape_edges
  shape_tokens fromid toid roadid (t0 ∷ t1 ∷ t2 ∷ rest) g =
      inner_vertices t0 t1 (inner_tokens (t1 ∷ t2 ∷ rest)) g
      >>= shape_edges fromid toid roadid t1 t2 rest
  shape_tokens fromid toid roadid (t0 ∷ t1 ∷ []) g = some g
  shape_tokens fromid toid roadid (t0 ∷ []) g = some g
  shape_tokens fromid toid roadid [] g = some g

  pub parse_shape_and_update_graph :
      (fromid toid : List ℕ) → (roadid : ℕ) → (shape : List ℕ) → Graph → Option Graph
  unfolding shape_tokens
  parse_shape_and_update_graph fromid toid roadid shape =
      shape_tokens fromid toid roadid (tokenize shape 32)

  -- `seen` are the names in nodeMap.
  pub junctions_loop : (seen : List (List ℕ)) → List Junction → Graph → Option Graph
  unfolding add_place str_eq
  junctions_loop seen [] g = some g
  junctions_loop seen (j ∷ js) g =
      if is_some (find_if (str_eq j.id) seen)
      then none
      else add_place j.id (atof j.x) (atof j.y) true g >>= junctions_loop (j.id ∷ seen) js

  -- The edges of a street without or with a shape.
  pub connect :
      (fromid toid : List ℕ) → (roadid : ℕ) → (shape : Option (List ℕ)) → Graph → Option Graph
  unfolding parse_shape_and_update_graph join
  connect fromid toid roadid none g = join g fromid toid roadid
  connect fromid toid roadid (some shape) g =
      parse_shape_and_update_graph fromid toid roadid shape g

  -- One edge whose road has its number.
  pub load_numbered : Street → Loading × ℕ → Option Loading
  unfolding connect
  load_numbered e r = do
    g ← connect e.from e.to r.1 e.shape r.0.graph
    some (record r.0 { graph = g })

  -- One edge. `osm` is `none` where there is no OSM file.
  pub load_edge : (osm : Option (List Way)) → Street → Loading → Option Loading
  unfolding parse_osm_wayid name_of road_number load_numbered
  load_edge osm e s = do
    osm_wayid ← parse_osm_wayid e.id
    load_numbered e (
        road_number
          (elim osm as (λ o. List ℕ) [ none ↦ osm_wayid | some ways ↦ name_of ways osm_wayid ]) s)

  pub edges_loop : (osm : Option (List Way)) → List Street → Loading → Option Loading
  edges_loop osm [] s = some s
  edges_loop osm (e ∷ es) s = load_edge osm e s >>= edges_loop osm es

  -- The map that an earlier load has left numbers in.
  pub load_sumo_map :
      (osm : Option (List Way))
      → (map_roadid : List (List ℕ × ℕ)) → List Junction
      → List Street
      → Option Loading
  unfolding junctions_loop edges_loop
  load_sumo_map osm map_roadid junctions edges = junctions_loop [] junctions graph_create >>= λ g.
      edges_loop osm edges (record { graph = g; map_roadid = map_roadid; kkk = 1 })

  pub initialize :
      (print : (x y : Double) → List ℕ)
      → (rounds : ℕ) → (osm : Option (List Way)) → (map_roadid : List (List ℕ × ℕ)) → List Junction
      → List Street
      → Option (Graph × Bool)
  unfolding load_sumo_map
  initialize print rounds osm map_roadid junctions edges = do
    s ← load_sumo_map osm map_roadid junctions edges
    some (graph_division f to_uint print rounds s.graph)
