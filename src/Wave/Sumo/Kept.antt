-- ===== src/Wave/Sumo/Kept.antt =====
-- A map is read through the undirected interface of the graph alone.
use Prim.{tt}
use map_based_relay.Prelude.{
  length, ltb, ◌==◌, ℕ, ◌≡◌, ◌<◌, ◌≤◌, List, [], ◌∷◌, Option, none, some, Bool, true, false, All,
  OnSome, OnSome-bind, OnSome-if, OnSome-any, arith, find_if, is_some, ◌∙◌,
}
use map_based_relay.Doubles.{Double, Doubles}
use map_based_relay.Wave.Graph.{
  Graph, graph_create, vertex_create, graph_add_vertex, graph_is_balanced, get_vertex,
  vertex_add_edge_to_vertex_undirect_exclusive, vertex_remove_edge_to_vertex_undirect,
}
use map_based_relay.Wave.Graph.Balance.{empty, relink, next-link, next-cut}
use map_based_relay.Wave.Division.Kept.{
  placed-IsStreets, IsStreets, graph_division-balanced, vertices-link, vertices-cut,
}
use map_based_relay.Wave.Strings.{parse_osm_wayid, Way}
use map_based_relay.Wave.Sumo.{
  graph_division, connect, sumo_cartesian_to_gps, sumo_cartesian_to_geohash, inner_tokens,
  load_numbered, Boundary, Junction, Street, Loading, join, inner_edges, add_place, inner_vertices,
  shape_ends, shape_edges, shape_tokens, parse_shape_and_update_graph, junctions_loop, load_edge,
  edges_loop, load_sumo_map, initialize, road_number,
}

find_if-below :
    (n : ℕ) (p : ℕ → Bool) (ps : List ℕ) → All (λ q. q < n) ps → OnSome (λ q. q < n) (find_if p ps)
find_if-below n p [] a = tt
find_if-below n p (q ∷ qs) a =
    OnSome-if (λ q. q < n) (p q) (some q) (find_if p qs) a.0 (find_if-below n p qs a.1)

pub get_vertex-allocated :
    (g : Graph) (id : List ℕ) → IsStreets g → OnSome (λ p. p < g.next) (get_vertex g id)
unfolding get_vertex
get_vertex-allocated g id s = find_if-below g.next _ g.vertices s.allocated

pub relink-IsStreets :
    (g : Graph) (from to road_id : ℕ)
    → IsStreets g
    → from < g.next
    → to < g.next
    → IsStreets (vertex_add_edge_to_vertex_undirect_exclusive g from to road_id)
      × (g.next ≤ (vertex_add_edge_to_vertex_undirect_exclusive g from to road_id).next)
unfolding vertex_add_edge_to_vertex_undirect_exclusive
relink-IsStreets g from to road_id s hf ht =
    let h = vertex_remove_edge_to_vertex_undirect g from to in
    let e = next-link h from to road_id ∙ next-cut g from to in
    let same = vertices-link h from to road_id ∙ vertices-cut g from to in
    (
      record {
        undirected = relink from to road_id hf ht s.undirected;
        allocated = rw same (rw e s.allocated);
      },
      omega (arith, e),
    )

join-IsStreets :
    (g : Graph) (fromid toid : List ℕ) (roadid : ℕ)
    → IsStreets g
    → OnSome IsStreets (join g fromid toid roadid)
unfolding join
join-IsStreets g fromid toid roadid s =
    OnSome-bind IsStreets (get_vertex g fromid) _ (get_vertex-allocated g fromid s) (λ from hf.
      OnSome-bind IsStreets (get_vertex g toid) _ (get_vertex-allocated g toid s)
        (λ to ht. (relink-IsStreets g from to roadid s hf ht).0))

shape_ends-IsStreets :
    (fromid toid : List ℕ) (roadid : ℕ) (first last : List ℕ) (g : Graph)
    → IsStreets g
    → OnSome IsStreets (shape_ends fromid toid roadid first last g)
unfolding shape_ends
shape_ends-IsStreets fromid toid roadid first last g s =
    OnSome-bind IsStreets (join g fromid first roadid) _ (join-IsStreets g fromid first roadid s)
      (λ h k. join-IsStreets h last toid roadid k)

-- One round of the loop over the inner points. The vertex that all edges start from is allocated.
module _ (roadid : ℕ) (ts : List (List ℕ)) (g : Graph) (s : IsStreets g) where
  found-IsStreets :
      (v l : Option ℕ)
      → OnSome (λ p. p < g.next) v
      → OnSome (λ p. p < g.next) l
      → ((l : ℕ) (h : Graph)
          → IsStreets h
          → l < h.next
          → IsStreets (inner_edges roadid (some l) ts h).0)
      → IsStreets
          (elim v as (λ v. Graph × Bool) [
            | none ↦ (g, false)
            | some v ↦ elim l as (λ l. Graph × Bool) [
              | none ↦ inner_edges roadid (some v) ts g
              | some l ↦
                  inner_edges roadid
                    (some l)
                    ts
                    (vertex_add_edge_to_vertex_undirect_exclusive g l v roadid)
            ]
          ]).0
  found-IsStreets none l hv hl loop = s
  found-IsStreets (some v) none hv hl loop = loop v g s hv
  found-IsStreets (some v) (some l) hv hl loop =
      let (k, more) = relink-IsStreets g l v roadid s hl hv in loop l _ k (omega (arith, more, hl))

inner_edges-IsStreets :
    (roadid : ℕ) (last_v : Option ℕ) (ts : List (List ℕ)) (g : Graph)
    → IsStreets g
    → OnSome (λ l. l < g.next) last_v
    → IsStreets (inner_edges roadid last_v ts g).0
unfolding inner_edges
inner_edges-IsStreets roadid last_v [] g s hl = s
inner_edges-IsStreets roadid last_v (t ∷ ts) g s hl =
    found-IsStreets roadid ts g s (get_vertex g t) last_v (get_vertex-allocated g t s) hl
      (λ l h k hl. inner_edges-IsStreets roadid (some l) ts h k hl)

shape_edges-IsStreets :
    (fromid toid : List ℕ) (roadid : ℕ) (t1 t2 : List ℕ) (rest : List (List ℕ)) (g : Graph)
    → IsStreets g
    → OnSome IsStreets (shape_edges fromid toid roadid t1 t2 rest g)
unfolding shape_edges
shape_edges-IsStreets fromid toid roadid t1 t2 rest g s =
    let inner = inner_tokens (t1 ∷ t2 ∷ rest) in
    let k = inner_edges-IsStreets roadid none inner g s tt in
    OnSome-if IsStreets (inner_edges roadid none inner g).1 _ _
      (shape_ends-IsStreets fromid toid roadid t1 _ _ k) k

pub graph-road_number : (name : List ℕ) (s : Loading) → (road_number name s).0.graph ≡ s.graph
unfolding road_number
graph-road_number name s = ground arith

module _ (f : Doubles) (to_uint : Double → ℕ) (atof : List ℕ → Double)
    (pj_inv : Double × Double → Double × Double) (bound : Boundary) where
  add_place-IsStreets :
      (id : List ℕ) (x y : Double) (is_intersection : Bool) (g : Graph)
      → IsStreets g
      → OnSome IsStreets (add_place f to_uint atof pj_inv bound id x y is_intersection g)
  unfolding add_place
  add_place-IsStreets id x y is_intersection g s =
      let geohash = sumo_cartesian_to_geohash f to_uint atof pj_inv bound x y in
      let p = sumo_cartesian_to_gps f to_uint atof pj_inv bound x y in
      let c = vertex_create g id p.0 p.1 geohash is_intersection in
      OnSome-if IsStreets (geohash == 0) none _ tt (
        OnSome-if IsStreets (ltb (length id) 25) (some (graph_add_vertex c.0 c.1)) none
          (placed-IsStreets g id p.0 p.1 geohash is_intersection s) tt)

  inner_vertices-IsStreets :
      (t0 t1 : List ℕ) (ts : List (List ℕ)) (g : Graph)
      → IsStreets g
      → OnSome IsStreets (inner_vertices f to_uint atof pj_inv bound t0 t1 ts g)
  unfolding inner_vertices
  inner_vertices-IsStreets t0 t1 [] g s = s
  inner_vertices-IsStreets t0 t1 (t ∷ ts) g s =
      OnSome-bind IsStreets _ _
        (OnSome-if IsStreets (is_some (get_vertex g t)) (some g) _ s
          (add_place-IsStreets t _ _ false g s))
        (inner_vertices-IsStreets t0 t1 ts)

  shape_tokens-IsStreets :
      (fromid toid : List ℕ) (roadid : ℕ) (ts : List (List ℕ)) (g : Graph)
      → IsStreets g
      → OnSome IsStreets (shape_tokens f to_uint atof pj_inv bound fromid toid roadid ts g)
  unfolding shape_tokens
  shape_tokens-IsStreets fromid toid roadid [] g s = s
  shape_tokens-IsStreets fromid toid roadid (t0 ∷ []) g s = s
  shape_tokens-IsStreets fromid toid roadid (t0 ∷ t1 ∷ []) g s = s
  shape_tokens-IsStreets fromid toid roadid (t0 ∷ t1 ∷ t2 ∷ rest) g s =
      OnSome-bind IsStreets _ _ (inner_vertices-IsStreets t0 t1 (inner_tokens (t1 ∷ t2 ∷ rest)) g s)
        (shape_edges-IsStreets fromid toid roadid t1 t2 rest)

  junctions_loop-IsStreets :
      (seen : List (List ℕ)) (js : List Junction) (g : Graph)
      → IsStreets g
      → OnSome IsStreets (junctions_loop f to_uint atof pj_inv bound seen js g)
  unfolding junctions_loop
  junctions_loop-IsStreets seen [] g s = s
  junctions_loop-IsStreets seen (j ∷ js) g s = OnSome-if IsStreets _ none _ tt (
      OnSome-bind IsStreets _ _ (add_place-IsStreets j.id _ _ true g s)
        (junctions_loop-IsStreets (j.id ∷ seen) js))

  abbrev Loaded : Loading → Type 0
  Loaded s = IsStreets s.graph

  connect-IsStreets :
      (fromid toid : List ℕ) (roadid : ℕ) (shape : Option (List ℕ)) (g : Graph)
      → IsStreets g
      → OnSome IsStreets (connect f to_uint atof pj_inv bound fromid toid roadid shape g)
  unfolding connect parse_shape_and_update_graph
  connect-IsStreets fromid toid roadid none g s = join-IsStreets g fromid toid roadid s
  connect-IsStreets fromid toid roadid (some shape) g s =
      shape_tokens-IsStreets fromid toid roadid _ g s

  load_numbered-IsStreets :
      (e : Street) (name : List ℕ) (s : Loading)
      → Loaded s
      → OnSome Loaded (load_numbered f to_uint atof pj_inv bound e (road_number name s))
  unfolding load_numbered
  load_numbered-IsStreets e name s h =
      let r = road_number name s in
      OnSome-bind {P = IsStreets} Loaded
        (connect f to_uint atof pj_inv bound e.from e.to r.1 e.shape r.0.graph)
        (λ g. some (record r.0 { graph = g }))
        (connect-IsStreets e.from e.to r.1 e.shape r.0.graph (rw (graph-road_number name s) h))
        (λ g k. k)

  load_edge-IsStreets :
      (osm : Option (List Way)) (e : Street) (s : Loading)
      → Loaded s
      → OnSome Loaded (load_edge f to_uint atof pj_inv bound osm e s)
  unfolding load_edge
  load_edge-IsStreets osm e s h =
      OnSome-any Loaded (parse_osm_wayid e.id) _ (λ wayid. load_numbered-IsStreets e _ s h)

  edges_loop-IsStreets :
      (osm : Option (List Way)) (es : List Street) (s : Loading)
      → Loaded s
      → OnSome Loaded (edges_loop f to_uint atof pj_inv bound osm es s)
  unfolding edges_loop
  edges_loop-IsStreets osm [] s h = h
  edges_loop-IsStreets osm (e ∷ es) s h =
      OnSome-bind Loaded _ _ (load_edge-IsStreets osm e s h) (edges_loop-IsStreets osm es)

  load_sumo_map-IsStreets :
      (osm : Option (List Way)) (map_roadid : List (List ℕ × ℕ)) (js : List Junction)
      (es : List Street)
      → OnSome Loaded (load_sumo_map f to_uint atof pj_inv bound osm map_roadid js es)
  unfolding load_sumo_map graph_create
  load_sumo_map-IsStreets osm map_roadid js es =
      OnSome-bind {P = IsStreets} Loaded
        (junctions_loop f to_uint atof pj_inv bound [] js graph_create)
        (λ g.
          edges_loop f to_uint atof pj_inv bound osm es
            (record { graph = g; map_roadid = map_roadid; kkk = 1 }))
        (junctions_loop-IsStreets [] js graph_create
          (record { undirected = empty; allocated = tt }))
        (λ g k. edges_loop-IsStreets osm es _ k)

  -- Whatever junctions and edges a map has, a graph that Initialize makes of it, with any number of
  -- rounds of the division, is balanced: each vertex has as many edges in as out.
  pub initialize-balanced :
      (print : (x y : Double) → List ℕ) (rounds : ℕ) (osm : Option (List Way))
      (map_roadid : List (List ℕ × ℕ)) (js : List Junction) (es : List Street)
      → OnSome
          (λ r. graph_is_balanced r.0 ≡ true)
          (initialize f to_uint atof pj_inv bound print rounds osm map_roadid js es)
  unfolding initialize
  initialize-balanced print rounds osm map_roadid js es =
      OnSome-bind {P = Loaded} (λ r. graph_is_balanced r.0 ≡ true)
        (load_sumo_map f to_uint atof pj_inv bound osm map_roadid js es)
        (λ s. some (graph_division f to_uint print rounds s.graph))
        (load_sumo_map-IsStreets osm map_roadid js es)
        (λ s k. graph_division-balanced f to_uint print rounds s.graph k)
