-- ===== src/Wave/Sumo/Loads.antt =====
-- The points of a shape can be read.
use Prim.{tt}
use map_based_relay.Prelude.{
  length, ltb, ℕ, ◌≡◌, ◌<◌, refl, List, [], ◌∷◌, Option, none, some, Bool, true, false, All,
  All-mono, OnSome, arith, is_some, if◌then◌else◌, ◌==◌,
}
use map_based_relay.Doubles.{Double, Doubles}
use map_based_relay.Wave.Graph.{
  Graph, IsShort, get_vertex, vertex_add_edge_to_vertex_undirect_exclusive,
}
use map_based_relay.Wave.Division.Kept.{IsStreets}
use map_based_relay.Wave.Sumo.{
  Boundary, inner_edges, inner_tokens, last_token, sumo_cartesian_to_geohash, add_place,
  inner_vertices, shape_ends, shape_edges,
}
use map_based_relay.Wave.Sumo.Kept.{relink-IsStreets}
use map_based_relay.Wave.Sumo.Total.{
  AtSome, AtSome-bind, AtSome-mono, HasName, Keeps, Keeps-refl, Keeps-trans, relink-Keeps,
  known_vertex, shape_ends-Keeps, placed-Keeps,
}

abbrev pub Named : Graph → List (List ℕ) → Type 0
Named g ts = All (HasName g) ts

Named-Keeps : (g h : Graph) (ts : List (List ℕ)) → Keeps g h → Named g ts → Named h ts
Named-Keeps g h ts k n = All-mono (HasName g) (HasName h) k.names ts n

-- The loop over the inner points comes to its end.
abbrev Through : Graph → Graph × Bool → Type 0
Through g r = Keeps g r.0 × (r.1 ≡ true)

module _ (roadid : ℕ) (ts : List (List ℕ)) (g : Graph) (s : IsStreets g) where
  found-Through :
      (v l : Option ℕ)
      → AtSome (λ p. p < g.next) v
      → OnSome (λ p. p < g.next) l
      → ((l : ℕ) (h : Graph)
          → Keeps g h
          → l < h.next
          → Through h (inner_edges roadid (some l) ts h))
      → Through g (elim v as (λ v. Graph × Bool) [
        | none ↦ (g, false)
        | some v ↦ elim l as (λ l. Graph × Bool) [
          | none ↦ inner_edges roadid (some v) ts g
          | some l ↦
              inner_edges roadid
                (some l)
                ts
                (vertex_add_edge_to_vertex_undirect_exclusive g l v roadid)
        ]
      ])
  found-Through none l hv hl loop = elim hv [ ]
  found-Through (some v) none hv hl loop = loop v g (Keeps-refl g s) hv
  found-Through (some v) (some l) hv hl loop =
      let (k, more) = relink-IsStreets g l v roadid s hl hv in
      let keeps = relink-Keeps g l v roadid s hl hv in
      let (b, e) = loop l _ keeps (omega (arith, more, hl)) in (Keeps-trans g _ _ keeps b, e)

inner_edges-Through :
    (roadid : ℕ) (last_v : Option ℕ) (ts : List (List ℕ)) (g : Graph)
    → IsStreets g
    → OnSome (λ l. l < g.next) last_v
    → Named g ts
    → Through g (inner_edges roadid last_v ts g)
unfolding inner_edges
inner_edges-Through roadid last_v [] g s hl n = (Keeps-refl g s, refl)
inner_edges-Through roadid last_v (t ∷ ts) g s hl n =
    found-Through roadid ts g s (get_vertex g t) last_v (known_vertex g t s n.0) hl
      (λ l h k hl. inner_edges-Through roadid (some l) ts h k.streets hl (Named-Keeps g h ts k n.1))

last_token-All :
    (P : List ℕ → Type 0) (t : List ℕ) (ts : List (List ℕ)) → P t → All P ts → P (last_token t ts)
last_token-All P t [] h a = h
last_token-All P t (u ∷ us) h a = last_token-All P u us a.0 a.1

pub shape_edges-Keeps :
    (fromid toid : List ℕ) (roadid : ℕ) (t1 t2 : List ℕ) (rest : List (List ℕ)) (g : Graph)
    → IsStreets g
    → HasName g fromid
    → HasName g toid
    → Named g (inner_tokens (t1 ∷ t2 ∷ rest))
    → AtSome (Keeps g) (shape_edges fromid toid roadid t1 t2 rest g)
unfolding shape_edges
shape_edges-Keeps fromid toid roadid t1 t2 rest g s hf ht n =
    let inner = inner_tokens (t1 ∷ t2 ∷ rest) in
    let more = inner_tokens (t2 ∷ rest) in
    let r = inner_edges roadid none inner g in
    let (k, e) = inner_edges-Through roadid none inner g s tt n in
    let n' = Named-Keeps g r.0 inner k n in
    rw e (
      AtSome-mono (Keeps r.0) (Keeps g) (λ h b. Keeps-trans g r.0 h k b)
        (shape_ends fromid toid roadid t1 (last_token t1 more) r.0)
        (shape_ends-Keeps fromid toid roadid t1 (last_token t1 more) r.0 k.streets
          (k.names fromid hf) (k.names toid ht) n'.0
          (last_token-All (HasName r.0) t1 more n'.0 n'.1)))

module _ (f : Doubles) (to_uint : Double → ℕ) (atof : List ℕ → Double)
    (pj_inv : Double × Double → Double × Double) (bound : Boundary) where
  -- The place has a hash.
  abbrev pub IsInside : (x y : Double) → Type 0
  IsInside x y = (sumo_cartesian_to_geohash f to_uint atof pj_inv bound x y == 0) ≡ false

  pub add_place-Keeps :
      (id : List ℕ) (x y : Double) (is_intersection : Bool) (g : Graph)
      → IsInside x y
      → IsShort id
      → IsStreets g
      → AtSome
          (λ h. Keeps g h × HasName h id)
          (add_place f to_uint atof pj_inv bound id x y is_intersection g)
  unfolding add_place
  add_place-Keeps id x y is_intersection g inside short s =
      let fits : ltb (length id) 25 ≡ true = ground (arith, short) in
      rw (inside, fits) (placed-Keeps g id _ _ _ is_intersection s)

  vertex_or_place :
      (b : Bool) (t t0 t1 : List ℕ) (g : Graph)
      → IsInside (atof t0) (atof t1)
      → IsShort t
      → is_some (get_vertex g t) ≡ b
      → IsStreets g
      → AtSome
          (λ h. Keeps g h × HasName h t)
          (if b
            then some g
            else add_place f to_uint atof pj_inv bound t (atof t0) (atof t1) false g)
  vertex_or_place true t t0 t1 g inside short e s = (Keeps-refl g s, e)
  vertex_or_place false t t0 t1 g inside short e s = add_place-Keeps t _ _ false g inside short s

  pub inner_vertices-Keeps :
      (t0 t1 : List ℕ) (ts : List (List ℕ)) (g : Graph)
      → IsInside (atof t0) (atof t1)
      → All IsShort ts
      → IsStreets g
      → AtSome (λ h. Keeps g h × Named h ts) (inner_vertices f to_uint atof pj_inv bound t0 t1 ts g)
  unfolding inner_vertices
  inner_vertices-Keeps t0 t1 [] g inside short s = (Keeps-refl g s, tt)
  inner_vertices-Keeps t0 t1 (t ∷ ts) g inside short s =
      AtSome-bind (λ h. Keeps g h × Named h (t ∷ ts))
        (if is_some (get_vertex g t)
          then some g
          else add_place f to_uint atof pj_inv bound t (atof t0) (atof t1) false g)
        (inner_vertices f to_uint atof pj_inv bound t0 t1 ts)
        (vertex_or_place (is_some (get_vertex g t)) t t0 t1 g inside short.0 refl s)
        (λ h k.
          AtSome-mono (λ h2. Keeps h h2 × Named h2 ts) (λ h2. Keeps g h2 × Named h2 (t ∷ ts))
            (λ h2 b. (Keeps-trans g h h2 k.0 b.0, (b.0.names t k.1, b.1)))
            (inner_vertices f to_uint atof pj_inv bound t0 t1 ts h)
            (inner_vertices-Keeps t0 t1 ts h inside short.1 k.0.streets))
