-- ===== src/Wave/Sumo/Total.antt =====
-- When a map can be read: what is named stays named.
use map_based_relay.Prelude.{
  ℕ, ◌≡◌, ◌<◌, ◌∙◌, ◌>>=◌, ap, refl, subst, List, [], ◌∷◌, ◌++◌, Option, none, some, Bool, true,
  All, OnSome, arith, find_if, is_some,
}
use map_based_relay.Wave.Graph.{
  Graph, vertex_create, graph_add_vertex, str_eq, get_vertex, vertex_add_edge_to_vertex,
  vertex_remove_edge_to_vertex, vertex_add_edge_to_vertex_undirect,
  vertex_remove_edge_to_vertex_undirect, vertex_add_edge_to_vertex_undirect_exclusive,
}
use map_based_relay.Wave.Division.Kept.{IsStreets, placed-IsStreets, vertices-link, vertices-cut}
use map_based_relay.Wave.Sumo.Kept.{get_vertex-allocated, relink-IsStreets}
use map_based_relay.Wave.Sumo.{join, shape_ends}

-- There is a result, and it is as the predicate says.
abbrev pub AtSome : {A : Type 0} → (A → Type 0) → Option A → Type 0
AtSome P none = ⊥
AtSome P (some a) = P a

pub AtSome-bind :
    {A B : Type 0} {P : A → Type 0} (Q : B → Type 0) (o : Option A) (f : A → Option B)
    → AtSome P o
    → ((a : A) → P a → AtSome Q (f a))
    → AtSome Q (o >>= f)
AtSome-bind Q none f h k = elim h [ ]
AtSome-bind Q (some a) f h k = k a h

pub AtSome-mono :
    {A : Type 0} (P Q : A → Type 0)
    → ((a : A) → P a → Q a)
    → (o : Option A) → AtSome P o
    → AtSome Q o
AtSome-mono P Q f none h = h
AtSome-mono P Q f (some a) h = f a h

AtSome-known :
    {A : Type 0} (P : A → Type 0) (o : Option A) → OnSome P o → is_some o ≡ true → AtSome P o
AtSome-known P none h k = let never : ⊥ = ground (arith, k) in elim never [ ]
AtSome-known P (some a) h k = h

find_if-eq :
    (t u : ℕ → Bool) (n : ℕ) (ps : List ℕ)
    → All (λ p. p < n) ps
    → ((p : ℕ) → p < n → t p ≡ u p)
    → find_if t ps ≡ find_if u ps
find_if-eq t u n [] a h = refl
find_if-eq t u n (p ∷ ps) a h = rw (h p a.0, find_if-eq t u n ps a.1 h)

find_if-more :
    (t : ℕ → Bool) (ps qs : List ℕ)
    → is_some (find_if t ps) ≡ true
    → is_some (find_if t (ps ++ qs)) ≡ true
find_if-more t [] qs h = let never : ⊥ = ground (arith, h) in elim never [ ]
find_if-more t (p ∷ ps) qs h = ground (arith, h, find_if-more t ps qs)

find_if-last :
    (t : ℕ → Bool) (ps : List ℕ) (q : ℕ) → t q ≡ true → is_some (find_if t (ps ++ q ∷ [])) ≡ true
find_if-last t [] q h = ground (arith, h)
find_if-last t (p ∷ ps) q h = ground (arith, find_if-last t ps q h)

str_eq_refl : (a : List ℕ) → str_eq a a ≡ true
unfolding str_eq
str_eq_refl [] = refl
str_eq_refl (c ∷ cs) = ground (arith, str_eq_refl cs)

abbrev pub HasName : Graph → List ℕ → Type 0
HasName g id = is_some (get_vertex g id) ≡ true

pub record Keeps (g h : Graph) : Type 0 where
  pub streets : IsStreets h
  pub names : (id : List ℕ) → HasName g id → HasName h id

id_str-relink :
    (g : Graph) (from to road_id p : ℕ)
    → ((vertex_add_edge_to_vertex_undirect_exclusive g from to road_id).heap p).id_str
      ≡ (g.heap p).id_str
unfolding vertex_add_edge_to_vertex_undirect_exclusive vertex_add_edge_to_vertex_undirect
    vertex_remove_edge_to_vertex_undirect vertex_add_edge_to_vertex vertex_remove_edge_to_vertex
id_str-relink g from to road_id p = ground arith

relink-names :
    (g : Graph) (from to road_id : ℕ) (id : List ℕ)
    → IsStreets g
    → get_vertex (vertex_add_edge_to_vertex_undirect_exclusive g from to road_id) id
      ≡ get_vertex g id
unfolding get_vertex vertex_add_edge_to_vertex_undirect_exclusive
relink-names g from to road_id id s =
    let h = vertex_add_edge_to_vertex_undirect_exclusive g from to road_id in
    ap (find_if (λ p. str_eq (h.heap p).id_str id)) (
      vertices-link (vertex_remove_edge_to_vertex_undirect g from to) from to road_id
      ∙ vertices-cut g from to)
    ∙ find_if-eq _ _ g.next g.vertices s.allocated
        (λ p lt. ap (λ n. str_eq n id) (id_str-relink g from to road_id p))

pub placed-Keeps :
    (g : Graph) (id_str : List ℕ) (x y geo_hash : ℕ) (is_intersection : Bool)
    → IsStreets g
    → let c = vertex_create g id_str x y geo_hash is_intersection in
      Keeps g (graph_add_vertex c.0 c.1) × HasName (graph_add_vertex c.0 c.1) id_str
unfolding get_vertex vertex_create graph_add_vertex
placed-Keeps g id_str x y geo_hash is_intersection s = (
  record {
    streets = placed-IsStreets g id_str x y geo_hash is_intersection s;
    names = λ id h. find_if-more _ g.vertices (g.next ∷ []) (
        subst (λ o. is_some o ≡ true)
          (find_if-eq _ _ g.next g.vertices s.allocated (λ p lt. ground (arith, lt))) h);
  },
  find_if-last _ g.vertices g.next (ground (arith, str_eq_refl id_str)),
)

pub Keeps-refl : (g : Graph) → IsStreets g → Keeps g g
Keeps-refl g s = record { streets = s; names = λ id h. h }

pub Keeps-trans : (g h k : Graph) → Keeps g h → Keeps h k → Keeps g k
Keeps-trans g h k a b = record { streets = b.streets; names = λ id n. b.names id (a.names id n) }

pub relink-Keeps :
    (g : Graph) (from to road_id : ℕ)
    → IsStreets g
    → from < g.next
    → to < g.next
    → Keeps g (vertex_add_edge_to_vertex_undirect_exclusive g from to road_id)
relink-Keeps g from to road_id s hf ht = record {
  streets = (relink-IsStreets g from to road_id s hf ht).0;
  names = λ id h. rw (relink-names g from to road_id id s) h;
}

pub known_vertex :
    (g : Graph) (id : List ℕ)
    → IsStreets g
    → HasName g id
    → AtSome (λ p. p < g.next) (get_vertex g id)
known_vertex g id s h =
    AtSome-known (λ p. p < g.next) (get_vertex g id) (get_vertex-allocated g id s) h

pub join-Keeps :
    (g : Graph) (fromid toid : List ℕ) (roadid : ℕ)
    → IsStreets g
    → HasName g fromid
    → HasName g toid
    → AtSome (Keeps g) (join g fromid toid roadid)
unfolding join
join-Keeps g fromid toid roadid s hf ht =
    AtSome-bind (Keeps g) (get_vertex g fromid) _ (known_vertex g fromid s hf) (λ from lf.
      AtSome-bind (Keeps g) (get_vertex g toid) _ (known_vertex g toid s ht)
        (λ to lt. relink-Keeps g from to roadid s lf lt))

pub shape_ends-Keeps :
    (fromid toid : List ℕ) (roadid : ℕ) (first last : List ℕ) (g : Graph)
    → IsStreets g
    → HasName g fromid
    → HasName g toid
    → HasName g first
    → HasName g last
    → AtSome (Keeps g) (shape_ends fromid toid roadid first last g)
unfolding shape_ends
shape_ends-Keeps fromid toid roadid first last g s hf ht h1 h2 =
    AtSome-bind (Keeps g) (join g fromid first roadid) _ (join-Keeps g fromid first roadid s hf h1)
      (λ h k.
        AtSome-mono (Keeps h) (Keeps g) (λ h2 b. Keeps-trans g h h2 k b) (join h last toid roadid)
          (join-Keeps h last toid roadid k.streets (k.names last h2) (k.names toid ht)))
