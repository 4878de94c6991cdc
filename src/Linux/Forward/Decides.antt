-- ===== src/Linux/Forward/Decides.antt =====
-- The module comes to a decision for every packet.
use map_based_relay.Prelude.{
  ℕ, ◌<◌, List, [], ◌∷◌, Option, none, some, ◌≡◌, inl, inr, All, Bool-cases, Option-cases, find_if,
  ◌==◌, is_some, arith, refl, Bool, subst, true, ap, ◌∙◌, ◌>>=◌,
}
use map_based_relay.Wave.Graph.{Graph}
use map_based_relay.Wave.Cross.Ids.{In}
use map_based_relay.Linux.Neighbors.{NeighborTable, neighbor_getnode_fromip}
use map_based_relay.Linux.Cross.{uint64_max, cross_vertex}
use map_based_relay.Linux.Cross.Ends.{IsClosed, cross_vertex-ends}
use map_based_relay.Linux.Cross.Nearest.{gap, find_vertex-found}
use map_based_relay.Linux.Forward.{intersection, relay_through, mbr_forward}
use map_based_relay.Linux.Forward.Cache.{forward-unknown, forward-known}

pub is_some-none : {A : Type 0} {o : Option A} → o ≡ none → is_some o ≡ true → ⊥
is_some-none e h = cc

is_some-bind :
    {A B : Type 0} (o : Option A) (f : A → B)
    → is_some o ≡ true
    → is_some (o >>= λ a. some (f a)) ≡ true
is_some-bind none f h = cc
is_some-bind (some a) f h = refl

find_if-All :
    (P : NeighborTable → Type 0) (test : NeighborTable → Bool) (ns : List NeighborTable)
    (n : NeighborTable)
    → find_if test ns ≡ some n
    → All P ns
    → P n
find_if-All P test [] n e a = cc
find_if-All P test (m ∷ ns) n e a = elim (Bool-cases (test m)) [
  | inl on ↦ let eq : m ≡ n = ground (arith, on, e) in subst P eq a.0
  | inr off ↦ find_if-All P test ns n (ground (arith, off, e)) a.1
]

gap-less :
    (g : Graph) (geo_hash p : ℕ)
    → (g.heap p).geo_hash < uint64_max
    → geo_hash < uint64_max
    → gap g geo_hash p < uint64_max
gap-less g geo_hash p lt lt' = ground arith

intersection-some :
    (g : Graph) (this dst p : ℕ)
    → IsClosed g
    → In g.vertices p
    → (g.heap p).geo_hash < uint64_max
    → this < uint64_max
    → dst < uint64_max
    → is_some (intersection g this dst) ≡ true
unfolding intersection
intersection-some g this dst p closed i lp lt ld =
    let (u, eu, iu) = find_vertex-found g this p i (gap-less g this p lp lt) in
    let (v, ev, iv) = find_vertex-found g dst p i (gap-less g dst p lp ld) in
    let answers = cross_vertex-ends g u v closed iu in
    elim (Option-cases (cross_vertex g u v)) [
      | inl e ↦ elim (is_some-none e answers) [ ]
      | inr (c, e) ↦ rw (eu, ev, e) refl
    ]

-- With a closed graph that has a vertex, mbr_forward comes to a result.
pub mbr_forward-some :
    (g : Graph) (neighbors : List NeighborTable) (this nexthop p : ℕ)
    → IsClosed g
    → In g.vertices p
    → (g.heap p).geo_hash < uint64_max
    → this < uint64_max
    → All (λ n. n.geo_hash < uint64_max) neighbors
    → is_some (mbr_forward g neighbors this nexthop) ≡ true
unfolding neighbor_getnode_fromip
mbr_forward-some g neighbors this nexthop p closed i lp lt ln =
    elim (Option-cases (neighbor_getnode_fromip neighbors nexthop)) [
      | inl e ↦ ap is_some (forward-unknown g neighbors this nexthop e)
      | inr (n, e) ↦
          let ld =
            find_if-All (λ n. n.geo_hash < uint64_max) (λ n. n.ip == nexthop) neighbors n e ln in
          ap is_some (forward-known g neighbors this nexthop n e)
          ∙ is_some-bind (intersection g this n.geo_hash) (relay_through neighbors n.mac)
              (intersection-some g this n.geo_hash p closed i lp lt ld)
    ]
