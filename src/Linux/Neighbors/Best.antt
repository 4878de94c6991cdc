-- ===== src/Linux/Neighbors/Best.antt =====
-- The kernel module and the ns-3 model choose the same relay.
use Prim.{Unit, tt}
use map_based_relay.Prelude.{
  ℕ, List, [], ◌∷◌, Option, none, some, ◌≡◌, ltb, if◌then◌else◌, arith, refl, Option-cases, inl,
  inr, ◌∙◌, sym,
}
use map_based_relay.Wave.GeoHash.{GeoHashSetCoordinate}
use map_based_relay.Mbr.Neighbors.{
  Neighbor, Neighbors, purge, get_nb_from_set_best, get_dtime as dtime_ns3, best_loop as loop_ns3,
  mac48_default,
}
use map_based_relay.Linux.Neighbors.{
  NeighborTable, neighbor_getnode_fromset_best, get_dtime, best_loop,
}

pub record IsSameNode (k : NeighborTable) (n : Neighbor) : Type 0 where
  pub mac : k.mac ≡ n.hardware_address
  pub geo_hash : k.geo_hash ≡ n.geohash
  pub direction : k.direction ≡ n.direction

-- The tables have the same nodes in the same order.
abbrev pub IsSameTable : List NeighborTable → List Neighbor → Type 0
IsSameTable [] [] = Unit {0}
IsSameTable [] (n ∷ ns) = ⊥
IsSameTable (k ∷ ks) [] = ⊥
IsSameTable (k ∷ ks) (n ∷ ns) = IsSameNode k n × IsSameTable ks ns

abbrev pub mac_of : Option NeighborTable → Option ℕ
mac_of none = none
mac_of (some n) = some n.mac

get_dtime-same :
    (k : NeighborTable) (n : Neighbor) (g : GeoHashSetCoordinate)
    → IsSameNode k n
    → get_dtime k g ≡ dtime_ns3 n.geohash n.direction g
unfolding get_dtime dtime_ns3
get_dtime-same k n g s = rw (s.geo_hash, s.direction) refl

-- What ns-3 holds as the best address, where the module holds an entry.
abbrev best_mac : Option NeighborTable → ℕ
best_mac none = mac48_default
best_mac (some k) = k.mac

-- An entry is held once a dwelling time is.
abbrev IsHeld : Option NeighborTable → ℕ → Type 0
IsHeld none d = d ≡ 0
IsHeld (some k) d = Unit {0}

best_loop-same :
    (g : GeoHashSetCoordinate) (dtime_max : ℕ) (best : Option NeighborTable) (mac dtime_best : ℕ)
    (ks : List NeighborTable) (ns : List Neighbor)
    → best_mac best ≡ mac
    → IsHeld best dtime_best
    → IsSameTable ks ns
    → mac_of (best_loop g dtime_max best dtime_best ks) ≡ loop_ns3 g dtime_max mac dtime_best ns
unfolding best_loop loop_ns3
best_loop-same g dtime_max none mac d [] [] m h s = ground arith
best_loop-same g dtime_max (some k) mac d [] [] m h s = ground arith
best_loop-same g dtime_max best mac d [] (n ∷ ns) m h s = elim s [ ]
best_loop-same g dtime_max best mac d (k ∷ ks) [] m h s = elim s [ ]
best_loop-same g dtime_max best mac d (k ∷ ks) (n ∷ ns) m h s =
    elim (Option-cases (get_dtime k g)) [
      | inl e ↦
          let e' = sym (get_dtime-same k n g s.0) ∙ e in
          ground (arith, e, e', best_loop-same g dtime_max best mac d ks ns m h s.1)
      | inr (t, e) ↦
          let e' = sym (get_dtime-same k n g s.0) ∙ e in
          ground (
            arith,
            e,
            e',
            s.0.mac,
            best_loop-same g dtime_max best mac d ks ns m h s.1,
            best_loop-same g dtime_max (some k) n.hardware_address t ks ns s.0.mac tt s.1,
          )
    ]

-- Where the shared table holds the nodes that the table of the ns-3 model holds after its purge, in the
-- same order, the module and the model choose a relay with the same address, or both choose none.
pub neighbor_getnode_fromset_best-get_nb_from_set_best :
    (now : ℕ) (table : List NeighborTable) (s : Neighbors) (g : GeoHashSetCoordinate)
    → IsSameTable table (purge now s).nb
    → mac_of (neighbor_getnode_fromset_best table g) ≡ (get_nb_from_set_best now s g).1
unfolding neighbor_getnode_fromset_best get_nb_from_set_best
neighbor_getnode_fromset_best-get_nb_from_set_best now table s g same =
    let dtime_max = if ltb g.sy g.sx then g.sx else g.sy in
    ground
      (arith, best_loop-same g dtime_max none mac48_default 0 table (purge now s).nb refl refl same)
