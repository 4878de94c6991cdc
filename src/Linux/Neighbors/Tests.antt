-- ===== src/Linux/Neighbors/Tests.antt =====
-- Tables with two nodes, one of them in the set around the block 12.
use Prim.{tt}
use map_based_relay.Prelude.{List, [], ◌∷◌, some, ◌≡◌, refl, ℕ, false, true, none}
use map_based_relay.Wave.GeoHash.{GeoHashSetCoordinate, scan_columns, geohash_get_neighbors_in_set}
use map_based_relay.Mbr.Neighbors.{Neighbor, Neighbors, get_nb_from_set_best, purge}
use map_based_relay.Linux.Neighbors.{
  NeighborTable, neighbor_getnode_fromset_best, neighbor_getgeohash_fromip,
  neighbor_getnode_fromset_random,
}
use map_based_relay.Linux.Neighbors.Best.{
  IsSameTable, mac_of, neighbor_getnode_fromset_best-get_nb_from_set_best,
}

abbrev around : GeoHashSetCoordinate
around = geohash_get_neighbors_in_set (record { cell = λ i j. 0; sx = 3; sy = 3 }) 12

abbrev table : List NeighborTable
table =
    record { ip = 1; mac = 11; geo_hash = 12; direction = 90; isvalid = false }
    ∷ record { ip = 2; mac = 22; geo_hash = 500; direction = 90; isvalid = true }
    ∷ []

abbrev node : (ip mac geohash : ℕ) → Neighbor
node ip mac geohash = record {
  ip_address = ip;
  hardware_address = mac;
  expire_time = 100;
  setting_time = 0;
  close = false;
  geohash = geohash;
  direction = 90;
  x = 0;
  y = 0;
}

abbrev nodes : Neighbors
nodes = record { nb = node 1 11 12 ∷ node 2 22 500 ∷ []; delay = 1; timer = none; arp = [] }

known : neighbor_getgeohash_fromip table 2 ≡ 500
unfolding neighbor_getgeohash_fromip
known = refl

unknown : neighbor_getgeohash_fromip table 3 ≡ 0
unfolding neighbor_getgeohash_fromip
unknown = refl

-- An entry that is not valid is chosen all the same.
chosen : mac_of (neighbor_getnode_fromset_random table around) ≡ some 11
unfolding neighbor_getnode_fromset_random geohash_get_neighbors_in_set scan_columns
chosen = refl

nodes-same : IsSameTable table (purge 5 nodes).nb
unfolding purge
nodes-same = (
  record { mac = refl; geo_hash = refl; direction = refl },
  (record { mac = refl; geo_hash = refl; direction = refl }, tt),
)

neighbor_getnode_fromset_best-get_nb_from_set_best_example :
    mac_of (neighbor_getnode_fromset_best table around) ≡ (get_nb_from_set_best 5 nodes around).1
neighbor_getnode_fromset_best-get_nb_from_set_best_example =
    neighbor_getnode_fromset_best-get_nb_from_set_best 5 table nodes around nodes-same
