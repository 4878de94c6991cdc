-- ===== src/Linux/Table.antt =====
-- Linux/kernel-module/mbr_route.c and mbr_route.h: the relay table, which keeps the next hop that was
-- chosen for a destination. The kernel's list is a list, from its head on; an entry is always
-- allocated. The read of the node's own block is an argument of the callers.
pub mod Refinement
pub mod Lookup
mod Tests
use map_based_relay.Prelude.{
  ℕ, List, [], ◌∷◌, Option, none, some, Bool, true, false, ◌&&◌, ◌==◌, if◌then◌else◌, find_if, map,
}

pub record RelayTableList : Type 0 where
  pub geo_hash_this : ℕ
  pub geo_hash_nexthop : ℕ
  pub geo_hash_dst : ℕ
  pub isvalid : Bool

-- `step` is not read.
abbrev pub bitcmp : (a b step : ℕ) → Bool
bitcmp a b step = a == b

abbrev geohash_step_bit : ℕ
geohash_step_bit = 12

abbrev serves : (dst_geo_hash : ℕ) → RelayTableList → Bool
serves dst_geo_hash entry = bitcmp entry.geo_hash_dst dst_geo_hash geohash_step_bit

-- 0 on a miss.
pub mbrtable_get_nexthop_geohash : List RelayTableList → (dst_geo_hash : ℕ) → ℕ
mbrtable_get_nexthop_geohash table dst_geo_hash =
    elim (find_if (λ entry. serves dst_geo_hash entry && entry.isvalid) table) [
      | some entry ↦ entry.geo_hash_nexthop
      | none ↦ 0
    ]

abbrev pub outrange : (updated_geohash : ℕ) → RelayTableList → RelayTableList
outrange updated_geohash entry =
    if bitcmp entry.geo_hash_this updated_geohash geohash_step_bit
    then record entry { isvalid = false }
    else entry

pub update_mbrtable_outrange : (updated_geohash : ℕ) → List RelayTableList → List RelayTableList
update_mbrtable_outrange updated_geohash table = map (outrange updated_geohash) table

-- The loop of update_mbrtable: the first entry of the destination, if there is one, is renewed. Its
-- geoHash_this stays.
pub renew : (dst_geohash nexthop_geohash : ℕ) → List RelayTableList → Option (List RelayTableList)
renew dst_geohash nexthop_geohash [] = none
renew dst_geohash nexthop_geohash (entry ∷ rest) =
    if serves dst_geohash entry
    then some (record entry { geo_hash_nexthop = nexthop_geohash; isvalid = true } ∷ rest)
    else elim (renew dst_geohash nexthop_geohash rest) [
      | none ↦ none
      | some rest' ↦ some (entry ∷ rest')
    ]

pub update_mbrtable :
    (this_geohash dst_geohash nexthop_geohash : ℕ) → List RelayTableList → List RelayTableList
unfolding renew
update_mbrtable this_geohash dst_geohash nexthop_geohash table =
    elim (renew dst_geohash nexthop_geohash table) [
      | some table' ↦ table'
      | none ↦
          record {
            geo_hash_this = this_geohash;
            geo_hash_nexthop = nexthop_geohash;
            geo_hash_dst = dst_geohash;
            isvalid = true;
          }
          ∷ table
    ]
