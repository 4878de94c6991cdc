-- ===== src/Linux/Table/Lookup.antt =====
-- What the next hops are after a choice has been noted.
use map_based_relay.Prelude.{refl, ℕ, List, [], ◌∷◌, ◌≡◌, ◌&&◌, ◌==◌, if◌then◌else◌, is_some, arith}
use map_based_relay.Linux.Table.{
  RelayTableList, mbrtable_get_nexthop_geohash, update_mbrtable, renew,
}
use map_based_relay.Linux.Table.Refinement.{renewed}

get-renewed :
    (d next dst : ℕ) (es : List RelayTableList)
    → mbrtable_get_nexthop_geohash (renewed es (renew d next es)) dst ≡ (
        if d == dst && is_some (renew d next es) then next else mbrtable_get_nexthop_geohash es dst)
unfolding mbrtable_get_nexthop_geohash renew
get-renewed d next dst [] = ground arith
get-renewed d next dst (e ∷ es) = ground (arith, get-renewed d next dst es)

-- The next hop of the destination is the new one, the others stay.
pub get-update :
    (this d next dst : ℕ) (es : List RelayTableList)
    → mbrtable_get_nexthop_geohash (update_mbrtable this d next es) dst
      ≡ (if d == dst then next else mbrtable_get_nexthop_geohash es dst)
unfolding mbrtable_get_nexthop_geohash update_mbrtable
get-update this d next dst es = ground (arith, get-renewed d next dst es)

pub get-empty : (dst : ℕ) → mbrtable_get_nexthop_geohash [] dst ≡ 0
unfolding mbrtable_get_nexthop_geohash
get-empty dst = refl
