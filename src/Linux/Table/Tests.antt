-- ===== src/Linux/Table/Tests.antt =====
-- A vehicle at block 7 chooses the block 40 on the way to 99, and moves.
use map_based_relay.Prelude.{List, [], ◌∷◌, ◌≡◌, refl}
use map_based_relay.Linux.Table.{
  mbrtable_get_nexthop_geohash, update_mbrtable, update_mbrtable_outrange,
}
use map_based_relay.Linux.Table.Refinement.{
  TableCall, moved, chose, calls, choices, answer, mbrtable_get_nexthop_geohash-calls,
}

kept : mbrtable_get_nexthop_geohash (update_mbrtable 7 99 40 []) 99 ≡ 40
unfolding mbrtable_get_nexthop_geohash update_mbrtable
kept = refl

-- The move to block 8 leaves the choice that was made at 7, the return to 7 takes it back.
stale :
    mbrtable_get_nexthop_geohash (update_mbrtable_outrange 8 (update_mbrtable 7 99 40 [])) 99 ≡ 40
unfolding mbrtable_get_nexthop_geohash update_mbrtable_outrange update_mbrtable
stale = refl

abbrev a_drive : List TableCall
a_drive = moved 7 ∷ moved 8 ∷ chose 7 99 40 ∷ []

mbrtable_get_nexthop_geohash-calls_example :
    mbrtable_get_nexthop_geohash (calls a_drive) 99 ≡ answer (choices a_drive 99)
mbrtable_get_nexthop_geohash-calls_example = mbrtable_get_nexthop_geohash-calls a_drive 99
