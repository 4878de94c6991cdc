-- ===== src/Wave/Send/Tests.antt =====
-- Packets that leave the corner of the tests of Wave/Route, with addresses as six bytes, the last one
-- first.
use map_based_relay.Prelude.{◌≡◌, refl, [], ◌∷◌, some, none, true, false}
use map_based_relay.Wire.LittleEndian.{little_endian}
use map_based_relay.Mbr.Neighbors.{Neighbor, get_geohash_from_ip_in_nb}
use map_based_relay.Wave.Route.{mbr_route}
use map_based_relay.Wave.Route.Samples.{
  forty, corner, here, table_both, relayed_both, corner_forward,
}
use map_based_relay.Wave.Send.Samples.{digits, digits-Copies}
use map_based_relay.Wave.Send.{by_arp, send_by_mbr, enqueue_frame, peek_tag}
use map_based_relay.Wave.Send.Frames.{IsSentByRelay, send_by_mbr-enqueue_frame}

-- A packet with an old tag.
send_by_mbr-enqueue_frame_example :
    (n : Neighbor) × ((get_geohash_from_ip_in_nb 10 table_both 5).1 ≡ some n)
    × IsSentByRelay little_endian digits 77 [] 3 4 8 relayed_both n (
        send_by_mbr little_endian digits [] forty mbr_route
          (some corner)
          10
          here
          table_both
          5
          true
          false
          (some (0 ∷ [])))
send_by_mbr-enqueue_frame_example =
    send_by_mbr-enqueue_frame little_endian digits [] forty mbr_route corner 10 here table_both 5 3
      4 8 77 (some (0 ∷ [])) relayed_both digits-Copies corner_forward refl

-- A broadcast of the subnet keeps what it has, and goes on to ARP.
subnet_kept :
    send_by_mbr little_endian digits [] forty mbr_route
      (some corner)
      10
      here
      table_both
      5
      true
      true
      (some (0 ∷ []))
    ≡ some (record { route = mbr_route; nb = table_both; way = by_arp (some (0 ∷ [])) })
unfolding send_by_mbr
subnet_kept = refl

-- A frame without a tag goes to its own destination.
plain_frame :
    enqueue_frame little_endian digits [] 3 4 8 55 none
    ≡ some (record { type_mbr_data = false; addr1 = 55; addr2 = 3; addr3 = 4; addr4 = none }, 8)
unfolding enqueue_frame peek_tag
plain_frame = refl
