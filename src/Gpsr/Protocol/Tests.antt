-- ===== src/Gpsr/Protocol/Tests.antt =====
-- The node of the samples passes a packet for 9 on to 4.
use map_based_relay.Prelude.{◌≡◌, refl, ◌∷◌, [], some, true, Bool, OnSome, arith}
use Prim.{tt}
use map_based_relay.Gpsr.Samples.{
  env, env-InRange, protocol, two_entries, whole_numbers-IsOrdered, to_nine, to_nine-InRange,
}
use map_based_relay.Gpsr.Packet.{type_header, gpsrtype_pos}
use map_based_relay.Gpsr.Ptable.{
  purge, is_neighbour, best_neighbor, candidates, greedy, closest, unique_after,
}
use map_based_relay.Gpsr.Protocol.{Protocol, with_headers, forwarding, next_hop, newest_place}
use map_based_relay.Gpsr.Protocol.Headers.{AllCarry, carried, forwarding-AllCarry}
use map_based_relay.Gpsr.Protocol.Greedy.{IsForwarded, forwarding-IsForwarded}

hop_four : (next_hop env (purge 1600000000 two_entries) 9 (newest_place env 9 to_nine)).1 ≡ 4
unfolding next_hop purge is_neighbour best_neighbor candidates greedy closest unique_after
hop_four = refl

forwarding-AllCarry_example :
    OnSome
      (λ (o : Protocol × Bool). AllCarry env (7 ∷ []) o.0)
      (forwarding env protocol 9 1 (with_headers env (type_header gpsrtype_pos) to_nine (7 ∷ [])))
forwarding-AllCarry_example =
    forwarding-AllCarry env env-InRange 9 1 (7 ∷ []) protocol
      (with_headers env (type_header gpsrtype_pos) to_nine (7 ∷ []))
      (carried env to_nine (7 ∷ []) to_nine-InRange) tt

forwarding-IsForwarded_example :
    (s' : Protocol) × (forwarding env protocol 9 1
        (with_headers env (type_header gpsrtype_pos) to_nine (7 ∷ []))
      ≡ some (s', true))
    × IsForwarded env 9 1 to_nine (7 ∷ []) protocol s'
forwarding-IsForwarded_example =
    forwarding-IsForwarded env protocol 9 1 to_nine (7 ∷ []) env-InRange whole_numbers-IsOrdered
      to_nine-InRange refl (rw hop_four (omega arith))
