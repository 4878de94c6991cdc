-- ===== src/Gpsr/Waiting/Tests.antt =====
-- Three packets wait at the node of the samples, two of them for 9.
use map_based_relay.Prelude.{◌≡◌, refl, ◌∷◌, [], some, true}
use map_based_relay.Gpsr.Samples.{env, at, protocol, two_entries, waiting}
use map_based_relay.Gpsr.Ptable.{
  purge, is_neighbour, best_neighbor, candidates, greedy, closest, unique_after,
}
use map_based_relay.Gpsr.Protocol.{Protocol, next_hop}
use map_based_relay.Gpsr.Waiting.{send_packet_from_queue}
use map_based_relay.Gpsr.Waiting.Loops.{IsDrained, send_packet_from_queue-IsDrained}

abbrev three_wait : Protocol
three_wait = record protocol {
  queue = record (protocol.queue) { queue = waiting 1 9 ∷ waiting 2 7 ∷ waiting 3 9 ∷ [] };
  queued_addresses = 9 ∷ 7 ∷ 9 ∷ [];
  check_timer = some 1600000000;
}

send_packet_from_queue-IsDrained_example :
    (s' : Protocol) × (send_packet_from_queue env three_wait 9 ≡ some (s', true))
    × IsDrained env 9 (next_hop env two_entries 9 (at 50)).1 three_wait s'
unfolding next_hop purge is_neighbour best_neighbor candidates greedy closest unique_after
send_packet_from_queue-IsDrained_example =
    send_packet_from_queue-IsDrained env 9 three_wait refl refl refl
