-- ===== src/Gpsr/Routes/Tests.antt =====
-- The node of the samples sends a packet to 9, and one of its packets comes back to wait.
use map_based_relay.Prelude.{
  ap, length, List, ◌≡◌, ◌≢◌, refl, ℕ, ◌∷◌, [], some, true, false, All, is_some, inl, arith,
}
use map_based_relay.Wire.LittleEndian.{little_endian}
use map_based_relay.Gpsr.Samples.{two_entries, at, env, env-InRange, protocol}
use map_based_relay.Gpsr.Ptable.{
  purge, is_neighbour, best_neighbor, candidates, greedy, closest, unique_after,
}
use map_based_relay.Gpsr.Packet.{type_header, gpsrtype_pos}
use map_based_relay.Gpsr.Rqueue.{QueueEntry}
use map_based_relay.Gpsr.Protocol.{
  forward, next_hop, forward_greedy, greedy_header, forwarding, Protocol, with_headers, send,
  deliver,
}
use map_based_relay.Gpsr.Protocol.Headers.{remove-with_headers}
use map_based_relay.Gpsr.Waiting.{deferred_route_output}
use map_based_relay.Gpsr.Waiting.Invariant.{is_listed}
use map_based_relay.Gpsr.Routes.{Packet, Ipv4Header, route_input, add_headers, start, own_header}
use map_based_relay.Gpsr.Routes.Run.{here, next, inputs, adds, Reach-waiting}
use map_based_relay.Gpsr.Routes.Delivery.{
  own_header-InRange, hops, Journey, begins, Journey-delivered,
}

abbrev to_nine_ip : Ipv4Header
to_nine_ip = record { source = 1; destination = 9 }

abbrev deferred : Packet
deferred = record { uid = 5; bytes = 7 ∷ []; tagged = true }

abbrev entry : QueueEntry
entry = record { uid = 5; dst = 9; source = 1; bytes = 7 ∷ []; expire = 0 }

abbrev one_waits : Protocol
one_waits = deferred_route_output env (start protocol) entry

deferred_one : route_input env (start protocol) deferred to_nine_ip false ≡ some (one_waits, true)
unfolding route_input
deferred_one = refl

Reach-waiting_example :
    let t = add_headers env one_waits (7 ∷ []) 1 9 17 in
    All (λ e. is_listed t.queued_addresses e ≡ true) t.queue.queue
    × (t.queue.queue ≢ [] → is_some t.check_timer ≡ true)
Reach-waiting_example = Reach-waiting protocol (add_headers env one_waits (7 ∷ []) 1 9 17) refl (
    next
      (next here
        (inputs env (start protocol) one_waits deferred to_nine_ip false true deferred_one))
      (adds env one_waits (7 ∷ []) 1 9 17))

abbrev handed_down : List ℕ
handed_down = with_headers env (type_header gpsrtype_pos) (own_header env 9) (7 ∷ [])

at_the_start : Journey little_endian (7 ∷ []) handed_down
unfolding add_headers
at_the_start = begins env protocol 1 9 17 refl env-InRange refl (inl refl)

abbrev passed_on : List ℕ
passed_on =
    with_headers env (type_header gpsrtype_pos) (greedy_header env (own_header env 9) (at 50) 1)
      (7 ∷ [])

forwarded :
    forwarding env protocol 9 1 handed_down
    ≡ some (
      send
          (forward (record { destination = 9; source = 1; gateway = 4 }) passed_on)
          (record protocol { neighbors = two_entries }),
      true,
    )
unfolding forwarding forward_greedy next_hop purge is_neighbour best_neighbor candidates greedy
    closest unique_after
forwarded =
    rw (remove-with_headers env (own_header env 9) (7 ∷ []) (own_header-InRange env env-InRange 9))
      refl

on_the_way : Journey little_endian (7 ∷ []) passed_on
on_the_way =
    hops env protocol
      (send (forward (record { destination = 9; source = 1; gateway = 4 }) passed_on)
        (record protocol { neighbors = two_entries }))
      9 1 true (record { destination = 9; source = 1; gateway = 4 }) refl env-InRange refl
      at_the_start forwarded (inl refl)

Journey-delivered_example :
    route_input env protocol (record { uid = 5; bytes = passed_on; tagged = false }) to_nine_ip true
    ≡ some (send (deliver (7 ∷ [])) protocol, true)
Journey-delivered_example =
    Journey-delivered (7 ∷ []) passed_on env protocol 5 to_nine_ip at_the_start
      (λ e. omega (arith, ap length e))
