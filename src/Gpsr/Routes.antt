-- ===== src/Gpsr/Routes.antt =====
-- NS3/gpsr/model/gpsr.cc: what the IP layer and the sockets call: `RouteOutput`, `RouteInput`,
-- `AddHeaders`, the hellos and the start. An interface's device is given by `device_of`, a null
-- device is `none`. Where the outcome is `none` an assertion fails, or the first of no interfaces is
-- read.
pub mod Delivery
pub mod Keeps
pub mod Run
mod Tests
use map_based_relay.Prelude.{
  ◌+◌, find_if, true, none, none, some, not, any_of, ◌==◌, false, Option, [], List, if◌then◌else◌,
  Bool, ℕ, ◌∷◌, ◌++◌, ◌>>=◌, ◌&&◌, ◌||◌, ◌%◌,
}
use map_based_relay.Doubles.{Double, Doubles, zero_double}
use map_based_relay.Mbr.Neighbors.{Vector, origin}
use map_based_relay.Gpsr.Packet.{
  HelloHeader, PositionHeader, type_header, gpsrtype_hello, gpsrtype_pos, serialize_type,
  deserialize_type, serialize_hello, deserialize_hello,
}
use map_based_relay.Gpsr.Ptable.{
  PositionTable, add_entry, zero_address, is_neighbour, invalid_position,
}
use map_based_relay.Gpsr.Rqueue.{QueueEntry}
use map_based_relay.Gpsr.Protocol.{
  Env, Interface, Protocol, Route, Event, deliver, hello, down, send, planar, Removed, with_headers,
  remove_headers, my_pos, next_hop, forwarding,
}
use map_based_relay.Gpsr.Waiting.{unset_address, deferred_route_output}

-- `tagged` says that the packet carries the DeferredRouteOutputTag.
pub record Packet : Type 0 where
  pub uid : ℕ
  pub bytes : List ℕ
  pub tagged : Bool

pub record Ipv4Header : Type 0 where
  pub source : ℕ
  pub destination : ℕ

-- IsBoardcast
abbrev pub is_broadcast : (ip : ℕ) → Bool
is_broadcast ip = ip % 256 == 255

abbrev pub is_my_own_address : Protocol → (src : ℕ) → Bool
is_my_own_address s src = any_of (λ (i : Interface). src == i.local) s.interfaces

-- 127.0.0.1
abbrev pub loopback : ℕ
loopback = 0x7f000001

-- The source of LoopbackRoute: the address on the device, or the first one.
abbrev loopback_source : (device_of : ℕ → ℕ) → List Interface → (oif : Option ℕ) → Option ℕ
loopback_source device_of interfaces none = elim interfaces [ [] ↦ none | i ∷ is ↦ some i.local ]
loopback_source device_of interfaces (some d) =
    elim (find_if (λ (i : Interface). device_of i.local == d) interfaces) [
      | none ↦ none
      | some i ↦ some i.local
    ]

pub loopback_route : (device_of : ℕ → ℕ) → Protocol → Ipv4Header → (oif : Option ℕ) → Option Route
loopback_route device_of s header oif = do
  source ← loopback_source device_of s.interfaces oif
  if source == unset_address
      then none
      else some (record { destination = header.destination; source = source; gateway = loopback })

-- `route` and `loop` carry the packet as it leaves; `refused` is a null route, with the error
-- ERROR_NOROUTETOHOST.
pub data Output : Type 0 where
  route : Route → Packet → Output
  loop : Route → Option Packet → Output
  refused : Output

module _ (env : Env) (device_of : ℕ → ℕ) where
  -- The source of the header, or the node's own address where it is unset.
  abbrev pub route_source : Ipv4Header → ℕ
  route_source header = if header.source == unset_address then env.local else header.source

  abbrev pub wrong_device : Ipv4Header → (oif : Option ℕ) → Bool
  wrong_device header none = false
  wrong_device header (some d) = not (device_of (route_source header) == d)

  -- A route, unless the device does not match.
  abbrev pub over :
      Protocol → Ipv4Header → (oif : Option ℕ) → Packet → (gateway : ℕ) → Protocol × Output
  over s header oif p gateway = if wrong_device header oif then (s, refused) else (
    s,
    route
        (record {
          destination = header.destination;
          source = route_source header;
          gateway = gateway;
        })
        p,
  )

  -- The packet takes the loopback, and comes back through RouteInput.
  abbrev pub back : Protocol → Ipv4Header → (oif : Option ℕ) → Packet → Option (Protocol × Output)
  back s header oif p = do
    r ← loopback_route device_of s header oif
    some (s, loop r (some (record p { tagged = true })))

  pub route_output :
      Protocol → Option Packet → Ipv4Header → (oif : Option ℕ) → Option (Protocol × Output)
  unfolding loopback_route
  route_output s none header oif = do
    r ← loopback_route device_of s header oif
    some (s, loop r none)
  route_output s (some p) header oif =
      let dst = header.destination in
      let dst_pos = env.service.position dst in
      let lost =
        env.doubles.eq (env.distance dst_pos invalid_position) zero_double
        && env.service.is_in_search dst in
      let hop = next_hop env s.neighbors dst dst_pos in
      let s' = record s { neighbors = hop.0 } in
      elim s.interfaces [
        | [] ↦ some (s, refused)
        | i ∷ is ↦
            if is_broadcast dst
            then some (over s header oif p dst)
            else if lost
            then back s header oif p
            else if hop.1 == zero_address
            then back s' header oif p
            else some (over s' header oif p hop.1)
      ]

-- `mine` says that the IP layer takes the destination for one of the node's on that interface.
pub route_input : Env → Protocol → Packet → Ipv4Header → (mine : Bool) → Option (Protocol × Bool)
route_input env s p header mine =
    let entry : QueueEntry = record {
      uid = p.uid;
      dst = header.destination;
      source = header.source;
      bytes = p.bytes;
      expire = 0;
    } in
    elim s.interfaces [
      | [] ↦ some (s, false)
      | i ∷ is ↦
          if p.tagged && is_my_own_address s header.source
          then some (deferred_route_output env s entry, true)
          else if mine
          then (do
            r ← remove_headers env p.bytes
            some (if r.type.valid then (send (deliver r.rest) s, true) else (s, false)))
          else forwarding env s header.destination header.source p.bytes
    ]

-- The header that AddHeaders makes.
abbrev pub own_header : Env → (destination : ℕ) → PositionHeader
own_header env destination =
    let known = not (is_broadcast destination) in
    let dst_pos = if known then env.service.position destination else origin in
    record {
      dst_posx = dst_pos.x;
      dst_posy = dst_pos.y;
      updated = if known then env.service.update_seconds destination else 0;
      rec_posx = zero_double;
      rec_posy = zero_double;
      in_rec = 0;
      last_posx = env.my_x;
      last_posy = env.my_y;
      src_posx = env.my_x;
      src_posy = env.my_y;
    }

-- AddHeaders, on a packet of the node's own.
pub add_headers : Env → Protocol → (bytes : List ℕ) → (source destination protocol : ℕ) → Protocol
add_headers env s bytes source destination protocol =
    let out = with_headers env (type_header gpsrtype_pos) (own_header env destination) bytes in
    send (down source destination protocol out) s

-- RecvGPSR with UpdateRouteToNeighbor. A valid packet of either type is read as a hello.
pub recv_gpsr : Env → Protocol → (sender : ℕ) → (bytes : List ℕ) → Option Protocol
recv_gpsr env s sender bytes = do
  (t, i) ← deserialize_type env.buffer (type_header gpsrtype_hello) bytes
  if not t.valid then some s else (do
    (h, rest) ← deserialize_hello env.buffer i
    some (record s {
      neighbors =
          add_entry env.past_end env.now s.neighbors sender (planar h.origin_posx h.origin_posy);
    }))

abbrev pub hello_bytes : Env → List ℕ
hello_bytes env =
    serialize_type env.buffer (type_header gpsrtype_hello)
    ++ serialize_hello env.buffer (record { origin_posx = env.my_x; origin_posy = env.my_y })

abbrev pub hello_destination : Interface → ℕ
hello_destination i = if i.all_ones then 0xffffffff else i.broadcast

pub hello_loop : Env → List Interface → Protocol → Protocol
hello_loop env [] s = s
hello_loop env (i ∷ is) s =
    hello_loop env is (send (hello (hello_destination i) (hello_bytes env)) s)

abbrev pub send_hello : Env → Protocol → Protocol
send_hello env s = hello_loop env s.interfaces s

-- `jitter` is the random number, added to the interval. It lies between minus and plus half the
-- interval, and is given here with the interval already in it.
pub hello_timer_expire : Env → (interval_with_jitter : ℕ) → Protocol → Protocol
unfolding hello_loop
hello_timer_expire env interval_with_jitter s =
    if s.nb_from_mbr
    then s
    else record (send_hello env s) { hello_timer = some (env.now + interval_with_jitter) }

abbrev pub start : Protocol → Protocol
start s = record s { queued_addresses = [] }
