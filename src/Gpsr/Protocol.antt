-- ===== src/Gpsr/Protocol.antt =====
-- NS3/gpsr/model/gpsr.cc and gpsr.h: the state of RoutingProtocol, the headers on its packets, and how
-- a packet is passed on: `Forwarding` and `RecoveryMode`. A packet is its bytes. What the node hands
-- to the callbacks of ns-3 is the list `sent`, oldest first. An outcome `none` is a header that ends
-- behind the packet, which ns-3 aborts on, or the read behind the end of the table in BestAngle.
pub mod Ranges
pub mod Headers
pub mod Frame
pub mod Greedy
mod Tests
use map_based_relay.Prelude.{
  true, ltb, false, some, not, ◌==◌, if◌then◌else◌, Option, Bool, [], List, ℕ, ◌∷◌, ◌++◌, ◌>>=◌,
  ◌&&◌, ◌||◌,
}
use map_based_relay.Wire.{Buffer}
use map_based_relay.Doubles.{Double, Doubles, zero_double}
use map_based_relay.Mbr.Neighbors.{Vector, NodeList}
use map_based_relay.Gpsr.Packet.{
  TypeHeader, PositionHeader, type_header, gpsrtype_pos, serialize_type, deserialize_type,
  serialize_position, deserialize_position,
}
use map_based_relay.Gpsr.Ptable.{PositionTable, purge, is_neighbour, best_neighbor, zero_address}
use map_based_relay.Gpsr.Rqueue.{RequestQueue}
use map_based_relay.Gpsr.Angle.{best_angle}
use map_based_relay.Gpsr.Location.{LocationService}

-- What surrounds the node at the moment of an event. `local` is the address of its first interface.
pub record Env : Type 0 where
  pub buffer : Buffer
  pub doubles : Doubles
  pub distance : Vector → Vector → Double
  pub angle : Vector → Vector → Vector → Double
  pub nodes : NodeList
  pub service : LocationService
  pub now : ℕ
  pub my_x : Double
  pub my_y : Double
  pub local : ℕ
  pub past_end : ℕ

-- An Ipv4InterfaceAddress: `all_ones` says that its mask is.
pub record Interface : Type 0 where
  pub local : ℕ
  pub broadcast : ℕ
  pub all_ones : Bool

-- An Ipv4Route, its device left out.
pub record Route : Type 0 where
  pub destination : ℕ
  pub source : ℕ
  pub gateway : ℕ

-- What reaches the callbacks: the unicast callback, local delivery, the two trace sources, a hello on
-- a socket, and the target below UDP.
pub data Event : Type 0 where
  forward : Route → (bytes : List ℕ) → Event
  deliver : (bytes : List ℕ) → Event
  rec_count : (bytes : List ℕ) → Event
  drop_pkt : (bytes : List ℕ) → Event
  hello : (destination : ℕ) → (bytes : List ℕ) → Event
  down : (source destination protocol : ℕ) → (bytes : List ℕ) → Event

pub record Protocol : Type 0 where
  pub neighbors : PositionTable
  pub queue : RequestQueue
  pub queued_addresses : List ℕ
  pub check_timer : Option ℕ
  pub hello_timer : Option ℕ
  pub hello_interval : ℕ
  pub interfaces : List Interface
  pub nb_from_mbr : Bool
  pub sent : List Event

abbrev pub send : Event → Protocol → Protocol
send e s = record s { sent = s.sent ++ e ∷ [] }

abbrev pub planar : (x y : Double) → Vector
planar x y = record { x = x; y = y; z = zero_double }

-- PositionHeader ()
abbrev pub position_header : PositionHeader
position_header = record {
  dst_posx = zero_double;
  dst_posy = zero_double;
  updated = 0;
  rec_posx = zero_double;
  rec_posy = zero_double;
  in_rec = 0;
  last_posx = zero_double;
  last_posy = zero_double;
  src_posx = zero_double;
  src_posy = zero_double;
}

-- A packet without its headers. A hello has no position header: there the default stands.
pub record Removed : Type 0 where
  pub type : TypeHeader
  pub header : PositionHeader
  pub rest : List ℕ

module _ (env : Env) where
  pub with_headers : TypeHeader → PositionHeader → List ℕ → List ℕ
  with_headers t h rest = serialize_type env.buffer t ++ (serialize_position env.buffer h ++ rest)

  -- RemoveHeader of the type, and where it is valid and GPSRTYPE_POS, of the position.
  pub remove_headers : List ℕ → Option Removed
  remove_headers bytes = do
    (t, i) ← deserialize_type env.buffer (type_header gpsrtype_pos) bytes
    if t.valid && t.type == gpsrtype_pos
        then (do
          (h, rest) ← deserialize_position env.buffer i
          some (record { type = t; header = h; rest = rest }))
        else some (record { type = t; header = position_header; rest = i })

  abbrev pub my_pos : Vector
  my_pos = planar env.my_x env.my_y

  -- The header that a packet carries on in recovery mode.
  abbrev pub recovery_header : PositionHeader → PositionHeader
  recovery_header h = record h { in_rec = 1; last_posx = env.my_x; last_posy = env.my_y }

  -- BestAngle from the last hop on.
  abbrev pub recovery_choice : PositionTable → Removed → PositionTable × Option ℕ
  recovery_choice t r =
      best_angle env.doubles env.angle env.distance env.nodes my_pos env.now t
        (planar r.header.last_posx r.header.last_posy) my_pos

  pub recovery_mode : Protocol → (dst source : ℕ) → List ℕ → Option Protocol
  unfolding remove_headers
  recovery_mode s₀ dst source bytes = do
    r ← remove_headers bytes
    let s = send (rec_count bytes) s₀
    let h = recovery_header r.header
    let out = with_headers r.type h r.rest
    let choice = recovery_choice s.neighbors r
    if not r.type.valid then some s else (do
      hop ← choice.1
      let s' = record s { neighbors = choice.0 }
      if hop == zero_address
          then some (send (drop_pkt out) s')
          else some (
              send (forward (record { destination = dst; source = source; gateway = hop }) out) s'))

  -- The header of a packet that goes on greedily, with what is newest of the destination's place.
  abbrev pub greedy_header : PositionHeader → (dst_pos : Vector) → (updated : ℕ) → PositionHeader
  greedy_header h dst_pos updated = record h {
    dst_posx = dst_pos.x;
    dst_posy = dst_pos.y;
    updated = updated;
    rec_posx = zero_double;
    rec_posy = zero_double;
    in_rec = 0;
    last_posx = env.my_x;
    last_posy = env.my_y;
  }

  -- The header of a packet that enters recovery mode.
  abbrev pub entering_header : PositionHeader → (dst_pos : Vector) → PositionHeader
  entering_header h dst_pos = record h {
    in_rec = 1;
    rec_posx = env.my_x;
    rec_posy = env.my_y;
    last_posx = dst_pos.x;
    last_posy = dst_pos.y;
  }

  -- The destination itself where it is a neighbour, else the choice of BestNeighbor.
  unfoldable pub next_hop : PositionTable → (dst : ℕ) → (dst_pos : Vector) → PositionTable × ℕ
  next_hop t dst dst_pos =
      let near = is_neighbour env.past_end env.now t dst in
      if near.1
      then (near.0, dst)
      else best_neighbor env.doubles env.distance env.nodes env.now near.0 dst_pos my_pos

  -- Whether the packet stays in recovery mode: no longer where this node is closer to the destination
  -- than the one at which it entered.
  abbrev pub still_in_rec : PositionHeader → ℕ
  still_in_rec h =
      let d1 = env.distance my_pos (planar h.dst_posx h.dst_posy) in
      let d2 = env.distance (planar h.rec_posx h.rec_posy) (planar h.dst_posx h.dst_posy) in
      if h.in_rec == 1 && env.doubles.lt d1 d2 then 0 else h.in_rec

  -- Whether the location service knows of a later place than the header.
  abbrev newer : (dst : ℕ) → PositionHeader → Bool
  newer dst h = ltb h.updated (env.service.update_seconds dst)

  abbrev pub newest_place : (dst : ℕ) → PositionHeader → Vector
  newest_place dst h =
      if newer dst h then env.service.position dst else planar h.dst_posx h.dst_posy

  abbrev pub newest_seconds : (dst : ℕ) → PositionHeader → ℕ
  newest_seconds dst h = if newer dst h then env.service.update_seconds dst else h.updated

  -- The part of Forwarding behind the recovery mode.
  unfoldable pub forward_greedy : Protocol → (dst source : ℕ) → Removed → Option Protocol
  unfolding next_hop recovery_mode
  forward_greedy s dst source r =
      let dst_pos = newest_place dst r.header in
      let updated = newest_seconds dst r.header in
      let hop = next_hop s.neighbors dst dst_pos in
      let s' = record s { neighbors = hop.0 } in
      let out = with_headers r.type (greedy_header r.header dst_pos updated) r.rest in
      let near = (is_neighbour env.past_end env.now s.neighbors dst).1 in
      if near || not (hop.1 == zero_address)
      then some
          (send (forward (record { destination = dst; source = source; gateway = hop.1 }) out) s')
      else recovery_mode s' dst source
          (with_headers r.type (entering_header r.header dst_pos) r.rest)

  unfoldable pub forwarding : Protocol → (dst source : ℕ) → List ℕ → Option (Protocol × Bool)
  unfolding remove_headers recovery_mode forward_greedy
  forwarding s₀ dst source bytes = do
    r ← remove_headers bytes
    let s = record s₀ { neighbors = purge env.now s₀.neighbors }
    let in_rec = still_in_rec r.header
    if not r.type.valid then some (s, false) else (do
      s' ←
          if in_rec == 0
          then forward_greedy s dst source r
          else recovery_mode s dst source (with_headers r.type r.header r.rest)
      some (s', true))
