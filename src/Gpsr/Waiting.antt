-- ===== src/Gpsr/Waiting.antt =====
-- NS3/gpsr/model/gpsr.cc: the packets that wait for a next hop, with `DeferredRouteOutput`,
-- `SendPacketFromQueue` and `CheckQueue`. The loops over Dequeue have one round for each packet of the
-- queue; where they have used these up they stop.
pub mod Loops
pub mod Sent
pub mod Invariant
mod Tests
use map_based_relay.Prelude.{
  zero, ◌&&◌, none, true, not, false, ◌+◌, [], ◌==◌, some, keep_if, Bool, length, [], if◌then◌else◌,
  Option, suc, List, suc, ℕ, ◌∷◌, ◌++◌, ◌>>=◌,
}
use map_based_relay.Gpsr.Packet.{gpsrtype_pos, PositionHeader}
use map_based_relay.Gpsr.Ptable.{PositionTable, unique, is_neighbour, best_neighbor, zero_address}
use map_based_relay.Gpsr.Rqueue.{
  QueueEntry, RequestQueue, get_size, enqueue, dequeue, drop_packet_with_dst,
}
use map_based_relay.Gpsr.Protocol.{
  Env, Protocol, Route, Event, forward, send, position_header, Removed, with_headers,
  remove_headers, my_pos, recovery_mode, next_hop,
}

-- Ipv4Address ("102.102.102.102"), the source that is not set yet.
abbrev pub unset_address : ℕ
unset_address = 0x66666666

-- Time ("500ms"), in nanoseconds.
abbrev pub check_interval : ℕ
check_interval = 500000000

abbrev pub remove : (id : ℕ) → List ℕ → List ℕ
remove id ids = keep_if (λ i. not (i == id)) ids

abbrev pub remove_all : List ℕ → List ℕ → List ℕ
remove_all [] ids = ids
remove_all (r ∷ rs) ids = remove_all rs (remove r ids)

-- The header of a packet that was queued: what is read of the old one, under the node's own place as
-- the one where recovery began.
abbrev pub queued_header : Env → PositionHeader → PositionHeader
queued_header env h = record h { rec_posx = env.my_x; rec_posy = env.my_y; in_rec = 1 }

-- What is read of a packet's headers; where it has no position header, what was read before.
abbrev pub header_or : PositionHeader → Removed → PositionHeader
header_or before r = if r.type.type == gpsrtype_pos then r.header else before

module _ (env : Env) where
  pub deferred_route_output : Protocol → QueueEntry → Protocol
  deferred_route_output s e =
      let size = get_size env.now s.queue in
      let timer = if size.1 == 0 then some (env.now + check_interval) else s.check_timer in
      record s {
        check_timer = timer;
        queue = (enqueue env.now size.0 e).0;
        queued_addresses = unique (e.dst ∷ s.queued_addresses);
      }

  -- The loop in recovery mode. `before` is what the variables of the loop hold.
  pub recover_loop :
      (rounds : ℕ) → (dst : ℕ) → (before : PositionHeader) → Protocol → Option (Protocol × Bool)
  recover_loop zero dst before s = some (s, true)
  recover_loop (suc rounds) dst before s =
      let d = dequeue env.now s.queue dst in
      elim d.1 [
        | none ↦ some (record s { queue = d.0 }, true)
        | some e ↦ remove_headers env e.bytes >>= λ r.
            let s₁ = record s { queue = d.0 } in
            let h = header_or before r in
            let out = with_headers env r.type (queued_header env h) r.rest in
            elim r.type.valid [
              | false ↦ some (s₁, false)
              | true ↦ recovery_mode env s₁ dst e.source out >>= recover_loop rounds dst h
            ]
      ]

  -- The source of the IP header that goes out.
  abbrev pub set_source : QueueEntry → ℕ
  set_source e = if e.source == unset_address then env.local else e.source

  pub forward_loop : (rounds : ℕ) → (dst hop : ℕ) → Protocol → Protocol
  forward_loop zero dst hop s = s
  forward_loop (suc rounds) dst hop s =
      let d = dequeue env.now s.queue dst in
      elim d.1 [
        | none ↦ record s { queue = d.0 }
        | some e ↦ forward_loop rounds dst hop (
            send
              (forward (record { destination = dst; source = set_source e; gateway = hop }) e.bytes)
              (record s { queue = d.0 }))
      ]

  abbrev rounds_for : Protocol → ℕ
  rounds_for s = suc (length s.queue.queue)

  pub send_packet_from_queue : Protocol → (dst : ℕ) → Option (Protocol × Bool)
  unfolding recover_loop forward_loop
  send_packet_from_queue s dst =
      if env.service.is_in_search dst
      then some (s, false)
      else if not (env.service.has_position dst)
      then some (record s { queue = drop_packet_with_dst env.now s.queue dst }, true)
      else (let near = (is_neighbour env.past_end env.now s.neighbors dst).1 in
          let hop = next_hop env s.neighbors dst (env.service.position dst) in
          let s' = record s { neighbors = hop.0 } in
          if not near && hop.1 == zero_address
          then recover_loop (rounds_for s) dst position_header s'
          else some (forward_loop (rounds_for s) dst hop.1 s', true))

  -- The first loop of CheckQueue, with the addresses to remove.
  pub check_loop : List ℕ → (to_remove : List ℕ) → Protocol → Option (Protocol × List ℕ)
  unfolding send_packet_from_queue
  check_loop [] to_remove s = some (s, to_remove)
  check_loop (id ∷ ids) to_remove s = send_packet_from_queue s id >>= λ r.
      check_loop ids (if r.1 then id ∷ to_remove else to_remove) r.0

  pub check_queue : Protocol → Option Protocol
  unfolding check_loop
  check_queue s = do
    r ← check_loop s.queued_addresses [] (record s { check_timer = none })
    let left = remove_all r.1 r.0.queued_addresses
    let timer : Option ℕ = elim left [ [] ↦ none | id ∷ ids ↦ some (env.now + check_interval) ]
    some (record (r.0) { queued_addresses = left; check_timer = timer })
