-- ===== src/Mbr/App.antt =====
-- NS3/mbr-neighbor/model/mbr-neighbor-app.cc and mbr-neighbor-app.h: the application that sends the
-- hellos of a node and puts the ones that it hears into the table of neighbours. The random numbers,
-- the node's address and what MbrSumo makes of its place are arguments; sending gives the bytes, and
-- what is scheduled is a value. An outcome `none` is an assertion of ns-3 that fails: a header that ends
-- behind the packet, or an event that is scheduled before now.
pub mod Slots
pub mod Heard
mod Tests
use map_based_relay.Prelude.{
  ℕ, ◌+◌, ◌-◌, ◌%◌, ◌^◌, List, [], ◌∷◌, Option, none, some, Bool, true, false, ltb, if◌then◌else◌,
  ◌>>=◌,
}
use map_based_relay.Wire.{Buffer}
use map_based_relay.Doubles.{Double}
use map_based_relay.Mbr.Header.{MbrHeader, mbr_header, serialize, deserialize}
use map_based_relay.Mbr.Neighbors.{Neighbors, Beacon, neighbors, update}

-- What ns-3 and the machine bring in: the buffer, Mac48Address::CopyFrom, and `float` as `double`.
pub record Machine : Type 0 where
  pub buffer : Buffer
  pub copy_from : List ℕ → ℕ
  pub widen : ℕ → Double

-- What the sender is and where, when its event fires: the address of its data interface, the bytes of
-- its hardware address, and its place as block and as `float` coordinates. `tx_delay` is the random
-- number; `unset` is what the memory of a fresh header holds for the address.
pub record Site : Type 0 where
  pub ip : ℕ
  pub mac : List ℕ
  pub geohash : ℕ
  pub latitude : ℕ
  pub longitude : ℕ
  pub tx_delay : ℕ
  pub unset : List ℕ

-- Times are ticks of ns3::Time, which are nanoseconds.
pub record App : Type 0 where
  pub stop : Bool
  pub wave_interval : ℕ
  pub wave_expire : ℕ
  pub prev_tx_delay : ℕ
  pub neighbors : Neighbors

-- A call of GenerateWaveTraffic that is scheduled, with its argument `pktCount`.
pub record Scheduled : Type 0 where
  pub at : ℕ
  pub count : ℕ

-- MilliSeconds (100).
abbrev hundred_ms : ℕ
hundred_ms = 100000000

-- Seconds (1.0).
abbrev pub start_time : ℕ
start_time = 1000000000

-- MbrNeighborApp (), with the fields that Setup sets.
abbrev pub mbr_neighbor_app : (wave_interval wave_expire : ℕ) → App
mbr_neighbor_app wave_interval wave_expire = record {
  stop = false;
  wave_interval = wave_interval;
  wave_expire = wave_expire;
  prev_tx_delay = 0;
  neighbors = neighbors hundred_ms;
}

-- `packets` is the quotient of two doubles, as uint32_t.
pub start_application : (now drift tx_delay packets : ℕ) → App → App × Scheduled
start_application now drift tx_delay packets s = (
  record s { prev_tx_delay = tx_delay },
  record { at = now + (start_time + drift + tx_delay); count = packets },
)

abbrev pub stop_application : App → App
stop_application s = record s { stop = true }

abbrev pub hello_of : Site → MbrHeader
hello_of p = mbr_header 0 0 p.ip 0 p.ip 0 p.geohash (some p.mac) 0 p.latitude p.longitude p.unset

-- The count goes down, and wraps; nothing tests it.
pub generate_wave_traffic :
    Machine → (now count : ℕ) → Site → App → Option (App × List ℕ × Option Scheduled)
generate_wave_traffic m now count p s =
    let bytes = serialize m.buffer (hello_of p) in
    let s' = record s { prev_tx_delay = p.tx_delay } in
    let ahead = s.wave_interval + p.tx_delay in
    if s.stop
    then some (s', bytes, none)
    else if ltb ahead s.prev_tx_delay
    then none
    else some (
      s',
      bytes,
      some (record {
        at = now + (ahead - s.prev_tx_delay);
        count = (count + (2 ^ 32 - 1)) % 2 ^ 32;
      }),
    )

-- MbrHeader (), where 102.102.102.102 is the address that is not set.
abbrev pub fresh_header : (unset : List ℕ) → MbrHeader
fresh_header unset = mbr_header 0 0 0x66666666 0 0x66666666 0 0 none 0 0 0 unset

abbrev pub beacon_of : Machine → MbrHeader → Beacon
beacon_of m h = record {
  mac = m.copy_from h.mac;
  geohash = h.geohash;
  direction = h.direction;
  x = m.widen h.longitude;
  y = m.widen h.latitude;
}

pub receive_wave_packet :
    Machine → (now : ℕ) → (unset : List ℕ) → (bytes : List ℕ) → App → Option App
receive_wave_packet m now unset bytes s = do
  (h, rest) ← deserialize m.buffer (fresh_header unset) bytes
  some (record s { neighbors = update now s.neighbors h.origin s.wave_expire (beacon_of m h) })
