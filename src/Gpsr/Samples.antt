-- ===== src/Gpsr/Samples.antt =====
-- Two neighbours on a line, and a node with them; whole numbers stand for the doubles.
use map_based_relay.Prelude.{
  ◌+◌, ◌==◌, leb, [], if◌then◌else◌, ltb, arith, false, ℕ, ◌∷◌, ◌*◌, ◌/◌, ◌-◌, none,
}
use map_based_relay.Wire.LittleEndian.{little_endian}
use map_based_relay.Doubles.{Double, Doubles, IsOrdered}
use map_based_relay.Mbr.Neighbors.{Vector, NodeList, neighbors}
use map_based_relay.Gpsr.Packet.{PositionHeader}
use map_based_relay.Gpsr.Packet.RoundTrip.{PositionInRange}
use map_based_relay.Gpsr.Ptable.{PositionTable, position_table}
use map_based_relay.Gpsr.Rqueue.{QueueEntry, request_queue}
use map_based_relay.Gpsr.Location.{god}
use map_based_relay.Gpsr.Protocol.{Env, Protocol, position_header}
use map_based_relay.Gpsr.Protocol.Ranges.{EnvInRange}

abbrev pub whole_numbers : Doubles
whole_numbers = record {
  lt = ltb;
  le = leb;
  eq = λ a b. a == b;
  add = λ a b. a + b;
  sub = λ a b. a - b;
  mul = λ a b. a * b;
  div = λ a b. a / b;
  sqrt = λ a. a;
  acos = λ a. a;
  sin = λ a. a;
  cos = λ a. a;
  asin = λ a. a;
  pow = λ a b. a;
  round = λ a. a;
  of_uint = λ a. a;
}

pub whole_numbers-IsOrdered : IsOrdered whole_numbers
whole_numbers-IsOrdered = record {
  irrefl = λ a. ground arith;
  not_lt_trans = λ a b c h k. ground (arith, h, k);
  asym = λ a b h. ground (arith, h);
}

abbrev pub at : ℕ → Vector
at x = record { x = x; y = 0; z = 0 }

abbrev pub along_x : Vector → Vector → Double
along_x a b = if ltb a.x b.x then b.x - a.x else a.x - b.x

abbrev pub empty_table : PositionTable
empty_table = position_table false (neighbors 5)

-- The entry 3 is fresh, the entry 4 a lifetime old.
abbrev pub two_entries : PositionTable
two_entries = record empty_table {
  table =
      record { id = 3; position = at 20; time = 1500000000 }
      ∷ record { id = 4; position = at 30; time = 1000000000 }
      ∷ [];
}

abbrev pub places : NodeList
places = (3, at 20) ∷ (4, at 30) ∷ (9, at 50) ∷ []

-- The node 1 at 10; the destination 9 is at 50.
abbrev pub env : Env
env = record {
  buffer = little_endian;
  doubles = whole_numbers;
  distance = along_x;
  angle = λ a b c. c.x;
  nodes = places;
  service = god places 1600000000;
  now = 1600000000;
  my_x = 10;
  my_y = 0;
  local = 1;
  past_end = 2;
}

pub env-InRange : EnvInRange env
env-InRange = record {
  x = omega arith;
  y = omega arith;
  place = λ id. ground arith;
  seconds = λ id. omega arith;
}

abbrev pub waiting : (uid dst : ℕ) → QueueEntry
waiting uid dst = record { uid = uid; dst = dst; source = 1; bytes = uid ∷ []; expire = 2000000000 }

abbrev pub protocol : Protocol
protocol = record {
  neighbors = two_entries;
  queue = request_queue 4 1000000000;
  queued_addresses = [];
  check_timer = none;
  hello_timer = none;
  hello_interval = 1000000000;
  interfaces = record { local = 1; broadcast = 255; all_ones = false } ∷ [];
  nb_from_mbr = false;
  sent = [];
}

-- A packet for 9 that is not in recovery mode.
abbrev pub to_nine : PositionHeader
to_nine = record position_header { dst_posx = 50; src_posx = 10; last_posx = 10 }

pub to_nine-InRange : PositionInRange to_nine
to_nine-InRange = record {
  dst_x = omega arith;
  dst_y = omega arith;
  updated = omega arith;
  rec_x = omega arith;
  rec_y = omega arith;
  in_rec = omega arith;
  last_x = omega arith;
  last_y = omega arith;
  src_x = omega arith;
  src_y = omega arith;
}
