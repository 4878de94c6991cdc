-- ===== src/Mbr/Neighbors.antt =====
-- NS3/mbr-neighbor/model/neighbor.cc and neighbor.h: the table of neighbours. Simulator::Now () is
-- the argument `now`; a time is a number of ns-3 ticks; an address is its value (Mac48Address () is
-- 0); the positions are doubles, that is bit patterns. A query that purges gives the new table too.
-- A nodes' list, its mobility models and the ARP caches are ns-3's, and are parameters.
pub mod Invariant
pub mod Refresh
pub mod Best
mod Tests
use map_based_relay.Prelude.{
  is_some, ℕ, zero, suc, ◌+◌, ◌-◌, List, [], ◌∷◌, ◌++◌, Option, none, some, Bool, true, false, not,
  ◌&&◌, ◌||◌, ltb, leb, ◌==◌, if◌then◌else◌, length, get_elem?, keep_if, any_of, find_if,
}
use map_based_relay.Doubles.{Double, zero_double, minus_one}
use map_based_relay.Wave.GeoHash.{GeoHashSetCoordinate, unsupported, scan_cells, scan_columns}

pub record Neighbor : Type 0 where
  pub ip_address : ℕ
  pub hardware_address : ℕ
  pub expire_time : ℕ
  pub setting_time : ℕ
  pub close : Bool
  pub geohash : ℕ
  pub direction : ℕ
  pub x : Double
  pub y : Double

-- `timer` is the time for which `m_ntimer` has scheduled a Purge.
pub record Neighbors : Type 0 where
  pub nb : List Neighbor
  pub delay : ℕ
  pub timer : Option ℕ
  pub arp : List ℕ

pub record Vector : Type 0 where
  pub x : Double
  pub y : Double
  pub z : Double

abbrev pub mac48_default : ℕ
mac48_default = 0

abbrev pub neighbors : (delay : ℕ) → Neighbors
neighbors delay = record { nb = []; delay = delay; timer = none; arp = [] }

abbrev pub close_neighbor : (now : ℕ) → Neighbor → Bool
close_neighbor now n = ltb n.expire_time now || n.close

-- Cancel, then Schedule.
unfoldable pub schedule_timer : (now : ℕ) → Neighbors → Neighbors
schedule_timer now s = record s { timer = some (now + s.delay) }

unfoldable pub purge : (now : ℕ) → Neighbors → Neighbors
unfolding schedule_timer
purge now s = elim s.nb [
  | [] ↦ s
  | n ∷ ns ↦
      schedule_timer now (record s { nb = keep_if (λ m. not (close_neighbor now m)) (n ∷ ns) })
]

abbrev pub has_ip : ℕ → Neighbor → Bool
has_ip addr n = n.ip_address == addr

abbrev pub has_mac : ℕ → Neighbor → Bool
has_mac mac n = n.hardware_address == mac

pub is_neighbor : (now : ℕ) → Neighbors → (addr : ℕ) → Neighbors × Bool
is_neighbor now s addr = let s' = purge now s in (s', any_of (has_ip addr) s'.nb)

-- The time that is left, 0 where the address is unknown: a known entry has not expired.
pub get_expire_time : (now : ℕ) → Neighbors → (addr : ℕ) → Neighbors × ℕ
get_expire_time now s addr =
    let s' = purge now s in
    (s', elim (find_if (has_ip addr) s'.nb) [ some n ↦ n.expire_time - now | none ↦ 0 ])

pub get_setting_time : (now : ℕ) → Neighbors → (addr : ℕ) → Neighbors × ℕ
get_setting_time now s addr =
    let s' = purge now s in
    (s', elim (find_if (has_ip addr) s'.nb) [ some n ↦ n.setting_time | none ↦ 0 ])

-- What a beacon tells of its sender.
pub record Beacon : Type 0 where
  pub mac : ℕ
  pub geohash : ℕ
  pub direction : ℕ
  pub x : Double
  pub y : Double

abbrev later : ℕ → ℕ → ℕ
later a b = if ltb a b then b else a

-- A known entry: the expiry is never brought forward, an unset address is filled in, the position is
-- replaced.
pub refresh : (now expire : ℕ) → Beacon → Neighbor → Neighbor
refresh now expire b n = record n {
  expire_time = later (expire + now) n.expire_time;
  setting_time = now;
  hardware_address = if n.hardware_address == mac48_default then b.mac else n.hardware_address;
  x = b.x;
  y = b.y;
}

-- The loop of Update: the first entry with the address, if there is one, is refreshed.
pub update_known : (now expire : ℕ) → Beacon → (addr : ℕ) → List Neighbor → Option (List Neighbor)
unfolding refresh
update_known now expire b addr [] = none
update_known now expire b addr (n ∷ ns) =
    if has_ip addr n
    then some (refresh now expire b n ∷ ns)
    else elim (update_known now expire b addr ns) [ none ↦ none | some ns' ↦ some (n ∷ ns') ]

abbrev pub new_neighbor : (now expire : ℕ) → Beacon → (addr : ℕ) → Neighbor
new_neighbor now expire b addr = record {
  ip_address = addr;
  hardware_address = b.mac;
  expire_time = expire + now;
  setting_time = now;
  close = false;
  geohash = b.geohash;
  direction = b.direction;
  x = b.x;
  y = b.y;
}

pub update : (now : ℕ) → Neighbors → (addr expire : ℕ) → Beacon → Neighbors
unfolding update_known purge
update now s addr expire b = elim (update_known now expire b addr s.nb) [
  | some nb ↦ record s { nb = nb }
  | none ↦ purge now (record s { nb = s.nb ++ new_neighbor now expire b addr ∷ [] })
]

abbrev pub clear : Neighbors → Neighbors
clear s = record s { nb = [] }

-- The two searches that purge and hand out the entry; a caller reads 0 as "unknown".
pub get_geohash_from_mac_in_nb : (now : ℕ) → Neighbors → (mac : ℕ) → Neighbors × Option Neighbor
get_geohash_from_mac_in_nb now s mac = let s' = purge now s in (s', find_if (has_mac mac) s'.nb)

unfoldable pub get_geohash_from_ip_in_nb :
    (now : ℕ) → Neighbors → (ip : ℕ) → Neighbors × Option Neighbor
get_geohash_from_ip_in_nb now s ip = let s' = purge now s in (s', find_if (has_ip ip) s'.nb)

abbrev pub geohash_or_zero : Option Neighbor → ℕ
geohash_or_zero none = 0
geohash_or_zero (some n) = n.geohash

abbrev unknown_position : Vector
unknown_position = record { x = minus_one; y = minus_one; z = zero_double }

abbrev gps_position : Neighbor → Vector
gps_position n = record { x = n.x; y = n.y; z = zero_double }

pub get_gps_position_from_ip : (now : ℕ) → Neighbors → (ip : ℕ) → Neighbors × Vector
get_gps_position_from_ip now s ip =
    let s' = purge now s in
    (s', elim (find_if (has_ip ip) s'.nb) [ some n ↦ gps_position n | none ↦ unknown_position ])

abbrev pub neighbor_empty : Neighbors → Bool
neighbor_empty s = elim s.nb [ [] ↦ true | n ∷ ns ↦ false ]

pub get_entry_update_time : Neighbors → (ip : ℕ) → ℕ
get_entry_update_time s ip = elim (find_if (has_ip ip) s.nb) [ some n ↦ n.setting_time | none ↦ 0 ]

abbrev pub get_table_size : Neighbors → ℕ
get_table_size s = length s.nb

-- An index past the end is undefined in the source; here it gives `none`.
pub get_gps_position : Neighbors → (i : ℕ) → Option Vector
get_gps_position s i = elim (get_elem? s.nb i) [ some n ↦ some (gps_position n) | none ↦ none ]

pub get_ip : Neighbors → (i : ℕ) → Option ℕ
get_ip s i = elim (get_elem? s.nb i) [ some n ↦ some n.ip_address | none ↦ none ]

-- NodeList: each node's address on its first interface, and its position.
abbrev pub NodeList : Type 0
NodeList = List (ℕ × Vector)

abbrev pub origin : Vector
origin = record { x = zero_double; y = zero_double; z = zero_double }

abbrev pub position_of : NodeList → (addr : ℕ) → Vector
position_of nodes addr = elim (find_if (λ (node : ℕ × Vector). node.0 == addr) nodes) [
  | some p ↦ p.1
  | none ↦ origin
]

pub get_cartesian_position : NodeList → Neighbors → (i : ℕ) → Option Vector
get_cartesian_position nodes s i = elim (get_elem? s.nb i) [
  | some n ↦ some (position_of nodes n.ip_address)
  | none ↦ none
]

pub get_cartesian_position_from_ip :
    NodeList → (now : ℕ) → Neighbors → (ip : ℕ) → Neighbors × Vector
get_cartesian_position_from_ip nodes now s ip =
    let s' = purge now s in
    (
      s',
      elim (find_if (has_ip ip) s'.nb) [
        | some n ↦ position_of nodes n.ip_address
        | none ↦ unknown_position
      ],
    )

-- The inner loops: the neighbour's block is one of the set's.
abbrev pub in_set : GeoHashSetCoordinate → Neighbor → Bool
in_set g n =
    is_some (scan_cells (λ j k. if n.geohash == g.cell j k then some j else none) g.sx g.sy 0)

-- The first entry whose geohash is one of the set's.
pub get_nb_from_set_random : (now : ℕ) → Neighbors → GeoHashSetCoordinate → Neighbors × Option ℕ
get_nb_from_set_random now s g =
    let s' = purge now s in
    if unsupported g
    then (s', none)
    else (s', elim (find_if (in_set g) s'.nb) [ some n ↦ some n.hardware_address | none ↦ none ])

-- The blocks that a vehicle in row `i` and column `j` has before it, in the order of the source's
-- tests: east, west, south, north. The tests cover every direction.
unfoldable pub blocks_ahead : GeoHashSetCoordinate → (direct i j : ℕ) → Option ℕ
blocks_ahead g direct i j =
    if leb 45 direct && ltb direct 135
    then some (g.sx - j)
    else if leb 225 direct && ltb direct 315
    then some (j + 1)
    else if leb 135 direct && ltb direct 225
    then some (g.sy - i)
    else if leb 315 direct || ltb direct 45
    then some (i + 1)
    else none

-- `none` stands for -1.
unfoldable pub get_dtime : (geohash direct : ℕ) → GeoHashSetCoordinate → Option ℕ
unfolding blocks_ahead scan_cells scan_columns
get_dtime geohash direct g =
    let body = λ (i j : ℕ). if geohash == g.cell i j then blocks_ahead g direct i j else none in
    if unsupported g then none else scan_cells body g.sx g.sy 0

unfoldable pub best_loop :
    GeoHashSetCoordinate → (dtime_max best dtime_best : ℕ) → List Neighbor → Option ℕ
best_loop g dtime_max best dtime_best [] = if ltb 0 dtime_best then some best else none
best_loop g dtime_max best dtime_best (n ∷ ns) = elim (get_dtime n.geohash n.direction g) [
  | none ↦ best_loop g dtime_max best dtime_best ns
  | some d ↦ elim (d == dtime_max) [
    | true ↦ some n.hardware_address
    | false ↦
        best_loop g dtime_max (if ltb dtime_best d then n.hardware_address else best)
          (if ltb dtime_best d then d else dtime_best) ns
  ]
]

-- The address of a neighbour in the set that has most blocks before it; `none` where the source
-- returns 0.
unfoldable pub get_nb_from_set_best :
    (now : ℕ) → Neighbors → GeoHashSetCoordinate → Neighbors × Option ℕ
unfolding best_loop
get_nb_from_set_best now s g =
    let s' = purge now s in
    let dtime_max = if ltb g.sy g.sx then g.sx else g.sy in
    if unsupported g then (s', none) else (s', best_loop g dtime_max mac48_default 0 s'.nb)

pub add_arp_cache : Neighbors → (a : ℕ) → Neighbors
add_arp_cache s a = record s { arp = s.arp ++ a ∷ [] }

pub del_arp_cache : Neighbors → (a : ℕ) → Neighbors
del_arp_cache s a = record s { arp = keep_if (λ c. not (c == a)) s.arp }

-- An entry of an ns-3 ArpCache.
pub record ArpEntry : Type 0 where
  pub alive : Bool
  pub permanent : Bool
  pub expired : Bool
  pub mac : ℕ

abbrev usable : Option ArpEntry → Bool
usable none = false
usable (some e) = (e.alive || e.permanent) && not e.expired

pub lookup_mac_address : (lookup : ℕ → ℕ → Option ArpEntry) → Neighbors → (addr : ℕ) → ℕ
lookup_mac_address lookup s addr = elim (find_if (λ a. usable (lookup a addr)) s.arp) [
  | none ↦ mac48_default
  | some a ↦ elim (lookup a addr) [ some e ↦ e.mac | none ↦ mac48_default ]
]
