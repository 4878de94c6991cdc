-- ===== src/Gpsr/Ptable.antt =====
-- NS3/gpsr/model/gpsr-ptable.cc and gpsr-ptable.h: the position table of GPSR. Simulator::Now () is
-- the argument `now`, an address is its value. With `nb_from_mbr` the table of the node's
-- MbrNeighborApp, the field `nb`, stands in for the table. The std::map is the list of its items in
-- the order of the keys. `past_end` is what a read of the key behind the end of the map gives, which
-- the source does. CalculateDistance is ns-3's, and a parameter.
pub mod Lookup
pub mod Best
pub mod Refinement
mod Tests
use map_based_relay.Prelude.{
  false, ◌+◌, leb, ◌||◌, ltb, not, none, keep_if, [], any_of, map, find_if, ◌==◌, [], some, List,
  if◌then◌else◌, Bool, Option, ℕ, ◌∷◌,
}
use map_based_relay.Doubles.{Double, Doubles, zero_double, minus_one}
use map_based_relay.Mbr.Neighbors.{
  Neighbors, Neighbor, Vector, NodeList, position_of, get_setting_time, is_neighbor,
  get_cartesian_position_from_ip, neighbor_empty,
}

pub record TableEntry : Type 0 where
  pub id : ℕ
  pub position : Vector
  pub time : ℕ

pub record PositionTable : Type 0 where
  pub nb_from_mbr : Bool
  pub entry_life_time : ℕ
  pub table : List TableEntry
  pub nb : Neighbors

-- Ipv4Address::GetZero ()
abbrev pub zero_address : ℕ
zero_address = 0

-- Seconds (1), in nanoseconds.
abbrev pub position_table : (nb_from_mbr : Bool) → Neighbors → PositionTable
position_table nb_from_mbr nb = record {
  nb_from_mbr = nb_from_mbr;
  entry_life_time = 1000000000;
  table = [];
  nb = nb;
}

abbrev pub has_id : ℕ → TableEntry → Bool
has_id id e = e.id == id

abbrev pub map_find : (id : ℕ) → List TableEntry → Option TableEntry
map_find id t = find_if (has_id id) t

abbrev pub map_erase : (id : ℕ) → List TableEntry → List TableEntry
map_erase id t = keep_if (λ e. not (has_id id e)) t

-- A key that is there keeps its item.
unfoldable pub map_insert : TableEntry → List TableEntry → List TableEntry
map_insert e [] = e ∷ []
map_insert e (x ∷ xs) =
    if x.id == e.id then x ∷ xs else if ltb e.id x.id then e ∷ x ∷ xs else x ∷ map_insert e xs

-- `none` stands for the read through the end of the map that an unknown address gives.
unfoldable pub table_time : List TableEntry → (id : ℕ) → Option ℕ
table_time t id =
    if id == zero_address
    then some 0
    else elim (map_find id t) [ some e ↦ some e.time | none ↦ none ]

pub get_entry_update_time : (now : ℕ) → PositionTable → (id : ℕ) → PositionTable × Option ℕ
get_entry_update_time now s id =
    if id == zero_address
    then (s, some 0)
    else if s.nb_from_mbr
    then (let r = get_setting_time now s.nb id in (record s { nb = r.0 }, some r.1))
    else (s, table_time s.table id)

pub add_entry : (past_end now : ℕ) → PositionTable → (id : ℕ) → (position : Vector) → PositionTable
unfolding map_insert
add_entry past_end now s id position =
    let e : TableEntry = record { id = id; position = position; time = now } in
    if s.nb_from_mbr
    then s
    else if any_of (has_id id) s.table || id == past_end
    then record s { table = map_insert e (map_erase id s.table) }
    else record s { table = map_insert e s.table }

pub delete_entry : PositionTable → (id : ℕ) → PositionTable
delete_entry s id = if s.nb_from_mbr then s else record s { table = map_erase id s.table }

abbrev pub invalid_position : Vector
invalid_position = record { x = minus_one; y = minus_one; z = zero_double }

-- Without MBR the position is that of the node, not the one of the table.
pub get_position : NodeList → (now : ℕ) → PositionTable → (id : ℕ) → PositionTable × Vector
get_position nodes now s id =
    if s.nb_from_mbr
    then (let r = get_cartesian_position_from_ip nodes now s.nb id in (record s { nb = r.0 }, r.1))
    else (
      s,
      elim (find_if (λ (node : ℕ × Vector). node.0 == id) nodes) [
        | some p ↦ p.1
        | none ↦ invalid_position
      ],
    )

unfoldable pub is_neighbour : (past_end now : ℕ) → PositionTable → (id : ℕ) → PositionTable × Bool
is_neighbour past_end now s id =
    if s.nb_from_mbr
    then (let r = is_neighbor now s.nb id in (record s { nb = r.0 }, r.1))
    else (s, any_of (has_id id) s.table || id == past_end)

-- The update time is looked up by the address.
unfoldable pub is_stale : (now life : ℕ) → List TableEntry → (id : ℕ) → Bool
unfolding table_time
is_stale now life t id = elim (table_time t id) [ some time ↦ leb (life + time) now | none ↦ false ]

-- The addresses to erase, each put in front of the others.
unfoldable pub to_erase : (ℕ → Bool) → List TableEntry → (acc : List ℕ) → List ℕ
to_erase stale [] acc = acc
to_erase stale (e ∷ es) acc = to_erase stale es (if stale e.id then e.id ∷ acc else acc)

-- `unique`: of neighbours that are equal the first one stays.
unfoldable pub unique_after : (last : ℕ) → List ℕ → List ℕ
unique_after last [] = []
unique_after last (x ∷ xs) = if x == last then unique_after last xs else x ∷ unique_after x xs

abbrev pub unique : List ℕ → List ℕ
unique [] = []
unique (x ∷ xs) = x ∷ unique_after x xs

unfoldable pub erase_all : List ℕ → List TableEntry → List TableEntry
erase_all [] t = t
erase_all (id ∷ ids) t = erase_all ids (map_erase id t)

unfoldable pub purge : (now : ℕ) → PositionTable → PositionTable
unfolding is_stale to_erase erase_all
purge now s = if s.nb_from_mbr then s else record s {
  table = erase_all (unique (to_erase (is_stale now s.entry_life_time s.table) s.table [])) s.table;
}

pub clear_table : PositionTable → PositionTable
clear_table s = if s.nb_from_mbr then s else record s { table = [] }

-- The neighbours that BestNeighbor looks at, with their positions.
unfoldable pub candidates : NodeList → PositionTable → List (ℕ × Vector)
candidates nodes s =
    if s.nb_from_mbr
    then map (λ (n : Neighbor). (n.ip_address, position_of nodes n.ip_address)) s.nb.nb
    else map (λ (e : TableEntry). (e.id, e.position)) s.table

-- The loop of BestNeighbor.
unfoldable pub closest :
    Doubles → (Vector → Double) → (best : ℕ) → (d : Double) → List (ℕ × Vector) → ℕ × Double
closest f dist best d [] = (best, d)
closest f dist best d (p ∷ ps) =
    let nearer = f.lt (dist p.1) d in
    closest f dist (if nearer then p.0 else best) (if nearer then dist p.1 else d) ps

-- The loop starts at the first neighbour; with `skip` it does not look at that one again.
unfoldable pub greedy :
    Doubles → (Vector → Double) → (initial : Double) → (skip : Bool) → List (ℕ × Vector) → ℕ
unfolding closest
greedy f dist initial skip [] = zero_address
greedy f dist initial skip (p ∷ ps) =
    let r = closest f dist p.0 (dist p.1) (if skip then ps else p ∷ ps) in
    if f.lt r.1 initial then r.0 else zero_address

-- The zero address where no neighbour is closer to the destination than the node.
unfoldable pub best_neighbor :
    Doubles
    → (distance : Vector → Vector → Double) → NodeList
    → (now : ℕ) → PositionTable
    → (position node_pos : Vector) → PositionTable × ℕ
unfolding candidates greedy
best_neighbor f distance nodes now s position node_pos =
    let dist : Vector → Double = λ p. distance p position in
    let s' = if s.nb_from_mbr then s else purge now s in
    (s', greedy f dist (distance node_pos position) s.nb_from_mbr (candidates nodes s'))
