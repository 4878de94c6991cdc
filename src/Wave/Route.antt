-- ===== src/Wave/Route.antt =====
-- NS3/wave/model/mbr_route.cc: `mbr_forward`, which decides whether a packet takes the way over a
-- relay, and over which. What MbrSumo tells of the node's own place is a parameter, and so is the
-- neighbour table that the node's application holds. The address that GetGeohashFromIpInNb copies to
-- `to_mac` is not read here and is left out. The result -1 is `none`. Where the outcome
-- itself is `none` the source has no vertex, follows a dangling pointer or fails an assertion.
pub mod Relay
pub mod Whole
pub mod Samples
mod Tests
use map_based_relay.Prelude.{
  false, [], not, ◌==◌, none, true, some, if◌then◌else◌, List, Bool, ◌+◌, Option, ℕ, ◌∷◌, ◌&&◌,
  ◌||◌, ◌>>=◌, ◌%◌, ◌^◌,
}
use map_based_relay.Doubles.{Double, Doubles}
use map_based_relay.Mbr.Neighbors.{
  Neighbors, Neighbor, get_geohash_from_ip_in_nb, geohash_or_zero, get_nb_from_set_best,
  mac48_default,
}
use map_based_relay.Wave.GeoHash.{
  GeoHashSetCoordinate, geohash_get_neighbors_in_set, geohash_is_geohash_in_set,
}
use map_based_relay.Wave.Graph.{Graph}
use map_based_relay.Wave.Cross.{cross_vertex}
use map_based_relay.Wave.Locate.{get_distance, find_vertex_by_vehicle_position}

pub record MbrRoute : Type 0 where
  pub relayed_pkt_num : ℕ
  pub no_neighbor_pkt_num : ℕ
  pub mind : ℕ
  pub maxd : ℕ

abbrev pub mbr_route : MbrRoute
mbr_route = record { relayed_pkt_num = 0; no_neighbor_pkt_num = 0; mind = 7; maxd = 32 }

pub record Place : Type 0 where
  pub geohash : ℕ
  pub x : Double
  pub y : Double

-- DBE, 26.
abbrev dbe : Double
dbe = 0x403a000000000000

-- The two tests on the distances of the node and of the destination from the intersection.
pub too_near : Doubles → MbrRoute → (d1 d2 : Double) → Bool
too_near f route d1 d2 =
    let d = f.of_uint route.mind in
    let maxd = f.of_uint route.maxd in
    let d3 = f.sub (f.sub d2 d) (f.div (f.mul d d2) d1) in
    let d4 = f.sub (f.sub d1 d) (f.div (f.mul d d1) d2) in
    if f.le d1 d || f.le d2 d
    then true
    else if not (f.lt maxd d1 && f.lt maxd d2)
    then f.lt (f.sqrt (f.add (f.mul d3 d3) (f.mul d4 d4))) dbe
    else false

-- setIntersectionSize. The cells are uninitialised, and each is written before it is read.
abbrev set_intersection_size : GeoHashSetCoordinate
set_intersection_size = record { cell = λ i j. 0; sx = 3; sy = 3 }

abbrev pub set_around : Graph → (p : ℕ) → GeoHashSetCoordinate
set_around g p = geohash_get_neighbors_in_set set_intersection_size (g.heap p).geo_hash

pub data Verdict : Type 0 where
  relay : (mac : ℕ) → Verdict
  refuse : Verdict
  no_neighbor : Verdict
  assertion : Verdict

abbrev pub too_near_at : Doubles → MbrRoute → Graph → (this dst : Place) → (p : ℕ) → Bool
too_near_at f route g this dst p =
    too_near f route (get_distance f this.y this.x (g.heap p).y (g.heap p).x)
      (get_distance f dst.y dst.x (g.heap p).y (g.heap p).x)

-- The loop over the intersections.
pub relay_loop :
    Doubles
    → MbrRoute
    → Graph
    → (now : ℕ) → (this dst : Place) → Neighbors
    → List ℕ
    → Neighbors × Verdict
unfolding too_near
relay_loop f route g now this dst nb [] = (nb, no_neighbor)
relay_loop f route g now this dst nb (p ∷ ps) =
    let set = set_around g p in
    let r = get_nb_from_set_best now nb set in
    let rest = relay_loop f route g now this dst r.0 ps in
    if geohash_is_geohash_in_set dst.geohash set then (nb, refuse) else elim r.1 [
      | none ↦ rest
      | some mac ↦
          if too_near_at f route g this dst p
          then (r.0, refuse)
          else if mac == mac48_default
          then (r.0, assertion)
          else (r.0, relay mac)
    ]

pub record Outcome : Type 0 where
  pub route : MbrRoute
  pub nb : Neighbors
  pub relay_mac : Option ℕ

abbrev pub increment : ℕ → ℕ
increment n = (n + 1) % 2 ^ 32

pub conclude : MbrRoute → Neighbors → Verdict → Option Outcome
conclude route nb (relay mac) = some (record {
  route = record route { relayed_pkt_num = increment route.relayed_pkt_num };
  nb = nb;
  relay_mac = some mac;
})
conclude route nb refuse = some (record { route = route; nb = nb; relay_mac = none })
conclude route nb no_neighbor = some (record {
  route = record route { no_neighbor_pkt_num = increment route.no_neighbor_pkt_num };
  nb = nb;
  relay_mac = none;
})
conclude route nb assertion = none

-- The intersections on the way from the destination to the node.
pub intersections : Doubles → Graph → (this dst : Place) → Option (List ℕ)
intersections f g this dst = do
  this_vertex ← find_vertex_by_vehicle_position f g this.geohash this.x this.y
  dst_vertex ← find_vertex_by_vehicle_position f g dst.geohash dst.x dst.y
  cross_vertex g dst_vertex this_vertex

-- An empty list means that both are on one road.
pub conclude_list :
    Doubles
    → MbrRoute
    → Graph
    → (now : ℕ) → (this dst : Place) → Neighbors
    → List ℕ
    → Option Outcome
unfolding relay_loop conclude
conclude_list f route g now this dst nb [] =
    some (record { route = route; nb = nb; relay_mac = none })
conclude_list f route g now this dst nb (p ∷ ps) =
    let r = relay_loop f route g now this dst nb (p ∷ ps) in conclude route r.0 r.1

pub forward_between :
    Doubles → MbrRoute → Graph → (now : ℕ) → (this dst : Place) → Neighbors → Option Outcome
unfolding intersections conclude_list
forward_between f route g now this dst nb =
    intersections f g this dst >>= conclude_list f route g now this dst nb

-- `graph` is `none` while the map is not initialised. A node without the application is refused before
-- anything is read, as one without the map is.
pub mbr_forward :
    Doubles
    → MbrRoute
    → (graph : Option Graph) → (now : ℕ) → (this : Place) → Neighbors
    → (dest : ℕ) → Option Outcome
unfolding forward_between
mbr_forward f route none now this nb dest =
    some (record { route = route; nb = nb; relay_mac = none })
mbr_forward f route (some g) now this nb dest =
    let r = get_geohash_from_ip_in_nb now nb dest in
    elim r.1 [
      | none ↦ some (record { route = route; nb = r.0; relay_mac = none })
      | some n ↦
          if n.geohash == 0
          then some (record { route = route; nb = r.0; relay_mac = none })
          else forward_between f route g now this (record { geohash = n.geohash; x = n.x; y = n.y })
              r.0
    ]
