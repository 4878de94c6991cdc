-- ===== src/Mbr/App/Tests.antt =====
-- A vehicle that sends hellos each 100 ms, and one that hears the first of them.
use Prim.{tt}
use map_based_relay.Prelude.{◌≡◌, ℕ, List, [], ◌∷◌, Option, some, true, arith, refl, find_if}
use map_based_relay.Wire.LittleEndian.{little_endian}
use map_based_relay.Mbr.Neighbors.{has_ip, new_neighbor, is_neighbor}
use map_based_relay.Mbr.App.{
  Machine, Site, App, Scheduled, mbr_neighbor_app, start_application, generate_wave_traffic,
  receive_wave_packet,
}
use map_based_relay.Mbr.App.Slots.{beacon_times, slots, start_application-slots}
use map_based_relay.Mbr.App.Heard.{SiteInRange, told_by, generate-receive}

abbrev machine : Machine
machine = record { buffer = little_endian; copy_from = λ mac. 6; widen = λ f. f }

abbrev site : (tx_delay : ℕ) → Site
site tx_delay = record {
  ip = 0x0a000001;
  mac = 1 ∷ 2 ∷ 3 ∷ 4 ∷ 5 ∷ 6 ∷ [];
  geohash = 0xabcdef;
  latitude = 0x42200000;
  longitude = 0x42e90000;
  tx_delay = tx_delay;
  unset = [];
}

abbrev app : App
app = mbr_neighbor_app 100000000 350000000

abbrev two_sites : List Site
two_sites = site 9000000 ∷ site 0 ∷ []

start_application-slots_example :
    let r = start_application 0 40 2000000 90 app in
    beacon_times machine r.0 r.1 two_sites ≡ slots 100000000 1000000040 2000000 two_sites
start_application-slots_example =
    start_application-slots machine app 0 40 2000000 90 two_sites refl (omega arith)
      (omega arith, (omega arith, tt))

-- The second one is 7 ms later in its slot than the first one.
two_slots : slots 100000000 1000000040 2000000 two_sites ≡ 1002000040 ∷ 1109000040 ∷ []
unfolding slots
two_slots = refl

site-InRange : SiteInRange (site 0)
site-InRange = record {
  ip = omega arith;
  mac_length = refl;
  mac_bytes = omega arith;
  geohash = omega arith;
  latitude = omega arith;
  longitude = omega arith;
}

generate-receive_example :
    (a' s' : App) × (bytes : List ℕ) × (next : Option Scheduled) × (generate_wave_traffic machine 5
        90
        (site 0)
        app
      ≡ some (a', bytes, next))
    × (receive_wave_packet machine 7 [] bytes app ≡ some s')
    × (find_if (has_ip 0x0a000001) s'.neighbors.nb
        ≡ some (new_neighbor 7 350000000 (told_by machine (site 0)) 0x0a000001))
    × ((is_neighbor 9 s'.neighbors 0x0a000001).1 ≡ true)
generate-receive_example =
    generate-receive machine 5 7 9 90 (site 0) [] app app site-InRange (omega arith) refl tt
      (omega arith) (omega arith)
