-- ===== src/Linux/Output/Tests.antt =====
-- A module in the corner of two roads, with a neighbour in the block of their vertex.
use map_based_relay.Prelude.{[], ◌∷◌, some, ◌≡◌, refl, true, false, OnSome}
use map_based_relay.Wave.Route.Samples.{corner}
use map_based_relay.Linux.Control.{created_status}
use map_based_relay.Linux.Output.{Module, SkBuff, accept, output_handler, handle}
use map_based_relay.Linux.Output.Handled.{Handled, Accounted, output_handler-Handled}

abbrev module_on : Module
module_on = record {
  status = record created_status {
    geohash_this = 1000;
    mbr_start = 1;
    stat_on = 1;
    stat_write = 1;
  };
  graph = corner;
  neighbors =
      record { ip = 9; mac = 99; geo_hash = 2000; direction = 0; isvalid = true }
      ∷ record { ip = 8; mac = 77; geo_hash = 0xc00000; direction = 90; isvalid = true }
      ∷ [];
  statis = record { mac = 5; sec = 1; nsec = 2; packetsize = 60 } ∷ [];
  mac_this = 0;
  addrinit_flag = false;
}

abbrev packet : SkBuff
packet = record { nexthop = 9; payload = 69 ∷ 0 ∷ [] }

abbrev module_off : Module
module_off = record module_on { status = record module_on.status { mbr_start = 0 } }

-- The statistics are printed though the module is off, and the address of the device is read.
passes :
    output_handler (42 ∷ []) 3 4 true module_off (some packet)
    ≡ some (
      record module_off {
        status = record module_off.status { stat_write = 0 };
        statis = [];
        mac_this = 42;
        addrinit_flag = true;
      },
      module_on.statis,
      accept,
    )
unfolding output_handler handle
passes = refl

output_handler-Handled_example :
    OnSome
      (λ r. Handled module_on (some packet) true r.0 r.2 × Accounted 3 4 module_on r.0 r.1 r.2)
      (output_handler (42 ∷ []) 3 4 true module_on (some packet))
output_handler-Handled_example = output_handler-Handled (42 ∷ []) 3 4 true module_on (some packet)
