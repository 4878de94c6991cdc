-- ===== src/Gpsr/Location.antt =====
-- NS3/location-service/model: the interface LocationService, and GodLocationService, which reads the
-- places of all nodes. Their AddEntry, DeleteEntry, Purge and Clear do nothing.
use map_based_relay.Prelude.{true, false, Bool, ℕ, ◌/◌, ◌%◌, ◌^◌}
use map_based_relay.Mbr.Neighbors.{Vector, NodeList, position_of}

-- `update_seconds` is what the callers make of GetEntryUpdateTime, seconds cast to uint32_t.
pub record LocationService : Type 0 where
  pub position : ℕ → Vector
  pub is_in_search : ℕ → Bool
  pub has_position : ℕ → Bool
  pub update_seconds : ℕ → ℕ

-- Ticks of ns3::Time, which are nanoseconds.
abbrev pub seconds : ℕ → ℕ
seconds t = t / 1000000000 % 2 ^ 32

abbrev pub god : NodeList → (now : ℕ) → LocationService
god nodes now = record {
  position = position_of nodes;
  is_in_search = λ id. false;
  has_position = λ id. true;
  update_seconds = λ id. seconds now;
}
