-- ===== src/Mbr/App/Heard.antt =====
-- A hello that one node sends and another one hears.
use map_based_relay.Prelude.{
  ◌-◌, ◌%◌, inr, inl, Bool-cases, append-nil, ltb, ◌≡◌, ◌≤◌, ◌<◌, ◌^◌, refl, subst, ℕ, ◌+◌, List,
  [], Option, none, some, All, arith, true, false, length, find_if,
}
use map_based_relay.Mbr.Header.{mbr_header, serialize, deserialize}
use map_based_relay.Mbr.Header.RoundTrip.{InRange, deserialize-serialize}
use map_based_relay.Mbr.Neighbors.{Beacon, update, has_ip, new_neighbor, is_neighbor}
use map_based_relay.Mbr.Neighbors.Invariant.{Open}
use map_based_relay.Mbr.Neighbors.Refresh.{update-is_neighbor, update-new}
use map_based_relay.Mbr.App.{
  Machine, Site, App, Scheduled, hello_of, fresh_header, generate_wave_traffic, receive_wave_packet,
}

-- The fields of the site fit their types.
pub record SiteInRange (p : Site) : Type 0 where
  pub ip : p.ip < 2 ^ 32
  pub mac_length : length p.mac ≡ 6
  pub mac_bytes : All (λ x. x < 256) p.mac
  pub geohash : p.geohash < 2 ^ 64
  pub latitude : p.latitude < 2 ^ 32
  pub longitude : p.longitude < 2 ^ 32

hello-InRange : (p : Site) → SiteInRange p → InRange (hello_of p)
unfolding mbr_header
hello-InRange p r = record {
  flags = omega arith;
  prefix_size = omega arith;
  hop_count = omega arith;
  dst = r.ip;
  dst_seq_no = omega arith;
  origin = r.ip;
  life_time = omega arith;
  geohash = r.geohash;
  mac_length = r.mac_length;
  mac_bytes = r.mac_bytes;
  latitude = r.latitude;
  longitude = r.longitude;
}

-- What the receiver takes from it: all but the direction.
abbrev pub told_by : Machine → Site → Beacon
told_by m p = record {
  mac = m.copy_from p.mac;
  geohash = p.geohash;
  direction = 0;
  x = m.widen p.longitude;
  y = m.widen p.latitude;
}

module _ (m : Machine) where
  receive-hello :
      (now : ℕ) (p : Site) (unset : List ℕ) (s : App)
      → SiteInRange p
      → receive_wave_packet m now unset (serialize m.buffer (hello_of p)) s
        ≡ some (record s { neighbors = update now s.neighbors p.ip s.wave_expire (told_by m p) })
  unfolding receive_wave_packet mbr_header
  receive-hello now p unset s r =
      let read =
        deserialize-serialize m.buffer (fresh_header unset) (hello_of p) [] (hello-InRange p r) in
      let whole : deserialize m.buffer (fresh_header unset) (serialize m.buffer (hello_of p))
          ≡ some (hello_of p, []) =
        subst (λ bytes. deserialize m.buffer (fresh_header unset) bytes ≡ some (hello_of p, []))
          (append-nil (serialize m.buffer (hello_of p))) read in
      rw whole refl

  generate-some :
      (now count : ℕ) (p : Site) (a : App)
      → a.prev_tx_delay ≤ a.wave_interval + p.tx_delay
      → (next : Option Scheduled) × (generate_wave_traffic m now count p a
          ≡ some (record a { prev_tx_delay = p.tx_delay }, serialize m.buffer (hello_of p), next))
  unfolding generate_wave_traffic
  generate-some now count p a fits =
      let late : ltb (a.wave_interval + p.tx_delay) a.prev_tx_delay ≡ false = ground arith in
      elim (Bool-cases a.stop) [
        | inl off ↦ (none, rw off refl)
        | inr on ↦ (
          some (record {
            at = now + (a.wave_interval + p.tx_delay - a.prev_tx_delay);
            count = (count + (2 ^ 32 - 1)) % 2 ^ 32;
          }),
          rw on (rw late refl),
        )
      ]

  -- A hello of a node, with fields that fit their types, is received without error by a node that does
  -- not know the sender and has no entry that is marked closed. From then on a search for the sender
  -- finds the address, the block and the place that it sent, with the direction 0, and the sender is a
  -- neighbour at any time up to the receiver's expiry after.
  pub generate-receive :
      (sent heard later count : ℕ) (p : Site) (unset : List ℕ) (a s : App)
      → SiteInRange p
      → a.prev_tx_delay ≤ a.wave_interval + p.tx_delay
      → find_if (has_ip p.ip) s.neighbors.nb ≡ none
      → Open s.neighbors.nb
      → heard ≤ later
      → later ≤ s.wave_expire + heard
      → (a' s' : App) × (bytes : List ℕ) × (next : Option Scheduled) × (generate_wave_traffic m sent
            count p a
          ≡ some (a', bytes, next))
        × (receive_wave_packet m heard unset bytes s ≡ some s')
        × (find_if (has_ip p.ip) s'.neighbors.nb
            ≡ some (new_neighbor heard s.wave_expire (told_by m p) p.ip))
        × ((is_neighbor later s'.neighbors p.ip).1 ≡ true)
  generate-receive sent heard later count p unset a s r fits absent o order soon =
      let (next, sends) = generate-some sent count p a fits in
      let b = told_by m p in
      (
        record a { prev_tx_delay = p.tx_delay },
        record s { neighbors = update heard s.neighbors p.ip s.wave_expire b },
        serialize m.buffer (hello_of p),
        next,
        sends,
        receive-hello heard p unset s r,
        update-new heard s.neighbors p.ip s.wave_expire b absent,
        update-is_neighbor heard later s.neighbors p.ip s.wave_expire b order soon o,
      )
