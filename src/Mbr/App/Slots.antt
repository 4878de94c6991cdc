-- ===== src/Mbr/App/Slots.antt =====
-- When the hellos go out: the random delays do not add up.

use map_based_relay.Prelude.{
  ◌∙◌, ◌%◌, ◌^◌, ◌≡◌, ◌≤◌, refl, ap, ℕ, ◌+◌, ◌-◌, List, [], ◌∷◌, none, some, All, arith, false, ltb,
}
use map_based_relay.Mbr.App.{
  Machine, Site, App, Scheduled, generate_wave_traffic, start_application, start_time,
}

-- The times of the calls of GenerateWaveTraffic from a scheduled one on, one for each of the sites.
pub beacon_times : Machine → App → Scheduled → List Site → List ℕ
beacon_times m s e [] = []
beacon_times m s e (p ∷ ps) = e.at ∷ elim (generate_wave_traffic m e.at e.count p s) [
  | none ↦ []
  | some r ↦ elim r.2 [ none ↦ [] | some e' ↦ beacon_times m r.0 e' ps ]
]

-- One time in each interval from `slot` on, at the delay that was drawn before.
unfoldable pub slots : (interval slot delay : ℕ) → List Site → List ℕ
slots interval slot delay [] = []
slots interval slot delay (p ∷ ps) = (slot + delay) ∷ slots interval (slot + interval) p.tx_delay ps

module _ (m : Machine) where
  beacon_times-slots :
      (s : App) (e : Scheduled) (slot : ℕ) (ps : List Site)
      → s.stop ≡ false
      → s.prev_tx_delay ≤ s.wave_interval
      → e.at ≡ slot + s.prev_tx_delay
      → All (λ p. p.tx_delay ≤ s.wave_interval) ps
      → beacon_times m s e ps ≡ slots s.wave_interval slot s.prev_tx_delay ps
  unfolding beacon_times slots generate_wave_traffic
  beacon_times-slots s e slot [] on fits due delays = refl
  beacon_times-slots s e slot (p ∷ ps) on fits due delays =
      let late : ltb (s.wave_interval + p.tx_delay) s.prev_tx_delay ≡ false = ground arith in
      let s' : App = record s { stop = false; prev_tx_delay = p.tx_delay } in
      let e' : Scheduled = record {
        at = e.at + (s.wave_interval + p.tx_delay - s.prev_tx_delay);
        count = (e.count + (2 ^ 32 - 1)) % 2 ^ 32;
      } in
      let later : beacon_times m s' e' ps
          ≡ slots s.wave_interval (slot + s.wave_interval) p.tx_delay ps =
        beacon_times-slots s' e' (slot + s.wave_interval) ps refl delays.0 (omega arith) delays.1 in
      rw on (
        rw late (
          ap (λ ts. e.at ∷ ts) later
          ∙ ap (λ t. t ∷ slots s.wave_interval (slot + s.wave_interval) p.tx_delay ps) due))

  -- An application that is started, is not stopped, and draws delays of at most the interval between
  -- two hellos sends its hellos in consecutive intervals that begin one second and the drift after the
  -- start, each at the delay drawn for it alone.
  pub start_application-slots :
      (s : App) (now drift delay packets : ℕ) (ps : List Site)
      → s.stop ≡ false
      → delay ≤ s.wave_interval
      → All (λ p. p.tx_delay ≤ s.wave_interval) ps
      → let r = start_application now drift delay packets s in
        beacon_times m r.0 r.1 ps ≡ slots s.wave_interval (now + (start_time + drift)) delay ps
  unfolding start_application
  start_application-slots s now drift delay packets ps on fits delays =
      beacon_times-slots (record s { prev_tx_delay = delay }) _ (now + (start_time + drift)) ps on
        fits (omega arith) delays
