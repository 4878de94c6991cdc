-- ===== src/Linux/Output/Handled.antt =====
-- What the hook does with a packet.

use map_based_relay.Prelude.{
  append-nil, append_assoc, ◌∷◌, [], ◌++◌, Option-cases, OnSome-bind, inr, OnSome, ap, inl, sym,
  Bool-cases, ◌∙◌, refl, false, true, arith, ℕ, ◌+◌, ◌%◌, ◌^◌, List, Option, none, some, Bool, ◌≡◌,
  ◌≢◌, ◌==◌, if◌then◌else◌, length,
}
use map_based_relay.Linux.Forward.{Relayed, mbr_forward}
use map_based_relay.Linux.Output.{
  handle, output_handler, eth_header_dirty, push_real_dst_mac, relay_packet, init_address,
  count_relayed, write_stats, PacketStat, Module, SkBuff, Frame, Verdict, accept, stolen,
  eth_p_maprelay,
}

-- How a module `m` comes to `m'` and the verdict.
pub data Handled (m : Module) (skb : Option SkBuff) (expanded : Bool) (m' : Module)
    : Verdict → Type 0 where
  passed : m'.status.relay_work ≡ m.status.relay_work → Handled m skb expanded m' accept
  relayed :
      (packet : SkBuff) (r : Relayed) (f : Frame)
      → skb ≡ some packet
      → m.status.mbr_start ≢ 0
      → mbr_forward m.graph m.neighbors m.status.geohash_this packet.nexthop ≡ some (some r)
      → f.h_dest ≡ r.relay_mac
      → f.h_source ≡ m'.mac_this
      → f.h_proto ≡ eth_p_maprelay
      → f.payload ≡ packet.payload
      → f.real_dst ≡ (if expanded then some r.dst_mac else none)
      → m'.status.relay_work ≡ (m.status.relay_work + 1) % 2 ^ 32
      → Handled m skb expanded m' (stolen f)

-- What is noted of a frame.
abbrev pub stat_of : (sec nsec : ℕ) → Frame → PacketStat
stat_of sec nsec f = record {
  mac = f.h_dest;
  sec = sec;
  nsec = nsec;
  packetsize = length f.payload;
}

-- What the statistics gain.
abbrev pub gained : (sec nsec : ℕ) → Module → Verdict → List PacketStat
gained sec nsec m accept = []
gained sec nsec m (stolen f) = if m.status.stat_on == 1 then stat_of sec nsec f ∷ [] else []

-- The statistics that are still noted and those that are printed now are the new one and those of
-- before, in their order.
abbrev pub Accounted :
    (sec nsec : ℕ) → Module → Module → (printed : List PacketStat) → Verdict → Type 0
Accounted sec nsec m m' printed v = m'.statis ++ printed ≡ gained sec nsec m v ++ m.statis

-- What the start of the function leaves alone.
pub record IsSameModule (m w : Module) : Type 0 where
  pub graph : w.graph ≡ m.graph
  pub neighbors : w.neighbors ≡ m.neighbors
  pub geohash_this : w.status.geohash_this ≡ m.status.geohash_this
  mbr_start : w.status.mbr_start ≡ m.status.mbr_start
  relay_work : w.status.relay_work ≡ m.status.relay_work
  stat_on : w.status.stat_on ≡ m.status.stat_on

module _ (dev_addrs : List ℕ) (m : Module) where
  abbrev pub started : Module
  started = init_address dev_addrs (write_stats m).0

  pub started-IsSameModule : IsSameModule m started
  started-IsSameModule = record {
    graph = ground arith;
    neighbors = ground arith;
    geohash_this = ground arith;
    mbr_start = ground arith;
    relay_work = ground arith;
    stat_on = ground arith;
  }

  init_address-statis : (w : Module) → (init_address dev_addrs w).statis ≡ w.statis
  init_address-statis w = elim (Bool-cases w.addrinit_flag) [
    | inl y ↦ rw y refl
    | inr n ↦ rw n refl
  ]

  started-statis : started.statis ++ (write_stats m).1 ≡ m.statis
  started-statis = elim (Bool-cases (m.status.stat_write == 1)) [
    | inl y ↦ rw (init_address-statis (write_stats m).0, y) refl
    | inr n ↦ rw (init_address-statis (write_stats m).0, n) (append-nil m.statis)
  ]

count_relayed-statis :
    (sec nsec : ℕ) (payload : List ℕ) (w : Module) (r : Relayed)
    → (count_relayed sec nsec payload w r).statis ≡ (
        if w.status.stat_on == 1
        then record { mac = r.relay_mac; sec = sec; nsec = nsec; packetsize = length payload }
          ∷ w.statis
        else w.statis)
unfolding count_relayed
count_relayed-statis sec nsec payload w r = elim (Bool-cases (w.status.stat_on == 1)) [
  | inl y ↦ rw y refl
  | inr n ↦ rw n refl
]

count_relayed-relay_work :
    (sec nsec : ℕ) (payload : List ℕ) (w : Module) (r : Relayed)
    → (count_relayed sec nsec payload w r).status.relay_work ≡ (w.status.relay_work + 1) % 2 ^ 32
unfolding count_relayed
count_relayed-relay_work sec nsec payload w r = elim (Bool-cases (w.status.stat_on == 1)) [
  | inl on ↦ rw (on, count_relayed) refl
  | inr off ↦ rw (off, count_relayed) refl
]

count_relayed-mac_this :
    (sec nsec : ℕ) (payload : List ℕ) (w : Module) (r : Relayed)
    → (count_relayed sec nsec payload w r).mac_this ≡ w.mac_this
unfolding count_relayed
count_relayed-mac_this sec nsec payload w r = ground arith

relay_packet-Handled :
    (sec nsec : ℕ) (expanded : Bool) (m w : Module) (skb : SkBuff) (r : Relayed)
    → IsSameModule m w
    → m.status.mbr_start ≢ 0
    → mbr_forward m.graph m.neighbors m.status.geohash_this skb.nexthop ≡ some (some r)
    → Handled m
        (some skb)
        expanded
        (relay_packet sec nsec expanded w skb.payload r).0
        (relay_packet sec nsec expanded w skb.payload r).1
unfolding relay_packet push_real_dst_mac eth_header_dirty
relay_packet-Handled sec nsec true m w skb r s on e =
    relayed skb r _ refl on e refl (sym (count_relayed-mac_this sec nsec skb.payload w r)) refl refl
      refl
      (count_relayed-relay_work sec nsec skb.payload w r ∙ ap (λ k. (k + 1) % 2 ^ 32) s.relay_work)
relay_packet-Handled sec nsec false m w skb r s on e =
    relayed skb r _ refl on e refl (sym (count_relayed-mac_this sec nsec skb.payload w r)) refl refl
      refl
      (count_relayed-relay_work sec nsec skb.payload w r ∙ ap (λ k. (k + 1) % 2 ^ 32) s.relay_work)

-- The verdict, and the statistics that `w`, the module after the start of the function, has or gains.
abbrev Settled : (sec nsec : ℕ) → Module → Module → Option SkBuff → Bool → Module × Verdict → Type 0
Settled sec nsec m w skb expanded r =
    Handled m skb expanded r.0 r.1 × (r.0.statis ≡ gained sec nsec m r.1 ++ w.statis)

passed-Settled :
    (sec nsec : ℕ) (m w : Module) (skb : Option SkBuff) (expanded : Bool)
    → IsSameModule m w
    → Settled sec nsec m w skb expanded (w, accept)
passed-Settled sec nsec m w skb expanded s = (passed s.relay_work, refl)

relay_packet-statis :
    (sec nsec : ℕ) (expanded : Bool) (m w : Module) (payload : List ℕ) (r : Relayed)
    → IsSameModule m w
    → (relay_packet sec nsec expanded w payload r).0.statis
      ≡ gained sec nsec m (relay_packet sec nsec expanded w payload r).1 ++ w.statis
unfolding relay_packet push_real_dst_mac eth_header_dirty
relay_packet-statis sec nsec true m w payload r s = elim (Bool-cases (m.status.stat_on == 1)) [
  | inl y ↦ rw (count_relayed-statis sec nsec payload w r, s.stat_on, y) refl
  | inr n ↦ rw (count_relayed-statis sec nsec payload w r, s.stat_on, n) refl
]
relay_packet-statis sec nsec false m w payload r s = elim (Bool-cases (m.status.stat_on == 1)) [
  | inl y ↦ rw (count_relayed-statis sec nsec payload w r, s.stat_on, y) refl
  | inr n ↦ rw (count_relayed-statis sec nsec payload w r, s.stat_on, n) refl
]

relayed-Settled :
    (sec nsec : ℕ) (expanded : Bool) (m w : Module) (skb : SkBuff) (r : Relayed)
    → IsSameModule m w
    → m.status.mbr_start ≢ 0
    → mbr_forward m.graph m.neighbors m.status.geohash_this skb.nexthop ≡ some (some r)
    → Settled sec nsec m w (some skb) expanded (relay_packet sec nsec expanded w skb.payload r)
relayed-Settled sec nsec expanded m w skb r s on e = (
  relay_packet-Handled sec nsec expanded m w skb r s on e,
  relay_packet-statis sec nsec expanded m w skb.payload r s,
)

forward-same :
    (m w : Module) (nexthop : ℕ)
    → IsSameModule m w
    → mbr_forward w.graph w.neighbors w.status.geohash_this nexthop
      ≡ mbr_forward m.graph m.neighbors m.status.geohash_this nexthop
forward-same m w nexthop s = rw (s.graph, s.neighbors, s.geohash_this) refl

handle-Settled :
    (sec nsec : ℕ) (expanded : Bool) (m w : Module) (skb : Option SkBuff)
    → IsSameModule m w
    → OnSome (Settled sec nsec m w skb expanded) (handle sec nsec expanded w skb)
unfolding handle
handle-Settled sec nsec expanded m w none s = passed-Settled sec nsec m w none expanded s
handle-Settled sec nsec expanded m w (some skb) s = elim (Bool-cases (w.status.mbr_start == 0)) [
  | inl off ↦ rw off (passed-Settled sec nsec m w (some skb) expanded s)
  | inr on' ↦
      let on : w.status.mbr_start ≢ 0 = ground (arith, on') in
      elim (Option-cases (mbr_forward w.graph w.neighbors w.status.geohash_this skb.nexthop)) [
        | inl e ↦ rw (on', e) tt
        | inr (o, e) ↦ elim (Option-cases o) [
          | inl f ↦ rw (on', e, f) (passed-Settled sec nsec m w (some skb) expanded s)
          | inr (r, f) ↦
              rw (on', e, f)
                (relayed-Settled sec nsec expanded m w skb r s (λ off. on (s.mbr_start ∙ off))
                  (sym (forward-same m w skb.nexthop s) ∙ e ∙ ap some f))
        ]
      ]
]

-- The hook lets a packet pass, and then the counter of relayed packets stays; or it sends it over a relay,
-- and then the module is on, mbr_forward has named the relay, the frame goes to the relay with the packet
-- in it and, where there is room, the address of the next hop before it, and the counter goes up by one. In both
-- cases the statistics still noted, followed by those printed, are those of before, in their order,
-- after one for the frame where it is relayed with the statistics on: its relay, the time, and the
-- packet's length.
pub output_handler-Handled :
    (dev_addrs : List ℕ) (sec nsec : ℕ) (expanded : Bool) (m : Module) (skb : Option SkBuff)
    → OnSome
        (λ r. Handled m skb expanded r.0 r.2 × Accounted sec nsec m r.0 r.1 r.2)
        (output_handler dev_addrs sec nsec expanded m skb)
unfolding output_handler
output_handler-Handled dev_addrs sec nsec expanded m skb =
    let w = started dev_addrs m in
    OnSome-bind _ (handle sec nsec expanded w skb) _
      (handle-Settled sec nsec expanded m w skb (started-IsSameModule dev_addrs m))
      (λ r settled. (
        settled.0,
        ap (λ l. l ++ (write_stats m).1) settled.1
            ∙ append_assoc (gained sec nsec m r.1) w.statis (write_stats m).1
            ∙ ap (λ l. gained sec nsec m r.1 ++ l) (started-statis dev_addrs m),
      ))
