-- ===== src/Linux/Output.antt =====
-- Linux/kernel-module/pkt_output.c: `output_handler`, the hook on a packet that leaves, with the
-- header that it makes (`eth_header_dirty`, `push_real_dst_mac`). `input_handler` of pkt_input.c accepts
-- every packet. A trace is a list of what it prints. A packet's payload starts at its network header, as it
-- does at this hook, and it has the room for the Ethernet header that the kernel keeps; an expansion of the room may
-- fail. An int counts modulo 2^32.
pub mod Handled
pub mod Run
pub mod Answers
mod Tests
mod Life
use map_based_relay.Prelude.{
  ℕ, ◌+◌, ◌%◌, ◌^◌, List, [], ◌∷◌, Option, none, some, Bool, true, false, ◌&&◌, not, ◌==◌,
  if◌then◌else◌, length, ◌>>=◌,
}
use map_based_relay.Wave.Graph.{Graph}
use map_based_relay.Linux.Neighbors.{NeighborTable}
use map_based_relay.Linux.Control.{MbrStatus}
use map_based_relay.Linux.Forward.{Relayed, mbr_forward}

pub record PacketStat : Type 0 where
  pub mac : ℕ
  pub sec : ℕ
  pub nsec : ℕ
  pub packetsize : ℕ

-- The state of the module. `neighbors` is the shared memory.
pub record Module : Type 0 where
  pub status : MbrStatus
  pub graph : Graph
  pub neighbors : List NeighborTable
  pub statis : List PacketStat
  pub mac_this : ℕ
  pub addrinit_flag : Bool

-- `nexthop` is the address that the route of the packet gives.
pub record SkBuff : Type 0 where
  pub nexthop : ℕ
  pub payload : List ℕ

-- What is sent: the Ethernet header before the packet, and before that the address of the next hop, which
-- is no part of the packet's data.
pub record Frame : Type 0 where
  pub real_dst : Option ℕ
  pub h_dest : ℕ
  pub h_source : ℕ
  pub h_proto : ℕ
  pub payload : List ℕ

pub data Verdict : Type 0 where
  accept : Verdict
  stolen : Frame → Verdict

-- ETH_P_MAPRELAY, and ETH_P_802_3 and ETH_P_802_2 of the kernel.
abbrev pub eth_p_maprelay : ℕ
eth_p_maprelay = 0x6559

abbrev eth_p_802_3 : ℕ
eth_p_802_3 = 1

abbrev eth_p_802_2 : ℕ
eth_p_802_2 = 4

-- The addresses are given, and the push of the header gives a place to write to.
unfoldable pub eth_header_dirty : (type daddr saddr len : ℕ) → (payload : List ℕ) → Frame
eth_header_dirty type daddr saddr len payload = record {
  real_dst = none;
  h_dest = daddr;
  h_source = saddr;
  h_proto =
      if not (type == eth_p_802_3) && not (type == eth_p_802_2)
      then type % 2 ^ 16
      else len % 2 ^ 16;
  payload = payload;
}

-- `expanded` says that there is room, or that it could be made.
unfoldable pub push_real_dst_mac : (expanded : Bool) → Frame → (addr : ℕ) → Frame
push_real_dst_mac expanded f addr = if expanded then record f { real_dst = some addr } else f

-- The list of the statistics is printed from its head on, and emptied.
abbrev pub write_stats : Module → Module × List PacketStat
write_stats m =
    if m.status.stat_write == 1
    then (record m { statis = []; status = record m.status { stat_write = 0 } }, m.statis)
    else (m, [])

-- The last of the addresses of the device; the address stays zero without one.
abbrev last_or : (a : ℕ) → List ℕ → ℕ
last_or a [] = a
last_or a (b ∷ bs) = last_or b bs

abbrev pub init_address : (dev_addrs : List ℕ) → Module → Module
init_address dev_addrs m =
    if m.addrinit_flag
    then m
    else record m { mac_this = last_or m.mac_this dev_addrs; addrinit_flag = true }

-- A relayed packet is counted, and noted where the statistics are on.
unfoldable pub count_relayed : (sec nsec : ℕ) → (payload : List ℕ) → Module → Relayed → Module
count_relayed sec nsec payload m r =
    let m' = record m {
      status = record m.status { relay_work = (m.status.relay_work + 1) % 2 ^ 32 };
    } in
    let stat : PacketStat = record {
      mac = r.relay_mac;
      sec = sec;
      nsec = nsec;
      packetsize = length payload;
    } in
    if m.status.stat_on == 1 then record m' { statis = stat ∷ m.statis } else m'

unfoldable pub relay_packet :
    (sec nsec : ℕ) → (expanded : Bool) → Module → (payload : List ℕ) → Relayed → Module × Verdict
relay_packet sec nsec expanded m payload r = (
  count_relayed sec nsec payload m r,
  stolen (
      push_real_dst_mac expanded
        (eth_header_dirty eth_p_maprelay r.relay_mac m.mac_this (length payload) payload)
        r.dst_mac),
)

-- What follows the start of the function: no packet, and a module that is switched off.
unfoldable pub handle :
    (sec nsec : ℕ) → (expanded : Bool) → Module → Option SkBuff → Option (Module × Verdict)
handle sec nsec expanded m none = some (m, accept)
handle sec nsec expanded m (some skb) =
    let forwarded = mbr_forward m.graph m.neighbors m.status.geohash_this skb.nexthop >>= λ r.
    some
      (elim r [ none ↦ (m, accept) | some r' ↦ relay_packet sec nsec expanded m skb.payload r' ]) in
    if m.status.mbr_start == 0 then some (m, accept) else forwarded

-- The state, what is printed, and the result of the hook; `none` where mbr_forward follows a null
-- pointer.
unfoldable pub output_handler :
    (dev_addrs : List ℕ)
    → (sec nsec : ℕ) → (expanded : Bool) → Module
    → Option SkBuff
    → Option (Module × List PacketStat × Verdict)
output_handler dev_addrs sec nsec expanded m skb =
    let w = write_stats m in
    handle sec nsec expanded (init_address dev_addrs w.0) skb >>= λ r. some (r.0, w.1, r.1)

abbrev pub input_handler : SkBuff → Verdict
input_handler skb = accept
