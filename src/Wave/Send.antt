-- ===== src/Wave/Send.antt =====
-- How a packet leaves over a relay: the block of MBR in `Ipv4Interface::Send`
-- (NS3/internet/model/ipv4-interface.cc), the tag that it puts on the packet
-- (NS3/wave/model/mbr-packet-tag.cc), and the header that `OcbWifiMac::Enqueue` makes of the tag
-- (NS3/wave/model/ocb-wifi-mac.cc). A packet's tag is its serialised bytes. What follows in both
-- functions is ns-3's.
pub mod Frames
pub mod Samples
mod Tests
use map_based_relay.Prelude.{
  ℕ, ◌+◌, ◌%◌, ◌^◌, List, ◌++◌, Option, none, some, Bool, true, false, not, ◌==◌, if◌then◌else◌,
  ◌>>=◌,
}
use map_based_relay.Wire.{Buffer}
use map_based_relay.Doubles.{Doubles}
use map_based_relay.Mbr.Header.{write_mac, read_mac}
use map_based_relay.Mbr.Neighbors.{Neighbors, get_geohash_from_ip_in_nb}
use map_based_relay.Wave.Graph.{Graph}
use map_based_relay.Wave.Route.{MbrRoute, Place, Outcome, mbr_forward}

-- Mac48Address::CopyTo and CopyFrom.
pub record Addresses : Type 0 where
  pub copy_to : ℕ → List ℕ
  pub copy_from : List ℕ → ℕ

pub record MbrTag : Type 0 where
  pub relayflag : ℕ
  pub relay_mac : List ℕ

-- `unset` is what the memory holds for the address.
abbrev pub mbr_tag : (unset : List ℕ) → MbrTag
mbr_tag unset = record { relayflag = 0; relay_mac = unset }

abbrev pub set_relayflag : MbrTag → Bool → MbrTag
set_relayflag t relayflag = record t { relayflag = if relayflag then 1 else 0 }

abbrev pub is_relaying : MbrTag → Bool
is_relaying t = not (t.relayflag == 0)

pub serialize_tag : Buffer → MbrTag → List ℕ
serialize_tag b t = b.u8.write t.relayflag ++ write_mac b t.relay_mac

pub deserialize_tag : Buffer → List ℕ → Option MbrTag
deserialize_tag b i = do
  (flag, i) ← b.u8.read i
  (mac, i) ← read_mac b 6 i
  some (record { relayflag = flag; relay_mac = mac })

-- Where the packet goes from the block: to the device, for the hardware address, with the tag; or on to
-- the look-up of ARP, with the tag that it still has.
pub data Way : Type 0 where
  by_mbr : (hardware : ℕ) → (tag : List ℕ) → Way
  by_arp : (tag : Option (List ℕ)) → Way

pub record Departure : Type 0 where
  pub route : MbrRoute
  pub nb : Neighbors
  pub way : Way

-- A relay is named where the result of mbr_forward is 0; the hardware address is the one that
-- GetGeohashFromIpInNb has copied to `to_mac`, and there is none where that found no entry.
pub send_over :
    Buffer → Addresses → (unset : List ℕ) → (to_mac : Option ℕ) → Outcome → Option Departure
unfolding serialize_tag
send_over b a unset to_mac o = elim o.relay_mac [
  | none ↦ some (record { route = o.route; nb = o.nb; way = by_arp none })
  | some mac ↦ to_mac >>= λ hardware.
      let t = record (set_relayflag (mbr_tag unset) true) { relay_mac = a.copy_to mac } in
      some (record { route = o.route; nb = o.nb; way = by_mbr hardware (serialize_tag b t) })
]

-- `unicast` says that the destination is neither the broadcast nor a multicast address, `subnet` that
-- it is the broadcast address of a network of the interface.
pub send_by_mbr :
    Buffer
    → Addresses
    → (unset : List ℕ) → Doubles
    → MbrRoute
    → (graph : Option Graph) → (now : ℕ) → (this : Place) → Neighbors
    → (dest : ℕ) → (unicast subnet : Bool) → (tag : Option (List ℕ)) → Option Departure
unfolding send_over
send_by_mbr b a unset f route graph now this nb dest unicast subnet tag =
    let plain : Departure = record { route = route; nb = nb; way = by_arp tag } in
    let to_mac : Option ℕ = elim (get_geohash_from_ip_in_nb now nb dest).1 [
      | none ↦ none
      | some n ↦ some n.hardware_address
    ] in
    if not unicast
    then some plain
    else if subnet
    then some plain
    else mbr_forward f route graph now this nb dest >>= send_over b a unset to_mac

-- The addresses of the WifiMacHeader, and whether its type is that of MBR.
pub record Frame : Type 0 where
  pub type_mbr_data : Bool
  pub addr1 : ℕ
  pub addr2 : ℕ
  pub addr3 : ℕ
  pub addr4 : Option ℕ

-- The tag of the packet, or a fresh one where it has none.
pub peek_tag : Buffer → (unset : List ℕ) → Option (List ℕ) → Option MbrTag
unfolding deserialize_tag
peek_tag b unset none = some (mbr_tag unset)
peek_tag b unset (some bytes) = deserialize_tag b bytes

-- The frame, and the counter of relayed packets.
pub enqueue_frame :
    Buffer
    → Addresses
    → (unset : List ℕ) → (own wildcard : ℕ) → (relayed_pkt : ℕ) → (to : ℕ) → (tag : Option (List ℕ))
    → Option (Frame × ℕ)
unfolding peek_tag
enqueue_frame b a unset own wildcard relayed_pkt to tag = do
  t ← peek_tag b unset tag
  some (
      if is_relaying t
      then (
        record {
          type_mbr_data = true;
          addr1 = a.copy_from t.relay_mac;
          addr2 = own;
          addr3 = wildcard;
          addr4 = some to;
        },
        (relayed_pkt + 1) % 2 ^ 32,
      )
      else (
        record { type_mbr_data = false; addr1 = to; addr2 = own; addr3 = wildcard; addr4 = none },
        relayed_pkt,
      ))
