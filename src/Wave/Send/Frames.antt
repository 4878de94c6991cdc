-- ===== src/Wave/Send/Frames.antt =====
-- What goes over the air for a packet with a relay: `Ipv4Interface::Send`, the packet's tag and
-- `OcbWifiMac::Enqueue` together.
use map_based_relay.Prelude.{
  append-nil, subst, [], ◌++◌, ◌^◌, ◌%◌, false, ◌<◌, ◌+◌, true, ◌≡◌, ℕ, List, Option, some, arith,
  All, length,
}
use map_based_relay.Wire.{Buffer}
use map_based_relay.Doubles.{Doubles}
use map_based_relay.Mbr.Header.{write_mac, read_mac}
use map_based_relay.Mbr.Header.RoundTrip.{read_mac-write_mac}
use map_based_relay.Mbr.Neighbors.{Neighbors, Neighbor, get_geohash_from_ip_in_nb}
use map_based_relay.Wave.Graph.{Graph}
use map_based_relay.Wave.Route.{MbrRoute, Place, Outcome, mbr_forward}
use map_based_relay.Wave.Route.Whole.{mbr_forward-IsJustifiedFor}
use map_based_relay.Wave.Send.{
  Addresses, MbrTag, serialize_tag, deserialize_tag, by_mbr, Departure, send_over, send_by_mbr,
  Frame, peek_tag, enqueue_frame,
}

-- The six bytes of an address name it.
pub record Copies (a : Addresses) (mac : ℕ) : Type 0 where
  pub six : length (a.copy_to mac) ≡ 6
  pub bytes : All (λ x. x < 256) (a.copy_to mac)
  pub back : a.copy_from (a.copy_to mac) ≡ mac

abbrev pub relay_tag : Addresses → ℕ → MbrTag
relay_tag a mac = record { relayflag = 1; relay_mac = a.copy_to mac }

-- A packet that the relay gets, for the node with the hardware address `to` behind it.
abbrev pub relay_frame : (own wildcard mac to : ℕ) → Frame
relay_frame own wildcard mac to = record {
  type_mbr_data = true;
  addr1 = mac;
  addr2 = own;
  addr3 = wildcard;
  addr4 = some to;
}

module _ (b : Buffer) (a : Addresses) (mac : ℕ) (c : Copies a mac) where
  deserialize-serialize_tag :
      deserialize_tag b (serialize_tag b (relay_tag a mac)) ≡ some (relay_tag a mac)
  unfolding deserialize_tag serialize_tag
  deserialize-serialize_tag =
      let mac_trip : read_mac b 6 (write_mac b (a.copy_to mac) ++ []) ≡ some (a.copy_to mac, []) =
        subst (λ n. read_mac b n (write_mac b (a.copy_to mac) ++ []) ≡ some (a.copy_to mac, []))
          c.six (read_mac-write_mac b (a.copy_to mac) [] c.bytes) in
      let bare : read_mac b 6 (write_mac b (a.copy_to mac)) ≡ some (a.copy_to mac, []) =
        rw (append-nil (write_mac b (a.copy_to mac))) at mac_trip in
      rw (b.u8.read-write 1 (write_mac b (a.copy_to mac)) (omega arith), bare)

  pub enqueue_frame-relay_tag :
      (unset : List ℕ) (own wildcard relayed_pkt to : ℕ)
      → enqueue_frame b a unset own wildcard relayed_pkt to
          (some (serialize_tag b (relay_tag a mac)))
        ≡ some (relay_frame own wildcard mac to, (relayed_pkt + 1) % 2 ^ 32)
  unfolding enqueue_frame peek_tag
  enqueue_frame-relay_tag unset own wildcard relayed_pkt to = rw (deserialize-serialize_tag, c.back)

module _ (b : Buffer) (a : Addresses) (mac : ℕ) where
  -- What the theorem says of the destination's entry.
  abbrev pub IsSentByRelay :
      (unset : List ℕ)
      → (own wildcard relayed_pkt : ℕ) → Outcome
      → Neighbor
      → Option Departure
      → Type 0
  IsSentByRelay unset own wildcard relayed_pkt o n sent =
      (bytes : List ℕ) × (sent
        ≡ some (record { route = o.route; nb = o.nb; way = by_mbr n.hardware_address bytes }))
      × (enqueue_frame b a unset own wildcard relayed_pkt n.hardware_address (some bytes)
          ≡ some (relay_frame own wildcard mac n.hardware_address, (relayed_pkt + 1) % 2 ^ 32))

-- A packet to one node, for which mbr_forward names a relay, leaves the interface for the hardware
-- address in the destination's live entry of the neighbour table, whatever tag it had; and the frame
-- that OcbWifiMac::Enqueue makes of it is one of MBR, to the relay, with that hardware address as its
-- fourth address, and it is counted. The six bytes of the relay's address are taken to name it.
pub send_by_mbr-enqueue_frame :
    (b : Buffer) (a : Addresses) (unset : List ℕ) (f : Doubles) (route : MbrRoute) (g : Graph)
    (now : ℕ) (this : Place) (nb : Neighbors) (dest own wildcard relayed_pkt mac : ℕ)
    (tag : Option (List ℕ)) (o : Outcome) (c : Copies a mac)
    → mbr_forward f route (some g) now this nb dest ≡ some o
    → o.relay_mac ≡ some mac
    → (n : Neighbor) × ((get_geohash_from_ip_in_nb now nb dest).1 ≡ some n)
      × IsSentByRelay b a mac unset own wildcard relayed_pkt o n
          (send_by_mbr b a unset f route (some g) now this nb dest true false tag)
unfolding send_by_mbr send_over
send_by_mbr-enqueue_frame b a unset f route g now this nb dest own wildcard relayed_pkt mac tag o c
      e named =
    let j = mbr_forward-IsJustifiedFor f route g now this nb dest o mac e named in
    let n : Neighbor = j.n in
    let known = j.live.known in
    (
      n,
      known,
      (
        serialize_tag b (relay_tag a mac),
        rw (known, e, named),
        enqueue_frame-relay_tag b a mac c unset own wildcard relayed_pkt n.hardware_address,
      ),
    )
