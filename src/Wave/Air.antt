-- ===== src/Wave/Air.antt =====
-- What an MBR frame is over the air, and what its relay does with it: the header of
-- NS3/wifi/model/wifi-mac-header.cc, whose frame control has one bit more for the subtype than ns-3's so that
-- MBR's subtype 16 fits, and `OcbWifiMac::Receive` of NS3/wave/model/ocb-wifi-mac.cc. An address is
-- its value. A uint8_t or uint16_t is a number; `|` of masks that do not
-- overlap is a sum. What the station manager, the queue and the upper layers do is ns-3's.
pub mod Fields
pub mod Header
pub mod Hops
mod Tests
use map_based_relay.Prelude.{
  ℕ, ◌+◌, ◌*◌, ◌/◌, ◌%◌, ◌^◌, List, [], ◌++◌, Option, none, some, Bool, true, false, not, ◌&&◌,
  ◌||◌, ◌==◌, if◌then◌else◌, ◌>>=◌,
}
use map_based_relay.Wire.{Buffer}
use map_based_relay.Mbr.Header.{write_mac, read_mac}
use map_based_relay.Wave.Send.{Addresses, Frame}

pub record WifiMacHeader : Type 0 where
  pub ctrl_type : ℕ
  pub ctrl_subtype : ℕ
  pub ctrl_to_ds : ℕ
  pub ctrl_from_ds : ℕ
  pub ctrl_more_frag : ℕ
  pub ctrl_retry : ℕ
  pub ctrl_more_data : ℕ
  pub ctrl_wep : ℕ
  pub ctrl_order : ℕ
  pub duration : ℕ
  pub addr1 : ℕ
  pub addr2 : ℕ
  pub addr3 : ℕ
  pub seq_frag : ℕ
  pub seq_seq : ℕ
  pub addr4 : ℕ
  pub qos_tid : ℕ
  pub qos_eosp : ℕ
  pub qos_ack_policy : ℕ
  pub amsdu_present : ℕ
  pub qos_stuff : ℕ

abbrev pub type_data : ℕ
type_data = 2

-- The constructor, over what the memory holds.
abbrev pub new_header : (unset : WifiMacHeader) → WifiMacHeader
new_header unset = record unset {
  ctrl_more_data = 0;
  ctrl_wep = 0;
  ctrl_order = 1;
  amsdu_present = 0;
}

abbrev pub set_type_data : WifiMacHeader → WifiMacHeader
set_type_data h = record h { ctrl_type = type_data; ctrl_subtype = 0 }

abbrev pub set_type_mbr_data : WifiMacHeader → WifiMacHeader
set_type_mbr_data h = record h { ctrl_type = type_data; ctrl_subtype = 16 }

abbrev pub is_data : WifiMacHeader → Bool
is_data h = h.ctrl_type == type_data

abbrev pub is_ctl : WifiMacHeader → Bool
is_ctl h = h.ctrl_type == 1

abbrev pub is_mbr_data : WifiMacHeader → Bool
is_mbr_data h = h.ctrl_type == type_data && h.ctrl_subtype == 16

-- `m_ctrlSubtype & 0x08`
abbrev pub has_qos : WifiMacHeader → Bool
has_qos h = h.ctrl_subtype / 8 % 2 == 1

abbrev pub is_qos_data : WifiMacHeader → Bool
is_qos_data h = h.ctrl_type == type_data && has_qos h

unfoldable pub get_frame_control : WifiMacHeader → ℕ
get_frame_control h =
    h.ctrl_type % 4 * 2
    + h.ctrl_subtype % 32 * 8
    + h.ctrl_to_ds % 2 * 256
    + h.ctrl_from_ds % 2 * 512
    + h.ctrl_more_frag % 2 * 1024
    + h.ctrl_retry % 2 * 2048
    + h.ctrl_more_data % 2 * 8192
    + h.ctrl_wep % 2 * 16384
    + h.ctrl_order % 2 * 32768

unfoldable pub set_frame_control : WifiMacHeader → (ctrl : ℕ) → WifiMacHeader
set_frame_control h ctrl = record h {
  ctrl_type = ctrl / 2 % 4;
  ctrl_subtype = ctrl / 8 % 32;
  ctrl_to_ds = ctrl / 256 % 2;
  ctrl_from_ds = ctrl / 512 % 2;
  ctrl_more_frag = ctrl / 1024 % 2;
  ctrl_retry = ctrl / 2048 % 2;
  ctrl_more_data = ctrl / 8192 % 2;
  ctrl_wep = ctrl / 16384 % 2;
  ctrl_order = ctrl / 32768 % 2;
}

-- The fields fit: the fragment has 4 bits.
abbrev pub get_sequence_control : WifiMacHeader → ℕ
get_sequence_control h = (h.seq_seq * 16 + h.seq_frag) % 2 ^ 16

abbrev pub set_sequence_control : WifiMacHeader → (seq : ℕ) → WifiMacHeader
set_sequence_control h seq = record h { seq_frag = seq % 16; seq_seq = seq / 16 % 4096 }

-- The fields fit their bits.
abbrev pub get_qos_control : WifiMacHeader → ℕ
get_qos_control h =
    (h.qos_tid
      + h.qos_eosp * 16
      + h.qos_ack_policy * 32
      + h.amsdu_present * 128
      + h.qos_stuff * 256)
    % 2 ^ 16

unfoldable pub set_qos_control : WifiMacHeader → (qos : ℕ) → WifiMacHeader
set_qos_control h qos = record h {
  qos_tid = qos % 16;
  qos_eosp = qos / 16 % 2;
  qos_ack_policy = qos / 32 % 4;
  amsdu_present = qos / 128 % 2;
  qos_stuff = qos / 256 % 256;
}

-- Whether the frame carries the fourth address.
abbrev pub with_four : WifiMacHeader → Bool
with_four h = not (h.ctrl_to_ds == 0) && not (h.ctrl_from_ds == 0) || h.ctrl_subtype == 16

-- The six subtypes of a control frame that have a size are 7 to 9 and 11 to 13.
unfoldable pub get_size : WifiMacHeader → ℕ
get_size h =
    if h.ctrl_type == 0
    then 24
    else if is_ctl h
    then (if h.ctrl_subtype == 11
          || h.ctrl_subtype == 8
          || h.ctrl_subtype == 9
          || h.ctrl_subtype == 7
        then 16
        else if h.ctrl_subtype == 12 || h.ctrl_subtype == 13
        then 10
        else 0)
    else if is_data h
    then 24 + (if with_four h then 6 else 0) + (if has_qos h then 2 else 0)
    else 0

module _ (b : Buffer) where
  unfoldable pub data_bytes : WifiMacHeader → List ℕ
  data_bytes h =
      b.lsb16.write (get_frame_control h)
      ++ (b.lsb16.write h.duration
          ++ (b.mac48.write h.addr1
              ++ (b.mac48.write h.addr2
                  ++ (b.mac48.write h.addr3
                      ++ (b.lsb16.write (get_sequence_control h)
                          ++ ((if with_four h then b.mac48.write h.addr4 else [])
                              ++ (if has_qos h then b.lsb16.write (get_qos_control h) else [])))))))

  -- Serialize of a data frame; `none` for the other frames, which are those of ns-3.
  unfoldable pub serialize_data : WifiMacHeader → Option (List ℕ)
  unfolding data_bytes
  serialize_data h = if is_data h then some (data_bytes h) else none

  read_fourth : WifiMacHeader → List ℕ → Option (WifiMacHeader × List ℕ)
  read_fourth h i =
      if with_four h
      then (do (addr4, i) ← b.mac48.read i; some (record h { addr4 = addr4 }, i))
      else some (h, i)

  read_qos : WifiMacHeader → List ℕ → Option (WifiMacHeader × List ℕ)
  read_qos h i =
      if has_qos h
      then (do (qos, i) ← b.lsb16.read i; some (set_qos_control h qos, i))
      else some (h, i)

  -- Deserialize, over the header object `h`, in the same cases.
  pub deserialize_data : WifiMacHeader → List ℕ → Option (WifiMacHeader × List ℕ)
  deserialize_data h i = do
    (ctrl, i) ← b.lsb16.read i
    (duration, i) ← b.lsb16.read i
    (addr1, i) ← b.mac48.read i
    let h = record (set_frame_control h ctrl) { duration = duration; addr1 = addr1 }
    (addr2, i) ← b.mac48.read i
    (addr3, i) ← b.mac48.read i
    (seq, i) ← b.lsb16.read i
    let h = set_sequence_control (record h { addr2 = addr2; addr3 = addr3 }) seq
    if is_data h then (do (h, i) ← read_fourth h i; read_qos h i) else none

-- The header that Enqueue makes of a frame, up to the choice of the queue, which is ns-3's. `ht` says that
-- HT or VHT is supported.
unfoldable pub frame_header : (ht : Bool) → (unset : WifiMacHeader) → Frame → WifiMacHeader
frame_header ht unset f =
    let fresh = new_header unset in
    let typed = if f.type_mbr_data then set_type_mbr_data fresh else set_type_data fresh in
    record typed {
      addr1 = f.addr1;
      addr2 = f.addr2;
      addr3 = f.addr3;
      addr4 = elim f.addr4 [ some to ↦ to | none ↦ fresh.addr4 ];
      ctrl_from_ds = 0;
      ctrl_to_ds = 0;
      ctrl_order = if ht then 0 else fresh.ctrl_order;
    }

-- What Receive makes of a frame: a data frame is taken apart, queued for the node that it is meant
-- for, or given to the upper layers. A management frame goes the way of ns-3.
pub data Received : Type 0 where
  assertion : Received
  deaggregate : Received
  queued : WifiMacHeader → Received
  forward_up : (from to : ℕ) → Received
  management : Received

unfoldable pub receive : (own wildcard : ℕ) → WifiMacHeader → Received
receive own wildcard hdr =
    if is_ctl hdr || not (hdr.addr3 == wildcard)
    then assertion
    else if not (is_data hdr)
    then management
    else if is_qos_data hdr && hdr.amsdu_present == 1
    then deaggregate
    else if is_mbr_data hdr
    then queued (record (set_type_data hdr) {
      addr1 = hdr.addr4;
      addr2 = own;
      addr3 = wildcard;
      ctrl_from_ds = 0;
      ctrl_to_ds = 0;
    })
    else forward_up hdr.addr2 hdr.addr1
