-- ===== src/Wave/Air/Tests.antt =====
-- The frame of the tests of Wave/Send over the air: the relay 77 passes the packet of 3 on to 55.
use map_based_relay.Prelude.{ℕ, ◌+◌, ◌≡◌, refl, List, [], ◌++◌, some, false, arith, length}
use map_based_relay.Wire.LittleEndian.{little_endian}
use map_based_relay.Wave.Send.Samples.{digits, digits-Copies}
use map_based_relay.Wave.Air.{
  WifiMacHeader, get_size, data_bytes, serialize_data, deserialize_data, receive, assertion,
  management, deaggregate, get_frame_control,
}
use map_based_relay.Wave.Air.Fields.{InRange}
use map_based_relay.Wave.Air.Header.{read_over, deserialize-serialize_data}
use map_based_relay.Wave.Air.Hops.{Low, Fits, IsRelayed, receive-enqueue_frame}

-- Memory that holds 9 in every field.
abbrev nines : WifiMacHeader
nines = record {
  ctrl_type = 9;
  ctrl_subtype = 9;
  ctrl_to_ds = 9;
  ctrl_from_ds = 9;
  ctrl_more_frag = 9;
  ctrl_retry = 9;
  ctrl_more_data = 9;
  ctrl_wep = 9;
  ctrl_order = 9;
  duration = 9;
  addr1 = 9;
  addr2 = 9;
  addr3 = 9;
  seq_frag = 9;
  seq_seq = 9;
  addr4 = 9;
  qos_tid = 9;
  qos_eosp = 9;
  qos_ack_policy = 9;
  amsdu_present = 9;
  qos_stuff = 9;
}

abbrev low : Low
low = record { duration = 44; more_frag = 0; retry = 0; seq_frag = 0; seq_seq = 4000 }

low-Fits : Fits low
low-Fits = record {
  duration = omega arith;
  more_frag = omega arith;
  retry = omega arith;
  seq_frag = omega arith;
  seq_seq = omega arith;
}

abbrev relay_header : WifiMacHeader
relay_header = record nines {
  ctrl_type = 2;
  ctrl_subtype = 16;
  ctrl_to_ds = 0;
  ctrl_from_ds = 0;
  ctrl_more_frag = 0;
  ctrl_retry = 1;
  ctrl_more_data = 0;
  ctrl_wep = 0;
  ctrl_order = 1;
  duration = 300;
  addr1 = 77;
  addr2 = 3;
  addr3 = 4;
  seq_frag = 2;
  seq_seq = 4095;
  addr4 = 55;
}

relay_header-InRange : InRange relay_header
relay_header-InRange = record {
  type = refl;
  subtype = omega arith;
  qos = λ e. ground (arith, e);
  to_ds = omega arith;
  from_ds = omega arith;
  more_frag = omega arith;
  retry = omega arith;
  more_data = omega arith;
  wep = omega arith;
  order = omega arith;
  duration = omega arith;
  seq_frag = omega arith;
  seq_seq = omega arith;
  addr1 = omega arith;
  addr2 = omega arith;
  addr3 = omega arith;
  addr4 = omega arith;
}

deserialize-serialize_data_example :
    (serialize_data little_endian relay_header ≡ some (data_bytes little_endian relay_header))
    × (length (data_bytes little_endian relay_header) ≡ get_size relay_header)
    × ((rest : List ℕ)
        → deserialize_data little_endian nines (data_bytes little_endian relay_header ++ rest)
          ≡ some (read_over nines relay_header, rest))
deserialize-serialize_data_example =
    deserialize-serialize_data little_endian nines relay_header relay_header-InRange

receive-enqueue_frame_example :
    IsRelayed little_endian digits 3 4 77 55 [] false nines nines nines 8 low low
receive-enqueue_frame_example =
    receive-enqueue_frame little_endian digits 3 4 77 55 [] false nines nines nines 8 low low
      digits-Copies (omega arith) (omega arith) (omega arith) (omega arith) low-Fits low-Fits

-- Subtype 16 sets the bit above the four of ns-3's subtype.
relay_control : get_frame_control relay_header ≡ 32768 + 2048 + 128 + 4
unfolding get_frame_control
relay_control = refl

relay_size : get_size relay_header ≡ 30
unfolding get_size
relay_size = refl

-- A control frame fails the assertion.
control : receive 3 4 (record relay_header { ctrl_type = 1 }) ≡ assertion
unfolding receive
control = refl

beacon : receive 3 4 (record relay_header { ctrl_type = 0 }) ≡ management
unfolding receive
beacon = refl

-- A data frame with quality of service that carries several packets.
several : receive 3 4 (record relay_header { ctrl_subtype = 8; amsdu_present = 1 }) ≡ deaggregate
unfolding receive
several = refl
