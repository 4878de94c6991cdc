-- ===== src/Wave/Air/Fields.antt =====
-- The bits of the frame control, the sequence control and the control of the quality of service are read
-- back as they were packed.
use map_based_relay.Prelude.{true, ◌/◌, ◌%◌, ◌^◌, ◌<◌, ◌≡◌, arith, refl}
use map_based_relay.Wave.Air.{
  get_qos_control, set_qos_control, get_sequence_control, WifiMacHeader, type_data, has_qos,
  get_frame_control, set_frame_control,
}

-- The fields of the quality of service fit their bits.
pub record HasQos (h : WifiMacHeader) : Type 0 where
  pub tid : h.qos_tid < 16
  pub eosp : h.qos_eosp < 2
  pub ack_policy : h.qos_ack_policy < 4
  pub amsdu : h.amsdu_present < 2
  pub stuff : h.qos_stuff < 256

-- A data frame whose fields fit their bits, those of the quality of service where it carries them.
pub record InRange (h : WifiMacHeader) : Type 0 where
  pub type : h.ctrl_type ≡ type_data
  pub subtype : h.ctrl_subtype < 32
  pub qos : has_qos h ≡ true → HasQos h
  pub to_ds : h.ctrl_to_ds < 2
  pub from_ds : h.ctrl_from_ds < 2
  pub more_frag : h.ctrl_more_frag < 2
  pub retry : h.ctrl_retry < 2
  pub more_data : h.ctrl_more_data < 2
  pub wep : h.ctrl_wep < 2
  pub order : h.ctrl_order < 2
  pub duration : h.duration < 65536
  pub seq_frag : h.seq_frag < 16
  pub seq_seq : h.seq_seq < 4096
  pub addr1 : h.addr1 < 256 ^ 6
  pub addr2 : h.addr2 < 256 ^ 6
  pub addr3 : h.addr3 < 256 ^ 6
  pub addr4 : h.addr4 < 256 ^ 6

-- The bits of the frame control.
abbrev pub flags : WifiMacHeader → WifiMacHeader → WifiMacHeader
flags old h = record old {
  ctrl_type = h.ctrl_type;
  ctrl_subtype = h.ctrl_subtype;
  ctrl_to_ds = h.ctrl_to_ds;
  ctrl_from_ds = h.ctrl_from_ds;
  ctrl_more_frag = h.ctrl_more_frag;
  ctrl_retry = h.ctrl_retry;
  ctrl_more_data = h.ctrl_more_data;
  ctrl_wep = h.ctrl_wep;
  ctrl_order = h.ctrl_order;
}

pub set-get_frame_control :
    (old h : WifiMacHeader) → InRange h → set_frame_control old (get_frame_control h) ≡ flags old h
unfolding set_frame_control get_frame_control
set-get_frame_control old h r =
    let ctrl_type_bits : get_frame_control h / 2 % 4 ≡ h.ctrl_type =
      let fits = r.type in omega arith in
    let ctrl_subtype_bits : get_frame_control h / 8 % 32 ≡ h.ctrl_subtype =
      let fits = r.subtype in omega arith in
    let ctrl_to_ds_bits : get_frame_control h / 256 % 2 ≡ h.ctrl_to_ds =
      let fits = r.to_ds in omega arith in
    let ctrl_from_ds_bits : get_frame_control h / 512 % 2 ≡ h.ctrl_from_ds =
      let fits = r.from_ds in omega arith in
    let ctrl_more_frag_bits : get_frame_control h / 1024 % 2 ≡ h.ctrl_more_frag =
      let fits = r.more_frag in omega arith in
    let ctrl_retry_bits : get_frame_control h / 2048 % 2 ≡ h.ctrl_retry =
      let fits = r.retry in omega arith in
    let ctrl_more_data_bits : get_frame_control h / 8192 % 2 ≡ h.ctrl_more_data =
      let fits = r.more_data in omega arith in
    let ctrl_wep_bits : get_frame_control h / 16384 % 2 ≡ h.ctrl_wep =
      let fits = r.wep in omega arith in
    let ctrl_order_bits : get_frame_control h / 32768 % 2 ≡ h.ctrl_order =
      let fits = r.order in omega arith in
    rw
      (
        ctrl_type_bits, ctrl_subtype_bits, ctrl_to_ds_bits, ctrl_from_ds_bits, ctrl_more_frag_bits,
        ctrl_retry_bits, ctrl_more_data_bits, ctrl_wep_bits, ctrl_order_bits,
      )
      refl

pub frame_control-fits : (h : WifiMacHeader) → get_frame_control h < 256 ^ 2
unfolding get_frame_control
frame_control-fits h = omega arith

-- The fields of the quality of service.
abbrev pub with_qos : (old h : WifiMacHeader) → WifiMacHeader
with_qos old h = record old {
  qos_tid = h.qos_tid;
  qos_eosp = h.qos_eosp;
  qos_ack_policy = h.qos_ack_policy;
  amsdu_present = h.amsdu_present;
  qos_stuff = h.qos_stuff;
}

module _ (h : WifiMacHeader) where
  pub sequence-fits : get_sequence_control h < 256 ^ 2
  sequence-fits = omega arith

  pub frag_bits : InRange h → get_sequence_control h % 16 ≡ h.seq_frag
  frag_bits r = let frag = r.seq_frag in let seq = r.seq_seq in omega arith

  pub seq_bits : InRange h → get_sequence_control h / 16 % 4096 ≡ h.seq_seq
  seq_bits r = let frag = r.seq_frag in let seq = r.seq_seq in omega arith

  pub qos_fits : get_qos_control h < 256 ^ 2
  qos_fits = omega arith

  pub set-get_qos_control :
      (o : WifiMacHeader) → HasQos h → set_qos_control o (get_qos_control h) ≡ with_qos o h
  unfolding set_qos_control
  set-get_qos_control o q =
      let tid_bits : get_qos_control h % 16 ≡ h.qos_tid =
        let tid = q.tid in
        let eosp = q.eosp in
        let ack = q.ack_policy in let amsdu = q.amsdu in let stuff = q.stuff in omega arith in
      let eosp_bits : get_qos_control h / 16 % 2 ≡ h.qos_eosp = omega arith in
      let ack_bits : get_qos_control h / 32 % 4 ≡ h.qos_ack_policy = omega arith in
      let amsdu_bits : get_qos_control h / 128 % 2 ≡ h.amsdu_present = omega arith in
      let stuff_bits : get_qos_control h / 256 % 256 ≡ h.qos_stuff = omega arith in
      rw (tid_bits, eosp_bits, ack_bits, amsdu_bits, stuff_bits) refl
