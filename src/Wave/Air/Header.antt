-- ===== src/Wave/Air/Header.antt =====
-- The header of a data frame is read back as it was written.
use map_based_relay.Prelude.{
  length-append, length, append_assoc, inr, inl, Bool-cases, [], if◌then◌else◌, ℕ, List, ◌++◌, some,
  ◌≡◌, arith, refl,
}
use map_based_relay.Wire.{Buffer}
use map_based_relay.Wave.Air.{
  read_qos, get_qos_control, get_size, data_bytes, deserialize_data, serialize_data, with_four,
  get_sequence_control, read_fourth, WifiMacHeader, type_data, has_qos, get_frame_control,
}
use map_based_relay.Wave.Air.Fields.{
  InRange, flags, set-get_frame_control, frame_control-fits, sequence-fits, frag_bits, seq_bits,
  qos_fits, set-get_qos_control,
}

-- What is read over the header object `old`: what the frame does not carry stays.
abbrev pub read_over : WifiMacHeader → WifiMacHeader → WifiMacHeader
read_over old h = record (flags old h) {
  duration = h.duration;
  addr1 = h.addr1;
  addr2 = h.addr2;
  addr3 = h.addr3;
  seq_frag = h.seq_frag;
  seq_seq = h.seq_seq;
  addr4 = if with_four h then h.addr4 else old.addr4;
  qos_tid = if has_qos h then h.qos_tid else old.qos_tid;
  qos_eosp = if has_qos h then h.qos_eosp else old.qos_eosp;
  qos_ack_policy = if has_qos h then h.qos_ack_policy else old.qos_ack_policy;
  amsdu_present = if has_qos h then h.amsdu_present else old.amsdu_present;
  qos_stuff = if has_qos h then h.qos_stuff else old.qos_stuff;
}

module _ (b : Buffer) (old h : WifiMacHeader) (r : InRange h) where
  fourth : List ℕ
  fourth = if with_four h then b.mac48.write h.addr4 else []

  read_fourth-fourth :
      (o : WifiMacHeader) (rest : List ℕ)
      → with_four o ≡ with_four h
      → read_fourth b o (fourth ++ rest)
        ≡ some (record o { addr4 = if with_four h then h.addr4 else o.addr4 }, rest)
  unfolding read_fourth fourth
  read_fourth-fourth o rest e = elim (Bool-cases (with_four h)) [
    | inl y ↦ rw (e, y, b.mac48.read-write h.addr4 rest r.addr4) refl
    | inr n ↦ rw (e, n) refl
  ]

  last : List ℕ
  last = if has_qos h then b.lsb16.write (get_qos_control h) else []

  length-last : length last ≡ (if has_qos h then 2 else 0)
  unfolding last
  length-last = elim (Bool-cases (has_qos h)) [
    | inl y ↦ rw (y) (b.lsb16.length-write (get_qos_control h))
    | inr n ↦ rw (n) refl
  ]

  read_qos-last :
      (o : WifiMacHeader) (rest : List ℕ)
      → has_qos o ≡ has_qos h
      → read_qos b o (last ++ rest)
        ≡ some (
          record o {
            qos_tid = if has_qos h then h.qos_tid else o.qos_tid;
            qos_eosp = if has_qos h then h.qos_eosp else o.qos_eosp;
            qos_ack_policy = if has_qos h then h.qos_ack_policy else o.qos_ack_policy;
            amsdu_present = if has_qos h then h.amsdu_present else o.amsdu_present;
            qos_stuff = if has_qos h then h.qos_stuff else o.qos_stuff;
          },
          rest,
        )
  unfolding read_qos last
  read_qos-last o rest e = elim (Bool-cases (has_qos h)) [
    | inl y ↦
        rw
          (
            e,
            y,
            b.lsb16.read-write (get_qos_control h) rest (qos_fits h),
            set-get_qos_control h o (r.qos y),
          )
          refl
    | inr n ↦ rw (e, n) refl
  ]

  length-fourth : length fourth ≡ (if with_four h then 6 else 0)
  unfolding fourth
  length-fourth = elim (Bool-cases (with_four h)) [
    | inl y ↦ rw (y) (b.mac48.length-write h.addr4)
    | inr n ↦ rw (n) refl
  ]

  length-data_bytes : length (data_bytes b h) ≡ get_size h
  unfolding data_bytes get_size fourth last
  length-data_bytes =
      rw
        (
          length-append,
          length-append,
          length-append,
          length-append,
          length-append,
          length-append,
          length-append,
          b.lsb16.length-write (get_frame_control h),
          b.lsb16.length-write h.duration,
          b.lsb16.length-write (get_sequence_control h),
          b.mac48.length-write h.addr1,
          b.mac48.length-write h.addr2,
          b.mac48.length-write h.addr3,
          length-fourth,
          length-last,
          r.type,
        )
        (omega arith)

  -- A data frame takes the size that GetSize says, and is read back as it was
  -- written, over any header object, where what follows it is left. Its fields fit
  -- their bits, those of the quality of service where it carries them.
  pub deserialize-serialize_data :
      (serialize_data b h ≡ some (data_bytes b h))
      × (length (data_bytes b h) ≡ get_size h)
      × ((rest : List ℕ)
          → deserialize_data b old (data_bytes b h ++ rest) ≡ some (read_over old h, rest))
  unfolding serialize_data deserialize_data data_bytes fourth last
  deserialize-serialize_data = (
    rw (r.type) refl,
    length-data_bytes,
    λ rest.
        rw
          (
            append_assoc, append_assoc, append_assoc, append_assoc, append_assoc, append_assoc,
            append_assoc,
          )
          (let tail4 : List ℕ = fourth ++ (last ++ rest) in
            let seq_read : b.lsb16.read (b.lsb16.write (get_sequence_control h) ++ tail4)
                ≡ some (get_sequence_control h, tail4) =
              b.lsb16.read-write (get_sequence_control h) tail4 (sequence-fits h) in
            let tail3 : List ℕ = b.lsb16.write (get_sequence_control h) ++ tail4 in
            let tail2 : List ℕ = b.mac48.write h.addr3 ++ tail3 in
            let tail1 : List ℕ = b.mac48.write h.addr2 ++ tail2 in
            let tail0 : List ℕ = b.mac48.write h.addr1 ++ tail1 in
            rw
              (
                b.lsb16.read-write (get_frame_control h) (b.lsb16.write h.duration ++ tail0)
                    (frame_control-fits h),
                b.lsb16.read-write h.duration tail0 r.duration,
                b.mac48.read-write h.addr1 tail1 r.addr1,
                b.mac48.read-write h.addr2 tail2 r.addr2,
                b.mac48.read-write h.addr3 tail3 r.addr3,
                seq_read,
                set-get_frame_control old h r,
                frag_bits h r,
                seq_bits h r,
                r.type,
              )
              (rw
                (read_fourth-fourth
                  (record (flags old h) {
                    ctrl_type = type_data;
                    duration = h.duration;
                    addr1 = h.addr1;
                    addr2 = h.addr2;
                    addr3 = h.addr3;
                    seq_frag = h.seq_frag;
                    seq_seq = h.seq_seq;
                  })
                  (last ++ rest) refl)
                (read_qos-last
                  (record old {
                    ctrl_type = type_data;
                    ctrl_subtype = h.ctrl_subtype;
                    ctrl_to_ds = h.ctrl_to_ds;
                    ctrl_from_ds = h.ctrl_from_ds;
                    ctrl_more_frag = h.ctrl_more_frag;
                    ctrl_retry = h.ctrl_retry;
                    ctrl_more_data = h.ctrl_more_data;
                    ctrl_wep = h.ctrl_wep;
                    ctrl_order = h.ctrl_order;
                    duration = h.duration;
                    addr1 = h.addr1;
                    addr2 = h.addr2;
                    addr3 = h.addr3;
                    seq_frag = h.seq_frag;
                    seq_seq = h.seq_seq;
                    addr4 = if with_four h then h.addr4 else old.addr4;
                  })
                  rest refl))),
  )
