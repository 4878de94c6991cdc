-- ===== src/Wave/Air/Hops.antt =====
-- A packet's two hops: from the sender to the relay, and from the relay to the destination.
use map_based_relay.Prelude.{
  ◌^◌, ◌==◌, true, if◌then◌else◌, arith, false, ℕ, ◌<◌, ◌≡◌, List, [], Option, some, Bool, ◌>>=◌,
  refl, append-nil,
}
use map_based_relay.Wire.{Buffer}
use map_based_relay.Wave.Send.{Addresses, serialize_tag, enqueue_frame}
use map_based_relay.Wave.Send.Frames.{Copies, relay_tag, relay_frame, enqueue_frame-relay_tag}
use map_based_relay.Wave.Air.{
  WifiMacHeader, data_bytes, set_type_data, serialize_data, deserialize_data, frame_header, queued,
  forward_up, receive,
}
use map_based_relay.Wave.Air.Fields.{InRange}
use map_based_relay.Wave.Air.Header.{read_over, deserialize-serialize_data}

-- The fields that MacLow and the queue fill in before a frame leaves, which is ns-3's.
pub record Low : Type 0 where
  pub duration : ℕ
  pub more_frag : ℕ
  pub retry : ℕ
  pub seq_frag : ℕ
  pub seq_seq : ℕ

abbrev pub on_air : WifiMacHeader → Low → WifiMacHeader
on_air h l = record h {
  duration = l.duration;
  ctrl_more_frag = l.more_frag;
  ctrl_retry = l.retry;
  seq_frag = l.seq_frag;
  seq_seq = l.seq_seq;
}

pub record Fits (l : Low) : Type 0 where
  pub duration : l.duration < 65536
  pub more_frag : l.more_frag < 2
  pub retry : l.retry < 2
  pub seq_frag : l.seq_frag < 16
  pub seq_seq : l.seq_seq < 4096

-- What goes from the MAC of one node to that of the next.
abbrev pub hop :
    Buffer → (old : WifiMacHeader) → (l : Low) → WifiMacHeader → Option (WifiMacHeader × List ℕ)
hop b old l h = serialize_data b (on_air h l) >>= deserialize_data b old

hop-read_over :
    (b : Buffer) (old h : WifiMacHeader) (l : Low)
    → InRange (on_air h l)
    → hop b old l h ≡ some (read_over old (on_air h l), [])
hop-read_over b old h l r =
    let (written, size, back) = deserialize-serialize_data b old (on_air h l) r in
    let bare : deserialize_data b old (data_bytes b (on_air h l))
        ≡ some (read_over old (on_air h l), []) =
      rw (append-nil (data_bytes b (on_air h l))) at (back []) in
    rw (written) bare

order-fits : (ht : Bool) → (if ht then 0 else 1) < 2
order-fits true = omega arith
order-fits false = omega arith

same : (x : ℕ) → (x == x) ≡ true
same x = ground arith

-- The header that the relay queues.
abbrev passed_on : (own wildcard : ℕ) → WifiMacHeader → WifiMacHeader
passed_on own wildcard h = record (set_type_data h) {
  addr1 = h.addr4;
  addr2 = own;
  addr3 = wildcard;
  ctrl_from_ds = 0;
  ctrl_to_ds = 0;
}

-- A 48-bit address.
abbrev pub Is48 : ℕ → Type 0
Is48 x = x < 256 ^ 6

module _ (own wildcard mac to : ℕ) (o : Is48 own) (w : Is48 wildcard) (m : Is48 mac) (t : Is48 to)
    (ht : Bool) (unset : WifiMacHeader) where
  abbrev first_header : WifiMacHeader
  first_header = frame_header ht unset (relay_frame own wildcard mac to)

  first_header-InRange : (l : Low) → Fits l → InRange (on_air first_header l)
  unfolding frame_header
  first_header-InRange l fits = record {
    type = refl;
    subtype = omega arith;
    qos = λ e. ground (arith, e);
    to_ds = omega arith;
    from_ds = omega arith;
    more_frag = fits.more_frag;
    retry = fits.retry;
    more_data = omega arith;
    wep = omega arith;
    order = order-fits ht;
    duration = fits.duration;
    seq_frag = fits.seq_frag;
    seq_seq = fits.seq_seq;
    addr1 = m;
    addr2 = o;
    addr3 = w;
    addr4 = t;
  }

  passed_on-InRange :
      (old : WifiMacHeader) (l l' : Low)
      → Fits l'
      → InRange (on_air (passed_on mac wildcard (read_over old (on_air first_header l))) l')
  unfolding frame_header
  passed_on-InRange old l l' fits = record {
    type = refl;
    subtype = omega arith;
    qos = λ e. ground (arith, e);
    to_ds = omega arith;
    from_ds = omega arith;
    more_frag = fits.more_frag;
    retry = fits.retry;
    more_data = omega arith;
    wep = omega arith;
    order = order-fits ht;
    duration = fits.duration;
    seq_frag = fits.seq_frag;
    seq_seq = fits.seq_seq;
    addr1 = t;
    addr2 = m;
    addr3 = w;
    addr4 = t;
  }

module _ (b : Buffer) (a : Addresses) (own wildcard mac to : ℕ) where
  -- What the theorem says: `passed` is what the relay hears, `sent` what it sends on, and `heard` what the
  -- destination hears.
  abbrev pub IsRelayed :
      (unset_mac : List ℕ)
      → (ht : Bool) → (unset old old' : WifiMacHeader) → (relayed_pkt : ℕ) → (l l' : Low) → Type 0
  IsRelayed unset_mac ht unset old old' relayed_pkt l l' =
      (passed sent heard : WifiMacHeader) × ((do
        (f, _) ←
            enqueue_frame b a unset_mac own wildcard relayed_pkt to
              (some (serialize_tag b (relay_tag a mac)))
        hop b old l (frame_header ht unset f))
        ≡ some (passed, []))
      × (receive mac wildcard passed ≡ queued sent)
      × (hop b old' l' sent ≡ some (heard, []))
      × (receive to wildcard heard ≡ forward_up mac to)

  -- A packet with the tag of a relay gets to its destination: the frame that Enqueue makes of it is read at
  -- the relay as one of MBR, for which Receive queues a header; and that header is read at the destination as
  -- a data frame, which Receive gives to the upper layers, from the relay to
  -- the destination. The fields that the lower layers fill in fit their bits, whatever they are at either
  -- node, an address has 48 bits, the six bytes of the
  -- relay's are taken to name it, and the header objects hold anything before.
  pub receive-enqueue_frame :
      (unset_mac : List ℕ) (ht : Bool) (unset old old' : WifiMacHeader) (relayed_pkt : ℕ)
      (l l' : Low)
      → Copies a mac
      → Is48 own
      → Is48 wildcard
      → Is48 mac
      → Is48 to
      → Fits l
      → Fits l'
      → IsRelayed unset_mac ht unset old old' relayed_pkt l l'
  unfolding receive frame_header
  receive-enqueue_frame unset_mac ht unset old old' relayed_pkt l l' c o w m t x y =
      let first : WifiMacHeader = frame_header ht unset (relay_frame own wildcard mac to) in
      let passed : WifiMacHeader = read_over old (on_air first l) in
      let sent : WifiMacHeader = passed_on mac wildcard passed in
      let first_fits = first_header-InRange own wildcard mac to o w m t ht unset l x in
      let sent_fits = passed_on-InRange own wildcard mac to o w m t ht unset old l l' y in
      (
        passed,
        sent,
        read_over old' (on_air sent l'),
        rw (enqueue_frame-relay_tag b a mac c unset_mac own wildcard relayed_pkt to)
            (hop-read_over b old first l first_fits),
        rw (same wildcard) refl,
        hop-read_over b old' sent l' sent_fits,
        rw (same wildcard) refl,
      )
