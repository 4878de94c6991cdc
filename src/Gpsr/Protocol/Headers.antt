-- ===== src/Gpsr/Protocol/Headers.antt =====
-- The headers on the way: what a node passes on carries the bytes below the headers unchanged.
use map_based_relay.Prelude.{
  sym, ◌∙◌, ◌≡◌, refl, ℕ, ◌++◌, ◌∷◌, [], List, Bool, some, true, inr, OnSome, OnSome-any,
  OnSome-bind, OnSome-if, All, All-append, if◌then◌else◌, ◌>>=◌, ◌==◌,
}
use map_based_relay.Wire.{Buffer}
use map_based_relay.Gpsr.Packet.{
  PositionHeader, type_header, gpsrtype_pos, serialize_type, serialize_position,
}
use map_based_relay.Gpsr.Ptable.{PositionTable, purge}
use map_based_relay.Gpsr.Protocol.{
  newest_seconds, newest_place, zero_address, Env, Event, Protocol, Removed, forward, rec_count,
  drop_pkt, deliver, hello, down, remove_headers, with_headers, send, recovery_mode, forward_greedy,
  forwarding, recovery_header, recovery_choice, still_in_rec,
}
use map_based_relay.Gpsr.Protocol.Ranges.{
  EnvInRange, recovery-InRange, greedy-InRange, entering-InRange, newest,
}
use map_based_relay.Gpsr.Packet.RoundTrip.{
  PositionInRange, deserialize-serialize_type, deserialize-serialize_position,
}

-- The packet below the IP header: both headers, in front of `rest`.
abbrev pub IsCarried : Buffer → (rest bytes : List ℕ) → Type 0
IsCarried b rest bytes =
    (h : PositionHeader) × PositionInRange h
    × (bytes ≡ serialize_type b (type_header gpsrtype_pos) ++ (serialize_position b h ++ rest))

-- A packet that Forwarding lets out or counts.
abbrev pub Carries : Buffer → (rest : List ℕ) → Event → Type 0
Carries b rest (forward r bytes) = IsCarried b rest bytes
Carries b rest (rec_count bytes) = IsCarried b rest bytes
Carries b rest (drop_pkt bytes) = IsCarried b rest bytes
Carries b rest (deliver bytes) = ⊥
Carries b rest (hello d bytes) = ⊥
Carries b rest (down s d p bytes) = ⊥

module _ (env : Env) where
  pub remove-with_headers :
      (h : PositionHeader) (rest : List ℕ)
      → PositionInRange h
      → remove_headers env (with_headers env (type_header gpsrtype_pos) h rest)
        ≡ some (record { type = type_header gpsrtype_pos; header = h; rest = rest })
  unfolding remove_headers with_headers
  remove-with_headers h rest r =
      rw
        (deserialize-serialize_type env.buffer (type_header gpsrtype_pos) (type_header gpsrtype_pos)
          (serialize_position env.buffer h ++ rest) (inr refl))
        (rw (deserialize-serialize_position env.buffer h rest r).0 refl)

  pub with_headers-written :
      (h : PositionHeader) (rest : List ℕ)
      → with_headers env (type_header gpsrtype_pos) h rest
        ≡ serialize_type env.buffer (type_header gpsrtype_pos)
          ++ (serialize_position env.buffer h ++ rest)
  unfolding with_headers
  with_headers-written h rest = refl

  pub carried :
      (h : PositionHeader) (rest : List ℕ)
      → PositionInRange h
      → IsCarried env.buffer rest (with_headers env (type_header gpsrtype_pos) h rest)
  unfolding with_headers
  carried h rest r = (h, r, refl)

  abbrev pub AllCarry : (rest : List ℕ) → Protocol → Type 0
  AllCarry rest s = All (Carries env.buffer rest) s.sent

  send-AllCarry :
      (rest : List ℕ) (e : Event) (s : Protocol)
      → Carries env.buffer rest e
      → AllCarry rest s
      → AllCarry rest (send e s)
  send-AllCarry rest e s c a = All-append (Carries env.buffer rest) s.sent (e ∷ []) a (c, tt)

  module _ (v : EnvInRange env) where
    module _ (dst source : ℕ) (rest : List ℕ) where
      recovery_mode-AllCarry :
          (s : Protocol) (h : PositionHeader)
          → PositionInRange h
          → AllCarry rest s
          → OnSome
              (AllCarry rest)
              (recovery_mode env s dst source (with_headers env (type_header gpsrtype_pos) h rest))
      unfolding recovery_mode
      recovery_mode-AllCarry s₀ h r a =
          let bytes = with_headers env (type_header gpsrtype_pos) h rest in
          let s = send (rec_count bytes) s₀ in
          let c = carried (recovery_header env h) rest (recovery-InRange env v h r) in
          let q : Removed = record { type = type_header gpsrtype_pos; header = h; rest = rest } in
          let b = send-AllCarry rest (rec_count bytes) s₀ (carried h rest r) a in
          rw (remove-with_headers h rest r) (
            OnSome-any (AllCarry rest) (recovery_choice env s.neighbors q).1 _ (λ hop.
              OnSome-if (AllCarry rest) (hop == zero_address) _ _
                (send-AllCarry rest (drop_pkt _) s c b) (send-AllCarry rest (forward _ _) s c b)))

      by_choice-AllCarry :
          (s : Protocol) (t : PositionTable) (b : Bool) (hop : ℕ) (h h' : PositionHeader)
          → PositionInRange h
          → PositionInRange h'
          → AllCarry rest s
          → OnSome (AllCarry rest) (
              if b
              then some (
                  send
                    (forward
                      (record { destination = dst; source = source; gateway = hop })
                      (with_headers env (type_header gpsrtype_pos) h rest))
                    (record s { neighbors = t }))
              else recovery_mode env
                  (record s { neighbors = t })
                  dst
                  source
                  (with_headers env (type_header gpsrtype_pos) h' rest))
      by_choice-AllCarry s t b hop h h' r r' a =
          OnSome-if (AllCarry rest) b _ _
            (send-AllCarry rest (forward _ _) (record s { neighbors = t }) (carried h rest r) a)
            (recovery_mode-AllCarry (record s { neighbors = t }) h' r' a)

      forward_greedy-AllCarry :
          (s : Protocol) (h : PositionHeader)
          → PositionInRange h
          → AllCarry rest s
          → OnSome (AllCarry rest) (
              forward_greedy env s dst source
                (record { type = type_header gpsrtype_pos; header = h; rest = rest }))
      unfolding forward_greedy
      forward_greedy-AllCarry s h r a =
          let (px, py, u) = newest env v dst h r in
          by_choice-AllCarry s _ _ _ _ _
            (greedy-InRange env v h (newest_place env dst h) (newest_seconds env dst h) r px py u)
            (entering-InRange env v h (newest_place env dst h) r px py) a

      by_mode-AllCarry :
          (s : Protocol) (b : Bool) (h : PositionHeader)
          → PositionInRange h
          → AllCarry rest s
          → OnSome
              (λ (o : Protocol × Bool). AllCarry rest o.0)
              ((if b
                  then forward_greedy env s dst source
                      (record { type = type_header gpsrtype_pos; header = h; rest = rest })
                  else recovery_mode env s dst source
                      (with_headers env (type_header gpsrtype_pos) h rest))
                >>= λ s'. some (s', true))
      by_mode-AllCarry s b h r a =
          OnSome-bind {P = AllCarry rest} (λ (o : Protocol × Bool). AllCarry rest o.0)
            (if b
              then forward_greedy env s dst source
                  (record { type = type_header gpsrtype_pos; header = h; rest = rest })
              else recovery_mode env s dst source
                  (with_headers env (type_header gpsrtype_pos) h rest))
            (λ s'. some (s', true))
            (OnSome-if (AllCarry rest) b _ _ (forward_greedy-AllCarry s h r a)
              (recovery_mode-AllCarry s h r a))
            (λ s' k. k)

      -- Forwarding a packet with both headers, whether greedily or in recovery mode, hands to the
      -- callbacks and the trace sources only packets that have both headers, with fields that fit their
      -- types, in front of the same bytes.
      pub forwarding-AllCarry :
          (s : Protocol) (bytes : List ℕ)
          → IsCarried env.buffer rest bytes
          → AllCarry rest s
          → OnSome (λ (o : Protocol × Bool). AllCarry rest o.0) (forwarding env s dst source bytes)
      unfolding forwarding
      forwarding-AllCarry s bytes (h, r, e) a =
          let eq : bytes ≡ with_headers env (type_header gpsrtype_pos) h rest =
            e ∙ sym (with_headers-written h rest) in
          rw eq (
            rw (remove-with_headers h rest r) (
              by_mode-AllCarry (record s { neighbors = purge env.now s.neighbors })
                (still_in_rec env h == 0) h r a))
