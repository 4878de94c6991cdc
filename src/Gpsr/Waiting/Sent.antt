-- ===== src/Gpsr/Waiting/Sent.antt =====
-- What a call of SendPacketFromQueue leaves of the queue, whatever it does with the packets.
use map_based_relay.Prelude.{
  OnSome-mono, ◌≡◌, refl, sym, subst, ap, arith, zero, suc, ℕ, ◌<◌, Bool, true, false, Option, none,
  some, All, All-keep_if, keep_if-All, length, length-keep_if-le, OnSome, OnSome-any, OnSome-if,
  OnSome-valid, OnSome-bind, ◌>>=◌, if◌then◌else◌, not, ◌∙◌,
}
use map_based_relay.Gpsr.Packet.{PositionHeader}
use map_based_relay.Gpsr.Ptable.{PositionTable}
use map_based_relay.Gpsr.Rqueue.{
  drop_packet_with_dst, QueueEntry, RequestQueue, is_expired, dequeue,
}
use map_based_relay.Gpsr.Rqueue.Delivery.{drop_packet_with_dst-find, live}
use map_based_relay.Gpsr.Rqueue.Taken.{other, Dequeued, dequeue-Dequeued}
use map_based_relay.Gpsr.Protocol.{Env, Protocol, remove_headers, with_headers, recovery_mode}
use map_based_relay.Gpsr.Protocol.Frame.{recovery_mode-Keeps}
use map_based_relay.Gpsr.Waiting.{
  send_packet_from_queue, header_or, recover_loop, forward_loop, queued_header, position_header,
}
use map_based_relay.Gpsr.Waiting.Loops.{IsDrained, forward_loop-IsDrained}

-- What all entries of the first queue pass, those of the second pass.
abbrev pub Within : RequestQueue → RequestQueue → Type 0
Within q q' =
    (p : QueueEntry → Bool) → All (λ e. p e ≡ true) q.queue → All (λ e. p e ≡ true) q'.queue

abbrev pub IsWithout : (dst : ℕ) → RequestQueue → Type 0
IsWithout dst q = All (λ e. other dst e ≡ true) q.queue

-- Nothing comes in, and where the outcome is true no packet for the destination is left.
abbrev pub Sent : (dst : ℕ) → Protocol → Protocol × Bool → Type 0
Sent dst s r =
    Within s.queue r.0.queue
    × (r.0.queued_addresses ≡ s.queued_addresses)
    × (r.0.check_timer ≡ s.check_timer)
    × (r.1 ≡ true → IsWithout dst r.0.queue)

Sent-after :
    (dst : ℕ) (s s' : Protocol) (r : Protocol × Bool)
    → Within s.queue s'.queue
    → s'.queued_addresses ≡ s.queued_addresses
    → s'.check_timer ≡ s.check_timer
    → Sent dst s' r
    → Sent dst s r
Sent-after dst s s' r w a t (w', a', t', done) = (λ p h. w' p (w p h), a' ∙ a, t' ∙ t, done)

module _ (env : Env) (dst : ℕ) where
  live-Within :
      (p : QueueEntry → Bool) (q : RequestQueue)
      → All (λ e. p e ≡ true) q.queue
      → All (λ e. p e ≡ true) (live env.now q)
  live-Within p q = All-keep_if (λ e. p e ≡ true) (λ e. not (is_expired env.now e)) q.queue

  none-Sent :
      (s : Protocol) (q : RequestQueue)
      → Dequeued env.now dst s.queue (q, none)
      → Sent dst s (record s { queue = q }, true)
  none-Sent s q (e, a) = (
    λ p h. subst (All (λ x. p x ≡ true)) (sym e) (live-Within p s.queue h),
    refl,
    refl,
    λ h.
        subst (All (λ x. other dst x ≡ true)) (a.all ∙ sym e)
          (keep_if-All (other dst) (live env.now s.queue)),
  )

  some-Within :
      (s : Protocol) (q : RequestQueue) (e : QueueEntry)
      → Dequeued env.now dst s.queue (q, some e)
      → Within s.queue q
  some-Within s q e (t, fresh) p h = t.within p (live-Within p s.queue h)

  recover_round :
      (rounds : ℕ) (before : PositionHeader) (s : Protocol) (d : RequestQueue × Option QueueEntry)
      → length (live env.now s.queue) < suc rounds
      → Dequeued env.now dst s.queue d
      → ((h : PositionHeader) (t : Protocol)
          → length (live env.now t.queue) < rounds
          → OnSome (Sent dst t) (recover_loop env rounds dst h t))
      → OnSome (Sent dst s) (elim d.1 [
        | none ↦ some (record s { queue = d.0 }, true)
        | some e ↦ remove_headers env e.bytes >>= λ r.
            let s₁ = record s { queue = d.0 } in
            let h = header_or before r in
            let out = with_headers env r.type (queued_header env h) r.rest in
            elim r.type.valid [
              | false ↦ some (s₁, false)
              | true ↦ recovery_mode env s₁ dst e.source out >>= recover_loop env rounds dst h
            ]
      ])
  recover_round rounds before s (q, none) lt h loop = none-Sent s q h
  recover_round rounds before s (q, some e) lt h loop =
      let w = some-Within s q e h in
      let short : length (live env.now q) < rounds =
        omega (arith, h.0.shorter, ap length h.1, lt) in
      let s₁ = record s { queue = q } in
      OnSome-any (Sent dst s) (remove_headers env e.bytes) _ (λ r.
        let hd = header_or before r in
        let out = with_headers env r.type (queued_header env hd) r.rest in
        OnSome-valid (Sent dst s) r.type.valid (some (s₁, false))
          (recovery_mode env s₁ dst e.source out >>= recover_loop env rounds dst hd)
          (w, refl, refl, λ never. ground arith)
          (OnSome-bind (Sent dst s) (recovery_mode env s₁ dst e.source out)
            (recover_loop env rounds dst hd) (recovery_mode-Keeps env s₁ dst e.source out)
            (λ t k.
              OnSome-mono (Sent dst t) (Sent dst s)
                (λ r. Sent-after dst s t r (subst (Within s.queue) (sym k.0) w) k.1 k.2)
                (recover_loop env rounds dst hd t)
                (loop hd t (subst (λ x. length (live env.now x) < rounds) (sym k.0) short)))))

  recover_loop-Sent :
      (rounds : ℕ) (before : PositionHeader) (s : Protocol)
      → length (live env.now s.queue) < rounds
      → OnSome (Sent dst s) (recover_loop env rounds dst before s)
  unfolding recover_loop
  recover_loop-Sent zero before s lt = elim lt [ ]
  recover_loop-Sent (suc rounds) before s lt =
      recover_round rounds before s (dequeue env.now s.queue dst) lt
        (dequeue-Dequeued env.now s.queue dst) (recover_loop-Sent rounds)

  IsDrained-Sent : (hop : ℕ) (s s' : Protocol) → IsDrained env dst hop s s' → Sent dst s (s', true)
  IsDrained-Sent hop s s' d = (
    λ p h. subst (All (λ x. p x ≡ true)) (sym d.left) (
        All-keep_if (λ x. p x ≡ true) (other dst) (live env.now s.queue) (live-Within p s.queue h)),
    d.rest.0,
    d.rest.1,
    λ h.
        subst (All (λ x. other dst x ≡ true)) (sym d.left)
          (keep_if-All (other dst) (live env.now s.queue)),
  )

  enough : (q : RequestQueue) → length (live env.now q) < suc (length q.queue)
  enough q = omega (arith, length-keep_if-le (λ e. not (is_expired env.now e)) q.queue)

  by_hop-Sent :
      (s : Protocol) (t : PositionTable) (b : Bool) (hop : ℕ)
      → OnSome (Sent dst s) (
          if b
          then recover_loop env
              (suc (length s.queue.queue))
              dst
              position_header
              (record s { neighbors = t })
          else some (
            forward_loop env (suc (length s.queue.queue)) dst hop (record s { neighbors = t }),
            true,
          ))
  by_hop-Sent s t b hop =
      OnSome-if (Sent dst s) b _ _
        (recover_loop-Sent (suc (length s.queue.queue)) position_header (record s { neighbors = t })
          (enough s.queue))
        (IsDrained-Sent hop (record s { neighbors = t }) _
          (forward_loop-IsDrained env dst hop (suc (length s.queue.queue))
            (record s { neighbors = t }) (enough s.queue)))

  dropped-Sent :
      (s : Protocol)
      → Sent dst s (record s { queue = drop_packet_with_dst env.now s.queue dst }, true)
  dropped-Sent s =
      let left = (drop_packet_with_dst-find env.now s.queue dst).1 in
      (
        λ p h. subst (All (λ x. p x ≡ true)) (sym left) (
            All-keep_if (λ x. p x ≡ true) (other dst) (live env.now s.queue)
              (live-Within p s.queue h)),
        refl,
        refl,
        λ h.
            subst (All (λ x. other dst x ≡ true)) (sym left)
              (keep_if-All (other dst) (live env.now s.queue)),
      )

  pub send_packet_from_queue-Sent :
      (s : Protocol) → OnSome (Sent dst s) (send_packet_from_queue env s dst)
  unfolding send_packet_from_queue
  send_packet_from_queue-Sent s =
      OnSome-if (Sent dst s) (env.service.is_in_search dst) (some (s, false)) _
        (λ p h. h, refl, refl, λ never. ground arith)
        (OnSome-if (Sent dst s) (not (env.service.has_position dst)) _ _ (dropped-Sent s)
          (by_hop-Sent s _ _ _))
