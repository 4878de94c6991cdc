-- ===== src/Gpsr/Waiting/Loops.antt =====
-- The loop over Dequeue passes every waiting packet for the destination on, in order.

use map_based_relay.Prelude.{
  length-keep_if-le, ◌==◌, ◌&&◌, not, true, false, [], arith, Option, List, refl, append-nil, sym,
  ap, map, ◌∙◌, keep_if, length, ◌≡◌, some, none, ℕ, ◌∷◌, ◌++◌, ◌<◌, suc, zero,
}
use map_based_relay.Gpsr.Rqueue.{is_expired, QueueEntry, RequestQueue, is_equal, dequeue}
use map_based_relay.Gpsr.Rqueue.Delivery.{live}
use map_based_relay.Gpsr.Rqueue.Taken.{other, Dequeued, dequeue-Dequeued}
use map_based_relay.Gpsr.Protocol.{next_hop, Env, Protocol, Event, forward, send}
use map_based_relay.Gpsr.Waiting.{
  zero_address, is_neighbour, send_packet_from_queue, forward_loop, set_source,
}

-- The call of the unicast callback for one packet.
abbrev pub passed_on : Env → (dst hop : ℕ) → QueueEntry → Event
passed_on env dst hop e =
    forward (record { destination = dst; source = set_source env e; gateway = hop }) e.bytes

-- All of them at once.
pub record IsDrained (env : Env) (dst hop : ℕ) (s s' : Protocol) : Type 0 where
  pub left : s'.queue.queue ≡ keep_if (other dst) (live env.now s.queue)
  pub sent :
      s'.sent
      ≡ s.sent ++ map (passed_on env dst hop) (keep_if (is_equal dst) (live env.now s.queue))
  pub rest : (s'.queued_addresses ≡ s.queued_addresses) × (s'.check_timer ≡ s.check_timer)

one_more : (xs : List Event) (x : Event) (ys : List Event) → (xs ++ x ∷ []) ++ ys ≡ xs ++ x ∷ ys
one_more [] x ys = refl
one_more (y ∷ xs) x ys = ap (λ l. y ∷ l) (one_more xs x ys)

module _ (env : Env) (dst hop : ℕ) where
  end-IsDrained :
      (s : Protocol) (q : RequestQueue)
      → Dequeued env.now dst s.queue (q, none)
      → IsDrained env dst hop s (record s { queue = q })
  end-IsDrained s q (e, a) = record {
    left = e ∙ sym a.all;
    sent = rw a.nothing (sym (append-nil s.sent));
    rest = (refl, refl);
  }

  step-IsDrained :
      (s s' : Protocol) (q : RequestQueue) (e : QueueEntry)
      → Dequeued env.now dst s.queue (q, some e)
      → IsDrained env dst hop (send (passed_on env dst hop e) (record s { queue = q })) s'
      → IsDrained env dst hop s s'
  step-IsDrained s s' q e (t, fresh) d = record {
    left = d.left ∙ (ap (keep_if (other dst)) fresh ∙ t.kept);
    sent =
        d.sent
        ∙ (one_more s.sent (passed_on env dst hop e) _
            ∙ ap (λ es. s.sent ++ map (passed_on env dst hop) es)
                (ap (λ es. e ∷ keep_if (is_equal dst) es) fresh ∙ sym t.taken));
    rest = d.rest;
  }

  round-IsDrained :
      (rounds : ℕ) (s : Protocol) (d : RequestQueue × Option QueueEntry)
      → length (live env.now s.queue) < suc rounds
      → Dequeued env.now dst s.queue d
      → ((t : Protocol)
          → length (live env.now t.queue) < rounds
          → IsDrained env dst hop t (forward_loop env rounds dst hop t))
      → IsDrained env dst hop s (elim d.1 [
        | none ↦ record s { queue = d.0 }
        | some e ↦
            forward_loop env rounds dst hop
              (send (passed_on env dst hop e) (record s { queue = d.0 }))
      ])
  round-IsDrained rounds s (q, none) lt h loop = end-IsDrained s q h
  round-IsDrained rounds s (q, some e) lt (t, fresh) loop =
      let short : length (live env.now q) < rounds =
        omega (arith, t.shorter, ap length fresh, lt) in
      step-IsDrained s _ q e (t, fresh)
        (loop (send (passed_on env dst hop e) (record s { queue = q })) short)

  pub forward_loop-IsDrained :
      (rounds : ℕ) (s : Protocol)
      → length (live env.now s.queue) < rounds
      → IsDrained env dst hop s (forward_loop env rounds dst hop s)
  unfolding forward_loop
  forward_loop-IsDrained zero s lt = elim lt [ ]
  forward_loop-IsDrained (suc rounds) s lt =
      round-IsDrained rounds s (dequeue env.now s.queue dst) lt
        (dequeue-Dequeued env.now s.queue dst) (forward_loop-IsDrained rounds)

module _ (env : Env) (dst : ℕ) where
  -- Where the location service has a position of the destination and searches for it no longer, and
  -- there is a next hop, SendPacketFromQueue succeeds: it hands every packet that waits for the
  -- destination and has not expired to the unicast callback, in the order of their arrival and with
  -- that hop as the gateway, and leaves the other ones that have not expired.
  pub send_packet_from_queue-IsDrained :
      (s : Protocol)
      → env.service.is_in_search dst ≡ false
      → env.service.has_position dst ≡ true
      → let hop = (next_hop env s.neighbors dst (env.service.position dst)).1 in
        (not (is_neighbour env.past_end env.now s.neighbors dst).1 && hop == zero_address) ≡ false
        → (s' : Protocol) × (send_packet_from_queue env s dst ≡ some (s', true))
          × IsDrained env dst hop s s'
  unfolding send_packet_from_queue
  send_packet_from_queue-IsDrained s found known near =
      let hop = next_hop env s.neighbors dst (env.service.position dst) in
      let t = record s { neighbors = hop.0 } in
      let rounds = suc (length s.queue.queue) in
      let d =
        forward_loop-IsDrained env dst hop.1 rounds t
          (omega (arith, length-keep_if-le (λ e. not (is_expired env.now e)) s.queue.queue)) in
      (
        forward_loop env rounds dst hop.1 t,
        rw found (rw known (rw near refl)),
        record { left = d.left; sent = d.sent; rest = d.rest },
      )
