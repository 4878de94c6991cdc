-- ===== src/Gpsr/Rqueue/Accounting.antt =====
-- No packet is lost without an error callback and none is made up: what the queue took in lies in
-- it, was handed to an error callback, or was delivered, each as often as it was taken in.
use map_based_relay.Prelude.{
  ◌<◌, ℕ, ◌+◌, ◌≡◌, refl, inl, inr, List, [], ◌∷◌, ◌++◌, Option, none, some, Bool, true, false,
  arith, ◌==◌, if◌then◌else◌, Bool-cases, length, keep_if, any_of, count, count-append,
  count-keep_if,
}
use map_based_relay.Gpsr.Rqueue.{
  QueueEntry, RequestQueue, request_queue, set_expire_time, is_expired, is_equal, same_packet, drop,
  purge, drop_front, get_size, enqueue, drop_packet_with_dst, take_first, dequeue,
}
use map_based_relay.Gpsr.Rqueue.Invariant.{Call, enqueues, dequeues, drops_dst, asks_size}

-- What the queue still answers for.
abbrev pub held : (QueueEntry → Bool) → RequestQueue → ℕ
held t q = count t q.queue + count t q.dropped

-- What a call of `enqueue` took in.
abbrev pub taken_in : (now : ℕ) → QueueEntry → RequestQueue × Bool → List QueueEntry
taken_in now e (q, true) = set_expire_time now e q.queue_timeout ∷ []
taken_in now e (q, false) = []

-- What a call of `dequeue` handed out.
abbrev pub handed_out : Option QueueEntry → List QueueEntry
handed_out none = []
handed_out (some e) = e ∷ []

module _ (t : QueueEntry → Bool) where
  held-purge : (now : ℕ) (q : RequestQueue) → held t (purge now q) ≡ held t q
  unfolding purge drop
  held-purge now q = omega (
    arith,
    count-append t q.dropped (keep_if (is_expired now) q.queue),
    count-keep_if (is_expired now) t q.queue,
  )

  held-drop_front :
      (q : RequestQueue) (es : List QueueEntry) → q.queue ≡ es → held t (drop_front q es) ≡ held t q
  unfolding drop_front drop
  held-drop_front q [] h = refl
  held-drop_front q (e ∷ es) h = rw h (omega (arith, count-append t q.dropped (e ∷ [])))

  held-drop_packet_with_dst :
      (now : ℕ) (q : RequestQueue) (dst : ℕ) → held t (drop_packet_with_dst now q dst) ≡ held t q
  unfolding drop_packet_with_dst drop
  held-drop_packet_with_dst now q dst =
      let p = purge now q in
      omega (
        arith,
        held-purge now q,
        count-append t p.dropped (keep_if (is_equal dst) p.queue),
        count-keep_if (is_equal dst) t p.queue,
      )

  held-push :
      (q : RequestQueue) (e : QueueEntry)
      → held t (record q { queue = q.queue ++ e ∷ [] }) ≡ held t q + count t (e ∷ [])
  held-push q e = omega (arith, count-append t q.queue (e ∷ []))

  held-enqueue :
      (now : ℕ) (q : RequestQueue) (e : QueueEntry)
      → let r = enqueue now q e in held t r.0 ≡ held t q + count t (taken_in now e r)
  unfolding enqueue
  held-enqueue now q e = elim (Bool-cases (any_of (λ i. same_packet i e) (purge now q).queue)) [
    | inl old ↦ rw old (omega (arith, held-purge now q))
    | inr new ↦
        let p = purge now q in
        let p' = if length p.queue == p.max_len then drop_front p p.queue else p in
        let made : held t p' ≡ held t p = ground (arith, held-drop_front p p.queue refl) in
        rw new (
          omega
            (arith, held-purge now q, made, held-push p' (set_expire_time now e p'.queue_timeout)))
  ]

  abbrev split_count : List QueueEntry → Option (QueueEntry × List QueueEntry) → ℕ
  split_count es none = count t es
  split_count es (some (e, rest)) = count t (e ∷ []) + count t rest

  count-take_first :
      (dst : ℕ) (es : List QueueEntry) → split_count es (take_first dst es) ≡ count t es
  unfolding take_first
  count-take_first dst [] = refl
  count-take_first dst (x ∷ es) = ground (arith, count-take_first dst es)

  held-dequeue :
      (now : ℕ) (q : RequestQueue) (dst : ℕ)
      → let r = dequeue now q dst in held t r.0 + count t (handed_out r.1) ≡ held t q
  unfolding dequeue
  held-dequeue now q dst =
      ground (arith, held-purge now q, count-take_first dst (purge now q).queue)

-- The queue beside what it has taken in and delivered so far.
pub record Ledger : Type 0 where
  pub state : RequestQueue
  pub accepted : List QueueEntry
  pub delivered : List QueueEntry

unfoldable pub call : Ledger → ℕ × Call → Ledger
call l (now, enqueues e) =
    let r = enqueue now l.state e in
    record l { state = r.0; accepted = taken_in now e r ++ l.accepted }
call l (now, dequeues dst) =
    let r = dequeue now l.state dst in
    record l { state = r.0; delivered = handed_out r.1 ++ l.delivered }
call l (now, drops_dst dst) = record l { state = drop_packet_with_dst now l.state dst }
call l (now, asks_size) = record l { state = (get_size now l.state).0 }

unfoldable pub calls : Ledger → List (ℕ × Call) → Ledger
calls l [] = l
calls l (c ∷ cs) = calls (call l c) cs

abbrev pub opened : (max_len timeout : ℕ) → Ledger
opened max_len timeout = record {
  state = request_queue max_len timeout;
  accepted = [];
  delivered = [];
}

module _ (t : QueueEntry → Bool) where
  abbrev IsBalanced : Ledger → Type 0
  IsBalanced l = count t l.accepted ≡ held t l.state + count t l.delivered

  call-IsBalanced : (l : Ledger) (c : ℕ × Call) → IsBalanced l → IsBalanced (call l c)
  unfolding call get_size
  call-IsBalanced l (now, enqueues e) h =
      let r = enqueue now l.state e in
      omega (arith, held-enqueue t now l.state e, count-append t (taken_in now e r) l.accepted)
  call-IsBalanced l (now, dequeues dst) h =
      let r = dequeue now l.state dst in
      omega (arith, held-dequeue t now l.state dst, count-append t (handed_out r.1) l.delivered)
  call-IsBalanced l (now, drops_dst dst) h =
      omega (arith, held-drop_packet_with_dst t now l.state dst)
  call-IsBalanced l (now, asks_size) h = omega (arith, held-purge t now l.state)

  calls-IsBalanced : (l : Ledger) (cs : List (ℕ × Call)) → IsBalanced l → IsBalanced (calls l cs)
  unfolding calls
  calls-IsBalanced l [] h = h
  calls-IsBalanced l (c ∷ cs) h = calls-IsBalanced (call l c) cs (call-IsBalanced l c h)

  -- After any sequence of calls on a queue that was made empty, with a limit above 0, and for any test of entries: as many
  -- of the entries that were accepted pass the test as pass it among those still queued, those
  -- handed to an error callback and those delivered, taken together.
  pub calls-conserve :
      (max_len timeout : ℕ) (cs : List (ℕ × Call))
      → 0 < max_len
      → let l = calls (opened max_len timeout) cs in
        count t l.accepted ≡ count t l.state.queue + count t l.state.dropped + count t l.delivered
  calls-conserve max_len timeout cs some_room = calls-IsBalanced (opened max_len timeout) cs refl
