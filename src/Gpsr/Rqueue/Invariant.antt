-- ===== src/Gpsr/Rqueue/Invariant.antt =====
-- The queue stays within its limit and holds no packet twice, whatever is called.
use Prim.{Unit, tt}
use map_based_relay.Prelude.{
  Option, ℕ, ◌≤◌, ◌<◌, ◌≡◌, refl, inl, inr, List, [], ◌∷◌, ◌++◌, none, some, Bool, false, not,
  arith, ◌==◌, if◌then◌else◌, Bool-cases, length, keep_if, any_of, All, length-append,
  length-keep_if-le, any_of-eq-false, All-keep_if, All-append,
}
use map_based_relay.Gpsr.Rqueue.{
  request_queue, get_size, QueueEntry, RequestQueue, is_expired, is_equal, same_packet, drop, purge,
  drop_front, enqueue, drop_packet_with_dst, take_first, dequeue,
}

-- No two entries carry the same packet to the same destination.
abbrev pub Distinct : List QueueEntry → Type 0
Distinct [] = Unit {0}
Distinct (e ∷ es) = All (λ x. same_packet e x ≡ false) es × Distinct es

pub record IsValid (q : RequestQueue) : Type 0 where
  pub room : 0 < q.max_len
  pub bounded : length q.queue ≤ q.max_len
  pub distinct : Distinct q.queue

keep_if-Distinct :
    (p : QueueEntry → Bool) (es : List QueueEntry) → Distinct es → Distinct (keep_if p es)
keep_if-Distinct p [] d = tt
keep_if-Distinct p (e ∷ es) d =
    ground (arith, keep_if-Distinct p es d.1, All-keep_if (λ x. same_packet e x ≡ false) p es d.0)

Distinct-concat :
    (es : List QueueEntry) (e : QueueEntry)
    → All (λ i. same_packet i e ≡ false) es
    → Distinct es
    → Distinct (es ++ e ∷ [])
Distinct-concat [] e h d = (tt, tt)
Distinct-concat (x ∷ es) e h d =
    (All-append _ es (e ∷ []) d.0 (h.0, tt), Distinct-concat es e h.1 d.1)

pub purge-IsValid : (now : ℕ) (q : RequestQueue) → IsValid q → IsValid (purge now q)
unfolding purge drop
purge-IsValid now q v = record {
  room = v.room;
  bounded = omega (arith, length-keep_if-le (λ e. not (is_expired now e)) q.queue);
  distinct = keep_if-Distinct (λ e. not (is_expired now e)) q.queue v.distinct;
}

push-IsValid :
    (q : RequestQueue) (e : QueueEntry)
    → IsValid q
    → length q.queue < q.max_len
    → All (λ i. same_packet i e ≡ false) q.queue
    → IsValid (record q { queue = q.queue ++ e ∷ [] })
push-IsValid q e v free fresh = record {
  room = v.room;
  bounded = omega (arith, length-append q.queue (e ∷ []));
  distinct = Distinct-concat q.queue e fresh v.distinct;
}

-- Room is made where the limit is reached, and nothing that was absent comes in.
make_room :
    (q : RequestQueue) (e : QueueEntry) (es : List QueueEntry)
    → q.queue ≡ es
    → IsValid q
    → All (λ i. same_packet i e ≡ false) es
    → let q' = if length es == q.max_len then drop_front q es else q in
      IsValid q' × (length q'.queue < q'.max_len) × All (λ i. same_packet i e ≡ false) q'.queue
unfolding drop_front drop
make_room q e [] h v fresh = ground arith
make_room q e (x ∷ es) h v fresh = ground arith

pub enqueue-IsValid :
    (now : ℕ) (q : RequestQueue) (e : QueueEntry) → IsValid q → IsValid (enqueue now q e).0
unfolding enqueue
enqueue-IsValid now q e v = elim (Bool-cases (any_of (λ i. same_packet i e) (purge now q).queue)) [
  | inl old ↦ rw old (purge-IsValid now q v)
  | inr new ↦ rw new (
      let p = purge now q in
      let r = make_room p e p.queue refl (purge-IsValid now q v) (any_of-eq-false _ p.queue new) in
      push-IsValid _ _ r.0 r.1 r.2)
]

-- The queue that `dequeue` leaves.
abbrev remaining : List QueueEntry → Option (QueueEntry × List QueueEntry) → List QueueEntry
remaining es none = es
remaining es (some (e, rest)) = rest

-- The queue without its first entry for the destination.
erase_first : ℕ → List QueueEntry → List QueueEntry
erase_first dst [] = []
erase_first dst (x ∷ es) = if is_equal dst x then es else x ∷ erase_first dst es

remaining-take_first :
    (dst : ℕ) (es : List QueueEntry) → remaining es (take_first dst es) ≡ erase_first dst es
unfolding take_first erase_first
remaining-take_first dst [] = refl
remaining-take_first dst (x ∷ es) = ground (arith, remaining-take_first dst es)

erase_first-All {κ} :
    (P : QueueEntry → Type κ) (dst : ℕ) (es : List QueueEntry)
    → All P es
    → All P (erase_first dst es)
unfolding erase_first
erase_first-All P dst [] a = tt
erase_first-All P dst (x ∷ es) a = ground (arith, erase_first-All P dst es a.1)

erase_first-Distinct :
    (dst : ℕ) (es : List QueueEntry)
    → Distinct es
    → Distinct (erase_first dst es) × (length (erase_first dst es) ≤ length es)
unfolding erase_first
erase_first-Distinct dst [] d = (tt, omega arith)
erase_first-Distinct dst (x ∷ es) d = ground (
  arith,
  erase_first-Distinct dst es d.1,
  erase_first-All (λ i. same_packet x i ≡ false) dst es d.0,
)

dequeue-IsValid : (now : ℕ) (q : RequestQueue) (dst : ℕ) → IsValid q → IsValid (dequeue now q dst).0
unfolding dequeue
dequeue-IsValid now q dst v = ground (
  arith,
  purge-IsValid now q v,
  remaining-take_first dst (purge now q).queue,
  erase_first-Distinct dst (purge now q).queue (purge-IsValid now q v).distinct,
)

drop_packet_with_dst-IsValid :
    (now : ℕ) (q : RequestQueue) (dst : ℕ) → IsValid q → IsValid (drop_packet_with_dst now q dst)
unfolding drop_packet_with_dst drop
drop_packet_with_dst-IsValid now q dst v =
    let p = purge-IsValid now q v in
    let q' = purge now q in
    record {
      room = p.room;
      bounded = omega (arith, length-keep_if-le (λ e. not (is_equal dst e)) q'.queue);
      distinct = keep_if-Distinct (λ e. not (is_equal dst e)) q'.queue p.distinct;
    }

get_size-IsValid : (now : ℕ) (q : RequestQueue) → IsValid q → IsValid (get_size now q).0
unfolding get_size
get_size-IsValid now q v = purge-IsValid now q v

-- A call of the queue's interface at a time.
pub data Call : Type 0 where
  enqueues : QueueEntry → Call
  dequeues drops_dst : (dst : ℕ) → Call
  asks_size : Call

unfoldable pub step : RequestQueue → ℕ × Call → RequestQueue
step q (now, enqueues e) = (enqueue now q e).0
step q (now, dequeues dst) = (dequeue now q dst).0
step q (now, drops_dst dst) = drop_packet_with_dst now q dst
step q (now, asks_size) = (get_size now q).0

unfoldable pub run : RequestQueue → List (ℕ × Call) → RequestQueue
run q [] = q
run q (c ∷ cs) = run (step q c) cs

step-IsValid : (q : RequestQueue) (c : ℕ × Call) → IsValid q → IsValid (step q c)
unfolding step
step-IsValid q (now, enqueues e) v = enqueue-IsValid now q e v
step-IsValid q (now, dequeues dst) v = dequeue-IsValid now q dst v
step-IsValid q (now, drops_dst dst) v = drop_packet_with_dst-IsValid now q dst v
step-IsValid q (now, asks_size) v = get_size-IsValid now q v

run-IsValid : (q : RequestQueue) (cs : List (ℕ × Call)) → IsValid q → IsValid (run q cs)
unfolding run
run-IsValid q [] v = v
run-IsValid q (c ∷ cs) v = run-IsValid (step q c) cs (step-IsValid q c v)

-- A queue that is made empty with a limit above 0 holds, after any sequence of enqueue, dequeue,
-- drop and size calls at any times, at most `max_len` entries, no two of them with the same packet
-- uid and destination.
pub run-request_queue-IsValid :
    (max_len timeout : ℕ) (cs : List (ℕ × Call))
    → 0 < max_len
    → IsValid (run (request_queue max_len timeout) cs)
run-request_queue-IsValid max_len timeout cs h =
    run-IsValid _ cs (record { room = h; bounded = omega arith; distinct = tt })
