-- ===== src/Gpsr/Rqueue/Delivery.antt =====
-- Which packets `Dequeue`, `DropPacketWithDst` and `Enqueue` act on.
use map_based_relay.Prelude.{
  ◌<◌, ap, All-keep_if, ◌==◌, ◌∙◌, length, ◌+◌, keep_if-append, ◌≤◌, if◌then◌else◌, ℕ, ◌≡◌, refl,
  List, [], ◌∷◌, ◌++◌, none, some, Bool, true, false, not, arith, keep_if, any_of, All,
}
use map_based_relay.Gpsr.Rqueue.{
  set_expire_time, drop_front, same_packet, enqueue, QueueEntry, RequestQueue, is_expired, is_equal,
  drop, purge, drop_packet_with_dst, take_first, dequeue, find,
}

-- The entries that have not expired.
abbrev pub live : (now : ℕ) → RequestQueue → List QueueEntry
live now q = keep_if (λ e. not (is_expired now e)) q.queue

take_first-split :
    (dst : ℕ) (before : List QueueEntry) (e : QueueEntry) (after : List QueueEntry)
    → All (λ i. is_equal dst i ≡ false) before
    → is_equal dst e ≡ true
    → take_first dst (before ++ e ∷ after) ≡ some (e, before ++ after)
unfolding take_first
take_first-split dst [] e after h k = ground arith
take_first-split dst (x ∷ before) e after h k =
    ground (arith, take_first-split dst before e after h.1 k)

take_first-none :
    (dst : ℕ) (es : List QueueEntry)
    → All (λ i. is_equal dst i ≡ false) es
    → take_first dst es ≡ none
unfolding take_first
take_first-none dst [] h = refl
take_first-none dst (x ∷ es) h = ground (arith, take_first-none dst es h.1)

-- Where an entry for the destination is live, and no live entry before it is for that destination,
-- `dequeue` hands out this entry and leaves the other live entries in their order.
pub dequeue-oldest :
    (now : ℕ) (q : RequestQueue) (e : QueueEntry) (before after : List QueueEntry)
    → live now q ≡ before ++ e ∷ after
    → All (λ i. is_equal e.dst i ≡ false) before
    → let r = dequeue now q e.dst in (r.1 ≡ some e) × (r.0.queue ≡ before ++ after)
unfolding dequeue purge drop
dequeue-oldest now q e before after h k =
    ground (arith, take_first-split e.dst before e after k (ground arith))

-- Where no live entry is for the destination, `dequeue` hands out nothing and leaves the live entries.
pub dequeue-none :
    (now : ℕ) (q : RequestQueue) (dst : ℕ)
    → All (λ i. is_equal dst i ≡ false) (live now q)
    → let r = dequeue now q dst in (r.1 ≡ none) × (r.0.queue ≡ live now q)
unfolding dequeue purge drop
dequeue-none now q dst h = ground (arith, take_first-none dst (live now q) h)

any_of-keep_if-not :
    (p : QueueEntry → Bool) (es : List QueueEntry) → any_of p (keep_if (λ e. not (p e)) es) ≡ false
any_of-keep_if-not p [] = refl
any_of-keep_if-not p (x ∷ es) = ground (arith, any_of-keep_if-not p es)

-- `drop_packet_with_dst` leaves no entry for the destination, keeps the other live entries in their
-- order, and hands first the expired entries and then the live ones for the destination to their
-- error callbacks.
pub drop_packet_with_dst-find :
    (now : ℕ) (q : RequestQueue) (dst : ℕ)
    → let q' = drop_packet_with_dst now q dst in
      (find q' dst ≡ false)
      × (q'.queue ≡ keep_if (λ e. not (is_equal dst e)) (live now q))
      × (q'.dropped
          ≡ (q.dropped ++ keep_if (is_expired now) q.queue) ++ keep_if (is_equal dst) (live now q))
unfolding drop_packet_with_dst purge drop find
drop_packet_with_dst-find now q dst = (any_of-keep_if-not (is_equal dst) (live now q), refl, refl)

any_of-of_All :
    (e : QueueEntry) (es : List QueueEntry)
    → All (λ i. is_equal e.dst i ≡ false) es
    → any_of (λ i. same_packet i e) es ≡ false
any_of-of_All e [] h = refl
any_of-of_All e (x ∷ es) h = ground (arith, any_of-of_All e es h.1)

make_room-All :
    (q : RequestQueue) (dst : ℕ) (es : List QueueEntry)
    → q.queue ≡ es
    → All (λ i. is_equal dst i ≡ false) es
    → let q' = if length es == q.max_len then drop_front q es else q in
      All (λ i. is_equal dst i ≡ false) q'.queue × (q'.queue_timeout ≡ q.queue_timeout)
unfolding drop_front drop
make_room-All q dst [] h a = ground arith
make_room-All q dst (x ∷ es) h a = ground arith

push-dequeue :
    (later : ℕ) (q : RequestQueue) (e : QueueEntry)
    → later ≤ e.expire
    → All (λ i. is_equal e.dst i ≡ false) q.queue
    → (dequeue later (record q { queue = q.queue ++ e ∷ [] }) e.dst).1 ≡ some e
push-dequeue later q e fresh absent =
    (dequeue-oldest later _ e (live later q) []
      (keep_if-append (λ i. not (is_expired later i)) q.queue (e ∷ []) ∙ kept)
      (All-keep_if _ (λ i. not (is_expired later i)) q.queue absent)).0
  where
    kept : live later q ++ keep_if (λ i. not (is_expired later i)) (e ∷ []) ≡ live later q ++ e ∷ []
    kept = ground arith

-- Where no live entry of the queue is for the destination of a packet, `enqueue` accepts the packet,
-- and a `dequeue` for that destination, made at any time up to the queue's timeout after, hands out
-- this packet, stamped with its expiry. The limit of the queue is above 0.
pub enqueue-dequeue :
    (now later : ℕ) (q : RequestQueue) (e : QueueEntry)
    → 0 < q.max_len
    → later ≤ q.queue_timeout + now
    → All (λ i. is_equal e.dst i ≡ false) (live now q)
    → let r = enqueue now q e in
      (r.1 ≡ true) × ((dequeue later r.0 e.dst).1 ≡ some (set_expire_time now e q.queue_timeout))
unfolding enqueue purge drop
enqueue-dequeue now later q e some_room soon absent =
    let p = purge now q in
    let made = make_room-All p e.dst p.queue refl absent in
    let p' = if length p.queue == p.max_len then drop_front p p.queue else p in
    rw (any_of-of_All e p.queue absent) (
      refl,
      push-dequeue later p' (set_expire_time now e p'.queue_timeout) (omega arith) made.0
          ∙ ap (λ t. some (set_expire_time now e t)) made.1,
    )
