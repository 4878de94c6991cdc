-- ===== src/Gpsr/Rqueue.antt =====
-- NS3/gpsr/model/gpsr-rqueue.cc and gpsr-rqueue.h: the queue of packets that wait for a route.
-- Simulator::Now () is the argument `now` of each operation, in the ticks of ns3::Time; an entry's
-- expiry is the absolute time that the source stores. The calls of the error callbacks are the list
-- `dropped`, oldest first. NS3/geoSVR/model/geoSVR-rqueue.cc is the same code in another namespace.
pub mod Invariant
pub mod Accounting
pub mod Delivery
pub mod Taken
mod Tests
use map_based_relay.Prelude.{
  ℕ, ◌+◌, List, [], ◌∷◌, ◌++◌, Option, none, some, Bool, true, false, not, ◌&&◌, ltb, ◌==◌,
  if◌then◌else◌, length, keep_if, any_of,
}

-- The packet's uid and bytes, and the destination and the source of its IP header. The queue reads the
-- uid and the destination alone; the callbacks that travel along are those of the IP layer.
pub record QueueEntry : Type 0 where
  pub uid : ℕ
  pub dst : ℕ
  pub source : ℕ
  pub bytes : List ℕ
  pub expire : ℕ

pub record RequestQueue : Type 0 where
  pub queue : List QueueEntry
  pub max_len : ℕ
  pub queue_timeout : ℕ
  pub dropped : List QueueEntry

abbrev pub request_queue : (max_len queue_timeout : ℕ) → RequestQueue
request_queue max_len queue_timeout = record {
  queue = [];
  max_len = max_len;
  queue_timeout = queue_timeout;
  dropped = [];
}

abbrev pub set_expire_time : (now : ℕ) → QueueEntry → (exp : ℕ) → QueueEntry
set_expire_time now e exp = record e { expire = exp + now }

-- `GetExpireTime () < Seconds (0)`: the stored time lies before now.
abbrev pub is_expired : (now : ℕ) → QueueEntry → Bool
is_expired now e = ltb e.expire now

abbrev pub is_equal : (dst : ℕ) → QueueEntry → Bool
is_equal dst e = e.dst == dst

pub drop : RequestQueue → List QueueEntry → RequestQueue
drop q es = record q { dropped = q.dropped ++ es }

pub purge : (now : ℕ) → RequestQueue → RequestQueue
unfolding drop
purge now q =
    let q' = drop q (keep_if (is_expired now) q.queue) in
    record q' { queue = keep_if (λ e. not (is_expired now e)) q.queue }

pub get_size : (now : ℕ) → RequestQueue → RequestQueue × ℕ
get_size now q = let q' = purge now q in (q', length q'.queue)

abbrev pub same_packet : QueueEntry → QueueEntry → Bool
same_packet i e = i.uid == e.uid && i.dst == e.dst

-- `Drop (front)` and `erase (begin)`. The source calls them on an empty vector, which has no front,
-- where `max_len` is 0: the theorems on calls of the queue are about a limit above 0.
pub drop_front : RequestQueue → List QueueEntry → RequestQueue
unfolding drop
drop_front q [] = q
drop_front q (e ∷ es) = record (drop q (e ∷ [])) { queue = es }

pub enqueue : (now : ℕ) → RequestQueue → QueueEntry → RequestQueue × Bool
unfolding purge drop_front
enqueue now q₀ entry =
    let q = purge now q₀ in
    if any_of (λ i. same_packet i entry) q.queue
    then (q, false)
    else let q' = if length q.queue == q.max_len then drop_front q q.queue else q in
      (record q' { queue = q'.queue ++ set_expire_time now entry q'.queue_timeout ∷ [] }, true)

pub drop_packet_with_dst : (now : ℕ) → RequestQueue → (dst : ℕ) → RequestQueue
unfolding purge drop
drop_packet_with_dst now q₀ dst =
    let q = purge now q₀ in
    record (drop q (keep_if (is_equal dst) q.queue)) {
      queue = keep_if (λ e. not (is_equal dst e)) q.queue;
    }

-- The first entry for the destination, and the queue without it.
pub take_first : (dst : ℕ) → List QueueEntry → Option (QueueEntry × List QueueEntry)
take_first dst [] = none
take_first dst (e ∷ es) =
    if is_equal dst e
    then some (e, es)
    else elim (take_first dst es) [ none ↦ none | some (f, rest) ↦ some (f, e ∷ rest) ]

pub dequeue : (now : ℕ) → RequestQueue → (dst : ℕ) → RequestQueue × Option QueueEntry
unfolding purge
dequeue now q₀ dst =
    let q = purge now q₀ in
    elim (take_first dst q.queue) [
      | none ↦ (q, none)
      | some (e, rest) ↦ (record q { queue = rest }, some e)
    ]

-- Find does not purge.
pub find : RequestQueue → (dst : ℕ) → Bool
find q dst = any_of (is_equal dst) q.queue
