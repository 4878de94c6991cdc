-- ===== src/Gpsr/Rqueue/Taken.antt =====
-- What `Dequeue` takes out of the live entries and what it leaves, for the loops that call it until it
-- finds nothing.

use map_based_relay.Prelude.{
  All-append, ◌==◌, any_of, All-keep_if, if◌then◌else◌, true, keep_if-All, keep_if-of_All, All,
  refl, inr, arith, none, length, [], some, false, inl, some, Bool-cases, Option, not, keep_if, ◌≡◌,
  Bool, List, ℕ, ◌∷◌, suc,
}
use map_based_relay.Gpsr.Rqueue.{
  same_packet, get_size, enqueue, drop_front, QueueEntry, RequestQueue, is_expired, is_equal, purge,
  take_first, dequeue, drop,
}
use map_based_relay.Gpsr.Rqueue.Delivery.{live}

abbrev pub other : (dst : ℕ) → QueueEntry → Bool
other dst e = not (is_equal dst e)

abbrev fresh : (now : ℕ) → QueueEntry → Bool
fresh now e = not (is_expired now e)

-- `e` is the first item for the destination, and `rest` the list without it.
pub record IsTaken (dst : ℕ) (es : List QueueEntry) (e : QueueEntry) (rest : List QueueEntry)
    : Type 0 where
  pub kept : keep_if (other dst) rest ≡ keep_if (other dst) es
  pub taken : keep_if (is_equal dst) es ≡ e ∷ keep_if (is_equal dst) rest
  pub shorter : length es ≡ suc (length rest)
  pub within : (p : QueueEntry → Bool) → All (λ x. p x ≡ true) es → All (λ x. p x ≡ true) rest

pub record IsAbsent (dst : ℕ) (es : List QueueEntry) : Type 0 where
  pub all : keep_if (other dst) es ≡ es
  pub nothing : keep_if (is_equal dst) es ≡ []

abbrev TakenBy : (dst : ℕ) → List QueueEntry → Option (QueueEntry × List QueueEntry) → Type 0
TakenBy dst es none = IsAbsent dst es
TakenBy dst es (some r) = IsTaken dst es r.0 r.1

TakenBy-further :
    (dst : ℕ) (x : QueueEntry) (es : List QueueEntry) (o : Option (QueueEntry × List QueueEntry))
    → is_equal dst x ≡ false
    → TakenBy dst es o
    → TakenBy dst (x ∷ es) (elim o [ none ↦ none | some (f, rest) ↦ some (f, x ∷ rest) ])
TakenBy-further dst x es none h t = record {
  all = ground (arith, h, t.all);
  nothing = ground (arith, h, t.nothing);
}
TakenBy-further dst x es (some r) h t = record {
  kept = ground (arith, h, t.kept);
  taken = ground (arith, h, t.taken);
  shorter = omega (arith, t.shorter);
  within = λ p a. (a.0, t.within p a.1);
}

take_first-TakenBy : (dst : ℕ) (es : List QueueEntry) → TakenBy dst es (take_first dst es)
unfolding take_first
take_first-TakenBy dst [] = record { all = refl; nothing = refl }
take_first-TakenBy dst (x ∷ es) = elim (Bool-cases (is_equal dst x)) [
  | inl h ↦ rw h (record {
    kept = ground (arith, h);
    taken = ground (arith, h);
    shorter = refl;
    within = λ p a. a.1;
  })
  | inr h ↦ rw h (TakenBy-further dst x es (take_first dst es) h (take_first-TakenBy dst es))
]

-- The outcome of a call of Dequeue: the queue that it leaves, and what it hands out.
abbrev pub Dequeued : (now dst : ℕ) → RequestQueue → RequestQueue × Option QueueEntry → Type 0
Dequeued now dst q (q', none) = (q'.queue ≡ live now q) × IsAbsent dst (live now q)
Dequeued now dst q (q', some e) = IsTaken dst (live now q) e q'.queue × (live now q' ≡ q'.queue)

Dequeued-of_TakenBy :
    (now dst : ℕ) (q : RequestQueue) (p : RequestQueue) (o : Option (QueueEntry × List QueueEntry))
    → p.queue ≡ live now q
    → TakenBy dst (live now q) o
    → Dequeued now dst q
        (elim o [ none ↦ (p, none) | some (e, rest) ↦ (record p { queue = rest }, some e) ])
Dequeued-of_TakenBy now dst q p none e t = (e, t)
Dequeued-of_TakenBy now dst q p (some (x, rest)) e t =
    (t, keep_if-of_All (fresh now) rest (t.within (fresh now) (keep_if-All (fresh now) q.queue)))

pub dequeue-Dequeued :
    (now : ℕ) (q : RequestQueue) (dst : ℕ) → Dequeued now dst q (dequeue now q dst)
unfolding dequeue purge drop
dequeue-Dequeued now q dst =
    Dequeued-of_TakenBy now dst q (purge now q) (take_first dst (live now q)) refl
      (take_first-TakenBy dst (live now q))

room-All :
    (P : QueueEntry → Type 0) (q : RequestQueue) (es : List QueueEntry)
    → q.queue ≡ es
    → All P es
    → All P (if length es == q.max_len then drop_front q es else q).queue
unfolding drop_front drop
room-All P q [] h a = ground arith
room-All P q (x ∷ es) h a = ground arith

-- Enqueue brings nothing in but the entry, stamped with some expiry.
pub enqueue-All :
    (P : QueueEntry → Type 0) (now : ℕ) (q : RequestQueue) (e : QueueEntry)
    → All P q.queue
    → ((t : ℕ) → P (record e { expire = t }))
    → All P (enqueue now q e).0.queue
unfolding enqueue purge drop
enqueue-All P now q e a h =
    let p = purge now q in
    let kept = All-keep_if P (fresh now) q.queue a in
    elim (Bool-cases (any_of (λ i. same_packet i e) p.queue)) [
      | inl old ↦ rw old kept
      | inr new ↦ rw new (All-append P _ (_ ∷ []) (room-All P p p.queue refl kept) (h _, tt))
    ]

pub get_size-live :
    (now : ℕ) (q : RequestQueue)
    → ((get_size now q).1 ≡ length (live now q)) × ((get_size now q).0.queue ≡ live now q)
unfolding get_size purge drop
get_size-live now q = (refl, refl)
