-- ===== src/Gpsr/Waiting/Invariant.antt =====
-- The packets that wait are accounted for: the list of addresses names their destinations, and while it
-- names any the timer runs.
use Prim.{tt}
use map_based_relay.Prelude.{
  ◌≢◌, Bool-cases, OnSome-mono, ◌+◌, ◌≡◌, refl, subst, arith, ℕ, Bool, true, false, none, some,
  List, [], ◌∷◌, All, All-keep_if, length, OnSome, inl, inr, ◌⊎◌, is_some, OnSome-bind,
  if◌then◌else◌, not, ◌∙◌, any_of, ◌==◌, All-mono,
}
use map_based_relay.Gpsr.Rqueue.{get_size, QueueEntry, RequestQueue, is_expired}
use map_based_relay.Gpsr.Ptable.Lookup.{mem-unique}
use map_based_relay.Gpsr.Rqueue.Delivery.{live}
use map_based_relay.Gpsr.Rqueue.Taken.{enqueue-All, get_size-live, other}
use map_based_relay.Gpsr.Protocol.{Env, Protocol}
use map_based_relay.Gpsr.Protocol.Frame.{Keeps}
use map_based_relay.Gpsr.Waiting.{
  check_interval, unique, remove, remove_all, check_loop, check_queue, send_packet_from_queue,
  deferred_route_output,
}
use map_based_relay.Gpsr.Waiting.Sent.{Within, IsWithout, Sent, send_packet_from_queue-Sent}

abbrev pub is_listed : List ℕ → QueueEntry → Bool
is_listed ids e = any_of (λ i. i == e.dst) ids

abbrev AllListed : List ℕ → RequestQueue → Type 0
AllListed ids q = All (λ e. is_listed ids e ≡ true) q.queue

pub record IsWaiting (s : Protocol) : Type 0 where
  pub known : AllListed s.queued_addresses s.queue
  pub timed : (s.queued_addresses ≡ []) ⊎ (is_some s.check_timer ≡ true)

pub IsWaiting-of_Keeps : (s s' : Protocol) → Keeps s s' → IsWaiting s → IsWaiting s'
IsWaiting-of_Keeps s s' (q, a, t) w = record {
  known = rw q (rw a w.known);
  timed = rw a (rw t w.timed);
}

is_listed-remove :
    (id : ℕ) (ids : List ℕ) (e : QueueEntry)
    → other id e ≡ true
    → is_listed (remove id ids) e ≡ is_listed ids e
is_listed-remove id [] e h = refl
is_listed-remove id (i ∷ ids) e h = ground (arith, is_listed-remove id ids e h)

remove-AllListed :
    (id : ℕ) (ids : List ℕ) (es : List QueueEntry)
    → All (λ e. other id e ≡ true) es
    → All (λ e. is_listed ids e ≡ true) es
    → All (λ e. is_listed (remove id ids) e ≡ true) es
remove-AllListed id ids [] h k = tt
remove-AllListed id ids (e ∷ es) h k =
    (is_listed-remove id ids e h.0 ∙ k.0, remove-AllListed id ids es h.1 k.1)

remove_all-AllListed :
    (rs ids : List ℕ) (q : RequestQueue)
    → All (λ r. IsWithout r q) rs
    → AllListed ids q
    → AllListed (remove_all rs ids) q
remove_all-AllListed [] ids q h k = k
remove_all-AllListed (r ∷ rs) ids q h k =
    remove_all-AllListed rs (remove r ids) q h.1 (remove-AllListed r ids q.queue h.0 k)

-- What the loop of CheckQueue has done: no packet is left for the addresses to remove.
abbrev Checked : Protocol → Protocol × List ℕ → Type 0
Checked s r =
    Within s.queue r.0.queue
    × (r.0.queued_addresses ≡ s.queued_addresses)
    × All (λ id. IsWithout id r.0.queue) r.1

Checked-after :
    (dst : ℕ) (s : Protocol) (r : Protocol × Bool) (o : Protocol × List ℕ)
    → Sent dst s r
    → Checked r.0 o
    → Checked s o
Checked-after dst s r o (w, a, t, done) (w', a', gone) = (λ p h. w' p (w p h), a' ∙ a, gone)

to_remove-IsWithout :
    (id : ℕ) (s : Protocol) (r : Protocol × Bool) (to_remove : List ℕ)
    → Sent id s r
    → All (λ id. IsWithout id s.queue) to_remove
    → All (λ id. IsWithout id r.0.queue) (if r.1 then id ∷ to_remove else to_remove)
to_remove-IsWithout id s (s', true) to_remove (w, a, t, done) h =
    (done refl, All-mono _ _ (λ i k. w (other i) k) to_remove h)
to_remove-IsWithout id s (s', false) to_remove (w, a, t, done) h =
    All-mono _ _ (λ i k. w (other i) k) to_remove h

is_listed-unique :
    (dst : ℕ) (ids : List ℕ) (e : QueueEntry)
    → is_listed ids e ≡ true
    → is_listed (unique (dst ∷ ids)) e ≡ true
is_listed-unique dst ids e h = ground (arith, mem-unique e.dst (dst ∷ ids))

own-is_listed :
    (t : ℕ) (e : QueueEntry) (ids : List ℕ)
    → is_listed (unique (e.dst ∷ ids)) (record e { expire = t }) ≡ true
own-is_listed t e ids = ground arith

-- Where an entry waits, an address is listed.
some_listed :
    (es : List QueueEntry) (ids : List ℕ)
    → (length es == 0) ≡ false
    → All (λ e. is_listed ids e ≡ true) es
    → (ids ≡ [])
    → ⊥
some_listed [] ids h a e = ground arith
some_listed (x ∷ es) ids h a e =
    let off : false ≡ true = subst (λ l. is_listed l x ≡ true) e a.0 in ground (arith, off)

none_waits : (es : List QueueEntry) → All (λ e. is_listed [] e ≡ true) es → es ≡ []
none_waits [] h = refl
none_waits (x ∷ es) h = ground (arith, h.0)

pub IsWaiting-timer :
    (s : Protocol) → IsWaiting s → s.queue.queue ≢ [] → is_some s.check_timer ≡ true
IsWaiting-timer s w waits = elim w.timed [
  | inl e ↦
      let listed : All (λ x. is_listed [] x ≡ true) s.queue.queue =
        subst (λ ids. All (λ x. is_listed ids x ≡ true) s.queue.queue) e w.known in
      elim (waits (none_waits s.queue.queue listed)) [ ]
  | inr t ↦ t
]

module _ (env : Env) where
  check_loop-Checked :
      (ids to_remove : List ℕ) (s : Protocol)
      → All (λ id. IsWithout id s.queue) to_remove
      → OnSome (Checked s) (check_loop env ids to_remove s)
  unfolding check_loop
  check_loop-Checked [] to_remove s h = (λ p k. k, refl, h)
  check_loop-Checked (id ∷ ids) to_remove s h =
      OnSome-bind (Checked s) (send_packet_from_queue env s id) _
        (send_packet_from_queue-Sent env id s)
        (λ r k.
          let next = if r.1 then id ∷ to_remove else to_remove in
          OnSome-mono (Checked r.0) (Checked s) (λ o. Checked-after id s r o k)
            (check_loop env ids next r.0)
            (check_loop-Checked ids next r.0 (to_remove-IsWithout id s r to_remove k h)))

  rearmed :
      (ids : List ℕ)
      → (ids ≡ [])
        ⊎ (is_some {A = ℕ} (elim ids [ [] ↦ none | i ∷ is ↦ some (env.now + check_interval) ])
            ≡ true)
  rearmed [] = inl refl
  rearmed (i ∷ is) = inr refl

  pub check_queue-IsWaiting : (s : Protocol) → IsWaiting s → OnSome IsWaiting (check_queue env s)
  unfolding check_queue
  check_queue-IsWaiting s w =
      OnSome-bind IsWaiting (check_loop env s.queued_addresses [] (record s { check_timer = none }))
        _ (check_loop-Checked s.queued_addresses [] (record s { check_timer = none }) tt)
        (λ r k. record {
          known =
              remove_all-AllListed r.1 r.0.queued_addresses r.0.queue k.2
                (rw k.1 (k.0 (is_listed s.queued_addresses) w.known));
          timed = rearmed (remove_all r.1 r.0.queued_addresses);
        })

  deferred-timed :
      (s : Protocol)
      → IsWaiting s
      → is_some (
          if length (live env.now s.queue) == 0
          then some (env.now + check_interval)
          else s.check_timer)
        ≡ true
  deferred-timed s w =
      let kept =
        All-keep_if (λ e. is_listed s.queued_addresses e ≡ true) (λ e. not (is_expired env.now e))
          s.queue.queue w.known in
      elim (Bool-cases (length (live env.now s.queue) == 0)) [
        | inl h ↦ rw h refl
        | inr h ↦ rw h (elim w.timed [
          | inl e ↦ elim (some_listed (live env.now s.queue) s.queued_addresses h kept e) [ ]
          | inr t ↦ t
        ])
      ]

  -- A packet that is put into the queue is listed, and the timer runs.
  pub deferred_route_output-IsWaiting :
      (s : Protocol) (e : QueueEntry) → IsWaiting s → IsWaiting (deferred_route_output env s e)
  unfolding deferred_route_output
  deferred_route_output-IsWaiting s e w =
      let ids = s.queued_addresses in
      let (size, kept) = get_size-live env.now s.queue in
      record {
        known =
            enqueue-All (λ x. is_listed (unique (e.dst ∷ ids)) x ≡ true) env.now
              (get_size env.now s.queue).0 e
              (rw kept (
                All-keep_if _ (λ x. not (is_expired env.now x)) s.queue.queue
                  (All-mono _ _ (is_listed-unique e.dst ids) s.queue.queue w.known)))
              (λ t. own-is_listed t e ids);
        timed = inr (rw size (deferred-timed s w));
      }
