-- ===== src/Gpsr/Rqueue/Tests.antt =====
-- Runs and instances of the queue's theorems: a queue of two places and a timeout of 30.
use Prim.{tt}
use map_based_relay.Prelude.{some, true, ℕ, ◌+◌, ◌≡◌, refl, List, [], ◌∷◌, none, arith, count}
use map_based_relay.Gpsr.Rqueue.{
  set_expire_time, QueueEntry, RequestQueue, request_queue, is_equal, enqueue, dequeue, take_first,
  get_size,
}
use map_based_relay.Gpsr.Rqueue.Invariant.{
  IsValid, Call, enqueues, dequeues, asks_size, run, run-request_queue-IsValid,
}
use map_based_relay.Gpsr.Rqueue.Accounting.{call, calls, opened, calls-conserve}
use map_based_relay.Gpsr.Rqueue.Delivery.{live, dequeue-none, enqueue-dequeue}

abbrev packet : ℕ → ℕ → QueueEntry
packet uid dst = record { uid = uid; dst = dst; source = 1; bytes = []; expire = 0 }

-- Three packets for two places, then a delivery: the first one was dropped.
abbrev history : List (ℕ × Call)
history =
    (0, enqueues (packet 1 7))
    ∷ (1, enqueues (packet 2 8))
    ∷ (2, enqueues (packet 3 7))
    ∷ (3, dequeues 7)
    ∷ (50, asks_size)
    ∷ []

abbrev two_waiting : RequestQueue
two_waiting = record {
  queue = record (packet 2 8) { expire = 31 } ∷ record (packet 3 7) { expire = 32 } ∷ [];
  max_len = 2;
  queue_timeout = 30;
  dropped = [];
}

oldest_dropped :
    (calls (opened 2 30) history).state.dropped
    ≡ record (packet 1 7) { expire = 30 } ∷ record (packet 2 8) { expire = 31 } ∷ []
unfolding call calls enqueue dequeue get_size take_first
oldest_dropped = refl

run-request_queue-IsValid_example : IsValid (run (request_queue 2 30) history)
run-request_queue-IsValid_example = run-request_queue-IsValid 2 30 history (omega arith)

calls-conserve_example :
    let l = calls (opened 2 30) history in
    count (is_equal 7) l.accepted
    ≡ count (is_equal 7) l.state.queue
      + count (is_equal 7) l.state.dropped
      + count (is_equal 7) l.delivered
calls-conserve_example = calls-conserve (is_equal 7) 2 30 history (omega arith)

dequeue-none_example :
    let r = dequeue 32 two_waiting 8 in (r.1 ≡ none) × (r.0.queue ≡ live 32 two_waiting)
dequeue-none_example = dequeue-none 32 two_waiting 8 (refl, tt)

enqueue-dequeue_example :
    let r = enqueue 10 two_waiting (packet 4 9) in
    (r.1 ≡ true)
    × ((dequeue 40 r.0 9).1 ≡ some (set_expire_time 10 (packet 4 9) two_waiting.queue_timeout))
enqueue-dequeue_example =
    enqueue-dequeue 10 40 two_waiting (packet 4 9) (omega arith) (omega arith) (refl, (refl, tt))
