-- ===== src/Gpsr/Routes/Run.antt =====
-- NS3/gpsr/model/gpsr.cc: the events that reach a node between its start and some moment, as a step
-- relation. The surroundings may differ from event to event.
use map_based_relay.Prelude.{
  true, ◌≡◌, ◌≢◌, refl, subst, ℕ, Bool, Option, some, List, [], OnSome, inl, is_some, All,
}
use map_based_relay.Gpsr.Protocol.{Env, Protocol}
use map_based_relay.Gpsr.Waiting.{check_queue}
use map_based_relay.Gpsr.Waiting.Invariant.{
  IsWaiting, IsWaiting-timer, check_queue-IsWaiting, is_listed,
}
use map_based_relay.Gpsr.Routes.Keeps.{
  route_output-IsWaiting, route_input-IsWaiting, add_headers-IsWaiting, recv_gpsr-IsWaiting,
  hello_timer_expire-IsWaiting,
}
use map_based_relay.Gpsr.Routes.{
  Packet, Ipv4Header, Output, route_output, route_input, add_headers, recv_gpsr, hello_timer_expire,
  start,
}

-- One event. The queue is checked when its timer fires.
pub data Step : Protocol → Protocol → Type 0 where
  inputs :
      (env : Env) (s s' : Protocol) (p : Packet) (header : Ipv4Header) (mine b : Bool)
      → route_input env s p header mine ≡ some (s', b)
      → Step s s'
  outputs :
      (env : Env) (device_of : ℕ → ℕ) (s s' : Protocol) (p : Option Packet) (header : Ipv4Header)
      (oif : Option ℕ) (o : Output)
      → route_output env device_of s p header oif ≡ some (s', o)
      → Step s s'
  adds :
      (env : Env) (s : Protocol) (bytes : List ℕ) (source destination protocol : ℕ)
      → Step s (add_headers env s bytes source destination protocol)
  receives :
      (env : Env) (s s' : Protocol) (sender : ℕ) (bytes : List ℕ)
      → recv_gpsr env s sender bytes ≡ some s'
      → Step s s'
  checks :
      (env : Env) (s s' : Protocol)
      → s.check_timer ≡ some env.now
      → check_queue env s ≡ some s'
      → Step s s'
  hellos :
      (env : Env) (interval : ℕ) (s : Protocol)
      → s.hello_timer ≡ some env.now
      → Step s (hello_timer_expire env interval s)

pub data Reach (s : Protocol) : Protocol → Type 0 where
  here : Reach s s
  next : {t u : Protocol} → Reach s t → Step t u → Reach s u

-- What holds of an outcome holds of the state it is.
of_some :
    (P : Protocol → Type 0) (o : Option Protocol) (s : Protocol) → OnSome P o → o ≡ some s → P s
of_some P o s h e = subst (OnSome P) e h

of_pair {ℓ} :
    {A : Type ℓ} (P : Protocol → Type 0) (o : Option (Protocol × A)) (s : Protocol) (a : A)
    → OnSome (λ (r : Protocol × A). P r.0) o
    → o ≡ some (s, a)
    → P s
of_pair P o s a h e = subst (OnSome (λ r. P r.0)) e h

Step-IsWaiting : {s s' : Protocol} → Step s s' → IsWaiting s → IsWaiting s'
Step-IsWaiting (inputs env s t p header mine b e) w =
    of_pair IsWaiting _ t b (route_input-IsWaiting env s p header mine w) e
Step-IsWaiting (outputs env device_of s t p header oif o e) w =
    of_pair IsWaiting _ t o (route_output-IsWaiting env device_of s p header oif w) e
Step-IsWaiting (adds env s bytes source destination protocol) w =
    add_headers-IsWaiting env s bytes source destination protocol w
Step-IsWaiting (receives env s t sender bytes e) w =
    of_some IsWaiting _ t (recv_gpsr-IsWaiting env s sender bytes w) e
Step-IsWaiting (checks env s t due e) w = of_some IsWaiting _ t (check_queue-IsWaiting env s w) e
Step-IsWaiting (hellos env interval s due) w = hello_timer_expire-IsWaiting env interval s w

Reach-IsWaiting : {s t : Protocol} → IsWaiting s → Reach s t → IsWaiting t
Reach-IsWaiting w here = w
Reach-IsWaiting w (next r e) = Step-IsWaiting e (Reach-IsWaiting w r)

-- After any events from the start of a protocol whose queue is empty, every packet that waits has its
-- destination on the list of addresses, and where some packet waits the timer of CheckQueue is set.
pub Reach-waiting :
    (s t : Protocol)
    → s.queue.queue ≡ []
    → Reach (start s) t
    → All (λ e. is_listed t.queued_addresses e ≡ true) t.queue.queue
      × (t.queue.queue ≢ [] → is_some t.check_timer ≡ true)
Reach-waiting s t empty r =
    let w = Reach-IsWaiting (record { known = rw empty tt; timed = inl refl }) r in
    (w.known, IsWaiting-timer t w)
