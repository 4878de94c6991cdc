-- ===== src/Gpsr/Routes/Keeps.antt =====
-- The events leave the packets that wait accounted for.
use map_based_relay.Prelude.{
  not, false, true, if◌then◌else◌, ◌&&◌, ◌∷◌, refl, ℕ, Bool, Option, none, some, List, [], OnSome,
  OnSome-any, OnSome-mono, OnSome-if,
}
use map_based_relay.Gpsr.Protocol.{
  next_hop, forwarding, deliver, send, remove_headers, Env, Protocol, Interface,
}
use map_based_relay.Gpsr.Protocol.Frame.{Keeps, forwarding-Keeps}
use map_based_relay.Gpsr.Waiting.Invariant.{
  IsWaiting, IsWaiting-of_Keeps, deferred_route_output-IsWaiting,
}
use map_based_relay.Gpsr.Routes.{
  wrong_device, back, over, deserialize_hello, gpsrtype_hello, is_my_own_address, type_header,
  deserialize_type, Packet, Ipv4Header, Output, route_output, route_input, add_headers, recv_gpsr,
  hello_timer_expire, hello_loop, loopback_route,
}

module _ {ℓ} {A : Type ℓ} (P : A → Type 0) where
  with_interfaces :
      (is : List Interface) (o o' : Option A)
      → OnSome P o
      → OnSome P o'
      → OnSome P (elim is [ [] ↦ o | i ∷ is' ↦ o' ])
  with_interfaces [] o o' h h' = h
  with_interfaces (i ∷ is) o o' h h' = h'

  either_way : (b : Bool) (x y : A) → P x → P y → P (if b then x else y)
  either_way true x y h h' = h
  either_way false x y h h' = h'

  of_three :
      (b b' b'' : Bool) (x y : A) (o o' : Option A)
      → P x
      → OnSome P o
      → OnSome P o'
      → P y
      → OnSome P (if b then some x else if b' then o else if b'' then o' else some y)
  of_three true b' b'' x y o o' h k k' h' = h
  of_three false true b'' x y o o' h k k' h' = k
  of_three false false true x y o o' h k k' h' = k'
  of_three false false false x y o o' h k k' h' = h'

-- A state that differs in neither the queue nor its addresses and timer.
same : (s s' : Protocol) → IsWaiting s → Keeps s s' → IsWaiting s'
same s s' w k = IsWaiting-of_Keeps s s' k w

module _ (env : Env) where
  pub route_input-IsWaiting :
      (s : Protocol) (p : Packet) (header : Ipv4Header) (mine : Bool)
      → IsWaiting s
      → OnSome (λ (r : Protocol × Bool). IsWaiting r.0) (route_input env s p header mine)
  unfolding route_input
  route_input-IsWaiting s p header mine w =
      let P : Protocol × Bool → Type 0 = λ r. IsWaiting r.0 in
      with_interfaces P s.interfaces _ _ w (
        OnSome-if P (p.tagged && is_my_own_address s header.source) _ _
          (deferred_route_output-IsWaiting env s _ w)
          (OnSome-if P mine _ _
            (OnSome-any P (remove_headers env p.bytes) _ (λ r.
              either_way P r.type.valid (send (deliver r.rest) s, true) (s, false)
                (same s _ w (refl, refl, refl)) w))
            (OnSome-mono (λ (r : Protocol × Bool). Keeps s r.0) P (λ r k. same s r.0 w k)
              (forwarding env s header.destination header.source p.bytes)
              (forwarding-Keeps env s header.destination header.source p.bytes))))

  pub recv_gpsr-IsWaiting :
      (s : Protocol) (sender : ℕ) (bytes : List ℕ)
      → IsWaiting s
      → OnSome IsWaiting (recv_gpsr env s sender bytes)
  unfolding recv_gpsr
  recv_gpsr-IsWaiting s sender bytes w =
      OnSome-any IsWaiting (deserialize_type env.buffer (type_header gpsrtype_hello) bytes) _ (λ r.
        OnSome-if IsWaiting (not r.0.valid) _ _ w (
          OnSome-any IsWaiting (deserialize_hello env.buffer r.1) _
            (λ h. same s _ w (refl, refl, refl))))

  pub add_headers-IsWaiting :
      (s : Protocol) (bytes : List ℕ) (source destination protocol : ℕ)
      → IsWaiting s
      → IsWaiting (add_headers env s bytes source destination protocol)
  unfolding add_headers
  add_headers-IsWaiting s bytes source destination protocol w = same s _ w (refl, refl, refl)

  hello_loop-IsWaiting :
      (is : List Interface) (s : Protocol) → IsWaiting s → IsWaiting (hello_loop env is s)
  unfolding hello_loop
  hello_loop-IsWaiting [] s w = w
  hello_loop-IsWaiting (i ∷ is) s w = hello_loop-IsWaiting is _ (same s _ w (refl, refl, refl))

  pub hello_timer_expire-IsWaiting :
      (interval : ℕ) (s : Protocol) → IsWaiting s → IsWaiting (hello_timer_expire env interval s)
  unfolding hello_timer_expire
  hello_timer_expire-IsWaiting interval s w = either_way IsWaiting s.nb_from_mbr s _ w (
      same (hello_loop env s.interfaces s) _ (hello_loop-IsWaiting s.interfaces s w)
        (refl, refl, refl))

  module _ (device_of : ℕ → ℕ) where
    over-IsWaiting :
        (s : Protocol) (header : Ipv4Header) (oif : Option ℕ) (p : Packet) (gateway : ℕ)
        → IsWaiting s
        → IsWaiting (over env device_of s header oif p gateway).0
    over-IsWaiting s header oif p gateway w =
        either_way (λ (r : Protocol × Output). IsWaiting r.0)
          (wrong_device env device_of header oif) _ _ w w

    back-IsWaiting :
        (s : Protocol) (header : Ipv4Header) (oif : Option ℕ) (p : Packet)
        → IsWaiting s
        → OnSome (λ (r : Protocol × Output). IsWaiting r.0) (back env device_of s header oif p)
    back-IsWaiting s header oif p w =
        OnSome-any (λ (r : Protocol × Output). IsWaiting r.0)
          (loopback_route device_of s header oif) _ (λ r. w)

    answer-IsWaiting :
        (s s' : Protocol) (header : Ipv4Header) (oif : Option ℕ) (p : Packet) (b b' b'' : Bool)
        (dst hop : ℕ)
        → IsWaiting s
        → IsWaiting s'
        → OnSome
            (λ (r : Protocol × Output). IsWaiting r.0)
            (if b
              then some (over env device_of s header oif p dst)
              else if b'
              then back env device_of s header oif p
              else if b''
              then back env device_of s' header oif p
              else some (over env device_of s' header oif p hop))
    answer-IsWaiting s s' header oif p b b' b'' dst hop w w' =
        of_three (λ (r : Protocol × Output). IsWaiting r.0) b b' b''
          (over env device_of s header oif p dst) (over env device_of s' header oif p hop)
          (back env device_of s header oif p) (back env device_of s' header oif p)
          (over-IsWaiting s header oif p dst w) (back-IsWaiting s header oif p w)
          (back-IsWaiting s' header oif p w') (over-IsWaiting s' header oif p hop w')

    pub route_output-IsWaiting :
        (s : Protocol) (p : Option Packet) (header : Ipv4Header) (oif : Option ℕ)
        → IsWaiting s
        → OnSome
            (λ (r : Protocol × Output). IsWaiting r.0)
            (route_output env device_of s p header oif)
    unfolding route_output
    route_output-IsWaiting s none header oif w =
        OnSome-any (λ (r : Protocol × Output). IsWaiting r.0)
          (loopback_route device_of s header oif) _ (λ r. w)
    route_output-IsWaiting s (some p) header oif w =
        let dst = header.destination in
        let hop = next_hop env s.neighbors dst (env.service.position dst) in
        let s' = record s { neighbors = hop.0 } in
        with_interfaces (λ (r : Protocol × Output). IsWaiting r.0) s.interfaces _ _ w
          (answer-IsWaiting s s' header oif p _ _ _ dst hop.1 w (same s s' w (refl, refl, refl)))
