-- ===== src/Gpsr/Routes/Delivery.antt =====
-- From AddHeaders at the origin over Forwarding at the nodes on the way to RouteInput at the
-- destination.
use map_based_relay.Prelude.{
  List-cases, ◌∙◌, ◌≡◌, ◌≢◌, refl, sym, subst, ap, ℕ, ◌++◌, ◌∷◌, [], List, Bool, some, true, false,
  Any, All, OnSome, inl, inr, arith, Bool-cases, ◌⊎◌, ◌<◌, ◌^◌,
}
use map_based_relay.Wire.{Buffer}
use map_based_relay.Mbr.Neighbors.{Vector, origin}
use map_based_relay.Gpsr.Packet.{type_header, gpsrtype_pos}
use map_based_relay.Gpsr.Packet.RoundTrip.{PositionInRange}
use map_based_relay.Gpsr.Protocol.{
  Env, Event, Protocol, Route, forward, deliver, down, rec_count, drop_pkt, hello, with_headers,
  send, forwarding,
}
use map_based_relay.Gpsr.Protocol.Ranges.{EnvInRange}
use map_based_relay.Gpsr.Protocol.Headers.{
  carried, IsCarried, Carries, forwarding-AllCarry, remove-with_headers, with_headers-written,
}
use map_based_relay.Gpsr.Routes.{
  own_header, zero_double, Ipv4Header, route_input, add_headers, is_broadcast,
}

-- The bytes below the IP header of a packet with the payload, while it travels: as AddHeaders hands it
-- down, and as Forwarding of some node hands it to the unicast callback, after it came in at that node.
-- The nodes have the same buffers.
pub data Journey (b : Buffer) (payload : List ℕ) : List ℕ → Type 0 where
  begins :
      {out : List ℕ} (env : Env) (s : Protocol) (source destination protocol : ℕ)
      → env.buffer ≡ b
      → EnvInRange env
      → s.sent ≡ []
      → Any
          (λ e. e ≡ down source destination protocol out)
          (add_headers env s payload source destination protocol).sent
      → Journey b payload out
  hops :
      {bytes out : List ℕ} (env : Env) (s s' : Protocol) (dst source : ℕ) (ok : Bool) (r : Route)
      → env.buffer ≡ b
      → EnvInRange env
      → s.sent ≡ []
      → Journey b payload bytes
      → forwarding env s dst source bytes ≡ some (s', ok)
      → Any (λ e. e ≡ forward r out) s'.sent
      → Journey b payload out

Any-Carries :
    (b : Buffer) (rest : List ℕ) (r : Route) (out : List ℕ) (es : List Event)
    → All (Carries b rest) es
    → Any (λ e. e ≡ forward r out) es
    → IsCarried b rest out
Any-Carries b rest r out [] a h = elim h [ ]
Any-Carries b rest r out (e ∷ es) a (inl h) = subst (Carries b rest) h a.0
Any-Carries b rest r out (e ∷ es) a (inr h) = Any-Carries b rest r out es a.1 h

below_ip : Event → List ℕ
below_ip (forward r bytes) = bytes
below_ip (rec_count bytes) = bytes
below_ip (drop_pkt bytes) = bytes
below_ip (deliver bytes) = bytes
below_ip (hello d bytes) = bytes
below_ip (down s d p bytes) = bytes

module _ (env : Env) (v : EnvInRange env) where
  in_range :
      (p : Vector) (updated : ℕ)
      → p.x < 2 ^ 64
      → p.y < 2 ^ 64
      → updated < 2 ^ 32
      → PositionInRange (record {
        dst_posx = p.x;
        dst_posy = p.y;
        updated = updated;
        rec_posx = zero_double;
        rec_posy = zero_double;
        in_rec = 0;
        last_posx = env.my_x;
        last_posy = env.my_y;
        src_posx = env.my_x;
        src_posy = env.my_y;
      })
  in_range p updated px py u = record {
    dst_x = px;
    dst_y = py;
    updated = u;
    rec_x = omega arith;
    rec_y = omega arith;
    in_rec = omega arith;
    last_x = v.x;
    last_y = v.y;
    src_x = v.x;
    src_y = v.y;
  }

  pub own_header-InRange : (destination : ℕ) → PositionInRange (own_header env destination)
  own_header-InRange destination = elim (Bool-cases (is_broadcast destination)) [
    | inl e ↦ rw e (in_range origin 0 (omega arith) (omega arith) (omega arith))
    | inr e ↦ rw e (
        in_range (env.service.position destination) (env.service.update_seconds destination)
          (v.place destination).0 (v.place destination).1 (v.seconds destination))
  ]

  add_headers-IsCarried :
      (s : Protocol) (payload : List ℕ) (source destination protocol : ℕ) (out : List ℕ)
      → s.sent ≡ []
      → Any
          (λ e. e ≡ down source destination protocol out)
          (add_headers env s payload source destination protocol).sent
      → IsCarried env.buffer payload out
  unfolding add_headers below_ip
  add_headers-IsCarried s payload source destination protocol out empty a =
      let sent = with_headers env (type_header gpsrtype_pos) (own_header env destination) payload in
      let one : (down source destination protocol sent ≡ down source destination protocol out) ⊎ ⊥ =
        subst
          (λ es.
            Any (λ e. e ≡ down source destination protocol out)
              (es ++ down source destination protocol sent ∷ []))
          empty a in
      elim one [
        | inl e ↦
            subst (IsCarried env.buffer payload) (ap below_ip e)
              (carried env (own_header env destination) payload (own_header-InRange destination))
        | inr never ↦ elim never [ ]
      ]

  forwarding-IsCarried :
      (s s' : Protocol) (dst source : ℕ) (payload bytes out : List ℕ) (ok : Bool) (r : Route)
      → s.sent ≡ []
      → IsCarried env.buffer payload bytes
      → forwarding env s dst source bytes ≡ some (s', ok)
      → Any (λ e. e ≡ forward r out) s'.sent
      → IsCarried env.buffer payload out
  forwarding-IsCarried s s' dst source payload bytes out ok r empty c e a =
      Any-Carries env.buffer payload r out s'.sent
        (subst (OnSome (λ (o : Protocol × Bool). All (Carries env.buffer payload) o.0.sent)) e
          (forwarding-AllCarry env v dst source payload s bytes c (rw empty tt)))
        a

Journey-IsCarried :
    {b : Buffer} {payload bytes : List ℕ} → Journey b payload bytes → IsCarried b payload bytes
Journey-IsCarried {payload = payload} {bytes = bytes}
      (begins env s source destination protocol same v empty a) =
    subst (λ b. IsCarried b payload bytes) same
      (add_headers-IsCarried env v s payload source destination protocol bytes empty a)
Journey-IsCarried {payload = payload} {bytes = out}
      (hops {bytes = bytes} env s s' dst source ok r same v empty j e a) =
    subst (λ b. IsCarried b payload out) same
      (forwarding-IsCarried env v s s' dst source payload bytes out ok r empty
        (subst (λ b. IsCarried b payload bytes) (sym same) (Journey-IsCarried j)) e a)

-- However many nodes have passed it on, greedily or in recovery mode, a packet that comes in at a node
-- with an interface, without the tag of a deferred packet, and that IP takes for this node's own is
-- delivered with exactly the payload that AddHeaders put the headers on.
pub Journey-delivered :
    (payload bytes : List ℕ) (env : Env) (s : Protocol) (uid : ℕ) (header : Ipv4Header)
    → Journey env.buffer payload bytes
    → s.interfaces ≢ []
    → route_input env s (record { uid = uid; bytes = bytes; tagged = false }) header true
      ≡ some (send (deliver payload) s, true)
unfolding route_input
Journey-delivered payload bytes env s uid header j up =
    let (h, r, e) = Journey-IsCarried j in
    let eq : bytes ≡ with_headers env (type_header gpsrtype_pos) h payload =
      e ∙ sym (with_headers-written env h payload) in
    elim (List-cases s.interfaces) [
      | inl none_up ↦ elim (up none_up) [ ]
      | inr (i, is, some_up) ↦ rw some_up (rw eq (rw (remove-with_headers env h payload r) refl))
    ]
