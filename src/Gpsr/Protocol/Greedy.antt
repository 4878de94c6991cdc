-- ===== src/Gpsr/Protocol/Greedy.antt =====
-- Where a packet that is not in recovery mode goes, and what its header says then.
use map_based_relay.Prelude.{
  ◌≡◌, ◌≢◌, ◌≤◌, ◌⊎◌, inl, inr, refl, ℕ, ◌++◌, ◌∷◌, [], List, Bool, some, true, Bool-cases, arith,
  ◌==◌, ◌||◌, not,
}
use map_based_relay.Doubles.{IsOrdered}
use map_based_relay.Mbr.Neighbors.{Vector}
use map_based_relay.Gpsr.Packet.{PositionHeader, type_header, gpsrtype_pos}
use map_based_relay.Gpsr.Packet.RoundTrip.{PositionInRange}
use map_based_relay.Gpsr.Ptable.{PositionTable, purge, is_neighbour, candidates, zero_address}
use map_based_relay.Gpsr.Ptable.Best.{IsGreedy, best_neighbor-IsChoice}
use map_based_relay.Gpsr.Protocol.{
  Env, Protocol, forward, remove_headers, with_headers, send, forward_greedy, forwarding,
  greedy_header, still_in_rec, next_hop, my_pos, newest_place, newest_seconds,
}
use map_based_relay.Gpsr.Protocol.Headers.{remove-with_headers}
use map_based_relay.Gpsr.Protocol.Ranges.{EnvInRange, greedy-InRange, newest}

module _ (env : Env) where
  -- The hop is the destination, or a neighbour closer to its place than this node and all others.
  abbrev pub IsHop : (dst : ℕ) → (dst_pos : Vector) → PositionTable × ℕ → Type 0
  IsHop dst dst_pos r =
      (r.1 ≡ dst)
      ⊎ IsGreedy env.doubles (λ p. env.distance p dst_pos) (env.distance (my_pos env) dst_pos) r.1
          (candidates env.nodes r.0)

  next_hop-IsHop :
      (t : PositionTable) (dst : ℕ) (dst_pos : Vector)
      → IsOrdered env.doubles
      → (next_hop env t dst dst_pos).1 ≢ zero_address
      → IsHop dst dst_pos (next_hop env t dst dst_pos)
  unfolding next_hop
  next_hop-IsHop t dst dst_pos o =
      let near = is_neighbour env.past_end env.now t dst in
      elim (Bool-cases near.1) [
        | inl n ↦ rw n (λ some_hop. inl refl)
        | inr n ↦ rw n (λ some_hop.
            elim (best_neighbor-IsChoice env.doubles env.distance env.nodes env.now near.0 dst_pos
              (my_pos env) o) [ inl g ↦ inr g | inr z ↦ elim (some_hop z.0) [ ] ])
      ]

  -- One packet goes to the unicast callback. Its header can be read again: it is out of recovery mode,
  -- has this node as the last one, the same origin, and the newest place known of the destination.
  pub record IsForwarded (dst source : ℕ) (h : PositionHeader) (rest : List ℕ) (s s' : Protocol)
      : Type 0 where
    pub hop : ℕ
    pub out : List ℕ
    pub header : PositionHeader
    pub sent :
        s'.sent
        ≡ s.sent ++ forward (record { destination = dst; source = source; gateway = hop }) out ∷ []
    pub read :
        remove_headers env out
        ≡ some (record { type = type_header gpsrtype_pos; header = header; rest = rest })
    pub left_recovery : header.in_rec ≡ 0
    pub last : (header.last_posx ≡ env.my_x) × (header.last_posy ≡ env.my_y)
    pub origin : (header.src_posx ≡ h.src_posx) × (header.src_posy ≡ h.src_posy)
    pub fresh : (h.updated ≤ header.updated) × (env.service.update_seconds dst ≤ header.updated)
    pub hop-IsHop : IsHop dst (newest_place env dst h) (s'.neighbors, hop)

  newest_seconds-le :
      (dst : ℕ) (h : PositionHeader)
      → (h.updated ≤ newest_seconds env dst h)
        × (env.service.update_seconds dst ≤ newest_seconds env dst h)
  newest_seconds-le dst h = ground arith

  -- A packet whose header is not, or no longer, in recovery mode and for which there is a next hop is
  -- forwarded, with success, to the destination itself or to a neighbour that is strictly closer to the
  -- newest known place of the destination than this node and than which no neighbour is closer. Its
  -- header is read back with the recovery mode off, this node as the last hop, the origin unchanged, and
  -- an update time not before that of the header and that of the location service.
  pub forwarding-IsForwarded :
      (s : Protocol) (dst source : ℕ) (h : PositionHeader) (rest : List ℕ)
      → EnvInRange env
      → IsOrdered env.doubles
      → PositionInRange h
      → still_in_rec env h ≡ 0
      → (next_hop env (purge env.now s.neighbors) dst (newest_place env dst h)).1 ≢ zero_address
      → (s' : Protocol) × (forwarding env s dst source
            (with_headers env (type_header gpsrtype_pos) h rest)
          ≡ some (s', true))
        × IsForwarded dst source h rest s s'
  unfolding forwarding forward_greedy
  forwarding-IsForwarded s dst source h rest v o r greedily some_hop =
      let t = purge env.now s.neighbors in
      let place = newest_place env dst h in
      let choice = next_hop env t dst place in
      let (px, py, u) = newest env v dst h r in
      let header = greedy_header env h place (newest_seconds env dst h) in
      let out = with_headers env (type_header gpsrtype_pos) header rest in
      let go : (b : Bool) → (b || not (choice.1 == zero_address)) ≡ true = λ b. ground arith in
      (
        send (forward (record { destination = dst; source = source; gateway = choice.1 }) out)
            (record s { neighbors = choice.0 }),
        rw (remove-with_headers env h rest r)
            (rw greedily (rw (go (is_neighbour env.past_end env.now t dst).1) refl)),
        record {
          hop = choice.1;
          out = out;
          header = header;
          sent = refl;
          read =
              remove-with_headers env header rest
                (greedy-InRange env v h place (newest_seconds env dst h) r px py u);
          left_recovery = refl;
          last = (refl, refl);
          origin = (refl, refl);
          fresh = newest_seconds-le dst h;
          hop-IsHop = next_hop-IsHop t dst place o some_hop;
        },
      )
