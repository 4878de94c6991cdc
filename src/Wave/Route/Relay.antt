-- ===== src/Wave/Route/Relay.antt =====
-- What a relay is chosen for, and what the counters count.
use Prim.{Unit, tt}
use map_based_relay.Prelude.{
  OnSome, ◌==◌, Option-cases, sym, subst, arith, refl, inl, Bool-cases, Any, inr, some, false, [],
  List, ◌≡◌, ℕ, ◌∷◌,
}
use map_based_relay.Doubles.{Doubles}
use map_based_relay.Mbr.Neighbors.{mac48_default, mac48_default, Neighbors, get_nb_from_set_best}
use map_based_relay.Mbr.Neighbors.Best.{IsBest, get_nb_from_set_best-IsBest}
use map_based_relay.Wave.Graph.{Graph}
use map_based_relay.Wave.GeoHash.{
  unsupported, geohash_get_neighbors_in_set, geohash_is_geohash_in_set,
}
use map_based_relay.Wave.Route.{
  MbrRoute, Place, set_around, Verdict, relay, refuse, no_neighbor, assertion, too_near_at,
  relay_loop, Outcome, conclude, conclude_list, intersections, increment, forward_between,
}

-- The set has three rows and three columns.
supported : (g : Graph) (p : ℕ) → unsupported (set_around g p) ≡ false
unfolding geohash_get_neighbors_in_set
supported g p = refl

module _ (f : Doubles) (route : MbrRoute) (g : Graph) (now : ℕ) (this dst : Place) where
  -- The intersection `p` is one that the relay `mac` is chosen for: the destination is not inside its
  -- set, both ends are far enough away, and the relay is the best live neighbour inside.
  pub record IsRelayAt (nb : Neighbors) (mac p : ℕ) : Type 0 where
    pub outside : geohash_is_geohash_in_set dst.geohash (set_around g p) ≡ false
    pub far : too_near_at f route g this dst p ≡ false
    pub best : IsBest (set_around g p) nb.nb (some mac)

  IsRelayed : List ℕ → Neighbors × Verdict → Type 0
  IsRelayed ps (nb, relay mac) = Any (IsRelayAt nb mac) ps
  IsRelayed ps (nb, refuse) = Unit {0}
  IsRelayed ps (nb, no_neighbor) = Unit {0}
  IsRelayed ps (nb, assertion) = Unit {0}

  IsRelayed-later :
      (p : ℕ) (ps : List ℕ) (r : Neighbors × Verdict) → IsRelayed ps r → IsRelayed (p ∷ ps) r
  unfolding IsRelayed
  IsRelayed-later p ps (nb, relay mac) h = inr h
  IsRelayed-later p ps (nb, refuse) h = tt
  IsRelayed-later p ps (nb, no_neighbor) h = tt
  IsRelayed-later p ps (nb, assertion) h = tt

  relay_loop-IsRelayed :
      (nb : Neighbors) (ps : List ℕ) → IsRelayed ps (relay_loop f route g now this dst nb ps)
  unfolding relay_loop IsRelayed
  relay_loop-IsRelayed nb [] = tt
  relay_loop-IsRelayed nb (p ∷ ps) =
      let set = set_around g p in
      let r = get_nb_from_set_best now nb set in
      let loop = relay_loop f route g now this dst nb (p ∷ ps) in
      elim (Bool-cases (geohash_is_geohash_in_set dst.geohash set)) [
        | inl inside ↦
            let eq : loop ≡ (nb, refuse) = ground (arith, inside) in
            subst (IsRelayed (p ∷ ps)) (sym eq) tt
        | inr outside ↦ elim (Option-cases r.1) [
          | inl none_ ↦
              let eq : loop ≡ relay_loop f route g now this dst r.0 ps =
                ground (arith, outside, none_) in
              subst (IsRelayed (p ∷ ps)) (sym eq) (
                IsRelayed-later p ps (relay_loop f route g now this dst r.0 ps)
                  (relay_loop-IsRelayed r.0 ps))
          | inr (mac, chosen) ↦ elim (Bool-cases (too_near_at f route g this dst p)) [
            | inl near ↦
                let eq : loop ≡ (r.0, refuse) = ground (arith, outside, chosen, near) in
                subst (IsRelayed (p ∷ ps)) (sym eq) tt
            | inr far ↦ elim (Bool-cases (mac == mac48_default)) [
              | inl zero_mac ↦
                  let eq : loop ≡ (r.0, assertion) =
                    ground (arith, outside, chosen, far, zero_mac) in
                  subst (IsRelayed (p ∷ ps)) (sym eq) tt
              | inr some_mac ↦
                  let eq : loop ≡ (r.0, relay mac) =
                    ground (arith, outside, chosen, far, some_mac) in
                  subst (IsRelayed (p ∷ ps)) (sym eq) (
                    inl (record {
                      outside = outside;
                      far = far;
                      best =
                          subst (IsBest set r.0.nb) chosen
                            (get_nb_from_set_best-IsBest now nb set (supported g p));
                    }))
            ]
          ]
        ]
      ]

  -- What is to show of an outcome that names the relay `mac`.
  pub record IsJustified (list : List ℕ) (mac : ℕ) (o : Outcome) : Type 0 where
    pub relayed : Any (IsRelayAt o.nb mac) list
    pub counted : o.route ≡ record route { relayed_pkt_num = increment route.relayed_pkt_num }

  conclude-IsJustified :
      (list : List ℕ) (mac : ℕ) (r : Neighbors × Verdict)
      → IsRelayed list r
      → OnSome (λ o. o.relay_mac ≡ some mac → IsJustified list mac o) (conclude route r.0 r.1)
  unfolding conclude IsRelayed
  conclude-IsJustified list mac (nb, relay m) h = λ e.
      let eq : m ≡ mac = cc in
      record { relayed = subst (λ m. Any (IsRelayAt nb m) list) eq h; counted = refl }
  conclude-IsJustified list mac (nb, refuse) h = λ e. cc
  conclude-IsJustified list mac (nb, no_neighbor) h = λ e. cc
  conclude-IsJustified list mac (nb, assertion) h = tt

  conclude_list-IsJustified :
      (nb : Neighbors) (list : List ℕ) (mac : ℕ)
      → OnSome
          (λ o. o.relay_mac ≡ some mac → IsJustified list mac o)
          (conclude_list f route g now this dst nb list)
  unfolding conclude_list
  conclude_list-IsJustified nb [] mac = λ e. cc
  conclude_list-IsJustified nb (p ∷ ps) mac =
      conclude-IsJustified (p ∷ ps) mac (relay_loop f route g now this dst nb (p ∷ ps))
        (relay_loop-IsRelayed nb (p ∷ ps))

-- Where the forwarding between the two places names a relay, there is an intersection on the way such
-- that the destination is not inside the set of blocks around it, both ends are far enough from it,
-- and the relay is a neighbour of the table left behind whose dwelling time in that set is the longest;
-- and the counter of relayed packets alone has gone up by one.
pub forward_between-IsJustified :
    (f : Doubles) (route : MbrRoute) (g : Graph) (now : ℕ) (this dst : Place) (nb : Neighbors)
    (o : Outcome) (list : List ℕ) (mac : ℕ)
    → intersections f g this dst ≡ some list
    → forward_between f route g now this dst nb ≡ some o
    → o.relay_mac ≡ some mac
    → IsJustified f route g now this dst list mac o
unfolding forward_between
forward_between-IsJustified f route g now this dst nb o list mac way e named =
    let eq : conclude_list f route g now this dst nb list ≡ some o = rw way at e in
    let j : OnSome (λ o. o.relay_mac ≡ some mac → IsJustified f route g now this dst list mac o)
        (some o) =
      subst (OnSome (λ o. o.relay_mac ≡ some mac → IsJustified f route g now this dst list mac o))
        eq (conclude_list-IsJustified f route g now this dst nb list mac) in
    j named
