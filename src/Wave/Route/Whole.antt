-- ===== src/Wave/Route/Whole.antt =====
-- The decision as a whole, from the look-up of the destination on.
use map_based_relay.Prelude.{
  [], ◌∷◌, not, ◌≢◌, true, ◌≤◌, find_if, keep_if, Any, Bool, false, OnSome, ◌∙◌, sym, arith, ◌==◌,
  Bool-cases, inr, inl, Option-cases, List, subst, some, ◌≡◌, none, ℕ,
}
use map_based_relay.Doubles.{Doubles}
use map_based_relay.Mbr.Neighbors.{
  Neighbors, Neighbor, get_geohash_from_ip_in_nb, purge, close_neighbor, has_ip,
}
use map_based_relay.Mbr.Neighbors.Invariant.{purge_nb}
use map_based_relay.Wave.Cross.{cross_vertex}
use map_based_relay.Wave.Locate.{find_vertex_by_vehicle_position}
use map_based_relay.Wave.Graph.{Graph}
use map_based_relay.Wave.Route.{
  MbrRoute, Place, Outcome, intersections, forward_between, mbr_forward,
}
use map_based_relay.Wave.Route.Relay.{IsJustified, forward_between-IsJustified}

abbrev pub place_of : Neighbor → Place
place_of n = record { geohash = n.geohash; x = n.x; y = n.y }

none-some : {o : Outcome} → none ≡ some o → ⊥
none-some e = cc

-- An outcome without a relay is not one with a relay.
refused :
    (route : MbrRoute) (nb : Neighbors) (o : Outcome) (mac : ℕ)
    → some (record { route = route; nb = nb; relay_mac = none }) ≡ some o
    → o.relay_mac ≡ some mac
    → ⊥
refused route nb o mac e =
    let no : none ≡ some mac → ⊥ = λ h. cc in subst (OnSome (λ o. o.relay_mac ≡ some mac → ⊥)) e no

-- The entry that a look-up gives: one of the table's for the address, with a known place, that has not
-- expired and is not closed.
pub record IsLive (now : ℕ) (nb : Neighbors) (dest : ℕ) (n : Neighbor) : Type 0 where
  pub known : (get_geohash_from_ip_in_nb now nb dest).1 ≡ some n
  pub entry : Any (λ m. m ≡ n) nb.nb
  pub ip : n.ip_address ≡ dest
  pub fresh : now ≤ n.expire_time
  pub opened : n.close ≡ false
  pub placed : n.geohash ≢ 0

find_if-kept :
    (keep test : Neighbor → Bool) (ns : List Neighbor) (n : Neighbor)
    → find_if test (keep_if keep ns) ≡ some n
    → Any (λ m. m ≡ n) ns × (keep n ≡ true) × (test n ≡ true)
find_if-kept keep test [] n e = cc
find_if-kept keep test (m ∷ ns) n e = elim (Bool-cases (keep m)) [
  | inl kept ↦ elim (Bool-cases (test m)) [
    | inl hit ↦
        let same : m ≡ n = ground (arith, kept, hit, e) in
        (inl same, subst (λ m. keep m ≡ true) same kept, subst (λ m. test m ≡ true) same hit)
    | inr miss ↦
        let later : find_if test (keep_if keep ns) ≡ some n = ground (arith, kept, miss, e) in
        let (i, k, t) = find_if-kept keep test ns n later in (inr i, k, t)
  ]
  | inr gone ↦
      let later : find_if test (keep_if keep ns) ≡ some n = ground (arith, gone, e) in
      let (i, k, t) = find_if-kept keep test ns n later in (inr i, k, t)
]

look_up-IsLive :
    (now : ℕ) (nb : Neighbors) (dest : ℕ) (n : Neighbor)
    → (get_geohash_from_ip_in_nb now nb dest).1 ≡ some n
    → (n.geohash == 0) ≡ false
    → IsLive now nb dest n
unfolding get_geohash_from_ip_in_nb
look_up-IsLive now nb dest n e set =
    let purged : (purge now nb).nb ≡ keep_if (λ m. not (close_neighbor now m)) nb.nb =
      purge_nb now nb in
    let (i, kept, hit) =
      find_if-kept (λ m. not (close_neighbor now m)) (has_ip dest) nb.nb n (rw purged at e) in
    record {
      known = e;
      entry = i;
      ip = ground (arith, hit);
      fresh = ground (arith, kept);
      opened = ground (arith, kept);
      placed = ground (arith, set);
    }

module _ (f : Doubles) (route : MbrRoute) (g : Graph) (now : ℕ) (this : Place) (nb : Neighbors)
    (dest : ℕ) where
  -- The relay is one for the way between the vertices next to the destination's last place and to the node.
  pub record IsJustifiedFor (mac : ℕ) (o : Outcome) : Type 0 where
    pub n : Neighbor
    pub live : IsLive now nb dest n
    pub from : ℕ
    pub to : ℕ
    pub list : List ℕ
    pub near_destination : find_vertex_by_vehicle_position f g n.geohash n.x n.y ≡ some from
    pub near_node : find_vertex_by_vehicle_position f g this.geohash this.x this.y ≡ some to
    pub way : cross_vertex g from to ≡ some list
    pub justified : IsJustified f route g now this (place_of n) list mac o

  between :
      (left : Neighbors) (n : Neighbor) (o : Outcome) (mac : ℕ)
      → IsLive now nb dest n
      → forward_between f route g now this (place_of n) left ≡ some o
      → o.relay_mac ≡ some mac
      → IsJustifiedFor mac o
  unfolding forward_between intersections
  between left n o mac live e named =
      let this_vertex = find_vertex_by_vehicle_position f g this.geohash this.x this.y in
      let dst_vertex = find_vertex_by_vehicle_position f g n.geohash n.x n.y in
      elim (Option-cases this_vertex) [
        | inl miss ↦
            let never : none ≡ some o = rw miss at e in
            let absurd : ⊥ = none-some never in elim absurd [ ]
        | inr (to, near_node) ↦ elim (Option-cases dst_vertex) [
          | inl miss ↦
              let never : none ≡ some o = rw (near_node, miss) at e in
              let absurd : ⊥ = none-some never in elim absurd [ ]
          | inr (from, near_destination) ↦ elim (Option-cases (cross_vertex g from to)) [
            | inl miss ↦
                let never : none ≡ some o = rw (near_node, near_destination, miss) at e in
                let absurd : ⊥ = none-some never in elim absurd [ ]
            | inr (list, way) ↦ record {
              n = n;
              live = live;
              from = from;
              to = to;
              list = list;
              near_destination = near_destination;
              near_node = near_node;
              way = way;
              justified =
                  forward_between-IsJustified f route g now this (place_of n) left o list mac
                    (rw (near_node, near_destination) way) e named;
            }
          ]
        ]
      ]

-- Where the decision names a relay for a packet, the neighbour table has an entry for the destination
-- that has neither expired nor been closed and that knows the destination's block; there is a vertex next to
-- the place in that entry and one next to the node; and the relay is justified for the intersections
-- that the search from the destination's vertex to the node's lists.
pub mbr_forward-IsJustifiedFor :
    (f : Doubles) (route : MbrRoute) (g : Graph) (now : ℕ) (this : Place) (nb : Neighbors)
    (dest : ℕ) (o : Outcome) (mac : ℕ)
    → mbr_forward f route (some g) now this nb dest ≡ some o
    → o.relay_mac ≡ some mac
    → IsJustifiedFor f route g now this nb dest mac o
unfolding mbr_forward
mbr_forward-IsJustifiedFor f route g now this nb dest o mac e named =
    let r = get_geohash_from_ip_in_nb now nb dest in
    let whole = mbr_forward f route (some g) now this nb dest in
    let none_out : Outcome = record { route = route; nb = r.0; relay_mac = none } in
    elim (Option-cases r.1) [
      | inl unknown ↦
          let eq : whole ≡ some none_out = ground (arith, unknown) in
          let never = refused route r.0 o mac (sym eq ∙ e) named in elim never [ ]
      | inr (n, known) ↦ elim (Bool-cases (n.geohash == 0)) [
        | inl unset ↦
            let eq : whole ≡ some none_out = ground (arith, known, unset) in
            let never = refused route r.0 o mac (sym eq ∙ e) named in elim never [ ]
        | inr set ↦
            let eq : whole ≡ forward_between f route g now this (place_of n) r.0 =
              ground (arith, known, set) in
            between f route g now this nb dest r.0 n o mac (look_up-IsLive now nb dest n known set)
              (sym eq ∙ e) named
      ]
    ]
