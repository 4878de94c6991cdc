-- ===== src/Wave/Cross/Turn.antt =====
-- What the intersections of the list are: the one turn of a way to the target.
pub mod Nodes
pub mod Listed
use map_based_relay.Prelude.{
  All, OnSome, ℕ, zero, suc, List, Option, none, some, true, ◌≡◌, ◌≢◌, ◌⊎◌, Any, get_elem?,
}
use map_based_relay.Wave.Graph.{Graph}
use map_based_relay.Wave.Cross.{Search, PathNode, same_id}
use map_based_relay.Wave.Cross.Reachability.{Reach}

-- The graph has an edge from `p` to `q`; one of the road, from a vertex that can be reached.
abbrev pub Leads : Graph → (p q : ℕ) → Type 0
Leads g p q = Any (λ e. e.vertex ≡ q) (g.heap p).edges

abbrev pub Enters : Graph → (from road q : ℕ) → Type 0
Enters g from road q =
    (p : ℕ) × Reach g from p × Any (λ e. (e.vertex ≡ q) × (e.road_id ≡ road)) (g.heap p).edges

-- A way of one edge or more. Each vertex behind the first one is an end of an edge of the road, or the
-- start of the search.
pub data Ride (g : Graph) (from road : ℕ) : ℕ → ℕ → Type 0 where
  one_edge : {p q : ℕ} → Leads g p q → (q ≡ from) ⊎ Enters g from road q → Ride g from road p q
  before :
      {p q r : ℕ}
      → Leads g p q
      → (q ≡ from) ⊎ Enters g from road q
      → Ride g from road q r
      → Ride g from road p r

-- A way from the start to a vertex of the target's name turns at `v` from one road to another, and nowhere else.
pub record IsCrossing (g : Graph) (from to v : ℕ) : Type 0 where
  pub end : ℕ
  pub road : ℕ
  pub new_road : ℕ
  pub first_road : Ride g from road from v
  pub turns : new_road ≢ road
  pub second_road : Ride g from new_road v end
  pub arrives : same_id g end to ≡ true

module _ (g : Graph) (from : ℕ) where
  -- A node is the root, or hangs under one with an edge to it.
  abbrev pub Hangs : List PathNode → PathNode → Type 0
  Hangs path n =
      ((n.ancest ≡ none) × (n.v ≡ from))
      ⊎ ((a : ℕ) × (q : PathNode) × (n.ancest ≡ some a)
          × (get_elem? path a ≡ some q)
          × Leads g q.v n.v
          × ((n.v ≡ from) ⊎ Enters g from n.road_id n.v))

  abbrev pub IsTree : List PathNode → Type 0
  IsTree path = (k : ℕ) (n : PathNode) → get_elem? path k ≡ some n → Reach g from n.v × Hangs path n

  -- What is known on the way up from the vertex `end` to `p`: no turn yet, one, or more.
  pub data Below (end p second : ℕ) : Option ℕ → ℕ → Type 0 where
    straight : Ride g from second p end → Below end p second none zero
    turned :
        (v new_road : ℕ)
        → Ride g from new_road v end
        → new_road ≢ second
        → Ride g from second p v
        → Below end p second (some v) (suc zero)
    more : (ver : Option ℕ) (k : ℕ) → Below end p second ver (suc (suc k))

  module _ (to : ℕ) where
    -- The target is a node of the tree, of the target's name.
    abbrev Arrived : List PathNode → Option ℕ → Type 0
    Arrived path target =
        OnSome (λ p. (t : PathNode) × (get_elem? path p ≡ some t) × (same_id g t.v to ≡ true))
          target

    abbrev Turns : Search → Type 0
    Turns s = IsTree s.path × Arrived s.path s.target × All (IsCrossing g from to) s.crossings
