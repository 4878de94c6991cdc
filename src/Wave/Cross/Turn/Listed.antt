-- ===== src/Wave/Cross/Turn/Listed.antt =====
-- Each visit keeps the tree, so every listed intersection is a turn.
use map_based_relay.Prelude.{ℕ, List, some, ◌≡◌, get_elem?}
use map_based_relay.Wave.Graph.{Graph}
use map_based_relay.Wave.Cross.{PathNode, Search}
use map_based_relay.Wave.Cross.Turn.{Turns}

module _ (g : Graph) (from to : ℕ) where
  -- The tree, and the node whose edges are visited.
  abbrev At : (index v : ℕ) → List PathNode → Type 0
  At index v path = (q : PathNode) × (get_elem? path index ≡ some q) × (q.v ≡ v)

  -- What holds while the edges of the vertex `u`, at `index`, are visited.
  abbrev Visiting : (index u : ℕ) → Search → Type 0
  Visiting index u s = At index u s.path × Turns g from to s
