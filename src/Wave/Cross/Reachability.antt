-- ===== src/Wave/Cross/Reachability.antt =====
-- What can be reached from the start along the edges of the graph, and a step of the climb.
use Prim.{Unit}
use map_based_relay.Prelude.{
  arith, is_some, ◌==◌, suc, get_elem?, some, if◌then◌else◌, none, some, ◌≡◌, Any, Option, List, ℕ,
}
use map_based_relay.Wave.Graph.{Graph}
use map_based_relay.Wave.Cross.{PathNode, climb}

pub data Reach (g : Graph) (from : ℕ) : ℕ → Type 0 where
  there : Reach g from from
  along : {p q : ℕ} → Any (λ e. e.vertex ≡ q) (g.heap p).edges → Reach g from p → Reach g from q

abbrev pub Holds : (ℕ → Type 0) → Option ℕ → Type 0
Holds P none = Unit {0}
Holds P (some v) = P v

pub climb-miss :
    (fuel : ℕ) (path : List PathNode) (n : PathNode) (second : ℕ) (ver : Option ℕ) (count p : ℕ)
    → n.ancest ≡ some p
    → get_elem? path p ≡ none
    → climb (suc fuel) path n second ver count ≡ none
unfolding climb
climb-miss fuel path n second ver count p up miss = ground (arith, up, miss)

pub climb-up :
    (fuel : ℕ) (path : List PathNode) (n n' : PathNode) (second : ℕ) (ver : Option ℕ) (count p : ℕ)
    → n.ancest ≡ some p
    → get_elem? path p ≡ some n'
    → climb (suc fuel) path n second ver count
      ≡ climb fuel path n' n.road_id
          (if second == n.road_id then ver else if is_some ver then ver else some n.v)
          (if second == n.road_id then count else suc count)
unfolding climb
climb-up fuel path n n' second ver count p up hit = ground (arith, up, hit)
