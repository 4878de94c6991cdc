-- ===== src/Wave/Cross/Tests.antt =====
-- A road from the vertex 0 to the vertex 1, and another one on to the vertex 2.
use Prim.{tt}
use map_based_relay.Prelude.{
  arith, zero, suc, refl, true, All, ◌≡◌, [], List, is_some, ℕ, ◌∷◌, ◌≢◌, inl, inr,
}
use map_based_relay.Wave.Graph.{Edge, Graph, blank_vertex}
use map_based_relay.Wave.Cross.{cross_vertex}
use map_based_relay.Wave.Cross.Ids.{In}
use map_based_relay.Wave.Cross.Termination.{IsTidy, cross_vertex-some}

abbrev roads : ℕ → List Edge
roads zero = record { vertex = 1; road_id = 7 } ∷ []
roads (suc zero) = record { vertex = 0; road_id = 7 } ∷ record { vertex = 2; road_id = 8 } ∷ []
roads (suc (suc zero)) = record { vertex = 1; road_id = 8 } ∷ []
roads (suc (suc (suc p))) = []

abbrev corner : Graph
corner = record {
  heap = λ p. record blank_vertex { id_str = p ∷ []; edges = roads p };
  next = 3;
  vertices = 0 ∷ 1 ∷ 2 ∷ [];
}

corner_inside : (p : ℕ) → All (λ e. In corner.vertices e.vertex) (roads p)
corner_inside zero = (inr (inl refl), tt)
corner_inside (suc zero) = (inl refl, (inr (inr (inl refl)), tt))
corner_inside (suc (suc zero)) = (inr (inl refl), tt)
corner_inside (suc (suc (suc p))) = tt

corner_no_loops : (p : ℕ) → All (λ e. e.vertex ≢ p) (roads p)
corner_no_loops zero = (omega arith, tt)
corner_no_loops (suc zero) = (omega arith, (omega arith, tt))
corner_no_loops (suc (suc zero)) = (omega arith, tt)
corner_no_loops (suc (suc (suc p))) = tt

corner-IsTidy : IsTidy corner
corner-IsTidy = record { inside = λ p i. corner_inside p; no_loops = λ p i. corner_no_loops p }

cross_vertex-some_example : is_some (cross_vertex corner 0 2) ≡ true
cross_vertex-some_example = cross_vertex-some corner 0 2 corner-IsTidy (inl refl)
