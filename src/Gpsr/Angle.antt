-- ===== src/Gpsr/Angle.antt =====
-- NS3/gpsr/model/gpsr-ptable.cc: `GetAngle` and `BestAngle`, the next hop of the recovery mode. The
-- operations of std::complex are the library's, and an interface; so is `atan`.
pub mod Choice
mod Tests
use map_based_relay.Prelude.{
  Bool, false, some, true, none, [], not, ◌==◌, List, if◌then◌else◌, Option, ℕ, ◌∷◌, ◌&&◌,
}
use map_based_relay.Doubles.{Double, Doubles, zero_double}
use map_based_relay.Mbr.Neighbors.{Vector, NodeList}
use map_based_relay.Gpsr.Ptable.{TableEntry, PositionTable, purge, zero_address}
use map_based_relay.Gpsr.Planar.{rng_planarize}

pub record Complex : Type 0 where
  pub real : Double
  pub imag : Double

-- `norm` is the square of the modulus; `pi` is the value of `4 * atan (1)`.
pub record ComplexNumbers : Type 0 where
  pub mul : Complex → Complex → Complex
  pub div : Complex → Complex → Complex
  pub log : Complex → Complex
  pub norm : Complex → Double
  pub pi : Double

abbrev one_eighty : Double
one_eighty = 0x4066800000000000

abbrev pub three_sixty : Double
three_sixty = 0x4076800000000000

-- A - B, divided by its norm.
abbrev edge : Doubles → ComplexNumbers → (a b : Vector) → Complex
edge f c a b =
    let d : Complex = record { real = f.sub b.x a.x; imag = f.sub b.y a.y } in
    record { real = f.div d.real (c.norm d); imag = f.div d.imag (c.norm d) }

-- The angle, counterclockwise and in degrees, at `centre_pos` from `node` to `ref_pos`.
pub get_angle : Doubles → ComplexNumbers → (centre_pos ref_pos node : Vector) → Double
get_angle f c centre_pos ref_pos node =
    let tmp = c.log (c.div (edge f c centre_pos ref_pos) (edge f c centre_pos node)) in
    let angle = c.mul tmp (record { real = zero_double; imag = 0xbff0000000000000 }) in
    let real = f.mul angle.real (f.div one_eighty c.pi) in
    if f.lt real zero_double then f.add three_sixty real else real

-- The loop of BestAngle.
unfoldable pub angle_loop :
    Doubles → (Vector → Double) → (best : ℕ) → (best_angle : Double) → List TableEntry → ℕ
angle_loop f angle best best_angle [] = best
angle_loop f angle best best_angle (e ∷ es) =
    let tmp = angle e.position in
    let better = f.lt tmp best_angle && not (f.eq tmp zero_double) in
    angle_loop f angle (if better then e.id else best) (if better then tmp else best_angle) es

-- Where no planar neighbour has an angle, the first address of the table: `none` where it is empty.
abbrev pub or_first : List TableEntry → ℕ → Option ℕ
or_first table best =
    if best == zero_address then elim table [ [] ↦ none | e ∷ es ↦ some e.id ] else some best

pub best_angle :
    Doubles
    → (angle : Vector → Vector → Vector → Double) → (distance : Vector → Vector → Double) → NodeList
    → (my_pos : Vector) → (now : ℕ) → PositionTable
    → (previous_hop node_pos : Vector) → PositionTable × Option ℕ
unfolding angle_loop
best_angle f angle distance nodes my_pos now s previous_hop node_pos =
    let empty : Bool = elim s.table [ [] ↦ true | e ∷ es ↦ false ] in
    if not s.nb_from_mbr && empty
    then (s, some zero_address)
    else (let s' = if s.nb_from_mbr then s else purge now s in
        let planar = rng_planarize f distance nodes my_pos now s' in
        let best = angle_loop f (angle node_pos previous_hop) zero_address three_sixty planar.1 in
        (planar.0, or_first planar.0.table best))
