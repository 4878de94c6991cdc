-- ===== src/Wave/Sumo/Readable.antt =====
-- When a whole map can be read.
use Prim.{Unit}
use map_based_relay.Prelude.{
  ℕ, ◌≡◌, List, [], ◌∷◌, Option, none, some, true, false, All, Any, find_if, is_some,
}
use map_based_relay.Doubles.{Double, Doubles}
use map_based_relay.Wave.Graph.{IsShort, Graph, str_eq}
use map_based_relay.Wave.Strings.{parse_osm_wayid, tokenize}
use map_based_relay.Wave.Sumo.{Boundary, Junction, Street, inner_tokens}
use map_based_relay.Wave.Sumo.Total.{HasName}
use map_based_relay.Wave.Sumo.Loads.{IsInside}

module _ (f : Doubles) (to_uint : Double → ℕ) (atof : List ℕ → Double)
    (pj_inv : Double × Double → Double × Double) (bound : Boundary) where
  -- No junction has the name of one that has been read, each name is short, and the place of each one has a
  -- hash.
  abbrev pub AllFresh : (seen : List (List ℕ)) → List Junction → Type 0
  AllFresh seen [] = Unit {0}
  AllFresh seen (j ∷ js) =
      (is_some (find_if (str_eq j.id) seen) ≡ false)
      × IsInside f to_uint atof pj_inv bound (atof j.x) (atof j.y)
      × IsShort j.id
      × AllFresh (j.id ∷ seen) js

  -- The place that the points inside a shape get has a hash, and their names are short.
  abbrev pub IsPlaced : (tokens : List (List ℕ)) → Type 0
  IsPlaced (t0 ∷ t1 ∷ t2 ∷ rest) =
      IsInside f to_uint atof pj_inv bound (atof t0) (atof t1)
      × All IsShort (inner_tokens (t1 ∷ t2 ∷ rest))
  IsPlaced (t0 ∷ t1 ∷ []) = Unit {0}
  IsPlaced (t0 ∷ []) = Unit {0}
  IsPlaced [] = Unit {0}

  abbrev pub IsShape : Option (List ℕ) → Type 0
  IsShape none = Unit {0}
  IsShape (some shape) = IsPlaced (tokenize shape 32)

  -- An edge has a way's number, and its ends are vertices.
  abbrev IsBetween : Graph → Street → Type 0
  IsBetween g e =
      (is_some (parse_osm_wayid e.id) ≡ true) × HasName g e.from × HasName g e.to × IsShape e.shape

  -- An edge has a way's number, and its ends are junctions.
  abbrev pub IsStreetOf : List Junction → Street → Type 0
  IsStreetOf js e =
      (is_some (parse_osm_wayid e.id) ≡ true)
      × Any (λ (j : Junction). j.id ≡ e.from) js
      × Any (λ (j : Junction). j.id ≡ e.to) js
      × IsShape e.shape
