-- ===== src/Wave/Strings.antt =====
-- NS3/wave/model/mbr_sumomap.cpp: the strings of a map, `Tokenize`, `parseOsmWayid` and
-- `parseOsmRoadName`. A string is the list of its bytes.
use map_based_relay.Prelude.{
  ℕ, List, [], ◌∷◌, ◌++◌, Option, none, some, true, false, ◌==◌, find_if, if◌then◌else◌,
}
use map_based_relay.Wave.Graph.{str_eq}

-- A token behind what there is; an empty one is no token.
abbrev flush : List ℕ → List (List ℕ) → List (List ℕ)
flush [] rest = rest
flush (c ∷ cs) rest = (c ∷ cs) ∷ rest

-- The tokens of `cur`, as much as has been read of the token at hand, and what comes behind it.
unfoldable pub tokenize_from : (delimiter : ℕ) → (cur str : List ℕ) → List (List ℕ)
tokenize_from delimiter cur [] = flush cur []
tokenize_from delimiter cur (c ∷ cs) = elim (c == delimiter) [
  | true ↦ flush cur (tokenize_from delimiter [] cs)
  | false ↦ tokenize_from delimiter (cur ++ c ∷ []) cs
]

-- Each call of the source has one delimiter, and appends to an empty vector.
abbrev pub tokenize : (str : List ℕ) → (delimiter : ℕ) → List (List ℕ)
tokenize str delimiter = tokenize_from delimiter [] str

abbrev first_or_second : List (List ℕ) → Option (List ℕ)
first_or_second [] = none
first_or_second (t ∷ []) = some t
first_or_second (t ∷ u ∷ us) = some u

abbrev way_number : List (List ℕ) → Option (List ℕ)
way_number [] = none
way_number (t ∷ ts) = first_or_second (tokenize t 45)

-- What stands before `#`, without the sign of a way that is read backwards.
unfoldable pub parse_osm_wayid : (str : List ℕ) → Option (List ℕ)
unfolding tokenize_from
parse_osm_wayid str = way_number (tokenize str 35)

-- A `way` of the OSM file, with the keys and values of its tags.
pub record Way : Type 0 where
  pub id : List ℕ
  pub tags : List (List ℕ × List ℕ)

-- "name"
abbrev name_key : List ℕ
name_key = 110 ∷ 97 ∷ 109 ∷ 101 ∷ []

unfoldable pub name_of : List Way → (wayid : List ℕ) → List ℕ
unfolding str_eq
name_of [] wayid = []
name_of (w ∷ ws) wayid =
    let rest = name_of ws wayid in
    if str_eq w.id wayid
    then elim (find_if (λ (t : List ℕ × List ℕ). str_eq t.0 name_key) w.tags) [
      | none ↦ rest
      | some t ↦ t.1
    ]
    else rest
