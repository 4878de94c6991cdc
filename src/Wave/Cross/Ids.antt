-- ===== src/Wave/Cross/Ids.antt =====
-- The vertices of the tree, in the order in which they were found.

use map_based_relay.Prelude.{
  ◌&&◌, is_some, ◌||◌, any_of-append, inr, true, zero, inl, false, ◌<◌, suc, if◌then◌else◌, suc,
  refl, some, not, [], none, ◌==◌, arith, [], ◌≡◌, get_elem?, ◌≤◌, Any, any_of, ◌++◌, count, length,
  ◌∷◌, List, ℕ,
}
use map_based_relay.Wave.Graph.{Edge, Graph}
use map_based_relay.Wave.Cross.{PathNode, Search, find_vertex, same_id, visit}
use map_based_relay.Wave.Cross.Ranks.{rehang, hung-find_vertex}

abbrev pub ids : List PathNode → List ℕ
ids [] = []
ids (n ∷ ns) = n.v ∷ ids ns

pub ids-rehang : (index v pos : ℕ) (ns : List PathNode) → ids (rehang index v pos ns) ≡ ids ns
unfolding rehang
ids-rehang index v pos [] = refl
ids-rehang index v pos (n ∷ ns) = ground (arith, ids-rehang index v (suc pos) ns)

pub ids-append : (ns : List PathNode) (n : PathNode) → ids (ns ++ n ∷ []) ≡ ids ns ++ n.v ∷ []
ids-append [] n = refl
ids-append (m ∷ ns) n = ground (arith, ids-append ns n)

pub length-ids : (ns : List PathNode) → length (ids ns) ≡ length ns
length-ids [] = refl
length-ids (n ∷ ns) = omega (arith, length-ids ns)

pub get-ids :
    (k : ℕ) (ns : List PathNode) (n : PathNode)
    → get_elem? ns k ≡ some n
    → get_elem? (ids ns) k ≡ some n.v
get-ids k [] n e = cc
get-ids zero (m ∷ ns) n e = cc
get-ids (suc k) (m ∷ ns) n e = get-ids k ns n e

pub ids-get : (k : ℕ) (ns : List PathNode) → get_elem? ns k ≡ none → length (ids ns) ≤ k
ids-get k [] e = omega arith
ids-get zero (m ∷ ns) e = cc
ids-get (suc k) (m ∷ ns) e = omega (arith, ids-get k ns e)

pub get-append_keep :
    (k v w : ℕ) (us : List ℕ) → get_elem? us k ≡ some v → get_elem? (us ++ w ∷ []) k ≡ some v
get-append_keep k v w [] e = cc
get-append_keep zero v w (u ∷ us) e = e
get-append_keep (suc k) v w (u ∷ us) e = get-append_keep k v w us e

pub get-below : (k v : ℕ) (us : List ℕ) → get_elem? us k ≡ some v → k < length us
get-below k v [] e = cc
get-below zero v (u ∷ us) e = omega arith
get-below (suc k) v (u ∷ us) e = omega (arith, get-below k v us e)

-- `find_vertex` misses exactly the vertices that are not in the tree.
pub find_vertex-none :
    (index v pos : ℕ) (ns : List PathNode)
    → find_vertex index v pos ns ≡ none
    → any_of (λ u. u == v) (ids ns) ≡ false
unfolding find_vertex
find_vertex-none index v pos [] e = refl
find_vertex-none index v pos (n ∷ ns) e = ground (arith, find_vertex-none index v (suc pos) ns)

pub find_vertex-some :
    (index v pos : ℕ) (ns ns' : List PathNode)
    → find_vertex index v pos ns ≡ some ns'
    → ns' ≡ rehang index v pos ns
find_vertex-some index v pos ns ns' e = rw e at (hung-find_vertex index v pos ns)

abbrev pub In : List ℕ → ℕ → Type 0
In vs v = Any (λ u. u ≡ v) vs

-- How many of the vertices are not in the tree.
abbrev pub unseen : List ℕ → List ℕ → ℕ
unseen us vs = count (λ v. not (any_of (λ u. u == v) us)) vs

seen-concat :
    (us : List ℕ) (w v : ℕ)
    → any_of (λ u. u == v) (us ++ w ∷ []) ≡ (if any_of (λ u. u == v) us then true else (w == v))
seen-concat us w v = ground (arith, any_of-append (λ u. u == v) us (w ∷ []))

unseen-le : (us vs : List ℕ) (w : ℕ) → unseen (us ++ w ∷ []) vs ≤ unseen us vs
unseen-le us [] w = omega arith
unseen-le us (v ∷ vs) w = ground (arith, seen-concat us w v, unseen-le us vs w)

-- A new vertex of the tree is one fewer to find.
pub unseen-less :
    (us vs : List ℕ) (w : ℕ)
    → In vs w
    → any_of (λ u. u == w) us ≡ false
    → unseen (us ++ w ∷ []) vs < unseen us vs
unseen-less us [] w i e = elim i [ ]
unseen-less us (v ∷ vs) w (inl eq) e = ground (arith, seen-concat us w v, unseen-le us vs w, eq)
unseen-less us (v ∷ vs) w (inr i) e = ground (arith, seen-concat us w v, unseen-less us vs w i e)

pub unseen-bound : (us vs : List ℕ) → unseen us vs ≤ length vs
unseen-bound us [] = omega arith
unseen-bound us (v ∷ vs) = ground (arith, unseen-bound us vs)

-- The end of the edge is in the tree.
pub visit-old :
    (g : Graph) (to index : ℕ) (s : Search) (e : Edge) (path : List PathNode)
    → find_vertex index e.vertex 0 s.path ≡ some path
    → visit g to index s e
      ≡ record s { path = path; flag = s.flag || is_some s.target && same_id g e.vertex to }
unfolding visit
visit-old g to index s e path h = rw (h, visit) refl
