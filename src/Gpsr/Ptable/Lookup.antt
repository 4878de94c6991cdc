-- ===== src/Gpsr/Ptable/Lookup.antt =====
-- What the operations on the table leave to be found.
use Prim.{tt}
use map_based_relay.Prelude.{
  ◌∙◌, keep_if-of_All, All-mono, sym, true, refl, ◌||◌, some, [], none, ◌&&◌, not, ◌==◌, arith,
  keep_if, if◌then◌else◌, any_of, All, false, List, ◌≡◌, Bool, ℕ, ◌∷◌,
}
use map_based_relay.Mbr.Neighbors.{Vector}
use map_based_relay.Gpsr.Ptable.{
  TableEntry, PositionTable, has_id, map_find, map_erase, map_insert, is_stale, to_erase,
  unique_after, unique, erase_all, add_entry, purge,
}

pub find-erase :
    (id id' : ℕ) (t : List TableEntry)
    → map_find id' (map_erase id t) ≡ (if id' == id then none else map_find id' t)
find-erase id id' [] = ground arith
find-erase id id' (e ∷ es) = ground (arith, find-erase id id' es)

-- An item is inserted where no other one has its key.
find-insert :
    (e : TableEntry) (id' : ℕ) (t : List TableEntry)
    → any_of (has_id e.id) t ≡ false
    → map_find id' (map_insert e t) ≡ (if id' == e.id then some e else map_find id' t)
unfolding map_insert
find-insert e id' [] new = ground arith
find-insert e id' (x ∷ xs) new = ground (arith, find-insert e id' xs)

any-erase : (id : ℕ) (t : List TableEntry) → any_of (has_id id) (map_erase id t) ≡ false
any-erase id [] = refl
any-erase id (e ∷ es) = ground (arith, any-erase id es)

find-none : (id : ℕ) (t : List TableEntry) → any_of (has_id id) t ≡ false → map_find id t ≡ none
find-none id [] new = refl
find-none id (e ∷ es) new = ground (arith, find-none id es)

-- Whether or not the address was in the table, and whatever the read behind the end of the map gives,
-- a table of GPSR's own has the new position under the address after AddEntry, with the present time,
-- and under every other address what it had.
pub add_entry-find :
    (past_end now : ℕ) (s : PositionTable) (id : ℕ) (position : Vector) (id' : ℕ)
    → s.nb_from_mbr ≡ false
    → map_find id' (add_entry past_end now s id position).table ≡ (
        if id' == id
        then some (record { id = id; position = position; time = now })
        else map_find id' s.table)
unfolding add_entry
add_entry-find past_end now s id position id' own =
    let e : TableEntry = record { id = id; position = position; time = now } in
    ground (
      arith,
      own,
      find-insert e id' (map_erase id s.table) (any-erase id s.table),
      find-insert e id' s.table,
      find-erase id id' s.table,
    )

mem-unique_after :
    (v last : ℕ) (xs : List ℕ)
    → any_of (λ x. x == v) (last ∷ unique_after last xs) ≡ any_of (λ x. x == v) (last ∷ xs)
unfolding unique_after
mem-unique_after v last [] = refl
mem-unique_after v last (x ∷ xs) =
    ground (arith, mem-unique_after v last xs, mem-unique_after v x xs)

pub mem-unique : (v : ℕ) (xs : List ℕ) → any_of (λ x. x == v) (unique xs) ≡ any_of (λ x. x == v) xs
mem-unique v [] = refl
mem-unique v (x ∷ xs) = mem-unique_after v x xs

keep-keep :
    (p q : TableEntry → Bool) (t : List TableEntry)
    → keep_if p (keep_if q t) ≡ keep_if (λ e. p e && q e) t
keep-keep p q [] = refl
keep-keep p q (e ∷ es) = ground (arith, keep-keep p q es)

keep_if-eq :
    (p q : TableEntry → Bool) (t : List TableEntry)
    → All (λ e. p e ≡ q e) t
    → keep_if p t ≡ keep_if q t
keep_if-eq p q [] a = refl
keep_if-eq p q (e ∷ es) a = ground (arith, a.0, keep_if-eq p q es a.1)

all_pass : (t : List TableEntry) → All (λ e. true ≡ true) t
all_pass [] = tt
all_pass (e ∷ es) = (refl, all_pass es)

same_test :
    (id : ℕ) (ids : List ℕ) (t : List TableEntry)
    → All
        (λ e.
          (not (any_of (λ x. x == e.id) ids) && not (has_id id e))
          ≡ not (any_of (λ x. x == e.id) (id ∷ ids)))
        t
same_test id ids [] = tt
same_test id ids (e ∷ es) = (ground arith, same_test id ids es)

erase_all-keep :
    (ids : List ℕ) (t : List TableEntry)
    → erase_all ids t ≡ keep_if (λ e. not (any_of (λ x. x == e.id) ids)) t
unfolding erase_all
erase_all-keep [] t = sym (keep_if-of_All _ t (all_pass t))
erase_all-keep (id ∷ ids) t =
    erase_all-keep ids (map_erase id t)
    ∙ (keep-keep (λ e. not (any_of (λ x. x == e.id) ids)) (λ e. not (has_id id e)) t
        ∙ keep_if-eq _ _ t (same_test id ids t))

mem-to_erase :
    (stale : ℕ → Bool) (t : List TableEntry) (acc : List ℕ) (v : ℕ)
    → any_of (λ x. x == v) (to_erase stale t acc)
      ≡ (any_of (has_id v) t && stale v || any_of (λ x. x == v) acc)
unfolding to_erase
mem-to_erase stale [] acc v = refl
mem-to_erase stale (e ∷ es) acc v =
    ground (arith, mem-to_erase stale es (if stale e.id then e.id ∷ acc else acc) v)

-- Among the items of the table, the ones to erase are the stale ones.
stale_test :
    (stale : ℕ → Bool) (all t : List TableEntry)
    → All (λ e. any_of (has_id e.id) all ≡ true) t
    → All (λ e. not (any_of (λ x. x == e.id) (unique (to_erase stale all []))) ≡ not (stale e.id)) t
stale_test stale all [] a = tt
stale_test stale all (e ∷ es) a = (
  ground (arith, a.0, mem-unique e.id (to_erase stale all []), mem-to_erase stale all [] e.id),
  stale_test stale all es a.1,
)

any-own : (e : TableEntry) (t : List TableEntry) → any_of (has_id e.id) (e ∷ t) ≡ true
any-own e t = ground arith

all_own : (t : List TableEntry) → All (λ e. any_of (has_id e.id) t ≡ true) t
all_own [] = tt
all_own (e ∷ es) = (any-own e es, All-mono _ _ (λ x h. ground (arith, h)) es (all_own es))

-- From a table of GPSR's own, Purge takes exactly the entries out whose update time, as it is looked up
-- by the address, lies a lifetime or more back.
pub purge-keep :
    (now : ℕ) (s : PositionTable)
    → s.nb_from_mbr ≡ false
    → (purge now s).table ≡ keep_if (λ e. not (is_stale now s.entry_life_time s.table e.id)) s.table
unfolding purge
purge-keep now s own =
    let stale = is_stale now s.entry_life_time s.table in
    ground (
      arith,
      own,
      erase_all-keep (unique (to_erase stale s.table [])) s.table,
      keep_if-eq (λ e. not (any_of (λ x. x == e.id) (unique (to_erase stale s.table []))))
          (λ e. not (stale e.id)) s.table (stale_test stale s.table s.table (all_own s.table)),
    )
