-- ===== src/Gpsr/Ptable/Refinement.antt =====
-- A table of GPSR's own as what it stands for: a function that gives some addresses a place and a time.
use map_based_relay.Prelude.{
  ==_iff, ◌≡◌, refl, ap, ◌∙◌, ℕ, ◌∷◌, [], List, Bool, Option, some, none, true, false, arith,
  if◌then◌else◌, ◌==◌, not, leb, ◌+◌, keep_if, Bool-cases, inl, inr,
}
use mathlib.Core.Path.{fun_ext}
use map_based_relay.Mbr.Neighbors.{Vector}
use map_based_relay.Gpsr.Ptable.{
  TableEntry, PositionTable, zero_address, has_id, map_find, is_stale, table_time, add_entry,
  delete_entry, purge, clear_table,
}
use map_based_relay.Gpsr.Ptable.Lookup.{add_entry-find, find-erase, purge-keep}

-- What an address has: its place, and when it was added.
abbrev Known : Type 0
Known = Vector × ℕ

abbrev known_of : Option TableEntry → Option Known
known_of none = none
known_of (some e) = some (e.position, e.time)

pub places : PositionTable → ℕ → Option Known
places s id = known_of (map_find id s.table)

-- The calls that change the table.
pub data Call : Type 0 where
  adds : (id : ℕ) → Vector → Call
  deletes : (id : ℕ) → Call
  purges clears : Call

pub step : (past_end : ℕ) → PositionTable → ℕ × Call → PositionTable
step past_end s (now, adds id position) = add_entry past_end now s id position
step past_end s (now, deletes id) = delete_entry s id
step past_end s (now, purges) = purge now s
step past_end s (now, clears) = clear_table s

pub run : (past_end : ℕ) → PositionTable → List (ℕ × Call) → PositionTable
unfolding step
run past_end s [] = s
run past_end s (c ∷ cs) = run past_end (step past_end s c) cs

-- What is a lifetime old. The zero address has the time 0, whenever it was added.
abbrev is_old : (life now id : ℕ) → Known → Bool
is_old life now id k = leb (life + (if id == zero_address then 0 else k.1)) now

abbrev unless_old : (life now id : ℕ) → Option Known → Option Known
unless_old life now id none = none
unless_old life now id (some k) = if is_old life now id k then none else some k

-- The same calls on the function.
pub abstract_step : (life : ℕ) → (ℕ → Option Known) → ℕ × Call → ℕ → Option Known
abstract_step life f (now, adds id position) i = if i == id then some (position, now) else f i
abstract_step life f (now, deletes id) i = if i == id then none else f i
abstract_step life f (now, purges) i = unless_old life now i (f i)
abstract_step life f (now, clears) i = none

pub abstract_run : (life : ℕ) → (ℕ → Option Known) → List (ℕ × Call) → ℕ → Option Known
unfolding abstract_step
abstract_run life f [] = f
abstract_run life f (c ∷ cs) = abstract_run life (abstract_step life f c) cs

ap_if {ℓ κ} :
    {A : Type ℓ} {B : Type κ} (f : A → B) (b : Bool) (x y : A)
    → f (if b then x else y) ≡ (if b then f x else f y)
ap_if f true x y = refl
ap_if f false x y = refl

find-keep_if :
    (p : ℕ → Bool) (id : ℕ) (t : List TableEntry)
    → map_find id (keep_if (λ e. p e.id) t) ≡ (if p id then map_find id t else none)
find-keep_if p id [] = ground arith
find-keep_if p id (e ∷ es) = elim (Bool-cases (has_id id e)) [
  | inl h ↦
      let same : p e.id ≡ p id = ap p ((==_iff e.id id).0 h) in
      ground (arith, h, same, find-keep_if p id es)
  | inr h ↦ ground (arith, h, find-keep_if p id es)
]

known-unless_old :
    (life now id : ℕ) (o : Option TableEntry)
    → known_of (
        if not
          (elim (if id == zero_address
            then some 0
            else elim o [ some e ↦ some e.time | none ↦ none ]) [
              | some time ↦ leb (life + time) now
              | none ↦ false
            ])
        then o
        else none)
      ≡ unless_old life now id (known_of o)
known-unless_old life now id none = ground arith
known-unless_old life now id (some e) = ground arith

known-purge :
    (life now id : ℕ) (t : List TableEntry)
    → known_of (if not (is_stale now life t id) then map_find id t else none)
      ≡ unless_old life now id (known_of (map_find id t))
unfolding is_stale table_time
known-purge life now id t = known-unless_old life now id (map_find id t)

step-places :
    (past_end : ℕ) (s : PositionTable) (c : ℕ × Call) (i : ℕ)
    → s.nb_from_mbr ≡ false
    → places (step past_end s c) i ≡ abstract_step s.entry_life_time (places s) c i
unfolding places step abstract_step delete_entry clear_table
step-places past_end s (now, adds id position) i own =
    ap known_of (add_entry-find past_end now s id position i own)
    ∙ ap_if known_of (i == id) _ (map_find i s.table)
step-places past_end s (now, deletes id) i own =
    ap (λ t. known_of (map_find i t)) (rw own refl)
    ∙ (ap known_of (find-erase id i s.table) ∙ ap_if known_of (i == id) none (map_find i s.table))
step-places past_end s (now, purges) i own =
    ap (λ t. known_of (map_find i t)) (purge-keep now s own)
    ∙ (ap known_of (find-keep_if (λ id. not (is_stale now s.entry_life_time s.table id)) i s.table)
        ∙ known-purge s.entry_life_time now i s.table)
step-places past_end s (now, clears) i own = rw own refl

step-own :
    (past_end : ℕ) (s : PositionTable) (c : ℕ × Call)
    → s.nb_from_mbr ≡ false
    → ((step past_end s c).nb_from_mbr ≡ false)
      × ((step past_end s c).entry_life_time ≡ s.entry_life_time)
unfolding step add_entry delete_entry purge clear_table
step-own past_end s (now, adds id position) own = ground (arith, own)
step-own past_end s (now, deletes id) own = ground (arith, own)
step-own past_end s (now, purges) own = ground (arith, own)
step-own past_end s (now, clears) own = ground (arith, own)

run-own :
    (past_end : ℕ) (s : PositionTable) (cs : List (ℕ × Call))
    → s.nb_from_mbr ≡ false
    → (run past_end s cs).nb_from_mbr ≡ false
unfolding run
run-own past_end s [] own = own
run-own past_end s (c ∷ cs) own =
    run-own past_end (step past_end s c) cs (step-own past_end s c own).0

-- After any calls of AddEntry, DeleteEntry, Purge and Clear at any times, a table of GPSR's own stands
-- for the function that the same calls make of the one it stood for: AddEntry gives the address its
-- place and the time, DeleteEntry takes it away, Purge takes away what is a lifetime old, Clear all.
pub places-run :
    (past_end : ℕ) (s : PositionTable) (cs : List (ℕ × Call))
    → s.nb_from_mbr ≡ false
    → places (run past_end s cs) ≡ abstract_run s.entry_life_time (places s) cs
unfolding run abstract_run
places-run past_end s [] own = refl
places-run past_end s (c ∷ cs) own =
    let t = step past_end s c in
    let (still_own, life) = step-own past_end s c own in
    places-run past_end t cs still_own
    ∙ (ap (λ l. abstract_run l (places t) cs) life
        ∙ ap (λ f. abstract_run s.entry_life_time f cs)
            (fun_ext (λ i. step-places past_end s c i own)))
