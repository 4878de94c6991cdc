-- ===== src/Linux/Table/Refinement.antt =====
-- The relay table as a function from the destinations: what each call does to it, and what it answers.
use Prim.{Unit, tt}
use map_based_relay.Prelude.{
  Bool-cases, ==_iff, is_some, ℕ, List, [], ◌∷◌, Option, none, some, Bool, true, false, ◌≡◌, ◌==◌,
  if◌then◌else◌, arith, refl, Option-cases, inl, inr, ◌∙◌, ap, ◌&&◌,
}
use map_based_relay.Linux.Table.{
  RelayTableList, mbrtable_get_nexthop_geohash, update_mbrtable_outrange, update_mbrtable, outrange,
  renew,
}

pub data TableCall : Type 0 where
  moved : (updated_geohash : ℕ) → TableCall
  chose : (this_geohash dst_geohash nexthop_geohash : ℕ) → TableCall

unfoldable pub call : TableCall → List RelayTableList → List RelayTableList
call (moved h) table = update_mbrtable_outrange h table
call (chose this dst next) table = update_mbrtable this dst next table

-- The table after the calls, the last of which is the first of the list.
unfoldable pub calls : List TableCall → List RelayTableList
unfolding call
calls [] = []
calls (c ∷ cs) = call c (calls cs)

-- What is kept for one destination.
pub record Choice : Type 0 where
  pub this : ℕ
  pub next : ℕ
  pub valid : Bool

abbrev pub invalidate : (h : ℕ) → Option Choice → Option Choice
invalidate h none = none
invalidate h (some c) = some (if c.this == h then record c { valid = false } else c)

abbrev pub choose : (this next : ℕ) → Option Choice → Choice
choose this next none = record { this = this; next = next; valid = true }
choose this next (some c) = record c { next = next; valid = true }

-- A call of update_mbrtable concerns its destination alone, one of update_mbrtable_outrange all.
unfoldable pub choices : List TableCall → (dst : ℕ) → Option Choice
choices [] dst = none
choices (moved h ∷ cs) dst = invalidate h (choices cs dst)
choices (chose this d next ∷ cs) dst =
    let old = choices cs dst in if d == dst then some (choose this next old) else old

abbrev pub answer : Option Choice → ℕ
answer none = 0
answer (some c) = if c.valid then c.next else 0

abbrev as_choice : RelayTableList → Choice
as_choice e = record { this = e.geo_hash_this; next = e.geo_hash_nexthop; valid = e.isvalid }

-- The first entry of a destination.
unfoldable slot : (dst : ℕ) → List RelayTableList → Option Choice
slot dst [] = none
slot dst (e ∷ es) = if e.geo_hash_dst == dst then some (as_choice e) else slot dst es

slot-outrange :
    (h dst : ℕ) (es : List RelayTableList)
    → slot dst (update_mbrtable_outrange h es) ≡ invalidate h (slot dst es)
unfolding slot update_mbrtable_outrange
slot-outrange h dst [] = refl
slot-outrange h dst (e ∷ es) = ground (arith, slot-outrange h dst es)

abbrev pub renewed : List RelayTableList → Option (List RelayTableList) → List RelayTableList
renewed es none = es
renewed es (some es') = es'

-- A destination is renewed where it has an entry.
is_some-renew :
    (d next : ℕ) (es : List RelayTableList) → is_some (renew d next es) ≡ is_some (slot d es)
unfolding slot renew
is_some-renew d next [] = refl
is_some-renew d next (e ∷ es) = ground (arith, is_some-renew d next es)

slot-renewed :
    (d next dst : ℕ) (es : List RelayTableList)
    → slot dst (renewed es (renew d next es)) ≡ (
        if d == dst && is_some (slot d es) then some (choose 0 next (slot dst es)) else slot dst es)
unfolding slot renew
slot-renewed d next dst [] = ground arith
slot-renewed d next dst (e ∷ es) =
    ground (arith, is_some-renew d next es, slot-renewed d next dst es)

slot-update :
    (this d next dst : ℕ) (es : List RelayTableList)
    → slot dst (update_mbrtable this d next es)
      ≡ (if d == dst then some (choose this next (slot dst es)) else slot dst es)
unfolding slot update_mbrtable
slot-update this d next dst es = ground (arith, is_some-renew d next es, slot-renewed d next dst es)

slot-calls : (cs : List TableCall) (dst : ℕ) → slot dst (calls cs) ≡ choices cs dst
unfolding slot calls choices
slot-calls [] dst = refl
slot-calls (moved h ∷ cs) dst = rw (slot-outrange h dst (calls cs), slot-calls cs dst) refl
slot-calls (chose this d next ∷ cs) dst =
    rw (slot-update this d next dst (calls cs), slot-calls cs dst) refl

-- No two entries are of one destination.
unfoldable IsOnce : List RelayTableList → Type 0
IsOnce [] = Unit {0}
IsOnce (e ∷ es) = (slot e.geo_hash_dst es ≡ none) × IsOnce es

dst-outrange : (h : ℕ) (e : RelayTableList) → (outrange h e).geo_hash_dst ≡ e.geo_hash_dst
dst-outrange h e = ground arith

outrange-IsOnce :
    (h : ℕ) (es : List RelayTableList) → IsOnce es → IsOnce (update_mbrtable_outrange h es)
unfolding IsOnce update_mbrtable_outrange
outrange-IsOnce h [] o = tt
outrange-IsOnce h (e ∷ es) o =
    (rw (dst-outrange h e, slot-outrange h e.geo_hash_dst es, o.0) refl, outrange-IsOnce h es o.1)

renewed-cons :
    (d next : ℕ) (e : RelayTableList) (es : List RelayTableList)
    → renewed (e ∷ es) (renew d next (e ∷ es)) ≡ (
        if e.geo_hash_dst == d
        then record e { geo_hash_nexthop = next; isvalid = true } ∷ es
        else e ∷ renewed es (renew d next es))
unfolding renew
renewed-cons d next e es = ground arith

renewed-IsOnce :
    (d next : ℕ) (es : List RelayTableList) → IsOnce es → IsOnce (renewed es (renew d next es))
unfolding IsOnce renew
renewed-IsOnce d next [] o = tt
renewed-IsOnce d next (e ∷ es) o =
    rw (renewed-cons d next e es) (elim (Bool-cases (e.geo_hash_dst == d)) [
      | inl here ↦ rw here o
      | inr other ↦ rw other (
        ground (arith, other, o.0, slot-renewed d next e.geo_hash_dst es),
        renewed-IsOnce d next es o.1,
      )
    ])

update-IsOnce :
    (this d next : ℕ) (es : List RelayTableList)
    → IsOnce es
    → IsOnce (update_mbrtable this d next es)
unfolding IsOnce update_mbrtable
update-IsOnce this d next es o = elim (Option-cases (renew d next es)) [
  | inl e ↦ rw (e, update_mbrtable) (ground (arith, e, is_some-renew d next es), o)
  | inr (es', e) ↦ let o' = renewed-IsOnce d next es o in rw (e, update_mbrtable) (rw e at o')
]

calls-IsOnce : (cs : List TableCall) → IsOnce (calls cs)
unfolding IsOnce calls
calls-IsOnce [] = tt
calls-IsOnce (moved h ∷ cs) = outrange-IsOnce h (calls cs) (calls-IsOnce cs)
calls-IsOnce (chose this d next ∷ cs) = update-IsOnce this d next (calls cs) (calls-IsOnce cs)

-- The search for a valid entry is that for the entry, where there is one at most.
get_nexthop-slot :
    (dst : ℕ) (es : List RelayTableList)
    → IsOnce es
    → mbrtable_get_nexthop_geohash es dst ≡ answer (slot dst es)
unfolding IsOnce slot mbrtable_get_nexthop_geohash
get_nexthop-slot dst [] o = refl
get_nexthop-slot dst (e ∷ es) o =
    ground (arith, ==_iff e.geo_hash_dst dst, o.0, get_nexthop-slot dst es o.1)

-- After any sequence of calls on the empty table, the next hop that it gives for a destination is read
-- off the function from destinations that the calls make: the one that was chosen last, and 0 where
-- none was chosen or where an invalidation came after the last choice. The place to which an
-- invalidation compares is the one at which the destination got its first entry.
pub mbrtable_get_nexthop_geohash-calls :
    (cs : List TableCall) (dst : ℕ)
    → mbrtable_get_nexthop_geohash (calls cs) dst ≡ answer (choices cs dst)
mbrtable_get_nexthop_geohash-calls cs dst =
    get_nexthop-slot dst (calls cs) (calls-IsOnce cs) ∙ ap answer (slot-calls cs dst)
