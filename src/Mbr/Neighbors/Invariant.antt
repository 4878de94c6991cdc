-- ===== src/Mbr/Neighbors/Invariant.antt =====
-- What holds of the table after any history: one entry for an address, no entry marked closed, and a
-- purge scheduled whenever an entry is left.
use Prim.{Unit, tt}
use map_based_relay.Prelude.{
  ap, ◌∙◌, refl, Option-cases, All-append, if◌then◌else◌, ◌++◌, List-cases, ℕ, ◌+◌, ◌≤◌, ◌≡◌, ◌⊎◌,
  inl, inr, List, [], ◌∷◌, Option, none, some, Bool, false, not, arith, keep_if, All, All-keep_if,
}
use map_based_relay.Mbr.Neighbors.{
  clear, get_nb_from_set_best, neighbors, GeoHashSetCoordinate, is_neighbor, update, Neighbor,
  Neighbors, Beacon, close_neighbor, schedule_timer, purge, has_ip, refresh, update_known,
  new_neighbor,
}

-- Earlier entries have other addresses than later ones.
abbrev pub Distinct : List Neighbor → Type 0
Distinct [] = Unit {0}
Distinct (n ∷ ns) = All (λ m. has_ip n.ip_address m ≡ false) ns × Distinct ns

abbrev pub Open : List Neighbor → Type 0
Open ns = All (λ n. n.close ≡ false) ns

-- A purge is scheduled, at most one delay ahead.
abbrev pub Armed : (now : ℕ) → Neighbors → Type 0
Armed now s = (s.nb ≡ []) ⊎ ((t : ℕ) × (s.timer ≡ some t) × (t ≤ now + s.delay))

pub record IsValid (now : ℕ) (s : Neighbors) : Type 0 where
  pub distinct : Distinct s.nb
  pub all_open : Open s.nb
  pub armed : Armed now s

keep_if-Distinct :
    (p : Neighbor → Bool) (ns : List Neighbor) → Distinct ns → Distinct (keep_if p ns)
keep_if-Distinct p [] d = tt
keep_if-Distinct p (n ∷ ns) d =
    ground
      (arith, keep_if-Distinct p ns d.1, All-keep_if (λ m. has_ip n.ip_address m ≡ false) p ns d.0)

pub purge_nb :
    (now : ℕ) (s : Neighbors) → (purge now s).nb ≡ keep_if (λ m. not (close_neighbor now m)) s.nb
unfolding purge schedule_timer
purge_nb now s = ground arith

purge-Armed : (now : ℕ) (s : Neighbors) → Armed now (purge now s)
unfolding purge schedule_timer
purge-Armed now s = elim (List-cases s.nb) [
  | inl e ↦ inl (ground arith)
  | inr (n, ns, e) ↦ inr (now + s.delay, ground arith, ground arith)
]

-- A purge needs no timer: it arms one itself.
purge-IsValid : (now : ℕ) (s : Neighbors) → Distinct s.nb → Open s.nb → IsValid now (purge now s)
purge-IsValid now s d o = record {
  distinct = rw (purge_nb now s) (keep_if-Distinct _ s.nb d);
  all_open = rw (purge_nb now s) (All-keep_if _ _ s.nb o);
  armed = purge-Armed now s;
}

-- The addresses and the marks of the table after the loop of `update`.
abbrev pub or_same : List Neighbor → Option (List Neighbor) → List Neighbor
or_same ns none = ns
or_same ns (some ns') = ns'

module _ (now expire : ℕ) (b : Beacon) (addr : ℕ) where
  unfoldable pub refresh_first : List Neighbor → List Neighbor
  refresh_first [] = []
  refresh_first (n ∷ ns) =
      if has_ip addr n then refresh now expire b n ∷ ns else n ∷ refresh_first ns

  pub or_same-update_known :
      (ns : List Neighbor) → or_same ns (update_known now expire b addr ns) ≡ refresh_first ns
  unfolding update_known refresh_first
  or_same-update_known [] = refl
  or_same-update_known (n ∷ ns) = ground (arith, or_same-update_known ns)

  refresh_first-nil : refresh_first [] ≡ []
  unfolding refresh_first
  refresh_first-nil = refl

  refresh_first-absent :
      (a : ℕ) (ns : List Neighbor)
      → All (λ m. has_ip a m ≡ false) ns
      → All (λ m. has_ip a m ≡ false) (refresh_first ns)
  unfolding refresh_first refresh
  refresh_first-absent a [] h = tt
  refresh_first-absent a (n ∷ ns) h = ground (arith, refresh_first-absent a ns h.1)

  refresh_first-Distinct : (ns : List Neighbor) → Distinct ns → Distinct (refresh_first ns)
  unfolding refresh_first refresh
  refresh_first-Distinct [] d = tt
  refresh_first-Distinct (n ∷ ns) d =
      ground (arith, refresh_first-Distinct ns d.1, refresh_first-absent n.ip_address ns d.0)

  refresh_first-Open : (ns : List Neighbor) → Open ns → Open (refresh_first ns)
  unfolding refresh_first refresh
  refresh_first-Open [] o = tt
  refresh_first-Open (n ∷ ns) o = ground (arith, refresh_first-Open ns o.1)

  pub update_known-none :
      (ns : List Neighbor)
      → update_known now expire b addr ns ≡ none
      → All (λ m. has_ip m.ip_address (new_neighbor now expire b addr) ≡ false) ns
  unfolding update_known
  update_known-none [] h = tt
  update_known-none (n ∷ ns) h = ground (arith, update_known-none ns)

Distinct-concat :
    (ns : List Neighbor) (n : Neighbor)
    → All (λ m. has_ip m.ip_address n ≡ false) ns
    → Distinct ns
    → Distinct (ns ++ n ∷ [])
Distinct-concat [] n h d = (tt, tt)
Distinct-concat (m ∷ ns) n h d =
    (All-append _ ns (n ∷ []) d.0 (h.0, tt), Distinct-concat ns n h.1 d.1)

update-IsValid :
    (now : ℕ) (s : Neighbors) (addr expire : ℕ) (b : Beacon)
    → IsValid now s
    → IsValid now (update now s addr expire b)
unfolding update
update-IsValid now s addr expire b v = elim (Option-cases (update_known now expire b addr s.nb)) [
  | inl e ↦
      let n = new_neighbor now expire b addr in
      rw (e, update)
        (purge-IsValid now (record s { nb = s.nb ++ n ∷ [] })
          (Distinct-concat s.nb n (update_known-none now expire b addr s.nb e) v.distinct)
          (All-append _ s.nb (n ∷ []) v.all_open (refl, tt)))
  | inr (nb, e) ↦
      let same : nb ≡ refresh_first now expire b addr s.nb =
        ground (arith, or_same-update_known now expire b addr s.nb) in
      rw (e, update)
        (record {
          distinct = rw same (refresh_first-Distinct now expire b addr s.nb v.distinct);
          all_open = rw same (refresh_first-Open now expire b addr s.nb v.all_open);
          armed = elim v.armed [
            | inl none_left ↦ inl (
                same
                ∙ (ap (refresh_first now expire b addr) none_left
                    ∙ refresh_first-nil now expire b addr))
            | inr scheduled ↦ inr scheduled
          ];
        })
]

-- What happens to a table: a beacon arrives, a query purges, the timer fires, the table is cleared.
pub data Event : Type 0 where
  beacon : (addr expire : ℕ) → Beacon → Event
  query : (addr : ℕ) → Event
  chooses : GeoHashSetCoordinate → Event
  fires : Event
  clears : Event

-- A timer that fires is no longer scheduled, and calls Purge.
unfoldable pub step : (now : ℕ) → Neighbors → Event → Neighbors
step now s (beacon addr expire b) = update now s addr expire b
step now s (query addr) = (is_neighbor now s addr).0
step now s (chooses g) = (get_nb_from_set_best now s g).0
step now s fires = purge now (record s { timer = none })
step now s clears = clear s

-- Events at later and later times: each comes with the time since the one before.
unfoldable pub run : (now : ℕ) → Neighbors → List (ℕ × Event) → ℕ × Neighbors
run now s [] = (now, s)
run now s ((wait, e) ∷ es) = run (now + wait) (step (now + wait) s e) es

IsValid-mono : (now now' : ℕ) (s : Neighbors) → now ≤ now' → IsValid now s → IsValid now' s
IsValid-mono now now' s h v = record {
  distinct = v.distinct;
  all_open = v.all_open;
  armed = elim v.armed [ inl e ↦ inl e | inr (t, e, le) ↦ inr (t, e, omega arith) ];
}

step-IsValid : (now : ℕ) (s : Neighbors) (e : Event) → IsValid now s → IsValid now (step now s e)
unfolding step is_neighbor get_nb_from_set_best
step-IsValid now s (beacon addr expire b) v = update-IsValid now s addr expire b v
step-IsValid now s (query addr) v = purge-IsValid now s v.distinct v.all_open
step-IsValid now s (chooses g) v = ground (arith, purge-IsValid now s v.distinct v.all_open)
step-IsValid now s fires v = purge-IsValid now (record s { timer = none }) v.distinct v.all_open
step-IsValid now s clears v = record { distinct = tt; all_open = tt; armed = inl refl }

run-IsValid :
    (now : ℕ) (s : Neighbors) (es : List (ℕ × Event))
    → IsValid now s
    → let r = run now s es in IsValid r.0 r.1
unfolding run
run-IsValid now s [] v = v
run-IsValid now s ((wait, e) ∷ es) v =
    run-IsValid (now + wait) (step (now + wait) s e) es
      (step-IsValid (now + wait) s e (IsValid-mono now (now + wait) s (omega arith) v))

-- After any sequence of beacons, queries, relay choices, timer events and clearings of a table that
-- was made empty: no two entries have one address, no entry is marked closed, and where an entry is
-- left a purge is scheduled within one delay.
pub run-neighbors-IsValid :
    (delay start : ℕ) (es : List (ℕ × Event))
    → let r = run start (neighbors delay) es in IsValid r.0 r.1
run-neighbors-IsValid delay start es =
    run-IsValid start (neighbors delay) es
      (record { distinct = tt; all_open = tt; armed = inl refl })
