-- ===== src/Mbr/Neighbors/Refresh.antt =====
-- What a beacon does to the table: the entry that a search finds afterwards.

use map_based_relay.Prelude.{
  find_if-none, All-keep_if, find_if-append_none, keep_if-append, inr, inl, any_of-append, ◌∙◌,
  any_of-keep_if, ◌++◌, Option-cases, keep_if, ℕ, ◌+◌, ◌≤◌, ◌≡◌, ◌≢◌, refl, List, [], ◌∷◌, Option,
  none, some, Bool, true, false, not, arith, ◌==◌, if◌then◌else◌, any_of, find_if,
}
use map_based_relay.Mbr.Neighbors.{
  new_neighbor, is_neighbor, Neighbor, Neighbors, Beacon, close_neighbor, has_ip, refresh,
  update_known, update,
}
use map_based_relay.Mbr.Neighbors.Invariant.{purge_nb, Open, refresh_first}

module _ (now expire : ℕ) (b : Beacon) (addr : ℕ) where
  -- The loop of `update` finds an entry where a search for the address does.
  pub update_known-find :
      (ns : List Neighbor)
      → find_if (has_ip addr) ns ≡ none
      → update_known now expire b addr ns ≡ none
  unfolding update_known
  update_known-find [] h = refl
  update_known-find (n ∷ ns) h = ground (arith, update_known-find ns)

  update_known-some :
      (ns : List Neighbor) (n : Neighbor)
      → find_if (has_ip addr) ns ≡ some n
      → update_known now expire b addr ns ≡ some (refresh_first now expire b addr ns)
  unfolding update_known refresh_first
  update_known-some [] n h = cc
  update_known-some (m ∷ ns) n h = ground (arith, update_known-some ns n)

  refreshed : Option Neighbor → Option Neighbor
  refreshed none = none
  refreshed (some n) = some (refresh now expire b n)

  find-refresh_first :
      (a : ℕ) (ns : List Neighbor)
      → find_if (has_ip a) (refresh_first now expire b addr ns)
        ≡ (if a == addr then refreshed (find_if (has_ip addr) ns) else find_if (has_ip a) ns)
  unfolding refresh_first refresh refreshed
  find-refresh_first a [] = ground arith
  find-refresh_first a (n ∷ ns) = ground (arith, find-refresh_first a ns)

-- A beacon from a known neighbour leaves what a search finds for every other address.
pub update-known_others :
    (now : ℕ) (s : Neighbors) (addr expire : ℕ) (b : Beacon) (n : Neighbor) (a : ℕ)
    → find_if (has_ip addr) s.nb ≡ some n
    → a ≢ addr
    → find_if (has_ip a) (update now s addr expire b).nb ≡ find_if (has_ip a) s.nb
unfolding update
update-known_others now s addr expire b n a h other =
    rw (update_known-some now expire b addr s.nb n h, update)
      (ground (arith, find-refresh_first now expire b addr a s.nb))

module _ (now later : ℕ) (s : Neighbors) (addr expire : ℕ) (b : Beacon) where
  -- The tests of `is_neighbor` and of the purges before it, on one entry.
  abbrev survives : Neighbor → Bool
  survives n = if not (close_neighbor later n) then has_ip addr n else false

  refresh_first-survives :
      (ns : List Neighbor) (n : Neighbor)
      → find_if (has_ip addr) ns ≡ some n
      → later ≤ expire + now
      → Open ns
      → any_of survives (refresh_first now expire b addr ns) ≡ true
  unfolding refresh_first refresh
  refresh_first-survives [] n h soon o = cc
  refresh_first-survives (m ∷ ns) n h soon o = ground (arith, refresh_first-survives ns n)

  new-survives :
      (ns : List Neighbor)
      → now ≤ later
      → later ≤ expire + now
      → any_of survives
          (keep_if (λ m. not (close_neighbor now m)) (ns ++ new_neighbor now expire b addr ∷ []))
        ≡ true
  new-survives ns order soon =
      any_of-keep_if survives (λ m. not (close_neighbor now m)) (ns ++ n ∷ [])
      ∙ (any_of-append (λ m. if not (close_neighbor now m) then survives m else false) ns (n ∷ [])
          ∙ last)
    where
      n : Neighbor
      n = new_neighbor now expire b addr

      last :
          (if any_of (λ m. if not (close_neighbor now m) then survives m else false) ns
            then true
            else any_of (λ m. if not (close_neighbor now m) then survives m else false) (n ∷ []))
          ≡ true
      last = ground arith

-- A node is a neighbour from the moment that a beacon of it arrives up to the expiry that the beacon
-- asked for, in a table where no entry is marked closed.
pub update-is_neighbor :
    (now later : ℕ) (s : Neighbors) (addr expire : ℕ) (b : Beacon)
    → now ≤ later
    → later ≤ expire + now
    → Open s.nb
    → (is_neighbor later (update now s addr expire b) addr).1 ≡ true
unfolding is_neighbor update
update-is_neighbor now later s addr expire b order soon o =
    elim (Option-cases (find_if (has_ip addr) s.nb)) [
      | inl absent ↦
          let e = update_known-find now expire b addr s.nb absent in
          let t : Neighbors = record s { nb = s.nb ++ new_neighbor now expire b addr ∷ [] } in
          rw (e, update, purge_nb later, purge_nb now t)
            (any_of-keep_if (has_ip addr) (λ m. not (close_neighbor later m)) _
              ∙ new-survives now later s addr expire b s.nb order soon)
      | inr (n, known) ↦
          let e = update_known-some now expire b addr s.nb n known in
          rw (e, update, purge_nb later)
            (any_of-keep_if (has_ip addr) (λ m. not (close_neighbor later m)) _
              ∙ refresh_first-survives now later s addr expire b s.nb n known soon o)
    ]

-- What a beacon of an unknown node leaves to be found is the entry that it makes.
pub update-new :
    (now : ℕ) (s : Neighbors) (addr expire : ℕ) (b : Beacon)
    → find_if (has_ip addr) s.nb ≡ none
    → find_if (has_ip addr) (update now s addr expire b).nb ≡ some (new_neighbor now expire b addr)
unfolding update
update-new now s addr expire b absent =
    let fresh : Neighbor → Bool = λ m. not (close_neighbor now m) in
    let n = new_neighbor now expire b addr in
    let t : Neighbors = record s { nb = s.nb ++ n ∷ [] } in
    let e = update_known-find now expire b addr s.nb absent in
    let found : find_if (has_ip addr) (keep_if fresh (n ∷ [])) ≡ some n = ground arith in
    rw (e, update, purge_nb now t, keep_if-append fresh s.nb (n ∷ []))
      (find_if-append_none (has_ip addr) (keep_if fresh s.nb) (keep_if fresh (n ∷ [])) (
          All-keep_if (λ m. has_ip addr m ≡ false) fresh s.nb
            (find_if-none (has_ip addr) s.nb absent))
        ∙ found)
