-- ===== src/Linux/Forward/Cache.antt =====
-- The relay table is a cache of the search in the graph.
use Prim.{tt}
use map_based_relay.Prelude.{
  ℕ, List, Option, none, some, false, ◌≡◌, ◌⊎◌, inl, inr, ◌==◌, ◌≢◌, ==_cases, arith, refl, sym,
  ◌∙◌, ap, Option-cases, Bool-cases, OnSome, ◌>>=◌, subst,
}
use map_based_relay.Wave.Graph.{Graph}
use map_based_relay.Linux.Neighbors.{NeighborTable, neighbor_getnode_fromip}
use map_based_relay.Linux.Table.{RelayTableList, mbrtable_get_nexthop_geohash, update_mbrtable}
use map_based_relay.Linux.Table.Lookup.{get-update}
use map_based_relay.Linux.Forward.{
  Relayed, intersection, relay_at, relay_through, mbr_forward, look_up, settle,
  mbr_forward_by_table,
}

-- What the table has for a destination is what the search gives from the place.
abbrev pub IsFresh : Graph → (geohash_this : ℕ) → List RelayTableList → Type 0
IsFresh g this table =
    (dst : ℕ)
    → (mbrtable_get_nexthop_geohash table dst ≡ 0)
      ⊎ (intersection g this dst ≡ some (some (mbrtable_get_nexthop_geohash table dst)))

update-IsFresh :
    (g : Graph) (this dst next : ℕ) (table : List RelayTableList)
    → intersection g this dst ≡ some (some next)
    → IsFresh g this table
    → IsFresh g this (update_mbrtable this dst next table)
update-IsFresh g this dst next table found fresh d =
    rw (get-update this dst next d table) (elim (Bool-cases (dst == d)) [
      | inl same ↦
          let eq : dst ≡ d = ground (arith, same) in
          rw same (inr (ap (intersection g this) (sym eq) ∙ found))
      | inr other ↦ rw other (fresh d)
    ])

-- The result of a table's use.
abbrev pub verdict : Option (List RelayTableList × Option Relayed) → Option (Option Relayed)
verdict none = none
verdict (some r) = some r.1

settle-verdict :
    (neighbors : List NeighborTable) (table : List RelayTableList) (this : ℕ) (n : NeighborTable)
    (o : Option (Option ℕ))
    → verdict (o >>= λ h. some (settle neighbors table this n h))
      ≡ (o >>= λ h. some (relay_through neighbors n.mac h))
settle-verdict neighbors table this n none = refl
settle-verdict neighbors table this n (some none) = refl
settle-verdict neighbors table this n (some (some h)) = refl

module _ (g : Graph) (neighbors : List NeighborTable) (table : List RelayTableList) (this : ℕ)
    (n : NeighborTable) where
  look_up-miss :
      mbrtable_get_nexthop_geohash table n.geo_hash ≡ 0
      → look_up g neighbors table this n
        ≡ (intersection g this n.geo_hash >>= λ h. some (settle neighbors table this n h))
  unfolding look_up
  look_up-miss miss = rw (miss, look_up) refl

  look_up-hit :
      mbrtable_get_nexthop_geohash table n.geo_hash ≢ 0
      → look_up g neighbors table this n
        ≡ some (table, relay_at neighbors n.mac (mbrtable_get_nexthop_geohash table n.geo_hash))
  unfolding look_up
  look_up-hit hit =
      let off : (mbrtable_get_nexthop_geohash table n.geo_hash == 0) ≡ false =
        ground (arith, hit) in
      rw off refl

  look_up-verdict :
      IsFresh g this table
      → verdict (look_up g neighbors table this n)
        ≡ (intersection g this n.geo_hash >>= λ h. some (relay_through neighbors n.mac h))
  look_up-verdict fresh = elim (==_cases (mbrtable_get_nexthop_geohash table n.geo_hash) 0) [
    | inl miss ↦
        ap verdict (look_up-miss miss)
        ∙ settle-verdict neighbors table this n (intersection g this n.geo_hash)
    | inr hit ↦ elim (fresh n.geo_hash) [
      | inl miss ↦ elim (hit miss) [ ]
      | inr found ↦
          ap verdict (look_up-hit hit)
          ∙ ap (λ o. o >>= λ h. some (relay_through neighbors n.mac h)) (sym found)
    ]
  ]

  settle-IsFresh :
      IsFresh g this table
      → (o : Option (Option ℕ)) → intersection g this n.geo_hash ≡ o
      → OnSome (λ r. IsFresh g this r.0) (o >>= λ h. some (settle neighbors table this n h))
  settle-IsFresh fresh none e = tt
  settle-IsFresh fresh (some none) e = fresh
  settle-IsFresh fresh (some (some h)) e = update-IsFresh g this n.geo_hash h table e fresh

  look_up-IsFresh :
      IsFresh g this table → OnSome (λ r. IsFresh g this r.0) (look_up g neighbors table this n)
  look_up-IsFresh fresh = elim (==_cases (mbrtable_get_nexthop_geohash table n.geo_hash) 0) [
    | inl miss ↦
        subst (OnSome (λ r. IsFresh g this r.0)) (sym (look_up-miss miss))
          (settle-IsFresh fresh (intersection g this n.geo_hash) refl)
    | inr hit ↦ subst (OnSome (λ r. IsFresh g this r.0)) (sym (look_up-hit hit)) fresh
  ]

module _ (g : Graph) (neighbors : List NeighborTable) (table : List RelayTableList)
    (this nexthop : ℕ) where
  by_table-unknown :
      neighbor_getnode_fromip neighbors nexthop ≡ none
      → mbr_forward_by_table g neighbors table this nexthop ≡ some (table, none)
  unfolding mbr_forward_by_table
  by_table-unknown e = rw (e, mbr_forward_by_table) refl

  by_table-known :
      (n : NeighborTable)
      → neighbor_getnode_fromip neighbors nexthop ≡ some n
      → mbr_forward_by_table g neighbors table this nexthop ≡ look_up g neighbors table this n
  unfolding mbr_forward_by_table
  by_table-known n e = rw (e, mbr_forward_by_table) refl

module _ (g : Graph) (neighbors : List NeighborTable) (this nexthop : ℕ) where
  pub forward-unknown :
      neighbor_getnode_fromip neighbors nexthop ≡ none
      → mbr_forward g neighbors this nexthop ≡ some none
  unfolding mbr_forward
  forward-unknown e = rw (e, mbr_forward) refl

  pub forward-known :
      (n : NeighborTable)
      → neighbor_getnode_fromip neighbors nexthop ≡ some n
      → mbr_forward g neighbors this nexthop
        ≡ (intersection g this n.geo_hash >>= λ h. some (relay_through neighbors n.mac h))
  unfolding mbr_forward
  forward-known n e = rw (e, mbr_forward) refl

-- As long as the node's block and the graph stay, the module forwards with the relay table as it does
-- without it: where the table has only next hops that the search gives from this block, the result is
-- that of the search, and the table that is left has only such next hops again. The empty table has
-- none.
pub mbr_forward_by_table-mbr_forward :
    (g : Graph) (neighbors : List NeighborTable) (table : List RelayTableList) (this nexthop : ℕ)
    → IsFresh g this table
    → (verdict (mbr_forward_by_table g neighbors table this nexthop)
        ≡ mbr_forward g neighbors this nexthop)
      × OnSome (λ r. IsFresh g this r.0) (mbr_forward_by_table g neighbors table this nexthop)
mbr_forward_by_table-mbr_forward g neighbors table this nexthop fresh =
    elim (Option-cases (neighbor_getnode_fromip neighbors nexthop)) [
      | inl e ↦ (
        ap verdict (by_table-unknown g neighbors table this nexthop e)
            ∙ sym (forward-unknown g neighbors this nexthop e),
        subst (OnSome (λ r. IsFresh g this r.0))
            (sym (by_table-unknown g neighbors table this nexthop e)) fresh,
      )
      | inr (n, e) ↦ (
        ap verdict (by_table-known g neighbors table this nexthop n e)
            ∙ look_up-verdict g neighbors table this n fresh
            ∙ sym (forward-known g neighbors this nexthop n e),
        subst (OnSome (λ r. IsFresh g this r.0))
            (sym (by_table-known g neighbors table this nexthop n e))
            (look_up-IsFresh g neighbors table this n fresh),
      )
    ]
