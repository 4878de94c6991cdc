-- ===== src/Gpsr/Ptable/Tests.antt =====
-- Runs and instances of the table's theorems.
use map_based_relay.Prelude.{List, refl, [], ◌≡◌, ℕ, ◌∷◌}
use map_based_relay.Gpsr.Samples.{whole_numbers, whole_numbers-IsOrdered, at, along_x, two_entries}
use map_based_relay.Gpsr.Ptable.{unique_after, purge, best_neighbor, candidates}
use map_based_relay.Gpsr.Ptable.Refinement.{
  Call, adds, deletes, purges, places, run, abstract_run, places-run,
}
use map_based_relay.Gpsr.Ptable.Best.{IsChoice, best_neighbor-IsChoice}

purge_two :
    (purge 2000000000 two_entries).table
    ≡ record { id = 3; position = at 20; time = 1500000000 } ∷ []
unfolding purge unique_after
purge_two = refl

best_two : (best_neighbor whole_numbers along_x [] 1600000000 two_entries (at 50) (at 10)).1 ≡ 4
unfolding best_neighbor purge unique_after
best_two = refl

best_neighbor-IsChoice_example :
    IsChoice whole_numbers
      (λ p. along_x p (at 50))
      40
      (best_neighbor whole_numbers along_x [] 1600000000 two_entries (at 50) (at 10)).1
      (candidates []
        (best_neighbor whole_numbers along_x [] 1600000000 two_entries (at 50) (at 10)).0)
best_neighbor-IsChoice_example =
    best_neighbor-IsChoice whole_numbers along_x [] 1600000000 two_entries (at 50) (at 10)
      whole_numbers-IsOrdered

abbrev calls : List (ℕ × Call)
calls = (1600000000, adds 5 (at 40)) ∷ (1700000000, deletes 3) ∷ (2000000000, purges) ∷ []

places-run_example :
    places (run 2 two_entries calls) ≡ abstract_run 1000000000 (places two_entries) calls
places-run_example = places-run 2 two_entries calls refl
