-- ===== src/Tests/CountMin.antt =====
-- A sketch of two rows of four cells, in which 1, 5 and 2 are inserted.
use cmu_db_15445_project.Prelude.{
  ℕ, ◌+◌, ◌%◌, ◌≡◌, ◌≢◌, ◌<◌, ◌≤◌, ◌⊎◌, ◌==◌, ==_iff, arith, none, some, List, [], ◌∷◌, ◌++◌,
}
use cmu_db_15445_project.Primer.CountMin.{Sketch, clear, merge, count}
use cmu_db_15445_project.Primer.CountMin.Estimates.{collisions, inserted, occurrences, count-bounds}
use cmu_db_15445_project.Primer.CountMin.Merging.{merge_cases}

abbrev sketch : Sketch
sketch = record { width = 4; depth = 2; matrix = λ i j. 7 }

abbrev items : List ℕ
items = 1 ∷ 5 ∷ 2 ∷ []

count-bounds_example :
    (occurrences ◌+◌ ◌==◌ (λ x y. (==_iff x y).0) 5 items
      ≤ count ◌+◌ (inserted ◌+◌ (clear sketch) items) 5)
    × ((r : ℕ)
        → r < 2
        → count ◌+◌ (inserted ◌+◌ (clear sketch) items) 5 ≤ collisions ◌+◌ 4 r ((r + 5) % 4) items)
count-bounds_example = count-bounds ◌+◌ ◌==◌ (λ x y. (==_iff x y).0) sketch items 5 (omega arith)

merge_cases_example :
    (((sketch.width ≢ sketch.width) ⊎ (sketch.depth ≢ sketch.depth))
      × (merge (inserted ◌+◌ (clear sketch) items) (inserted ◌+◌ (clear sketch) (9 ∷ [])) ≡ none))
    ⊎ ((sketch.width ≡ sketch.width)
        × (sketch.depth ≡ sketch.depth)
        × ((u : Sketch) × (merge
                (inserted ◌+◌ (clear sketch) items)
                (inserted ◌+◌ (clear sketch) (9 ∷ []))
              ≡ some u)
            × (u.width ≡ sketch.width)
            × (u.depth ≡ sketch.depth)
            × ((r c : ℕ)
                → r < sketch.depth
                → c < sketch.width
                → u.matrix r c ≡ (inserted ◌+◌ (clear sketch) (items ++ 9 ∷ [])).matrix r c)))
merge_cases_example = merge_cases ◌+◌ sketch sketch items (9 ∷ []) (omega arith)
