-- ===== src/Tests/Watermark.antt =====
-- The watermark at the commit timestamp 3, with transactions that read at 7 and 5.
use cmu_db_15445_project.Prelude.{
  ℕ, ◌<◌, ◌≤◌, ◌≡◌, ◌⊎◌, none, some, List, [], ◌∷◌, count, erase, arith, refl,
}
use cmu_db_15445_project.Concurrency.Watermark.{Watermark, add_txn, remove_txn, get_watermark}
use cmu_db_15445_project.Concurrency.Watermark.Lowest.{
  Inv, add_txn_cases, remove_txn-Inv, get_watermark-lowest,
}

abbrev running : List ℕ
running = 7 ∷ []

abbrev seven : Watermark
seven = record {
  commit_ts = 3;
  watermark = 7;
  current_reads = (7, 1) ∷ [];
  read_timestamps = 7 ∷ [];
}

seven_holds : Inv running seven
seven_holds = record {
  reads = λ k. ground arith;
  listed = λ k. ground arith;
  ascending = (λ k c. absurd (omega arith), refl);
  shown = refl;
}

add_txn_cases_example :
    ((5 < 3) × (add_txn seven 5 ≡ none))
    ⊎ ((3 ≤ 5) × ((u : Watermark) × (add_txn seven 5 ≡ some u) × Inv (5 ∷ running) u))
add_txn_cases_example = add_txn_cases seven running 5 seven_holds

remove_txn-Inv_example : Inv (erase 7 running) (remove_txn seven 7)
remove_txn-Inv_example = remove_txn-Inv seven running 7 seven_holds

get_watermark-lowest_example :
    ((running ≡ []) × (get_watermark seven ≡ 3))
    ⊎ ((0 < count (get_watermark seven) running)
        × ((k : ℕ) → 0 < count k running → get_watermark seven ≤ k))
get_watermark-lowest_example = get_watermark-lowest seven running seven_holds
