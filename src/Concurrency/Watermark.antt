-- ===== src/Concurrency/Watermark.antt =====
-- bustub-master/src/concurrency/watermark.cpp and include/concurrency/watermark.h: the lowest read
-- timestamp of the running transactions.
--
-- Timestamps are not negative. `read_timestamps` is a `std::set`: an ascending list. `none` is an
-- exception that is thrown.
pub mod Lowest
use cmu_db_15445_project.Prelude.{
  ℕ, suc, ◌+◌, ◌-◌, Bool, true, false, Option, none, some, List, [], ◌∷◌, ltb, ◌==◌, if◌then◌else◌,
}
use cmu_db_15445_project.Prelude.Assoc.{lookup, insert, erase_key}

pub record Watermark : Type 0 where
  pub commit_ts : ℕ
  pub watermark : ℕ
  pub current_reads : List (ℕ × ℕ)
  pub read_timestamps : List ℕ

-- `std::set::insert` and `std::set::erase`.
abbrev pub set_insert : ℕ → List ℕ → List ℕ
set_insert t [] = t ∷ []
set_insert t (x ∷ xs) =
    let rest = set_insert t xs in
    if ltb t x then t ∷ x ∷ xs else if t == x then x ∷ xs else x ∷ rest

abbrev pub set_erase : ℕ → List ℕ → List ℕ
set_erase t [] = []
set_erase t (x ∷ xs) = let rest = set_erase t xs in if t == x then xs else x ∷ rest

-- `*begin()` of a set that is not empty.
abbrev pub first : ℕ → List ℕ → ℕ
first default [] = default
first default (x ∷ xs) = x

abbrev pub number : Option ℕ → ℕ
number none = 0
number (some n) = n

unfoldable pub init : ℕ → Watermark
init commit_ts = record {
  commit_ts = commit_ts;
  watermark = commit_ts;
  current_reads = [];
  read_timestamps = [];
}

unfoldable pub add_txn : Watermark → ℕ → Option Watermark
add_txn s read_ts =
    if ltb read_ts s.commit_ts
    then none
    else let timestamps = set_insert read_ts s.read_timestamps in
      some (record s {
        current_reads =
            insert read_ts (number (lookup read_ts s.current_reads) + 1) s.current_reads;
        read_timestamps = timestamps;
        watermark = first s.watermark timestamps;
      })

unfoldable pub remove_txn : Watermark → ℕ → Watermark
remove_txn s read_ts = elim (lookup read_ts s.current_reads) [
  | none ↦ s
  | some n ↦
      if n - 1 == 0
      then record s {
        current_reads = erase_key read_ts s.current_reads;
        read_timestamps = set_erase read_ts s.read_timestamps;
        watermark = first s.commit_ts (set_erase read_ts s.read_timestamps);
      }
      else record s {
        current_reads = insert read_ts (n - 1) s.current_reads;
        watermark = first s.commit_ts s.read_timestamps;
      }
]

unfoldable pub update_commit_ts : Watermark → ℕ → Watermark
update_commit_ts s commit_ts = record s { commit_ts = commit_ts }

unfoldable pub get_watermark : Watermark → ℕ
get_watermark s = elim s.current_reads [ [] ↦ s.commit_ts | _ ∷ _ ↦ s.watermark ]
