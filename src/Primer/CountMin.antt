-- ===== src/Primer/CountMin.antt =====
-- bustub-master/src/primer/count_min_sketch.cpp: `CountMinSketch`.
--
-- `hash i item` is `CombineHashes(std::hash(item), CombineHashes(i, SEED_BASE))`, before it is
-- reduced by the width. `none` is an `std::invalid_argument` that is thrown. Counters are `uint32_t`.
pub mod Estimates
pub mod Merging
use cmu_db_15445_project.Prelude.{
  ℕ, zero, suc, ◌+◌, ◌-◌, ◌%◌, min, Bool, Option, none, some, List, [], ◌∷◌, ◌==◌, ◌&&◌, ◌||◌,
  if◌then◌else◌, not,
}
use cmu_db_15445_project.Prelude.Words.{add32, word32}

pub record Sketch : Type 0 where
  pub width : ℕ
  pub depth : ℕ
  pub matrix : ℕ → ℕ → ℕ

-- The constructor.
unfoldable pub init : ℕ → ℕ → Option Sketch
init width depth =
    if width == 0 || depth == 0
    then none
    else some (record { width = width; depth = depth; matrix = λ i j. 0 })

-- The loops of `Merge`: `n` columns of a row from the column `j` on, and `n` rows from the row `i` on.
abbrev pub add_row : (ℕ → ℕ) → (ℕ → ℕ) → ℕ → ℕ → ℕ → ℕ
add_row row other j zero = row
add_row row other j (suc n) =
    add_row (λ c. if j == c then add32 (row c) (other c) else row c) other (j + 1) n

abbrev pub add_rows : ℕ → (ℕ → ℕ → ℕ) → (ℕ → ℕ → ℕ) → ℕ → ℕ → ℕ → ℕ → ℕ
add_rows width m other i zero = m
add_rows width m other i (suc n) =
    add_rows width (λ r. if i == r then add_row (m r) (other r) 0 width else m r) other (i + 1) n

unfoldable pub merge : Sketch → Sketch → Option Sketch
merge s other =
    if not (s.width == other.width) || not (s.depth == other.depth)
    then none
    else some (record s { matrix = add_rows s.width s.matrix other.matrix 0 s.depth })

unfoldable pub clear : Sketch → Sketch
clear s = record s { matrix = λ i j. 0 }

module _ {Key : Type 0} (hash : ℕ → Key → ℕ) where
  -- `hash_functions_[i](item)`.
  abbrev pub bucket : Sketch → ℕ → Key → ℕ
  bucket s i item = hash i item % s.width

  -- `matrix_[i][hash_functions_[i](item)] += 1`.
  abbrev pub bump : Sketch → Key → ℕ → Sketch
  bump s item i = record s {
    matrix = λ r c. if i == r && bucket s i item == c then add32 (s.matrix r c) 1 else s.matrix r c;
  }

  -- The loop of `Insert` over `n` rows from the row `i` on.
  unfoldable pub insert_rows : Sketch → Key → ℕ → ℕ → Sketch
  insert_rows s item i zero = s
  insert_rows s item i (suc n) = insert_rows (bump s item i) item (i + 1) n

  unfoldable pub insert : Sketch → Key → Sketch
  insert s item = insert_rows s item 0 s.depth

  -- The loop of `Count`.
  unfoldable pub count_rows : Sketch → Key → ℕ → ℕ → ℕ → ℕ
  count_rows s item i zero result = result
  count_rows s item i (suc n) result =
      count_rows s item (i + 1) n (min result (s.matrix i (bucket s i item)))

  unfoldable pub count : Sketch → Key → ℕ
  count s item = count_rows s item 0 s.depth (word32 - 1)
