-- ===== src/Tests/Storage.antt =====
-- A small table page.
use cmu_db_15445_project.Prelude.{
  ℕ, zero, suc, ◌+◌, ◌*◌, ◌<◌, ◌≡◌, false, none, some, List, [], ◌∷◌, ◌⊎◌, arith, ok, crash,
}
use cmu_db_15445_project.Storage.TablePage.{TupleMeta, TablePage, insert_tuple, get_tuple}
use cmu_db_15445_project.Storage.TablePage.Slots.{IsSlotted, insert_tuple_cases, insert_tuple-wraps}

abbrev alive : TupleMeta
alive = record { ts = 0; is_deleted = false }

-- One tuple of three bytes at the end of the page.
abbrev page : TablePage ℕ
page = record {
  next_page_id = none;
  num_tuples = 1;
  num_deleted_tuples = 0;
  tuple_info = λ j. record { offset = 8189; size = 3; meta = alive };
  page_start = λ j. j;
}

-- A page that is nearly full.
abbrev full_page : TablePage ℕ
full_page = record page { tuple_info = λ j. record { offset = 40; size = 8000; meta = alive } }

page_holds : IsSlotted page
page_holds = record {
  header = omega arith;
  inside = λ i l. omega arith;
  above = λ i l. omega arith;
  apart = λ i j l m. absurd (omega arith);
}

insert_tuple_cases_example :
    ((insert_tuple page alive (7 ∷ 8 ∷ []) ≡ ok (page, none)) × (8189 < 2 + (8 + 24 * (1 + 1))))
    ⊎ ((q : TablePage ℕ) × (insert_tuple page alive (7 ∷ 8 ∷ []) ≡ ok (q, some 1))
        × IsSlotted q
        × (get_tuple q 1 ≡ some (alive, 7 ∷ 8 ∷ []))
        × ((i : ℕ) → i < 1 → get_tuple q i ≡ get_tuple page i))
insert_tuple_cases_example = insert_tuple_cases page page_holds alive (7 ∷ 8 ∷ []) (omega arith)

-- `n` bytes.
abbrev bytes : ℕ → List ℕ
bytes zero = []
bytes (suc n) = 1 ∷ bytes n

insert_tuple-wraps_example : insert_tuple full_page alive (bytes 41) ≡ crash
insert_tuple-wraps_example =
    insert_tuple-wraps full_page alive (bytes 41) (omega arith) (omega arith) (omega arith)
      (omega arith)
