-- ===== src/Storage/TablePage.antt =====
-- bustub-master/src/storage/page/table_page.cpp: the slotted page of a table, `TablePage`.
--
-- The bytes of the tuples are a function from their offset in the page, apart from the header and the
-- slots at the page's front; a tuple has less than 2^32 bytes. A call that throws returns `none`. A
-- `memcpy` that would write past the 8192 bytes of the page is undefined behaviour, a `crash`.
pub mod Slots
use cmu_db_15445_project.Prelude.{
  ℕ, zero, suc, ◌+◌, ◌-◌, ◌*◌, ◌%◌, Bool, true, false, not, Option, none, some, List, [], ◌∷◌, ltb,
  leb, ◌==◌, ◌&&◌, if◌then◌else◌, length, Outcome, ok, crash,
}
use cmu_db_15445_project.Prelude.Words.{sub64}
use cmu_db_15445_project.Index.Arrays.{assign, listed}

-- `BUSTUB_PAGE_SIZE`, `TABLE_PAGE_HEADER_SIZE`, `TUPLE_INFO_SIZE`, and the range of `uint16_t`.
abbrev pub page_size : ℕ
page_size = 8192

abbrev pub header_size : ℕ
header_size = 8

abbrev pub tuple_info_size : ℕ
tuple_info_size = 24

abbrev pub word16 : ℕ
word16 = 65536

pub record TupleMeta : Type 0 where
  pub ts : ℕ
  pub is_deleted : Bool

pub record TupleInfo : Type 0 where
  pub offset : ℕ
  pub size : ℕ
  pub meta : TupleMeta

pub record TablePage (Byte : Type 0) : Type 0 where
  pub next_page_id : Option ℕ
  pub num_tuples : ℕ
  pub num_deleted_tuples : ℕ
  pub tuple_info : ℕ → TupleInfo
  pub page_start : ℕ → Byte

module _ {Byte : Type 0} where
  unfoldable pub init : TablePage Byte → TablePage Byte
  init p = record p { next_page_id = none; num_tuples = 0; num_deleted_tuples = 0 }

  -- `memcpy` of a tuple into the page.
  abbrev pub write_at : (ℕ → Byte) → ℕ → List Byte → ℕ → Byte
  write_at a i [] = a
  write_at a i (x ∷ xs) = write_at (assign a i x) (i + 1) xs

  -- `slot_end_offset`.
  abbrev pub slot_end_offset : TablePage Byte → ℕ
  slot_end_offset p =
      if ltb 0 p.num_tuples then (p.tuple_info (p.num_tuples - 1)).offset else page_size

  unfoldable pub get_next_tuple_offset : TablePage Byte → ℕ → Option ℕ
  get_next_tuple_offset p len =
      let tuple_offset = sub64 (slot_end_offset p) len in
      let offset_size = header_size + tuple_info_size * (p.num_tuples + 1) in
      if ltb tuple_offset offset_size then none else some (tuple_offset % word16)

  unfoldable pub insert_tuple :
      TablePage Byte → TupleMeta → List Byte → Outcome (TablePage Byte × Option ℕ)
  insert_tuple p meta tuple = elim (get_next_tuple_offset p (length tuple)) [
    | none ↦ ok (p, none)
    | some tuple_offset ↦
        if ltb page_size (tuple_offset + length tuple)
        then crash
        else ok (
          record p {
            tuple_info =
                assign p.tuple_info p.num_tuples
                  (record { offset = tuple_offset; size = length tuple % word16; meta = meta });
            num_tuples = (p.num_tuples + 1) % word16;
            page_start = write_at p.page_start tuple_offset tuple;
          },
          some p.num_tuples,
        )
  ]

  -- The count of deleted tuples when the meta data of a tuple changes.
  abbrev pub count_deleted : TablePage Byte → TupleMeta → TupleMeta → ℕ
  count_deleted p old_meta meta =
      if not old_meta.is_deleted && meta.is_deleted
      then (p.num_deleted_tuples + 1) % word16
      else p.num_deleted_tuples

  unfoldable pub update_tuple_meta : TablePage Byte → TupleMeta → ℕ → Option (TablePage Byte)
  update_tuple_meta p meta tuple_id =
      let info = p.tuple_info tuple_id in
      if leb p.num_tuples tuple_id
      then none
      else some (record p {
        num_deleted_tuples = count_deleted p info.meta meta;
        tuple_info = assign p.tuple_info tuple_id (record info { meta = meta });
      })

  unfoldable pub get_tuple : TablePage Byte → ℕ → Option (TupleMeta × List Byte)
  get_tuple p tuple_id =
      let info = p.tuple_info tuple_id in
      if leb p.num_tuples tuple_id
      then none
      else some (info.meta, listed p.page_start info.offset info.size)

  unfoldable pub get_tuple_meta : TablePage Byte → ℕ → Option TupleMeta
  get_tuple_meta p tuple_id =
      if leb p.num_tuples tuple_id then none else some (p.tuple_info tuple_id).meta

  unfoldable pub update_tuple_in_place_unsafe :
      TablePage Byte → TupleMeta → List Byte → ℕ → Outcome (Option (TablePage Byte))
  update_tuple_in_place_unsafe p meta tuple tuple_id =
      let info = p.tuple_info tuple_id in
      if leb p.num_tuples tuple_id
      then ok none
      else if not (info.size == length tuple)
      then ok none
      else if ltb page_size (info.offset + length tuple)
      then crash
      else ok (
          some (record p {
            num_deleted_tuples = count_deleted p info.meta meta;
            tuple_info = assign p.tuple_info tuple_id (record info { meta = meta });
            page_start = write_at p.page_start info.offset tuple;
          }))
