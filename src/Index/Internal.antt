-- ===== src/Index/Internal.antt =====
-- bustub-master/src/storage/page/b_plus_tree_internal_page.cpp: the internal page of the B+ tree.
--
-- Page ids, sizes and indices are not negative. The key at index 0 is not used. `le a b` is
-- `comparator(a, b) <= 0`. The arrays have no end here: the tree's insertions, in
-- Index/Tree/Insertion.antt, stop where they would write past `INTERNAL_PAGE_SLOT_CNT`.
pub mod Search
pub mod Entries
pub mod Children
use cmu_db_15445_project.Prelude.{
  ℕ, zero, suc, ◌+◌, ◌-◌, ◌/◌, Bool, true, false, Option, none, some, leb, ◌==◌, if◌then◌else◌,
}
use cmu_db_15445_project.Index.Arrays.{assign, shift_right, shift_left, copy}

pub record InternalPage (Key : Type 0) : Type 0 where
  pub size : ℕ
  pub max_size : ℕ
  pub key_array : ℕ → Key
  pub page_id_array : ℕ → ℕ

module _ {Key : Type 0} where
  unfoldable pub init : ℕ → InternalPage Key → InternalPage Key
  init max_size p = record p { size = 0; max_size = max_size }

  -- The loop of `ValueIndex` from the index `i` on, over `n` entries. `none` is -1.
  unfoldable pub value_index_from : InternalPage Key → ℕ → ℕ → ℕ → Option ℕ
  value_index_from p value i zero = none
  value_index_from p value i (suc n) =
      let rest = value_index_from p value (i + 1) n in
      if p.page_id_array i == value then some i else rest

  unfoldable pub value_index : InternalPage Key → ℕ → Option ℕ
  value_index p value = value_index_from p value 0 p.size

  unfoldable pub insert_at : InternalPage Key → ℕ → Key → ℕ → InternalPage Key
  insert_at p i key value = record p {
    key_array = assign (shift_right p.key_array i (p.size - i)) i key;
    page_id_array = assign (shift_right p.page_id_array i (p.size - i)) i value;
    size = p.size + 1;
  }

  -- `Split`: this page, the new page, and the key for the parent.
  unfoldable pub split :
      InternalPage Key → InternalPage Key → InternalPage Key × InternalPage Key × Key
  split p new_node =
      let mid = p.size / 2 in
      (
        record p { size = mid },
        record new_node {
          key_array = copy p.key_array (mid + 1) new_node.key_array 1 (p.size - (mid + 1));
          page_id_array =
              copy p.page_id_array (mid + 1) (assign new_node.page_id_array 0 (p.page_id_array mid))
                1 (p.size - (mid + 1));
          size = 1 + (p.size - (mid + 1));
        },
        p.key_array mid,
      )

  -- The loop of `Lookup`, which `fuel` bounds.
  unfoldable pub search : (Key → Key → Bool) → InternalPage Key → Key → ℕ → ℕ → ℕ → ℕ → ℕ
  search le p key zero left right result = result
  search le p key (suc fuel) left right result = elim (leb left right) [
    | false ↦ result
    | true ↦
        let mid = (left + right) / 2 in
        elim (le (p.key_array mid) key) [
          | true ↦ search le p key fuel (mid + 1) right mid
          | false ↦ search le p key fuel left (mid - 1) result
        ]
  ]

  unfoldable pub lookup_index : (Key → Key → Bool) → InternalPage Key → Key → ℕ
  lookup_index le p key = search le p key p.size 1 (p.size - 1) 0

  unfoldable pub lookup : (Key → Key → Bool) → InternalPage Key → Key → ℕ
  lookup le p key = p.page_id_array (lookup_index le p key)

  unfoldable pub remove_at : InternalPage Key → ℕ → InternalPage Key
  remove_at p i = record p {
    key_array = shift_left p.key_array i (p.size - 1 - i);
    page_id_array = shift_left p.page_id_array i (p.size - 1 - i);
    size = p.size - 1;
  }

  -- The page that gives, the recipient, and the new key for the parent.
  unfoldable pub move_last_to_front_of :
      InternalPage Key → InternalPage Key → Key → InternalPage Key × InternalPage Key × Key
  move_last_to_front_of p recipient middle_key = (
    record p { size = p.size - 1 },
    record recipient {
      key_array = assign (shift_right recipient.key_array 0 recipient.size) 1 middle_key;
      page_id_array =
          assign (shift_right recipient.page_id_array 0 recipient.size) 0
            (p.page_id_array (p.size - 1));
      size = recipient.size + 1;
    },
    p.key_array (p.size - 1),
  )

  unfoldable pub move_first_to_end_of :
      InternalPage Key → InternalPage Key → Key → InternalPage Key × InternalPage Key × Key
  move_first_to_end_of p recipient middle_key = (
    record p {
      key_array = shift_left p.key_array 1 (p.size - 1 - 1);
      page_id_array = shift_left p.page_id_array 1 (p.size - 1 - 1);
      size = p.size - 1;
    },
    record recipient {
      key_array = assign recipient.key_array recipient.size middle_key;
      page_id_array = assign recipient.page_id_array recipient.size (p.page_id_array 0);
      size = recipient.size + 1;
    },
    p.key_array 1,
  )

  unfoldable pub move_all_to :
      InternalPage Key → InternalPage Key → Key → InternalPage Key × InternalPage Key
  move_all_to p recipient middle_key = (
    record p { size = 0 },
    record recipient {
      key_array =
          copy p.key_array 1 (assign recipient.key_array recipient.size middle_key)
            (recipient.size + 1) (p.size - 1);
      page_id_array =
          copy p.page_id_array 1 (assign recipient.page_id_array recipient.size (p.page_id_array 0))
            (recipient.size + 1) (p.size - 1);
      size = recipient.size + 1 + (p.size - 1);
    },
  )
