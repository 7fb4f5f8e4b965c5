-- ===== src/Index/Leaf.antt =====
-- bustub-master/src/storage/page/b_plus_tree_leaf_page.cpp: the leaf page of the B+ tree.
--
-- `tombstones_` is the list of its first `num_tombstones_` elements. Indices are not negative.
-- `equal a b` is `comparator(a, b) == 0`, and `tomb_cnt` is `LEAF_PAGE_TOMB_CNT`. The page type
-- is always that of a leaf. The arrays have no end here: the tree's insertions, in
-- Index/Tree/Insertion.antt, stop where they would write past `LEAF_PAGE_SLOT_CNT`.
pub mod Entries
pub mod Removal
pub mod Moves
use cmu_db_15445_project.Prelude.{
  ℕ, zero, suc, ◌+◌, ◌-◌, ◌/◌, Bool, true, false, not, Option, none, List, [], ◌∷◌, ◌++◌, map, ltb,
  leb, ◌==◌, ◌||◌, if◌then◌else◌, length,
}
use cmu_db_15445_project.Index.Arrays.{assign, shift_right, shift_left, copy}

pub record LeafPage (Key Value : Type 0) : Type 0 where
  pub size : ℕ
  pub max_size : ℕ
  pub next_page_id : Option ℕ
  pub tombstones : List ℕ
  pub key_array : ℕ → Key
  pub rid_array : ℕ → Value

-- The loops over the tombstones.
abbrev pub has_tombstone : ℕ → List ℕ → Bool
has_tombstone i [] = false
has_tombstone i (t ∷ ts) = if t == i then true else has_tombstone i ts

abbrev pub raise_from : ℕ → List ℕ → List ℕ
raise_from i [] = []
raise_from i (t ∷ ts) = (if leb i t then t + 1 else t) ∷ raise_from i ts

abbrev pub drop_tombstone : ℕ → List ℕ → List ℕ
drop_tombstone i [] = []
drop_tombstone i (t ∷ ts) =
    let rest = drop_tombstone i ts in if t == i then rest else (if ltb i t then t - 1 else t) ∷ rest

abbrev pub tombstones_below : ℕ → List ℕ → List ℕ
tombstones_below m [] = []
tombstones_below m (t ∷ ts) = let rest = tombstones_below m ts in if leb m t then rest else t ∷ rest

abbrev pub tombstones_from : ℕ → List ℕ → List ℕ
tombstones_from m [] = []
tombstones_from m (t ∷ ts) =
    let rest = tombstones_from m ts in if leb m t then (t - m) ∷ rest else rest

module _ {Key Value : Type 0} where
  -- `Init`: the arrays are left as they are.
  unfoldable pub init : ℕ → LeafPage Key Value → LeafPage Key Value
  init max_size p = record p { size = 0; max_size = max_size; next_page_id = none; tombstones = [] }

  unfoldable pub get_tombstones : LeafPage Key Value → List Key
  get_tombstones p = map p.key_array p.tombstones

  abbrev pub is_tombstone : LeafPage Key Value → ℕ → Bool
  is_tombstone p i = has_tombstone i p.tombstones

  unfoldable pub get_live_size : LeafPage Key Value → ℕ
  get_live_size p = p.size - length p.tombstones

  unfoldable pub insert_at : LeafPage Key Value → ℕ → Key → Value → LeafPage Key Value
  insert_at p i key value = record p {
    key_array = assign (shift_right p.key_array i (p.size - i)) i key;
    rid_array = assign (shift_right p.rid_array i (p.size - i)) i value;
    tombstones = raise_from i p.tombstones;
    size = p.size + 1;
  }

  -- `Split`: this page, then the new leaf.
  unfoldable pub split :
      LeafPage Key Value → LeafPage Key Value → LeafPage Key Value × LeafPage Key Value
  split p new_leaf =
      let split_point = p.size / 2 in
      let right_size = p.size - split_point in
      (
        record p { size = split_point; tombstones = tombstones_below split_point p.tombstones },
        record new_leaf {
          key_array = copy p.key_array split_point new_leaf.key_array 0 right_size;
          rid_array = copy p.rid_array split_point new_leaf.rid_array 0 right_size;
          tombstones = tombstones_from split_point p.tombstones;
          size = right_size;
        },
      )

  unfoldable pub remove_at : LeafPage Key Value → ℕ → LeafPage Key Value
  remove_at p i = record p {
    key_array = shift_left p.key_array i (p.size - i - 1);
    rid_array = shift_left p.rid_array i (p.size - i - 1);
    tombstones = drop_tombstone i p.tombstones;
    size = p.size - 1;
  }

  module _ (equal : Key → Key → Bool) (tomb_cnt : ℕ) where
    -- The loop of `Remove` from the index `i` on, over `n` entries.
    unfoldable pub remove_from : LeafPage Key Value → Key → ℕ → ℕ → LeafPage Key Value × Bool
    remove_from p key i zero = (p, false)
    remove_from p key i (suc n) =
        let rest = remove_from p key (i + 1) n in
        if equal (p.key_array i) key
        then (if is_tombstone p i
            then (p, false)
            else if leb tomb_cnt (length p.tombstones)
            then (remove_at p i, true)
            else (record p { tombstones = p.tombstones ++ i ∷ [] }, true))
        else rest

    unfoldable pub remove : LeafPage Key Value → Key → LeafPage Key Value × Bool
    remove p key = remove_from p key 0 p.size

  -- The page that gives its entries, then the recipient.
  unfoldable pub move_last_to_front_of :
      LeafPage Key Value → LeafPage Key Value → LeafPage Key Value × LeafPage Key Value
  move_last_to_front_of p recipient = (
    record p { size = p.size - 1 },
    record recipient {
      key_array =
          assign (shift_right recipient.key_array 0 recipient.size) 0 (p.key_array (p.size - 1));
      rid_array =
          assign (shift_right recipient.rid_array 0 recipient.size) 0 (p.rid_array (p.size - 1));
      size = recipient.size + 1;
    },
  )

  unfoldable pub move_first_to_end_of :
      LeafPage Key Value → LeafPage Key Value → LeafPage Key Value × LeafPage Key Value
  move_first_to_end_of p recipient = (
    record p {
      key_array = shift_left p.key_array 0 (p.size - 1);
      rid_array = shift_left p.rid_array 0 (p.size - 1);
      size = p.size - 1;
    },
    record recipient {
      key_array = assign recipient.key_array recipient.size (p.key_array 0);
      rid_array = assign recipient.rid_array recipient.size (p.rid_array 0);
      size = recipient.size + 1;
    },
  )

  unfoldable pub move_all_to :
      LeafPage Key Value → LeafPage Key Value → LeafPage Key Value × LeafPage Key Value
  move_all_to p recipient = (
    record p { size = 0 },
    record recipient {
      key_array = copy p.key_array 0 recipient.key_array recipient.size p.size;
      rid_array = copy p.rid_array 0 recipient.rid_array recipient.size p.size;
      size = recipient.size + p.size;
      next_page_id = p.next_page_id;
    },
  )
