-- ===== src/Tests/Index.antt =====
-- Small pages of the B+ tree.
use cmu_db_15445_project.Prelude.{
  ℕ, ◌+◌, ◌*◌, ◌≡◌, ◌≤◌, ◌==◌, leb, refl, arith, false, none, some, [], ◌∷◌, ◌++◌, length,
}
use cmu_db_15445_project.Index.Arrays.{listed}
use cmu_db_15445_project.Index.Leaf
use cmu_db_15445_project.Index.Leaf.{LeafPage}
use cmu_db_15445_project.Index.Leaf.Entries.{
  entry_at, entries, entries_before, entries_after, insert_at-entries, remove_at-entries,
  split-entries,
}
use cmu_db_15445_project.Index.Leaf.Removal.{delete_key, remove-entries}
use cmu_db_15445_project.Index.Leaf.Moves.{pairs, move_all_to-pairs, move_all_to-revives}
use cmu_db_15445_project.Index.Internal
use cmu_db_15445_project.Index.Internal.{InternalPage, lookup}
use cmu_db_15445_project.Index.Internal.Search.{IsSorted, IsChild, lookup-IsChild}
use cmu_db_15445_project.Index.Internal.Children.{
  children, keys, split-children, move_last_to_front_of-children, move_all_to-children,
  move_first_to_end_of-children,
}

-- The keys 10, 20 and 30, of which 20 is deleted.
abbrev leaf : LeafPage ℕ ℕ
leaf = record {
  size = 3;
  max_size = 8;
  next_page_id = none;
  tombstones = 1 ∷ [];
  key_array = λ j. 10 * (j + 1);
  rid_array = λ j. j;
}

abbrev next_leaf : LeafPage ℕ ℕ
next_leaf = record {
  size = 1;
  max_size = 8;
  next_page_id = some 5;
  tombstones = [];
  key_array = λ j. 50;
  rid_array = λ j. 7;
}

insert_at-entries_example :
    entries (Leaf.insert_at leaf 1 15 9)
    ≡ entries_before leaf 1 ++ (15, 9, false) ∷ entries_after leaf 1
insert_at-entries_example = insert_at-entries leaf 1 15 9 (omega arith)

remove_at-entries_example :
    entries (Leaf.remove_at leaf 0) ≡ entries_before leaf 0 ++ listed (entry_at leaf) 1 2
remove_at-entries_example = remove_at-entries leaf 0 (omega arith)

split-entries_example :
    (entries (Leaf.split leaf next_leaf).0 ++ entries (Leaf.split leaf next_leaf).1 ≡ entries leaf)
    × ((Leaf.split leaf next_leaf).0.size ≤ (Leaf.split leaf next_leaf).1.size)
    × ((Leaf.split leaf next_leaf).1.size ≤ (Leaf.split leaf next_leaf).0.size + 1)
split-entries_example = split-entries leaf next_leaf

remove-entries_example :
    (entries (Leaf.remove ◌==◌ 2 leaf 30).0
      ≡ (delete_key ◌==◌ 2 (leb 2 (length leaf.tombstones)) 30 (entries leaf)).0)
    × ((Leaf.remove ◌==◌ 2 leaf 30).1
        ≡ (delete_key ◌==◌ 2 (leb 2 (length leaf.tombstones)) 30 (entries leaf)).1)
remove-entries_example = remove-entries ◌==◌ 2 leaf 30

move_all_to-pairs_example :
    (pairs (Leaf.move_all_to next_leaf leaf).1 ≡ pairs leaf ++ pairs next_leaf)
    × (pairs (Leaf.move_all_to next_leaf leaf).0 ≡ [])
move_all_to-pairs_example = move_all_to-pairs next_leaf leaf

move_all_to-revives_example : entry_at (Leaf.move_all_to leaf next_leaf).1 2 ≡ (20, 1, false)
move_all_to-revives_example = move_all_to-revives leaf next_leaf (λ j h. refl) 1 (omega arith)

-- The children 100 to 103, with the separators 10, 20 and 30.
abbrev inner : InternalPage ℕ
inner = record { size = 4; max_size = 8; key_array = λ j. 10 * j; page_id_array = λ j. 100 + j }

abbrev next_inner : InternalPage ℕ
next_inner = record {
  size = 2;
  max_size = 8;
  key_array = λ j. 60 + j;
  page_id_array = λ j. 200 + j;
}

inner_IsSorted : IsSorted leb inner 25
inner_IsSorted i j a b c d = ground arith

lookup-IsChild_example :
    (r : ℕ) × (lookup leb inner 25 ≡ inner.page_id_array r) × IsChild leb inner 25 r
lookup-IsChild_example = lookup-IsChild leb inner 25 inner_IsSorted (omega arith)

split-children_example :
    (children (Internal.split inner next_inner).0 ++ children (Internal.split inner next_inner).1
      ≡ children inner)
    × (keys (Internal.split inner next_inner).0
          ++ (Internal.split inner next_inner).2 ∷ keys (Internal.split inner next_inner).1
        ≡ keys inner)
split-children_example = split-children inner next_inner (omega arith)

move_last_to_front_of-children_example :
    (children (Internal.move_last_to_front_of inner next_inner 50).0
        ++ children (Internal.move_last_to_front_of inner next_inner 50).1
      ≡ children inner ++ children next_inner)
    × (keys (Internal.move_last_to_front_of inner next_inner 50).0
          ++ (Internal.move_last_to_front_of inner next_inner 50).2
            ∷ keys (Internal.move_last_to_front_of inner next_inner 50).1
        ≡ keys inner ++ 50 ∷ keys next_inner)
move_last_to_front_of-children_example =
    move_last_to_front_of-children inner next_inner 50 (omega arith) (omega arith)

move_all_to-children_example :
    (children (Internal.move_all_to next_inner inner 50).1 ≡ children inner ++ children next_inner)
    × (keys (Internal.move_all_to next_inner inner 50).1 ≡ keys inner ++ 50 ∷ keys next_inner)
    × (children (Internal.move_all_to next_inner inner 50).0 ≡ [])
move_all_to-children_example = move_all_to-children next_inner inner 50 (omega arith) (omega arith)

move_first_to_end_of-children_example :
    (children (Internal.move_first_to_end_of next_inner inner 50).1 ≡ children inner ++ 200 ∷ [])
    × (children (Internal.move_first_to_end_of next_inner inner 50).0 ≡ 200 ∷ [])
move_first_to_end_of-children_example =
    move_first_to_end_of-children next_inner inner 50 (omega arith)
