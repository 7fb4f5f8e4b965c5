-- ===== src/Index/Tree/Insertion.antt =====
-- Insertion: `TryOptimisticInsert`, `Insert` and `InsertIntoParent`.
use cmu_db_15445_project.Prelude.{
  ℕ, ◌+◌, Bool, true, false, none, some, List, [], ◌∷◌, ltb, leb, ◌==◌, if◌then◌else◌, Outcome, ok,
  crash, ◌>>=◌,
}
use cmu_db_15445_project.Index.Arrays.{assign}
use cmu_db_15445_project.Index.Leaf
use cmu_db_15445_project.Index.Leaf.{LeafPage}
use cmu_db_15445_project.Index.Internal
use cmu_db_15445_project.Index.Internal.{InternalPage}
use cmu_db_15445_project.Index.Tree.{
  leaf, internal, Tree, put, as_internal, upper_bound, lower_bound, is_at, descend,
}

-- A write to the slot `slot` of an array with `slot_cnt` slots, before what follows: past the array's
-- end it is undefined behaviour.
abbrev pub in_slots : {A : Type 0} → ℕ → ℕ → Outcome A → Outcome A
in_slots slot_cnt slot rest = if leb slot_cnt slot then crash else rest

-- The slot counts are `LEAF_PAGE_SLOT_CNT` and `INTERNAL_PAGE_SLOT_CNT`, which the constructor of the
-- tree has as the default maximum sizes.
module _ {Key Value : Type 0} (rank : Key → ℕ) (leaf_max_size internal_max_size : ℕ) where
  module _ (leaf_slot_cnt internal_slot_cnt : ℕ) (blank_leaf : LeafPage Key Value)
      (blank_internal : InternalPage Key) where
    -- The new root over the two halves of the old one.
    abbrev pub new_root : ℕ → Key → ℕ → InternalPage Key
    new_root child up_key new_pid =
        let p = Internal.init internal_max_size blank_internal in
        record p {
          size = 2;
          key_array = assign p.key_array 1 up_key;
          page_id_array = assign (assign p.page_id_array 0 child) 1 new_pid;
        }

    -- `InsertIntoParent`, with `write_set_` as the pages above the child, the parent first.
    unfoldable pub insert_into_parent :
        List ℕ → Tree Key Value → ℕ → Key → ℕ → Outcome (Tree Key Value)
    insert_into_parent [] t child up_key new_pid = in_slots internal_slot_cnt 1 (
        ok (record t {
          root = some t.next_page_id;
          pages = (put t t.next_page_id (internal (new_root child up_key new_pid))).pages;
          next_page_id = t.next_page_id + 1;
        }))
    insert_into_parent (parent_pid ∷ rest) t child up_key new_pid =
        as_internal (t.pages parent_pid) >>= λ parent. in_slots internal_slot_cnt parent.size (
          let grown = Internal.insert_at parent (upper_bound rank parent up_key) up_key new_pid in
          if ltb parent.size internal_max_size
          then ok (put t parent_pid (internal grown))
          else let (left, right, promote_key) =
              Internal.split grown (Internal.init internal_max_size blank_internal) in
            let t' = put (put t parent_pid (internal left)) t.next_page_id (internal right) in
            insert_into_parent rest (record t' { next_page_id = t.next_page_id + 1 }) parent_pid
              promote_key t.next_page_id)

    -- The first leaf of an empty tree.
    abbrev pub start_tree : Tree Key Value → Key → Value → Tree Key Value
    start_tree t key value =
        let p = Leaf.insert_at (Leaf.init leaf_max_size blank_leaf) 0 key value in
        record t {
          root = some t.next_page_id;
          pages = (put t t.next_page_id (leaf p)).pages;
          next_page_id = t.next_page_id + 1;
        }

    -- A leaf that is full is split; `next_page_id_` links the halves.
    abbrev pub split_leaf :
        Tree Key Value → ℕ → LeafPage Key Value → List ℕ → Outcome (Tree Key Value)
    split_leaf t pid p path =
        let new_pid = t.next_page_id in
        let halves = Leaf.split p (Leaf.init leaf_max_size blank_leaf) in
        let right = record (halves.1) { next_page_id = p.next_page_id } in
        let left = record (halves.0) { next_page_id = some new_pid } in
        let t' = put (put t pid (leaf left)) new_pid (leaf right) in
        insert_into_parent path (record t' { next_page_id = new_pid + 1 }) pid (right.key_array 0)
          new_pid

    -- The leaf that the descent of `Insert` ended at.
    abbrev pub insert_in_leaf :
        Tree Key Value
        → Key
        → Value
        → ℕ × LeafPage Key Value × List ℕ
        → Outcome (Tree Key Value × Bool)
    insert_in_leaf t key value (pid, p, path) =
        let lo = lower_bound rank p key in
        if is_at rank p key lo
        then ok (t, false)
        else in_slots leaf_slot_cnt p.size (
            let p' = Leaf.insert_at p lo key value in
            if p'.size == leaf_max_size
            then split_leaf t pid p' path >>= (λ t'. ok (t', true))
            else ok (put t pid (leaf p'), true))

    -- `Insert` after `TryOptimisticInsert` has failed.
    unfoldable pub insert_pessimistic :
        ℕ → Tree Key Value → Key → Value → Outcome (Tree Key Value × Bool)
    insert_pessimistic fuel t key value = elim t.root [
      | none ↦ in_slots leaf_slot_cnt 0 (ok (start_tree t key value, true))
      | some pid ↦ descend rank t.pages key fuel pid [] >>= insert_in_leaf t key value
    ]

    abbrev pub insert_if_room :
        Tree Key Value
        → Key
        → Value
        → ℕ × LeafPage Key Value × List ℕ
        → Outcome (Tree Key Value × Bool)
    insert_if_room t key value (pid, p, path) =
        let lo = lower_bound rank p key in
        if leb p.max_size (p.size + 1)
        then ok (t, false)
        else if is_at rank p key lo
        then ok (t, false)
        else in_slots leaf_slot_cnt p.size
            (ok (put t pid (leaf (Leaf.insert_at p lo key value)), true))

    unfoldable pub try_optimistic_insert :
        ℕ → Tree Key Value → Key → Value → Outcome (Tree Key Value × Bool)
    try_optimistic_insert fuel t key value = elim t.root [
      | none ↦ ok (t, false)
      | some pid ↦ descend rank t.pages key fuel pid [] >>= insert_if_room t key value
    ]

    unfoldable pub insert : ℕ → Tree Key Value → Key → Value → Outcome (Tree Key Value × Bool)
    insert fuel t key value = try_optimistic_insert fuel t key value >>= λ r. elim r.1 [
      | true ↦ ok (r.0, true)
      | false ↦ insert_pessimistic fuel t key value
    ]
