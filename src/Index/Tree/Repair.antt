-- ===== src/Index/Tree/Repair.antt =====
-- The part of `Remove` after the leaf: `UpdateAncestorMinKey`, the repair of pages with too few
-- entries, and the root that shrinks.
--
-- `write_set_` is a list with its back first: the leaf, its parent, and so on to the root.
use cmu_db_15445_project.Prelude.{
  ℕ, zero, suc, ◌+◌, ◌-◌, ◌/◌, true, false, Option, none, some, List, [], ◌∷◌, ltb, leb, ◌==◌,
  if◌then◌else◌, update, Outcome, ok, crash, ◌>>=◌,
}
use cmu_db_15445_project.Index.Arrays.{assign}
use cmu_db_15445_project.Index.Leaf
use cmu_db_15445_project.Index.Leaf.{LeafPage, get_live_size}
use cmu_db_15445_project.Index.Internal
use cmu_db_15445_project.Index.Internal.{InternalPage, value_index}
use cmu_db_15445_project.Index.Tree.{Page, leaf, internal, Tree, put, as_leaf, as_internal}

-- `SetKeyAt`.
abbrev pub set_key_at : {Key : Type 0} → InternalPage Key → ℕ → Key → InternalPage Key
set_key_at p i key = record p { key_array = assign p.key_array i key }

-- The index after the one of `ValueIndex`, which is -1 for a child that is not there.
abbrev pub next_index : Option ℕ → ℕ
next_index none = 0
next_index (some i) = i + 1

module _ {Key Value : Type 0} where
  -- `GetSize` and `GetMinSize`.
  abbrev pub page_size : Page Key Value → ℕ
  page_size (leaf p) = p.size
  page_size (internal p) = p.size

  abbrev pub min_size : Page Key Value → ℕ
  min_size (leaf p) = p.max_size / 2
  min_size (internal p) = p.max_size / 2

  -- `DeletePage` of each.
  abbrev pub delete_pages : List ℕ → Tree Key Value → Tree Key Value
  delete_pages [] t = t
  delete_pages (pid ∷ pids) t = delete_pages pids (record t { pages = update t.pages pid none })

  abbrev pub or_else :
      Outcome (Option (Tree Key Value))
      → Outcome (Tree Key Value × Option ℕ)
      → Outcome (Tree Key Value × Option ℕ)
  or_else m k = m >>= λ o. elim o [ some t ↦ ok (t, none) | none ↦ k ]

  -- `UpdateAncestorMinKey`. Its first turn takes the leaf at the back for an internal page.
  unfoldable pub update_ancestor_min_key :
      List ℕ → Tree Key Value → ℕ → Key → Outcome (Tree Key Value × List ℕ)
  update_ancestor_min_key [] t child key = ok (t, [])
  update_ancestor_min_key (parent_pid ∷ rest) t child key =
      as_internal (t.pages parent_pid) >>= λ parent. elim (value_index parent child) [
        | some (suc i) ↦ ok (put t parent_pid (internal (set_key_at parent (suc i) key)), rest)
        | _ ↦ update_ancestor_min_key rest t parent_pid key
      ]

  -- The repair of the node `pid`: it borrows an entry from a sibling, or it is merged with one, and
  -- then the page that is empty is returned. `next` is `child_index + 1`, which is 0 when `parent` does
  -- not have the node.
  module _ (t : Tree Key Value) (parent_pid : ℕ) (parent : InternalPage Key) (next pid : ℕ) where
    -- The node has no sibling. With `child_index` -1 the size of the parent would be -1 too.
    abbrev pub remove_only_child : Outcome (Tree Key Value × Option ℕ)
    remove_only_child =
        if next == 0
        then crash
        else ok (put t parent_pid (internal (Internal.remove_at parent (next - 1))), some pid)

    module _ (p : LeafPage Key Value) where
      abbrev pub borrow_left : Outcome (Option (Tree Key Value))
      borrow_left =
          if ltb 1 next
          then (let left_pid = parent.page_id_array (next - 2) in
              as_leaf (t.pages left_pid) >>= (λ left.
                let (left', p') = Leaf.move_last_to_front_of left p in
                if ltb (left.max_size / 2) left.size
                then ok (
                    some (
                      put (put (put t left_pid (leaf left')) pid (leaf p')) parent_pid
                        (internal (set_key_at parent (next - 1) (p'.key_array 0)))))
                else ok none))
          else ok none

      abbrev pub borrow_right : Outcome (Option (Tree Key Value))
      borrow_right =
          if ltb next parent.size
          then (let right_pid = parent.page_id_array next in
              as_leaf (t.pages right_pid) >>= (λ right.
                let (right', p') = Leaf.move_first_to_end_of right p in
                if ltb (right.max_size / 2) right.size
                then ok (
                    some (
                      put (put (put t right_pid (leaf right')) pid (leaf p')) parent_pid
                        (internal (set_key_at parent next (right'.key_array 0)))))
                else ok none))
          else ok none

      abbrev pub merge_leaf : Outcome (Tree Key Value × Option ℕ)
      merge_leaf =
          if ltb 1 next
          then (let left_pid = parent.page_id_array (next - 2) in
              as_leaf (t.pages left_pid) >>= (λ left.
                let (p', left') = Leaf.move_all_to p left in
                ok (
                  put (put (put t pid (leaf p')) left_pid (leaf left')) parent_pid
                      (internal (Internal.remove_at parent (next - 1))),
                  some pid,
                )))
          else if ltb next parent.size
          then (let right_pid = parent.page_id_array next in
              as_leaf (t.pages right_pid) >>= (λ right.
                let (right', p') = Leaf.move_all_to right p in
                ok (
                  put (put (put t right_pid (leaf right')) pid (leaf p')) parent_pid
                      (internal (Internal.remove_at parent next)),
                  some right_pid,
                )))
          else remove_only_child

      unfoldable pub fix_leaf : Outcome (Tree Key Value × Option ℕ)
      fix_leaf = or_else borrow_left (or_else borrow_right merge_leaf)

    module _ (p : InternalPage Key) where
      abbrev pub borrow_left_child : Outcome (Option (Tree Key Value))
      borrow_left_child =
          if ltb 1 next
          then (let left_pid = parent.page_id_array (next - 2) in
              as_internal (t.pages left_pid) >>= (λ left.
                let (left', p', new_parent_key) =
                  Internal.move_last_to_front_of left p (parent.key_array (next - 1)) in
                if ltb (left.max_size / 2) left.size
                then ok (
                    some (
                      put (put (put t left_pid (internal left')) pid (internal p')) parent_pid
                        (internal (set_key_at parent (next - 1) new_parent_key))))
                else ok none))
          else ok none

      abbrev pub borrow_right_child : Outcome (Option (Tree Key Value))
      borrow_right_child =
          if ltb next parent.size
          then (let right_pid = parent.page_id_array next in
              as_internal (t.pages right_pid) >>= (λ right.
                let (right', p', new_parent_key) =
                  Internal.move_first_to_end_of right p (parent.key_array next) in
                if ltb (right.max_size / 2) right.size
                then ok (
                    some (
                      put (put (put t right_pid (internal right')) pid (internal p')) parent_pid
                        (internal (set_key_at parent next new_parent_key))))
                else ok none))
          else ok none

      -- A page without children is not merged, only removed.
      abbrev pub merge_internal : Outcome (Tree Key Value × Option ℕ)
      merge_internal =
          if ltb 1 next
          then (let left_pid = parent.page_id_array (next - 2) in
              as_internal (t.pages left_pid) >>= (λ left.
                let (p', left') = Internal.move_all_to p left (parent.key_array (next - 1)) in
                let moved = put (put t pid (internal p')) left_pid (internal left') in
                ok (
                  put (if ltb 0 p.size then moved else t) parent_pid
                      (internal (Internal.remove_at parent (next - 1))),
                  some pid,
                )))
          else if ltb next parent.size
          then (let right_pid = parent.page_id_array next in
              as_internal (t.pages right_pid) >>= (λ right.
                let (right', p') = Internal.move_all_to right p (parent.key_array next) in
                let moved = put (put t right_pid (internal right')) pid (internal p') in
                ok (
                  put (if ltb 0 right.size then moved else t) parent_pid
                      (internal (Internal.remove_at parent next)),
                  some right_pid,
                )))
          else remove_only_child

      unfoldable pub fix_internal : Outcome (Tree Key Value × Option ℕ)
      fix_internal = or_else borrow_left_child (or_else borrow_right_child merge_internal)

    abbrev pub fix_page : Page Key Value → Outcome (Tree Key Value × Option ℕ)
    fix_page (leaf p) = fix_leaf p
    fix_page (internal p) = fix_internal p

  abbrev pub as_page : Option (Page Key Value) → Outcome (Page Key Value)
  as_page none = crash
  as_page (some p) = ok p

  -- The loop over the levels, with the pages to delete.
  unfoldable pub fix_levels : List ℕ → Tree Key Value → List ℕ → Outcome (Tree Key Value × List ℕ)
  fix_levels [] t pages_to_delete = crash
  fix_levels (root ∷ []) t pages_to_delete = ok (t, pages_to_delete)
  fix_levels (pid ∷ parent_pid ∷ rest) t pages_to_delete = as_page (t.pages pid) >>= (λ node.
      elim (leb (min_size node) (page_size node)) [
        | true ↦ ok (t, pages_to_delete)
        | false ↦ as_internal (t.pages parent_pid) >>= (λ parent.
            fix_page t parent_pid parent (next_index (value_index parent pid)) pid node >>= (λ r.
              elim r.1 [
                | none ↦ ok (r.0, pages_to_delete)
                | some gone ↦ fix_levels (parent_pid ∷ rest) r.0 (gone ∷ pages_to_delete)
              ]))
      ])

  -- The root that is left with one child or none.
  abbrev pub shrink_root : ℕ → Tree Key Value → List ℕ → Page Key Value → Tree Key Value × List ℕ
  shrink_root old_root t pages_to_delete (leaf p) = (t, pages_to_delete)
  shrink_root old_root t pages_to_delete (internal p) =
      if p.size == 1
      then (record t { root = some (p.page_id_array 0) }, old_root ∷ pages_to_delete)
      else if p.size == 0
      then (record t { root = none }, old_root ∷ pages_to_delete)
      else (t, pages_to_delete)

  -- The last loop of `Remove`.
  unfoldable pub collapse : ℕ → Tree Key Value → Outcome (Tree Key Value)
  collapse zero t = crash
  collapse (suc fuel) t = elim t.root [
    | none ↦ ok t
    | some root_pid ↦ as_page (t.pages root_pid) >>= (λ page. elim page [
      | leaf p ↦
          if p.size == 0 then ok (delete_pages (root_pid ∷ []) (record t { root = none })) else ok t
      | internal p ↦ elim p.size [
        | zero ↦ ok (delete_pages (root_pid ∷ []) (record t { root = none }))
        | suc zero ↦
            collapse fuel
              (delete_pages (root_pid ∷ []) (record t { root = some (p.page_id_array 0) }))
        | suc (suc n) ↦ ok t
      ]
    ])
  ]
