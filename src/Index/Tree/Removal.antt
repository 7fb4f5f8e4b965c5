-- ===== src/Index/Tree/Removal.antt =====
-- Removal: `TryOptimisticRemove` and `Remove`.
--
-- `write_set_` is a list with its back first: the leaf, its parent, and so on to the root.
use cmu_db_15445_project.Prelude.{
  ℕ, zero, suc, ◌/◌, Bool, true, false, not, Option, none, some, List, [], ◌∷◌, ltb, leb, ◌==◌,
  ◌&&◌, if◌then◌else◌, Outcome, ok, crash, ◌>>=◌,
}
use cmu_db_15445_project.Index.Leaf
use cmu_db_15445_project.Index.Leaf.{LeafPage, get_live_size}
use cmu_db_15445_project.Index.Internal
use cmu_db_15445_project.Index.Internal.{InternalPage, value_index}
use cmu_db_15445_project.Index.Tree.{Page, leaf, internal, Tree, put, descend}
use cmu_db_15445_project.Index.Tree.Repair.{
  as_page, delete_pages, update_ancestor_min_key, fix_levels, shrink_root, collapse,
}

abbrev pub equal : {Key : Type 0} → (Key → ℕ) → Key → Key → Bool
equal rank a b = rank a == rank b

module _ {Key Value : Type 0} where
  module _ (rank : Key → ℕ) (tomb_cnt : ℕ) where
    -- The descent of `Remove`, with `Lookup`.
    unfoldable pub descend_writing :
        (ℕ → Option (Page Key Value))
        → Key
        → ℕ
        → ℕ
        → List ℕ
        → Outcome (LeafPage Key Value × ℕ × List ℕ)
    descend_writing pages key zero pid path = crash
    descend_writing pages key (suc fuel) pid path = elim (pages pid) [
      | none ↦ crash
      | some page ↦ elim page [
        | leaf p ↦ ok (p, pid, path)
        | internal p ↦
            descend_writing pages key fuel (Internal.lookup (λ a b. leb (rank a) (rank b)) p key)
              (pid ∷ path)
      ]
    ]

    -- The first key of a leaf is another one than before.
    abbrev pub first_key_changed : LeafPage Key Value → LeafPage Key Value → Bool
    first_key_changed p p' =
        ltb 0 p.size && ltb 0 p'.size && not (equal rank (p.key_array 0) (p'.key_array 0))

    -- After an underflow: the levels are repaired, the root shrinks, and the pages are deleted.
    abbrev pub repair : ℕ → ℕ → List ℕ → Tree Key Value → Outcome (Tree Key Value)
    repair fuel root write_set t = fix_levels write_set t [] >>= (λ r.
        as_page (r.0.pages root) >>= (λ page.
          let (shrunk, gone) = shrink_root root r.0 r.1 page in
          collapse fuel (delete_pages gone shrunk)))

    abbrev pub remove_in_leaf :
        ℕ → ℕ → Tree Key Value → Key → LeafPage Key Value × ℕ × List ℕ → Outcome (Tree Key Value)
    remove_in_leaf fuel root t key (p, pid, path) =
        let (p', removed) = Leaf.remove (equal rank) tomb_cnt p key in
        let t' = put t pid (leaf p') in
        if not removed
        then ok t
        else if pid == root
        then (if get_live_size p' == 0
            then ok (delete_pages (pid ∷ []) (record t' { root = none }))
            else ok t')
        else (if first_key_changed p p'
            then update_ancestor_min_key (pid ∷ path) t' pid (p'.key_array 0)
            else ok (t', pid ∷ path))
          >>= (λ r. if leb (p'.max_size / 2) p'.size then ok r.0 else repair fuel root r.1 r.0)

    unfoldable pub remove_pessimistic : ℕ → Tree Key Value → Key → Outcome (Tree Key Value)
    remove_pessimistic fuel t key = elim t.root [
      | none ↦ ok t
      | some root ↦ descend_writing t.pages key fuel root [] >>= remove_in_leaf fuel root t key
    ]

    abbrev pub remove_if_above :
        Tree Key Value → Key → ℕ × LeafPage Key Value × List ℕ → Outcome (Tree Key Value × Bool)
    remove_if_above t key (pid, p, path) =
        let (p', removed) = Leaf.remove (equal rank) tomb_cnt p key in
        if leb (get_live_size p) (p.max_size / 2)
        then ok (t, false)
        else ok (put t pid (leaf p'), removed)

    unfoldable pub try_optimistic_remove :
        ℕ → Tree Key Value → Key → Outcome (Tree Key Value × Bool)
    try_optimistic_remove fuel t key = elim t.root [
      | none ↦ ok (t, false)
      | some root ↦ descend rank t.pages key fuel root [] >>= remove_if_above t key
    ]

    unfoldable pub remove : ℕ → Tree Key Value → Key → Outcome (Tree Key Value)
    remove fuel t key = try_optimistic_remove fuel t key >>= λ r. elim r.1 [
      | true ↦ ok r.0
      | false ↦ remove_pessimistic fuel t key
    ]
