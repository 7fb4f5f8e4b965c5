-- ===== src/Index/Tree/FirstKey.antt =====
-- Removal of the first key of a leaf that keeps other keys.
use cmu_db_15445_project.Prelude.{
  ℕ, suc, ◌-◌, ◌/◌, ◌≤◌, ◌≡◌, ◌≢◌, refl, ◌∙◌, false, true, some, List, [], arith, ok, crash, leb,
  ◌==◌,
}
use cmu_db_15445_project.Index.Arrays.{shift_left-at}
use cmu_db_15445_project.Index.Leaf
use cmu_db_15445_project.Index.Leaf.{LeafPage, get_live_size}
use cmu_db_15445_project.Index.Tree.{Tree, descend}
use cmu_db_15445_project.Index.Tree.Repair.{update_ancestor_min_key}
use cmu_db_15445_project.Index.Tree.Removal.{
  equal, descend_writing, first_key_changed, remove_in_leaf, remove_pessimistic,
  try_optimistic_remove, remove,
}

module _ {Key Value : Type 0} (rank : Key → ℕ) (p : LeafPage Key Value) (key : Key)
    (more : 2 ≤ p.size) (plain : p.tombstones ≡ []) (first : rank (p.key_array 0) ≡ rank key) where
  removed_first : Leaf.remove (equal rank) 0 p key ≡ (Leaf.remove_at p 0, true)
  unfolding Leaf.remove Leaf.remove_from
  removed_first =
      let size : p.size ≡ suc (p.size - 1) = omega (arith, more) in
      let same : (rank (p.key_array 0) == rank key) ≡ true = ground arith in
      simp (Leaf.remove, size, Leaf.remove_from, same, plain) refl

  changed : rank (p.key_array 1) ≢ rank key → first_key_changed rank 0 p (Leaf.remove_at p 0) ≡ true
  unfolding Leaf.remove_at
  changed n = ground (arith, shift_left-at p.key_array 0 (p.size - 0 - 1) 0)

  -- Without tombstones (`tomb_cnt` 0), `Remove` of the first key of a leaf below the root, which has
  -- other keys but no more entries than its minimum, takes the leaf for an internal page: in the
  -- model, a crash.
  pub remove-crashes :
      (fuel r pid : ℕ) (t : Tree Key Value) (path : List ℕ)
      → t.root ≡ some r
      → pid ≢ r
      → descend rank t.pages key fuel r [] ≡ ok (pid, p, path)
      → descend_writing rank 0 t.pages key fuel r [] ≡ ok (p, pid, path)
      → p.size ≤ p.max_size / 2
      → rank (p.key_array 1) ≢ rank key
      → remove rank 0 fuel t key ≡ crash
  unfolding remove try_optimistic_remove remove_pessimistic get_live_size update_ancestor_min_key
  remove-crashes fuel r pid t path e n d w few other =
      let new = changed other in
      let gone = removed_first in
      let below : leb (p.size - 0) (p.max_size / 2) ≡ true = ground arith in
      let apart : (pid == r) ≡ false = ground arith in
      let here : (pid == pid) ≡ true = ground arith in
      let attempt : try_optimistic_remove rank 0 fuel t key ≡ ok (t, false) =
        simp (try_optimistic_remove, e, d, gone, get_live_size, plain, below) refl in
      let after : remove_in_leaf rank 0 fuel r t key (p, pid, path) ≡ crash =
        simp (gone, apart, new, update_ancestor_min_key, here) refl in
      let rest : remove_pessimistic rank 0 fuel t key
          ≡ remove_in_leaf rank 0 fuel r t key (p, pid, path) =
        simp (remove_pessimistic, e, w) refl in
      simp (remove, attempt) (rest ∙ after)
