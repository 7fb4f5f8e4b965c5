-- ===== src/Index/Tree/Optimism.antt =====
-- The optimistic attempts at first, and the operations without them.
use cmu_db_15445_project.Prelude.{
  ℕ, zero, suc, ◌+◌, ◌≡◌, refl, false, true, Option, some, List, [], ◌∷◌, inl, inr, arith,
  Bool-cases, Option-cases, Outcome, ok, crash, leb, ◌==◌, ◌⊎◌, ◌-◌, Bool,
}
use cmu_db_15445_project.Index.Leaf
use cmu_db_15445_project.Index.Leaf.{LeafPage}
use cmu_db_15445_project.Index.Internal.{InternalPage}
use cmu_db_15445_project.Index.Tree.{
  Page, leaf, Tree, put, lower_bound, is_at, upper_bound, descend,
}
use cmu_db_15445_project.Index.Tree.Insertion.{try_optimistic_insert, insert_pessimistic, insert}
use cmu_db_15445_project.Index.Tree.Descent.{page_cases}

-- A descent crashes, or ends at a leaf that is one of the pages.
pub descend_cases :
    {Key Value : Type 0} (rank : Key → ℕ) (pages : ℕ → Option (Page Key Value)) (key : Key)
    (fuel pid : ℕ) (path : List ℕ)
    → (descend rank pages key fuel pid path ≡ crash)
      ⊎ ((q : ℕ) × (p : LeafPage Key Value) × (rest : List ℕ) × (descend rank pages key fuel pid
              path
            ≡ ok (q, p, rest))
          × (pages q ≡ some (leaf p)))
unfolding descend
descend_cases rank pages key zero pid path = inl refl
descend_cases rank pages key (suc fuel) pid path = elim (page_cases (pages pid)) [
  | inl e ↦ inl (rw (e, descend) refl)
  | inr (inl (p, e)) ↦ inr (pid, p, path, rw (e, descend) refl, e)
  | inr (inr (p, e)) ↦
      rw (e, descend)
        (descend_cases rank pages key fuel (p.page_id_array (upper_bound rank p key - 1))
          (pid ∷ path))
]

module _ {Key Value : Type 0} (rank : Key → ℕ) (leaf_max_size internal_max_size : ℕ)
    (leaf_slot_cnt internal_slot_cnt : ℕ) (blank_leaf : LeafPage Key Value)
    (blank_internal : InternalPage Key) where
  module _ (fuel : ℕ) (t : Tree Key Value) (key : Key) (value : Value) where
    abbrev attempt : Outcome (Tree Key Value × Bool)
    attempt =
        try_optimistic_insert rank leaf_max_size internal_max_size leaf_slot_cnt internal_slot_cnt
          blank_leaf blank_internal fuel t key value

    abbrev without : Outcome (Tree Key Value × Bool)
    without =
        insert_pessimistic rank leaf_max_size internal_max_size leaf_slot_cnt internal_slot_cnt
          blank_leaf blank_internal fuel t key value

    -- The attempt leaves the tree to the pessimistic part, or does the same.
    attempt_cases :
        ((pid : ℕ) (p : LeafPage Key Value)
          → t.pages pid ≡ some (leaf p)
          → p.max_size ≡ leaf_max_size)
        → (attempt ≡ ok (t, false))
          ⊎ (((attempt ≡ crash) × (without ≡ crash))
              ⊎ ((t' : Tree Key Value) × (attempt ≡ ok (t', true)) × (without ≡ ok (t', true))))
    unfolding try_optimistic_insert insert_pessimistic Leaf.insert_at
    attempt_cases h = elim (Option-cases t.root) [
      | inl e ↦ inl (simp (e, try_optimistic_insert) refl)
      | inr (r, e) ↦ elim (descend_cases rank t.pages key fuel r []) [
        | inl d ↦
            inr
              (inl (simp (e, try_optimistic_insert, d) refl, simp (e, insert_pessimistic, d) refl))
        | inr (q, p, rest, d, ep) ↦ elim (Bool-cases (leb p.max_size (p.size + 1))) [
          | inl full ↦ inl (simp (e, try_optimistic_insert, d, full) refl)
          | inr room ↦ elim (Bool-cases (is_at rank p key (lower_bound rank p key))) [
            | inl there ↦ inl (simp (e, try_optimistic_insert, d, room, there) refl)
            | inr new ↦ elim (Bool-cases (leb leaf_slot_cnt p.size)) [
              | inl past ↦ inr (
                  inl (
                    simp (e, try_optimistic_insert, d, room, new, past) refl,
                    simp (e, insert_pessimistic, d, new, past) refl,
                  ))
              | inr fits ↦
                  let below : (p.size + 1 == leaf_max_size) ≡ false = ground (arith, h q p ep) in
                  inr (
                    inr (
                      put t q (leaf (Leaf.insert_at p (lower_bound rank p key) key value)),
                      simp (e, try_optimistic_insert, d, room, new, fits) refl,
                      simp (e, insert_pessimistic, d, new, fits, below) refl,
                    ))
            ]
          ]
        ]
      ]
    ]

    -- When every leaf has the maximum size of the tree, `Insert` with its optimistic attempt does what
    -- the pessimistic part alone does: the same result, the same tree, and a crash exactly when that
    -- one crashes.
    pub insert-insert_pessimistic :
        ((pid : ℕ) (p : LeafPage Key Value)
          → t.pages pid ≡ some (leaf p)
          → p.max_size ≡ leaf_max_size)
        → insert rank leaf_max_size internal_max_size leaf_slot_cnt internal_slot_cnt blank_leaf
            blank_internal fuel t key value
          ≡ without
    unfolding insert
    insert-insert_pessimistic h = elim (attempt_cases h) [
      | inl e ↦ simp (insert, e) refl
      | inr (inl (e, e')) ↦ simp (insert, e, e') refl
      | inr (inr (t', e, e')) ↦ simp (insert, e, e') refl
    ]
