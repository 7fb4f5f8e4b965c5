-- ===== src/Index/Tree/Starting.antt =====
-- The first key of a tree.
use cmu_db_15445_project.Prelude.{
  ℕ, ◌<◌, ◌≤◌, ◌≡◌, ◌≢◌, refl, ap, sym, ◌∙◌, Bool, false, none, some, inl, inr, arith, Option-cases,
}
use cmu_db_15445_project.Index.Leaf
use cmu_db_15445_project.Index.Leaf.{LeafPage}
use cmu_db_15445_project.Index.Leaf.Entries.{entry_at}
use cmu_db_15445_project.Index.Internal.{InternalPage}
use cmu_db_15445_project.Index.Tree.{Page, leaf, internal, Tree}
use cmu_db_15445_project.Index.Tree.Insertion.{start_tree}
use cmu_db_15445_project.Index.Tree.Shape.{Shape, IsLeaf}
use cmu_db_15445_project.Index.Tree.Frames.{put-here, put-elsewhere, put_cases}
use cmu_db_15445_project.Index.Tree.Adding.{EntryIn, same-Matches}
use cmu_db_15445_project.Index.Tree.Growing.{IsGrown}

module _ {Key Value : Type 0} (rank : Key → ℕ) (limit leaf_max_size internal_max_size : ℕ) where
  module _ (leaf_slot_cnt internal_slot_cnt : ℕ) (blank_leaf : LeafPage Key Value)
      (blank_internal : InternalPage Key) (two : 2 ≤ leaf_max_size) (two' : 2 ≤ internal_max_size)
      (wide : leaf_max_size ≤ leaf_slot_cnt) (wide' : internal_max_size < internal_slot_cnt)
      (rank_lt : (key : Key) → rank key < limit) (t : Tree Key Value) (height : ℕ) (key : Key)
      (value : Value) where
    abbrev first_leaf : LeafPage Key Value
    first_leaf = Leaf.insert_at (Leaf.init leaf_max_size blank_leaf) 0 key value

    first_leaf-entry :
        (first_leaf.size ≡ 1)
        × (first_leaf.max_size ≡ leaf_max_size)
        × (entry_at first_leaf 0 ≡ (key, value, false))
    unfolding Leaf.insert_at Leaf.init
    first_leaf-entry = (refl, refl, refl)

    abbrev pub started : Tree Key Value
    started =
        start_tree rank leaf_max_size internal_max_size leaf_slot_cnt internal_slot_cnt blank_leaf
          blank_internal t key value

    abbrev flat : Shape
    flat = record { lo = λ x. 0; hi = λ x. limit; level = λ x. 0; up = λ x. x; at = λ x. 0 }

    module _ (vacant : (x : ℕ) → t.pages x ≡ none) where
      -- The only page is the new leaf.
      only :
          (x : ℕ) (page : Page Key Value)
          → started.pages x ≡ some page
          → (t.next_page_id ≡ x) × (leaf first_leaf ≡ page)
      only x page ex = elim (put_cases t t.next_page_id (leaf first_leaf) x page ex) [
        | inl (a, b) ↦ (sym a, b)
        | inr (o, ex') ↦ let z : none ≡ some page = sym (vacant x) ∙ ex' in absurd cc
      ]

      only_leaf :
          (x : ℕ) (l : LeafPage Key Value) → started.pages x ≡ some (leaf l) → first_leaf ≡ l
      only_leaf x l ex = let z = (only x (leaf l) ex).1 in cc

      no_node : (x : ℕ) (l : InternalPage Key) → started.pages x ≢ some (internal l)
      no_node x l ex = let z = (only x (internal l) ex).1 in absurd cc

      first_leaf-IsLeaf :
          (x : ℕ) → IsLeaf rank limit leaf_max_size internal_max_size flat x first_leaf
      first_leaf-IsLeaf x =
          let (size, max, entry) = first_leaf-entry in
          record {
            bottom = refl;
            maximum = max;
            sorted = λ i j a b. absurd (omega (arith, a, b, size));
            within = λ j b.
                let z : j ≡ 0 = omega (arith, b, size) in
                rw z (omega arith, rw (ap (λ y. rank y.0) entry) (rank_lt key));
          }

      at_zero :
          (k : Key) (w : Value) (d : Bool)
          → EntryIn rank first_leaf k w d
          → (rank k ≡ rank key) × (value ≡ w) × (false ≡ d)
      at_zero k w d (j, b, m) =
          let (size, max, entry) = first_leaf-entry in
          let z : j ≡ 0 = omega (arith, b, size) in
          let m' =
            same-Matches rank (key, value, false) (entry_at first_leaf j) k w d
              (sym entry ∙ ap (entry_at first_leaf) (sym z)) m in
          (sym m'.0, m'.1, m'.2)

      pub started-IsGrown :
          IsGrown rank limit leaf_max_size internal_max_size height t key value started
      started-IsGrown =
          let n = t.next_page_id in
          let (size, max, entry) = first_leaf-entry in
          let here = put-here t n (leaf first_leaf) in
          let root_is : (r : ℕ) → started.root ≡ some r → n ≡ r = λ r er. cc in
          (
            (
              0,
              omega arith,
              (
                flat,
                record {
                  root = λ r er. (
                    (λ y.
                        let z : some (leaf first_leaf) ≡ none =
                          sym here ∙ ap started.pages (root_is r er) ∙ y in
                        absurd cc),
                    refl,
                    refl,
                    refl,
                  );
                  rootless = λ er x. absurd cc;
                  tallest = λ r x er f. omega arith;
                  linked = λ x f no r. elim (Option-cases (started.pages x)) [
                    | inl y ↦ absurd (f y)
                    | inr (page, y) ↦ absurd (r (ap some (only x page y).0))
                  ];
                  ordered = λ x f. let b = rank_lt key in omega (arith, b);
                  fresh =
                      λ x l. put-elsewhere t n (leaf first_leaf) x (omega (arith, l)) ∙ vacant x;
                  leaves = λ x l ex. let z = only_leaf x l ex in rw⁻¹ z (first_leaf-IsLeaf x);
                  nodes = λ x l ex. absurd (no_node x l ex);
                },
                record {
                  leaves =
                      λ x l no ex. let z = only_leaf x l ex in rw⁻¹ z (omega (arith, size, two));
                  nodes = λ x l no ex. absurd (no_node x l ex);
                },
                λ r er. refl,
              ),
            ),
            (
              n,
              first_leaf,
              here,
              (
                0,
                omega (arith, size),
                same-Matches rank _ _ key value false entry (refl, refl, refl),
              ),
            ),
            (λ k w d (x, l, ex, m).
                let z : none ≡ some (leaf l) = sym (vacant x) ∙ ex in absurd cc),
            λ k w d (x, l, ex, m).
                let z = only_leaf x l ex in inr (at_zero k w d (rw (sym z) at m)),
          )
