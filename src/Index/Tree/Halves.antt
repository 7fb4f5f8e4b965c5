-- ===== src/Index/Tree/Halves.antt =====
-- The two parts of a full leaf.
use cmu_db_15445_project.Prelude.{
  ℕ, ◌+◌, ◌-◌, ◌/◌, ◌<◌, ◌≤◌, ◌≡◌, ◌≢◌, refl, ap, sym, ◌∙◌, none, some, arith,
}
use cmu_db_15445_project.Index.Arrays.{copy-at}
use cmu_db_15445_project.Index.Leaf
use cmu_db_15445_project.Index.Leaf.{LeafPage}
use cmu_db_15445_project.Index.Leaf.Entries.{entry_at, has_tombstone-below, has_tombstone-from}
use cmu_db_15445_project.Index.Tree.{leaf, internal, Tree}
use cmu_db_15445_project.Index.Tree.Shape.{Shape, IsLeaf, Inv, Pending}
use cmu_db_15445_project.Index.Tree.Splitting.{
  split_shape, split_shown, split_tree, old_page, split-Pending,
}

module _ {Key Value : Type 0} (rank : Key → ℕ) (limit leaf_max_size internal_max_size : ℕ) where
  module _ (g : Shape) (t : Tree Key Value)
      (v : Inv rank limit leaf_max_size internal_max_size g g.hi none t) (pid : ℕ) where
    abbrev n : ℕ
    n = t.next_page_id

    module _ (p blank : LeafPage Key Value) (e : t.pages pid ≡ some (leaf p))
        (two : 2 ≤ p.size) where
      abbrev mid : ℕ
      mid = p.size / 2

      abbrev halves : LeafPage Key Value × LeafPage Key Value
      halves = Leaf.split p (Leaf.init leaf_max_size blank)

      abbrev pub left : LeafPage Key Value
      left = record (halves.0) { next_page_id = some n }

      abbrev pub right : LeafPage Key Value
      right = record (halves.1) { next_page_id = p.next_page_id }

      pub left-at : (j : ℕ) → j < mid → entry_at left j ≡ entry_at p j
      unfolding Leaf.split
      left-at j l = ground (arith, has_tombstone-below mid j p.tombstones l)

      pub right-at : (j : ℕ) → j < p.size - mid → entry_at right j ≡ entry_at p (mid + j)
      unfolding Leaf.split Leaf.init
      right-at j l = ground (
        arith,
        has_tombstone-from mid j p.tombstones,
        copy-at p.key_array mid blank.key_array 0 (p.size - mid) j,
        copy-at p.rid_array mid blank.rid_array 0 (p.size - mid) j,
      )

      pub left-size : left.size ≡ mid
      unfolding Leaf.split
      left-size = refl

      pub right-size : right.size ≡ p.size - mid
      unfolding Leaf.split
      right-size = refl

      left-max : (left.max_size ≡ p.max_size) × (right.max_size ≡ leaf_max_size)
      unfolding Leaf.split Leaf.init
      left-max = (refl, refl)

      abbrev h : IsLeaf rank limit leaf_max_size internal_max_size g pid p
      h = v.leaves pid p e

      key-left : (j : ℕ) → j < mid → rank (left.key_array j) ≡ rank (p.key_array j)
      key-left j l = ap (λ x. rank x.0) (left-at j l)

      key-right :
          (j : ℕ) → j < p.size - mid → rank (right.key_array j) ≡ rank (p.key_array (mid + j))
      key-right j l = ap (λ x. rank x.0) (right-at j l)

      pub separator : rank (right.key_array 0) ≡ rank (p.key_array mid)
      separator =
          let z : mid + 0 ≡ mid = omega arith in key-right 0 (omega (arith, two)) ∙ rw z refl

      abbrev s : ℕ
      s = rank (right.key_array 0)

      inside : (g.lo pid < s) × (s < g.hi pid)
      inside = (
        omega (
          arith,
          separator,
          h.sorted 0 mid (omega (arith, two)) (omega (arith, two)),
          (h.within 0 (omega (arith, two))).0,
        ),
        omega (arith, separator, (h.within mid (omega (arith, two))).1),
      )

      pub halves-Pending :
          Pending rank limit leaf_max_size internal_max_size
            (split_shape g pid n s 0)
            (split_shown g pid n)
            pid
            n
            (split_tree t pid (leaf left) (leaf right))
      halves-Pending =
          let f : t.pages pid ≢ none = λ y. let z : some (leaf p) ≡ none = sym e ∙ y in absurd cc in
          let o =
            old_page rank limit leaf_max_size internal_max_size g t v pid s 0 f (leaf left)
              (leaf right) inside.0 inside.1 pid f in
          let max = left-max in
          split-Pending rank limit leaf_max_size internal_max_size g t v pid s 0 f (leaf left)
            (leaf right) inside.0 inside.1
            (record {
              bottom = ground (arith, h.bottom);
              maximum = max.0 ∙ h.maximum;
              sorted = λ i j a b.
                  let b' : j < mid = omega (arith, b, left-size) in
                  omega (
                    arith,
                    key-left i (omega (arith, a, b')),
                    key-left j b',
                    h.sorted i j a (omega (arith, b')),
                  );
              within = λ j b.
                  let b' : j < mid = omega (arith, b, left-size) in
                  ground (
                    arith,
                    key-left j b',
                    h.within j (omega (arith, b')),
                    h.sorted j mid b' (omega (arith, two)),
                    separator,
                  );
            })
            (record {
              bottom = ground (arith, h.bottom);
              maximum = max.1;
              sorted = λ i j a b.
                  let b' : j < p.size - mid = omega (arith, b, right-size) in
                  omega (
                    arith,
                    key-right i (omega (arith, a, b')),
                    key-right j b',
                    h.sorted (mid + i) (mid + j) (omega (arith, a)) (omega (arith, b')),
                  );
              within = λ j b.
                  let b' : j < p.size - mid = omega (arith, b, right-size) in
                  ground (
                    arith,
                    key-right j b',
                    h.within (mid + j) (omega (arith, b')),
                    h.sorted mid (mid + j),
                    separator,
                  );
            })
            (λ x fx r u.
              let (q, eq, _, _) = v.linked x fx (λ y. cc) r in
              let z : some (internal q) ≡ some (leaf p) = sym eq ∙ ap t.pages u ∙ e in absurd cc)
