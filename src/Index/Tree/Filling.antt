-- ===== src/Index/Tree/Filling.antt =====
-- A new key in a leaf that is not full then: the tree afterwards.
use cmu_db_15445_project.Prelude.{
  ℕ, ◌≡◌, ◌≢◌, sym, ◌∙◌, Option, none, some, inl, inr, arith, Bool-cases, ◌==◌,
}
use cmu_db_15445_project.Index.Leaf.{LeafPage}
use cmu_db_15445_project.Index.Internal.{InternalPage}
use cmu_db_15445_project.Index.Tree.{leaf, internal, Tree, put}
use cmu_db_15445_project.Index.Tree.Frames.{put-here, put-elsewhere, put-still, put-was}
use cmu_db_15445_project.Index.Tree.Shape.{Shape, IsLeaf, Inv}

module _ {Key Value : Type 0} (rank : Key → ℕ) (limit leaf_max_size internal_max_size : ℕ)
    (g : Shape) (shown : ℕ → ℕ) (loose : Option ℕ) (t : Tree Key Value)
    (v : Inv rank limit leaf_max_size internal_max_size g shown loose t) where
  module _ (pid : ℕ) (p q : LeafPage Key Value) (e : t.pages pid ≡ some (leaf p)) where
    here : (put t pid (leaf q)).pages pid ≡ some (leaf q)
    here = put-here t pid (leaf q)

    elsewhere : (x : ℕ) → x ≢ pid → (put t pid (leaf q)).pages x ≡ t.pages x
    elsewhere = put-elsewhere t pid (leaf q)

    still : (x : ℕ) → t.pages x ≢ none → (put t pid (leaf q)).pages x ≢ none
    still = put-still t pid (leaf q)

    was : (x : ℕ) → (put t pid (leaf q)).pages x ≢ none → t.pages x ≢ none
    was = put-was t pid (leaf q) (λ y. let z : some (leaf p) ≡ none = sym e ∙ y in absurd cc)

    inner :
        (x : ℕ) (k : InternalPage Key)
        → (put t pid (leaf q)).pages x ≡ some (internal k)
        → t.pages x ≡ some (internal k)
    inner x k h = elim (Bool-cases (x == pid)) [
      | inl same ↦
          let s : x ≡ pid = ground arith in
          let z : (put t pid (leaf q)).pages pid ≡ some (internal k) = rw s at h in
          let y : some (leaf q) ≡ some (internal k) = sym here ∙ z in absurd cc
      | inr other ↦ let n : x ≢ pid = ground arith in sym (elsewhere x n) ∙ h
    ]

    -- A leaf is replaced by one with keys of its range.
    pub put-Inv :
        IsLeaf rank limit leaf_max_size internal_max_size g pid q
        → Inv rank limit leaf_max_size internal_max_size g shown loose (put t pid (leaf q))
    put-Inv l = record {
      root = λ r er. let (f, a, b, c) = v.root r er in (still r f, a, b, c);
      rootless = λ er x. let y = v.rootless er pid in absurd cc;
      tallest = λ r x er f. v.tallest r x er (was x f);
      linked = λ x f n m.
          let (k, ek, a, b) = v.linked x (was x f) n m in
          let o : g.up x ≢ pid = λ s.
            let z : t.pages pid ≡ some (internal k) = rw s at ek in
            let y : some (leaf p) ≡ some (internal k) = sym e ∙ z in absurd cc in
          (k, elsewhere (g.up x) o ∙ ek, a, b);
      ordered = λ x f. v.ordered x (was x f);
      fresh = λ x h.
          let o : x ≢ pid = λ s.
            let z : t.pages pid ≡ none = rw s at (v.fresh x h) in
            let y : some (leaf p) ≡ none = sym e ∙ z in absurd cc in
          elsewhere x o ∙ v.fresh x h;
      leaves = λ x k ek. elim (Bool-cases (x == pid)) [
        | inl same ↦
            let s : x ≡ pid = ground arith in
            let z : (put t pid (leaf q)).pages pid ≡ some (leaf k) = rw s at ek in
            let y : some (leaf q) ≡ some (leaf k) = sym here ∙ z in
            let w : q ≡ k = cc in rw (s, ← w) l
        | inr other ↦ let n : x ≢ pid = ground arith in v.leaves x k (sym (elsewhere x n) ∙ ek)
      ];
      nodes = λ x k ek.
          let n = v.nodes x k (inner x k ek) in
          record {
            some_child = n.some_child;
            sorted = n.sorted;
            within = n.within;
            formatted = λ j jl. still (k.page_id_array j) (n.formatted j jl);
            above = n.above;
            up = n.up;
            at = n.at;
            low = n.low;
            high = n.high;
          };
    }
