-- ===== src/Index/Tree/Rooting.antt =====
-- A new root over the two parts of a root that was split.
use cmu_db_15445_project.Prelude.{
  ℕ, suc, ◌+◌, ◌<◌, ◌≡◌, ◌≢◌, ap, sym, ◌∙◌, none, some, inl, inr, ◌==◌, if◌then◌else◌, arith,
}
use cmu_db_15445_project.Index.Leaf.{LeafPage}
use cmu_db_15445_project.Index.Internal.{InternalPage}
use cmu_db_15445_project.Index.Tree.{leaf, internal, Tree, put}
use cmu_db_15445_project.Index.Tree.Insertion.{new_root}
use cmu_db_15445_project.Index.Tree.Shape.{Shape, IsNode, Inv, Pending}
use cmu_db_15445_project.Index.Tree.Frames.{eq_cases, put-here, put-elsewhere, put-still, put_cases}

-- The root `m` over `c` and `n`.
abbrev pub rooted_shape : Shape → ℕ → ℕ → ℕ → ℕ → Shape
rooted_shape g limit c n m = record {
  lo = λ x. if x == m then 0 else g.lo x;
  hi = λ x. if x == m then limit else g.hi x;
  level = λ x. if x == m then g.level c + 1 else g.level x;
  up = λ x. if x == m then m else if x == c then m else if x == n then m else g.up x;
  at = λ x. if x == c then 0 else if x == n then 1 else g.at x;
}

module _ {Key Value : Type 0} (rank : Key → ℕ) (limit leaf_max_size internal_max_size : ℕ)
    (leaf_slot_cnt internal_slot_cnt : ℕ) (blank_leaf : LeafPage Key Value)
    (blank_internal : InternalPage Key) where
  module _ (g : Shape) (shown : ℕ → ℕ) (c n : ℕ) (t : Tree Key Value)
      (w : Pending rank limit leaf_max_size internal_max_size g shown c n t)
      (is_root : t.root ≡ some c) (key : Key) (same : rank key ≡ g.lo n) where
    abbrev v : Inv rank limit leaf_max_size internal_max_size g shown (some n) t
    v = w.inv

    abbrev m : ℕ
    m = t.next_page_id

    abbrev top : InternalPage Key
    top =
        new_root rank leaf_max_size internal_max_size leaf_slot_cnt internal_slot_cnt blank_leaf
          blank_internal c key n

    abbrev g' : Shape
    g' = rooted_shape g limit c n m

    abbrev t' : Tree Key Value
    t' = record t { root = some m; pages = (put t m (internal top)).pages; next_page_id = m + 1 }

    old_page : (x : ℕ) → t.pages x ≢ none → x ≢ m
    old_page x f s = f (ap t.pages s ∙ v.fresh m (omega arith))

    was : (x : ℕ) → x ≢ m → t'.pages x ≢ none → t.pages x ≢ none
    was x o f y = f (put-elsewhere t m (internal top) x o ∙ y)

    root_range :
        (g.lo c ≡ 0) × (g.hi n ≡ limit) × (g.lo c < rank key) × (rank key < limit) × (g.up c ≡ c)
    root_range =
        let (_, u, low, high) = v.root c is_root in
        let oc = v.ordered c w.split in
        let on = v.ordered n w.formatted in
        (
          low,
          omega (arith, high, w.rest),
          omega (arith, oc, w.cut, same),
          omega (arith, on, same, high, w.rest),
          u,
        )

    new_root-IsNode : IsNode rank limit leaf_max_size internal_max_size g' g'.hi t' m top
    new_root-IsNode =
        let cm = old_page c w.split in
        let nm = old_page n w.formatted in
        let (low, high, a, b, u) = root_range in
        let apart = w.apart in
        let cut = w.cut in
        let beside = w.beside in
        let fc = put-still t m (internal top) c w.split in
        let fn = put-still t m (internal top) n w.formatted in
        record {
          some_child = omega arith;
          sorted = λ i j one l k. absurd (omega arith);
          within = λ j one k. ground arith;
          formatted = λ j k. elim (eq_cases j 0) [
            | inl s ↦ rw s fc
            | inr s ↦ let one : j ≡ 1 = omega (arith, s, k) in rw one fn
          ];
          above = λ j k. ground arith;
          up = λ j k. ground arith;
          at = λ j k. ground arith;
          low = λ j k. ground arith;
          high = λ j k. ground arith;
        }

    -- A page that another page has as a child is neither part of the old root.
    other_child :
        (x : ℕ) (q : InternalPage Key) (j : ℕ)
        → t.pages x ≡ some (internal q)
        → j < q.size
        → (q.page_id_array j ≢ n) × (q.page_id_array j ≢ c)
    other_child x q j ex l =
        let k = v.nodes x q ex in
        let up = k.up j l in
        let above = k.above j l in
        let u = root_range.4 in
        let lone = w.alone in
        (
          λ s.
              let y : n ≡ x = sym lone ∙ rw s at up in
              let z : g.level x ≡ suc (g.level n) = rw s at above in omega (arith, ap g.level y, z),
          λ s.
              let y : c ≡ x = sym u ∙ rw s at up in
              let z : g.level x ≡ suc (g.level c) = rw s at above in omega (arith, ap g.level y, z),
        )

    other_node :
        (x : ℕ) (q : InternalPage Key)
        → t.pages x ≡ some (internal q)
        → IsNode rank limit leaf_max_size internal_max_size g' g'.hi t' x q
    other_node x q ex =
        let k = v.nodes x q ex in
        let xm = old_page x (λ y. let z : some (internal q) ≡ none = sym ex ∙ y in absurd cc) in
        record {
          some_child = k.some_child;
          sorted = k.sorted;
          within = λ j one l. ground (arith, k.within j one l);
          formatted = λ j l. put-still t m (internal top) (q.page_id_array j) (k.formatted j l);
          above = λ j l.
              let o = old_page (q.page_id_array j) (k.formatted j l) in ground (arith, k.above j l);
          up = λ j l.
              let o = old_page (q.page_id_array j) (k.formatted j l) in
              let (a, b) = other_child x q j ex l in ground (arith, k.up j l);
          at = λ j l. let (a, b) = other_child x q j ex l in ground (arith, k.at j l);
          low = λ j l.
              let o = old_page (q.page_id_array j) (k.formatted j l) in ground (arith, k.low j l);
          high = λ j l.
              let o = old_page (q.page_id_array j) (k.formatted j l) in
              let (a, b) = other_child x q j ex l in
              ground (arith, k.high j l, w.others (q.page_id_array j) b);
        }

    linked_child :
        (x : ℕ)
        → t'.pages x ≢ none
        → t'.root ≢ some x
        → (q : InternalPage Key) × (t'.pages (g'.up x) ≡ some (internal q))
          × (g'.at x < q.size)
          × (q.page_id_array (g'.at x) ≡ x)
    linked_child x f r =
        let xm : x ≢ m = λ s. r (ap some (sym s)) in
        let cm = old_page c w.split in
        let nm = old_page n w.formatted in
        let apart = w.apart in
        let here = put-here t m (internal top) in
        elim (eq_cases x c) [
          | inl s ↦
              let u : g'.up c ≡ m = ground arith in
              let a : g'.at c ≡ 0 = ground arith in
              rw (s, u, a) (top, here, omega arith, ground arith)
          | inr nc ↦ elim (eq_cases x n) [
            | inl s ↦
                let u : g'.up n ≡ m = ground arith in
                let a : g'.at n ≡ 1 = ground arith in
                rw (s, u, a) (top, here, omega arith, ground arith)
            | inr nn ↦
                let (q, eq, l, own) =
                  v.linked x (was x xm f) (λ s. let y : n ≡ x = cc in nn (sym y))
                    (λ s.
                      let y : some c ≡ some x = sym is_root ∙ s in
                      let z : c ≡ x = cc in nc (sym z)) in
                let u : g'.up x ≡ g.up x = ground arith in
                let a : g'.at x ≡ g.at x = ground arith in
                let um =
                  old_page (g.up x)
                    (λ y. let z : some (internal q) ≡ none = sym eq ∙ y in absurd cc) in
                rw (u, a) (q, put-elsewhere t m (internal top) (g.up x) um ∙ eq, l, own)
          ]
        ]

    pub rooted-Inv : Inv rank limit leaf_max_size internal_max_size g' g'.hi none t'
    rooted-Inv =
        let (low, high, a, b, u) = root_range in
        record {
          root = λ r er.
              let s : m ≡ r = cc in
              rw⁻¹ s (
                (λ y.
                    let z : some (internal top) ≡ none = sym (put-here t m (internal top)) ∙ y in
                    absurd cc),
                ground arith,
                ground arith,
                ground arith,
              );
          rootless = λ er x. absurd cc;
          tallest = λ r x er f.
              let s : m ≡ r = cc in
              rw⁻¹ s (elim (eq_cases x m) [
                | inl y ↦ rw y (omega arith)
                | inr o ↦
                    let cm = old_page c w.split in ground (arith, v.tallest c x is_root (was x o f))
              ]);
          linked = λ x f no r. linked_child x f r;
          ordered = λ x f. elim (eq_cases x m) [
            | inl y ↦ rw y (ground arith)
            | inr o ↦ ground (arith, v.ordered x (was x o f))
          ];
          fresh = λ x l.
              put-elsewhere t m (internal top) x (omega (arith, l)) ∙ v.fresh x (omega (arith, l));
          leaves = λ x q ex. elim (put_cases t m (internal top) x (leaf q) ex) [
            | inl (s, y) ↦ absurd cc
            | inr (o, ex') ↦
                let k = v.leaves x q ex' in
                record {
                  bottom = ground (arith, k.bottom);
                  maximum = k.maximum;
                  sorted = k.sorted;
                  within = λ j l. ground (arith, k.within j l);
                }
          ];
          nodes = λ x q ex. elim (put_cases t m (internal top) x (internal q) ex) [
            | inl (s, y) ↦ let z : top ≡ q = cc in rw (s, ← z) new_root-IsNode
            | inr (o, ex') ↦ other_node x q ex'
          ];
        }
