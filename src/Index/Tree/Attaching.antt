-- ===== src/Index/Tree/Attaching.antt =====
-- The tree after a page that was split off has become a child.
use cmu_db_15445_project.Prelude.{
  ℕ, ◌+◌, ◌<◌, ◌≡◌, ◌≢◌, refl, ap, sym, ◌∙◌, false, none, some, inl, inr, ltb, ◌==◌, if◌then◌else◌,
  arith, Bool-cases,
}
use cmu_db_15445_project.Index.Internal
use cmu_db_15445_project.Index.Internal.{InternalPage}
use cmu_db_15445_project.Index.Tree.{leaf, internal, Tree, put}
use cmu_db_15445_project.Index.Tree.Shape.{Shape, IsNode, Inv, Pending}
use cmu_db_15445_project.Index.Tree.Frames.{
  eq_cases, put-here, put-elsewhere, put-still, put-was, put_cases,
}
use cmu_db_15445_project.Index.Tree.Linking.{
  linked_shape, not_child, old_child, new_child, child_range, grown-size, grown-below, grown-above,
  grown-here, grown-IsNode,
}

module _ {Key Value : Type 0} (rank : Key → ℕ) (limit leaf_max_size internal_max_size : ℕ) where
  module _ (g : Shape) (shown : ℕ → ℕ) (c n : ℕ) (t : Tree Key Value)
      (w : Pending rank limit leaf_max_size internal_max_size g shown c n t) (pp : ℕ)
      (p : InternalPage Key) (e : t.pages pp ≡ some (internal p)) (inside : g.at c < p.size)
      (child : p.page_id_array (g.at c) ≡ c) (key : Key) (same : rank key ≡ g.lo n) where
    abbrev v : Inv rank limit leaf_max_size internal_max_size g shown (some n) t
    v = w.inv

    abbrev i : ℕ
    i = g.at c

    abbrev grown : InternalPage Key
    grown = Internal.insert_at p (i + 1) key n

    abbrev g' : Shape
    g' = linked_shape g pp i n

    abbrev t' : Tree Key Value
    t' = put t pp (internal grown)

    -- The other pages keep their children.
    other_node :
        (x : ℕ) (q : InternalPage Key)
        → x ≢ pp
        → t.pages x ≡ some (internal q)
        → IsNode rank limit leaf_max_size internal_max_size g' g.hi t' x q
    other_node x q o ex =
        let r = v.nodes x q ex in
        let (_, _, _, _, _, up_c) =
          child_range rank limit leaf_max_size internal_max_size g shown c n t w pp p e inside child
            key same in
        record {
          some_child = r.some_child;
          sorted = r.sorted;
          within = r.within;
          formatted = λ j l. put-still t pp (internal grown) (q.page_id_array j) (r.formatted j l);
          above = r.above;
          up = λ j l.
              let ne =
                not_child rank limit leaf_max_size internal_max_size g shown c n t w pp p e inside
                  child key same x q j ex l in
              ground (arith, r.up j l);
          at = λ j l.
              let ne =
                not_child rank limit leaf_max_size internal_max_size g shown c n t w pp p e inside
                  child key same x q j ex l in
              ground (arith, r.up j l, r.at j l);
          low = r.low;
          high = λ j l.
              let ne : q.page_id_array j ≢ c = λ s. o (sym (r.up j l) ∙ ap g.up s ∙ up_c) in
              sym (w.others (q.page_id_array j) ne) ∙ r.high j l;
        }

    linked_child :
        (x : ℕ)
        → t.pages x ≢ none
        → t.root ≢ some x
        → (q : InternalPage Key) × (t'.pages (g'.up x) ≡ some (internal q))
          × (g'.at x < q.size)
          × (q.page_id_array (g'.at x) ≡ x)
    linked_child x f m = elim (eq_cases x n) [
      | inl s ↦
          let (_, _, u, a) =
            new_child rank limit leaf_max_size internal_max_size g shown c n t w pp p e inside child
              key same in
          rw (s, u, a)
            (
              grown,
              put-here t pp (internal grown),
              omega (
                arith,
                grown-size rank limit leaf_max_size internal_max_size g shown c n t w pp p e inside
                    child key same,
                inside,
              ),
              (grown-here rank limit leaf_max_size internal_max_size g shown c n t w pp p e inside
                  child key same).1,
            )
      | inr ne ↦
          let (q, eq, l, own) = v.linked x f (λ s. let y : n ≡ x = cc in ne (sym y)) m in
          let off : (x == n) ≡ false = ground arith in
          elim (eq_cases (g.up x) pp) [
            | inl s ↦
                let z : some (internal q) ≡ some (internal p) = sym eq ∙ ap t.pages s ∙ e in
                let y : q ≡ p = cc in
                let l' : g.at x < p.size = rw y at l in
                let own' : p.page_id_array (g.at x) ≡ x = rw y at own in
                let (_, _, u, a, _, _) =
                  old_child rank limit leaf_max_size internal_max_size g shown c n t w pp p e inside
                    child key same (g.at x) l' in
                let u' : g'.up x ≡ pp = rw own' at u in
                let a' : g'.at x ≡ (if ltb i (g.at x) then g.at x + 1 else g.at x) = rw own' at a in
                let here = put-here t pp (internal grown) in
                elim (Bool-cases (ltb i (g.at x))) [
                  | inl after ↦
                      rw (u', a', after)
                        (
                          grown,
                          here,
                          omega (
                            arith,
                            grown-size rank limit leaf_max_size internal_max_size g shown c n t w pp
                                p e inside child key same,
                            l',
                          ),
                          (grown-above rank limit leaf_max_size internal_max_size g shown c n t w pp
                                p e inside child key same (g.at x) (ground arith) l').1
                              ∙ own',
                        )
                  | inr before ↦
                      rw (u', a', before)
                        (
                          grown,
                          here,
                          omega (
                            arith,
                            grown-size rank limit leaf_max_size internal_max_size g shown c n t w pp
                                p e inside child key same,
                            l',
                          ),
                          (grown-below rank limit leaf_max_size internal_max_size g shown c n t w pp
                                p e inside child key same (g.at x) (ground arith)).1
                              ∙ own',
                        )
                ]
            | inr o ↦
                let u : g'.up x ≡ g.up x = rw off refl in
                let a : g'.at x ≡ g.at x = ground arith in
                rw (u, a) (q, put-elsewhere t pp (internal grown) (g.up x) o ∙ eq, l, own)
          ]
    ]

    pub linked-Inv :
        t.root ≢ some c → Inv rank limit leaf_max_size internal_max_size g' g.hi none t'
    linked-Inv not_root =
        let was =
          put-was t pp (internal grown)
            (λ y. let z : some (internal p) ≡ none = sym e ∙ y in absurd cc) in
        record {
          root = λ r er.
              let (f, u, low, high) = v.root r er in
              let rn : r ≢ n = λ s. w.below (er ∙ ap some s) in
              let rc : r ≢ c = λ s. not_root (er ∙ ap some s) in
              (put-still t pp (internal grown) r f, ground arith, low, sym (w.others r rc) ∙ high);
          rootless = λ er x. let y = v.rootless er pp in absurd cc;
          tallest = λ r x er f. v.tallest r x er (was x f);
          linked = λ x f no m. linked_child x (was x f) m;
          ordered = λ x f. v.ordered x (was x f);
          fresh = λ x l.
              let o : x ≢ pp = λ s.
                let z : some (internal p) ≡ none = sym e ∙ sym (ap t.pages s) ∙ v.fresh x l in
                absurd cc in
              put-elsewhere t pp (internal grown) x o ∙ v.fresh x l;
          leaves = λ x q ex. elim (put_cases t pp (internal grown) x (leaf q) ex) [
            | inl (s, y) ↦ absurd cc
            | inr (o, ex') ↦
                let b = v.leaves x q ex' in
                record {
                  bottom = b.bottom;
                  maximum = b.maximum;
                  sorted = b.sorted;
                  within = b.within;
                }
          ];
          nodes = λ x q ex. elim (put_cases t pp (internal grown) x (internal q) ex) [
            | inl (s, y) ↦
                let z : grown ≡ q = cc in
                rw (s, ← z)
                  (grown-IsNode rank limit leaf_max_size internal_max_size g shown c n t w pp p e
                    inside child key same)
            | inr (o, ex') ↦ other_node x q o ex'
          ];
        }
