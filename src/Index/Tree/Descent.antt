-- ===== src/Index/Tree/Descent.antt =====
-- The descent from the root ends at the leaf that covers the key.
use native.Mathlib.Numerals.{unary_clauses}
use cmu_db_15445_project.Prelude.{
  ℕ, zero, suc, ◌+◌, ◌-◌, ◌<◌, ◌≤◌, ◌≡◌, ◌≢◌, refl, ap, ◌∙◌, Option, none, some, List, [], ◌∷◌, ◌⊎◌,
  inl, inr, leb, ◌==◌, if◌then◌else◌, arith, Bool-cases, ok,
}
use cmu_db_15445_project.Index.Leaf.{LeafPage}
use cmu_db_15445_project.Index.Internal.{InternalPage}
use cmu_db_15445_project.Index.Tree.{
  Page, leaf, internal, Tree, upper_bound, descend, read_leaf, get_value,
}
use cmu_db_15445_project.Index.Tree.Bisection.{IsCut, bisect-IsCut}
use cmu_db_15445_project.Index.Tree.Shape.{Shape, Inv, IsPath, Covers}

pub page_cases :
    {Key Value : Type 0} (o : Option (Page Key Value))
    → (o ≡ none)
      ⊎ (((p : LeafPage Key Value) × (o ≡ some (leaf p)))
          ⊎ ((p : InternalPage Key) × (o ≡ some (internal p))))
page_cases none = inl refl
page_cases (some (leaf p)) = inr (inl (p, refl))
page_cases (some (internal p)) = inr (inr (p, refl))

module _ {Key Value : Type 0} (rank : Key → ℕ) (limit leaf_max_size internal_max_size : ℕ) where
  module _ (g : Shape) (shown : ℕ → ℕ) (loose : Option ℕ) (t : Tree Key Value)
      (v : Inv rank limit leaf_max_size internal_max_size g shown loose t) (pid : ℕ)
      (p : InternalPage Key) (e : t.pages pid ≡ some (internal p)) where
    pub upper_bound-IsCut :
        (key : Key)
        → IsCut (λ mid. leb (rank (p.key_array mid)) (rank key)) 1 p.size (upper_bound rank p key)
    unfolding upper_bound
    upper_bound-IsCut key =
        let n = v.nodes pid p e in
        bisect-IsCut _ p.size 1 p.size n.some_child (omega arith) (λ i j a b d f.
          elim (Bool-cases (i == j)) [
            | inl same ↦ let q : i ≡ j = ground arith in rw q f
            | inr other ↦ ground (arith, n.sorted i j)
          ])

    -- The child whose range has the key, as the page has the ranges, is the one that is taken.
    pub upper_bound-child :
        (key : Key) (j : ℕ)
        → j < p.size
        → g.lo (p.page_id_array j) ≤ rank key
        → rank key < shown (p.page_id_array j)
        → upper_bound rank p key ≡ j + 1
    upper_bound-child key j l a b =
        let c = upper_bound-IsCut key in
        let n = v.nodes pid p e in
        ground (arith, c.from, c.to, c.before (j + 1), c.after j, n.low j, n.high j)

    pub child-Covers :
        (key : Key)
        → Covers rank g pid key
        → (upper_bound rank p key - 1 < p.size)
          × (g.lo (p.page_id_array (upper_bound rank p key - 1)) ≤ rank key)
          × (rank key < shown (p.page_id_array (upper_bound rank p key - 1)))
    child-Covers key (a, b) =
        let c = upper_bound-IsCut key in
        let n = v.nodes pid p e in
        let j = upper_bound rank p key - 1 in
        let l : j < p.size = ground (arith, c.from, c.to) in
        (
          l,
          ground (arith, c.from, c.before j, n.low j),
          ground (arith, c.from, c.to, c.after (j + 1), n.high j),
        )

  module _ (g : Shape) (t : Tree Key Value)
      (v : Inv rank limit leaf_max_size internal_max_size g g.hi none t) where
    child_of :
        (parent pid i : ℕ) (p : InternalPage Key)
        → t.pages parent ≡ some (internal p)
        → i < p.size
        → p.page_id_array i ≡ pid
        → (g.level parent ≡ suc (g.level pid))
          × ((key : Key)
              → Covers rank g pid key
              → Covers rank g parent key × (p.page_id_array (upper_bound rank p key - 1) ≡ pid))
    child_of parent pid i p e l c =
        let n = v.nodes parent p e in
        (
          rw c at (n.above i l),
          λ key (a, b).
              let here = upper_bound-child g g.hi none t v parent p e key i l (rw c a) (rw c b) in
              let low : g.lo pid ≡ (if i == 0 then g.lo parent else rank (p.key_array i)) =
                rw c at (n.low i l) in
              let high : g.hi pid
                  ≡ (if i + 1 == p.size then g.hi parent else rank (p.key_array (i + 1))) =
                rw c at (n.high i l) in
              (
                (ground (arith, n.within i), ground (arith, n.within (i + 1))),
                rw here (ground (arith, c)),
              ),
        )

    -- The parent of a page that is not the root covers what the page covers, and leads to it.
    pub parent_of :
        (pid : ℕ)
        → t.pages pid ≢ none
        → t.root ≢ some pid
        → (p : InternalPage Key) × (t.pages (g.up pid) ≡ some (internal p))
          × (g.level (g.up pid) ≡ suc (g.level pid))
          × ((key : Key)
              → Covers rank g pid key
              → Covers rank g (g.up pid) key × (p.page_id_array (upper_bound rank p key - 1) ≡ pid))
    parent_of pid f o =
        let (p, e, l, c) = v.linked pid f (λ x. cc) o in
        let (above, down) = child_of (g.up pid) pid (g.at pid) p e l c in (p, e, above, down)

    -- The descent from the root to a page that covers the key.
    descend-to :
        (r n pid : ℕ) (key : Key)
        → t.root ≡ some r
        → g.level pid + n ≡ g.level r
        → t.pages pid ≢ none
        → Covers rank g pid key
        → (path : List ℕ) × IsPath g t pid path
          × ((fuel : ℕ)
              → descend rank t.pages key (fuel + n) r [] ≡ descend rank t.pages key fuel pid path)
    unfolding descend
    descend-to r zero pid key e l f c = elim (Bool-cases (r == pid)) [
      | inl same ↦
          let s : r ≡ pid = ground arith in
          ([], e ∙ ap some s, λ fuel. rw s (simp unary_clauses refl))
      | inr other ↦
          let o : t.root ≢ some pid = λ x. ground arith in
          let (p, ep, above, _) = parent_of pid f o in
          absurd (omega (arith, l, above, v.tallest r (g.up pid) e (λ x. cc)))
    ]
    descend-to r (suc n) pid key e l f c = elim (Bool-cases (r == pid)) [
      | inl same ↦ let s : r ≡ pid = ground arith in absurd (ground arith)
      | inr other ↦
          let o : t.root ≢ some pid = λ x. ground arith in
          let (p, ep, above, down) = parent_of pid f o in
          let (cp, here) = down key c in
          let (path, is_path, walk) =
            descend-to r n (g.up pid) key e (omega (arith, l, above)) (λ x. cc) cp in
          (
            g.up pid ∷ path,
            (o, refl, is_path),
            λ fuel.
                let m : fuel + suc n ≡ suc fuel + n = omega arith in
                ap (λ k. descend rank t.pages key k r []) m
                ∙ walk (suc fuel)
                ∙ rw (ep, descend, here) refl,
          )
    ]

    -- From a page that covers the key, a leaf that covers it is reached.
    leaf_below :
        (n pid : ℕ) (key : Key)
        → g.level pid < n
        → t.pages pid ≢ none
        → Covers rank g pid key
        → (q : ℕ) × (p : LeafPage Key Value) × (t.pages q ≡ some (leaf p)) × Covers rank g q key
    leaf_below zero pid key l f c = absurd (omega arith)
    leaf_below (suc n) pid key l f c = elim (page_cases (t.pages pid)) [
      | inl e ↦ absurd (f e)
      | inr (inl (p, e)) ↦ (pid, p, e, c)
      | inr (inr (p, e)) ↦
          let (i, a, b) = child-Covers g g.hi none t v pid p e key c in
          let k = v.nodes pid p e in
          let j = upper_bound rank p key - 1 in
          leaf_below n (p.page_id_array j) key (omega (arith, l, k.above j i)) (k.formatted j i)
            (a, b)
    ]

    module _ (rank_lt : (key : Key) → rank key < limit) (r : ℕ) (e : t.root ≡ some r) where
      -- The descent ends at the leaf that covers the key.
      pub descend-leaf :
          (fuel q : ℕ) (p : LeafPage Key Value) (key : Key)
          → g.level r < fuel
          → t.pages q ≡ some (leaf p)
          → Covers rank g q key
          → (path : List ℕ) × IsPath g t q path
            × (descend rank t.pages key fuel r [] ≡ ok (q, p, path))
      unfolding descend
      descend-leaf fuel q p key h eq c =
          let k = v.leaves q p eq in
          let (path, is_path, walk) =
            descend-to r (g.level r) q key e (omega (arith, k.bottom)) (λ x. cc) c in
          let m : fuel ≡ suc (fuel - g.level r - 1) + g.level r = omega (arith, h) in
          (
            path,
            is_path,
            ap (λ n. descend rank t.pages key n r []) m
                ∙ walk (suc (fuel - g.level r - 1))
                ∙ rw (eq, descend) refl,
          )

      pub leaf_for :
          (key : Key)
          → (q : ℕ) × (p : LeafPage Key Value) × (t.pages q ≡ some (leaf p)) × Covers rank g q key
      leaf_for key =
          let (f, _, low, high) = v.root r e in
          leaf_below (suc (g.level r)) r key (omega arith) f
            (omega (arith, low), omega (arith, high, rank_lt key))

      pub get_value-leaf :
          (fuel q : ℕ) (p : LeafPage Key Value) (key : Key)
          → g.level r < fuel
          → t.pages q ≡ some (leaf p)
          → Covers rank g q key
          → get_value rank fuel t key ≡ ok (read_leaf rank p key)
      unfolding get_value
      get_value-leaf fuel q p key h eq c =
          let (path, _, walk) = descend-leaf fuel q p key h eq c in rw (e, get_value, walk) refl
