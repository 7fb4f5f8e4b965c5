-- ===== src/Index/Tree/Seeking.antt =====
-- `Begin` with a key: the scan that starts there, among all entries of the tree's leaves.
use mathlib.Core.List.{append_assoc}
use cmu_db_15445_project.Prelude.{
  ℕ, zero, suc, ◌+◌, ◌-◌, ◌<◌, ◌≤◌, ◌≡◌, refl, ap, sym, ◌∙◌, false, true, none, some, List, [], ◌∷◌,
  ◌++◌, inl, inr, arith, Bool-cases, ok, ◌>>=◌, length, leb, if◌then◌else◌,
}
use cmu_db_15445_project.Index.Leaf.{LeafPage, is_tombstone}
use cmu_db_15445_project.Index.Tree.{leaf, Tree, lower_bound}
use cmu_db_15445_project.Index.Tree.Iterator.{begin_at}
use cmu_db_15445_project.Index.Tree.Bisection.{IsSorted, lower_bound-IsCut}
use cmu_db_15445_project.Index.Tree.Shape.{Shape, Inv, Covers}
use cmu_db_15445_project.Index.Tree.Descent.{descend-leaf}
use cmu_db_15445_project.Index.Tree.Scan.{
  IsChain, live, live_from, live_entries, steps, collect, first_live-Stands, collect-Stands,
}

module _ {Key Value : Type 0} (rank : Key → ℕ) where
  -- The entries whose key is not below the given one.
  abbrev pub at_least : Key → List (Key × Value) → List (Key × Value)
  at_least key [] = []
  at_least key ((k, v) ∷ es) =
      let rest = at_least key es in if leb (rank key) (rank k) then (k, v) ∷ rest else rest

  -- Every key of the leaves is below `high`, or is not below `low`.
  abbrev pub AllBelow : ℕ → List (LeafPage Key Value) → Type 0
  AllBelow high [] = Unit
  AllBelow high (p ∷ ps) = ((j : ℕ) → j < p.size → rank (p.key_array j) < high) × AllBelow high ps

  abbrev pub AllAbove : ℕ → List (LeafPage Key Value) → Type 0
  AllAbove low [] = Unit
  AllAbove low (p ∷ ps) = ((j : ℕ) → j < p.size → low ≤ rank (p.key_array j)) × AllAbove low ps

  module _ (key : Key) where
    at_least-append :
        (xs ys : List (Key × Value)) → at_least key (xs ++ ys) ≡ at_least key xs ++ at_least key ys
    at_least-append [] ys = refl
    at_least-append ((k, v) ∷ xs) ys = elim (Bool-cases (leb (rank key) (rank k))) [
      | inl y ↦ rw (y, at_least-append xs ys) refl
      | inr y ↦ rw (y, at_least-append xs ys) refl
    ]

    below-live :
        (p : LeafPage Key Value) (i n : ℕ)
        → ((j : ℕ) → i ≤ j → j < i + n → rank (p.key_array j) < rank key)
        → at_least key (live p i n) ≡ []
    below-live p i zero h = refl
    below-live p i (suc n) h =
        let rest = below-live p (i + 1) n (λ j a b. h j (omega (arith, a)) (omega (arith, b))) in
        let less = h i (omega arith) (omega arith) in
        let low : leb (rank key) (rank (p.key_array i)) ≡ false = ground arith in
        elim (Bool-cases (is_tombstone p i)) [
          | inl y ↦ rw (y, rest) refl
          | inr y ↦ rw (y, low, rest) refl
        ]

    above-live :
        (p : LeafPage Key Value) (i n : ℕ)
        → ((j : ℕ) → i ≤ j → j < i + n → rank key ≤ rank (p.key_array j))
        → at_least key (live p i n) ≡ live p i n
    above-live p i zero h = refl
    above-live p i (suc n) h =
        let rest = above-live p (i + 1) n (λ j a b. h j (omega (arith, a)) (omega (arith, b))) in
        let more = h i (omega arith) (omega arith) in
        let high : leb (rank key) (rank (p.key_array i)) ≡ true = ground arith in
        elim (Bool-cases (is_tombstone p i)) [
          | inl y ↦ rw (y, rest) refl
          | inr y ↦ rw (y, high, rest) refl
        ]

    live-split :
        (p : LeafPage Key Value) (i m n k : ℕ)
        → i + m ≡ k
        → live p i (m + n) ≡ live p i m ++ live p k n
    live-split p i zero n k h =
        let e : i ≡ k = omega (arith, h) in let z : 0 + n ≡ n = omega arith in rw (z, e) refl
    live-split p i (suc m) n k h =
        let s : suc m + n ≡ suc (m + n) = omega arith in
        let rest = live-split p (i + 1) m n k (omega (arith, h)) in
        ap (live p i) s ∙ elim (Bool-cases (is_tombstone p i)) [
          | inl y ↦ rw (y, rest) refl
          | inr y ↦ rw (y, rest) refl
        ]

    -- In the leaf that covers the key, the scan starts at the first entry that is not below it.
    leaf-at_least :
        (p : LeafPage Key Value)
        → IsSorted rank p
        → at_least key (live_from p 0) ≡ live_from p (lower_bound rank p key)
    leaf-at_least p s =
        let c = lower_bound-IsCut rank p s key in
        let lo = lower_bound rank p key in
        let to = c.to in
        let e : p.size - 0 ≡ lo + (p.size - lo) = omega arith in
        let low = below-live p 0 lo (λ j a b. ground (arith, c.before j a (omega (arith, b)))) in
        let high =
          above-live p lo (p.size - lo) (λ j a b. ground (arith, to, c.after j a (omega arith))) in
        ap (λ n. at_least key (live p 0 n)) e
        ∙ ap (at_least key) (live-split p 0 lo (p.size - lo) lo (omega arith))
        ∙ at_least-append (live p 0 lo) (live p lo (p.size - lo))
        ∙ rw (low, high) refl

    below-entries :
        (high : ℕ) (ps : List (LeafPage Key Value))
        → high ≤ rank key
        → AllBelow high ps
        → at_least key (live_entries ps) ≡ []
    below-entries high [] h a = refl
    below-entries high (p ∷ ps) h (a, later) =
        let here =
          below-live p 0 (p.size - 0) (λ j x b. omega (arith, h, a j (omega (arith, b)))) in
        at_least-append (live_from p 0) (live_entries ps)
        ∙ rw (here, below-entries high ps h later) refl

    above-entries :
        (low : ℕ) (ps : List (LeafPage Key Value))
        → rank key ≤ low
        → AllAbove low ps
        → at_least key (live_entries ps) ≡ live_entries ps
    above-entries low [] h a = refl
    above-entries low (p ∷ ps) h (a, later) =
        let here =
          above-live p 0 (p.size - 0) (λ j x b. omega (arith, h, a j (omega (arith, b)))) in
        at_least-append (live_from p 0) (live_entries ps)
        ∙ rw (here, above-entries low ps h later) refl

    live_entries-append :
        (ps qs : List (LeafPage Key Value))
        → live_entries (ps ++ qs) ≡ live_entries ps ++ live_entries qs
    live_entries-append [] qs = refl
    live_entries-append (p ∷ ps) qs =
        ap (λ l. live_from p 0 ++ l) (live_entries-append ps qs)
        ∙ sym (append_assoc (live_from p 0) (live_entries ps) (live_entries qs))

    -- The entries at least the key of all leaves are those from its place in the leaf that covers it.
    entries-at_least :
        (low high : ℕ) (before rest : List (LeafPage Key Value)) (p : LeafPage Key Value)
        → low ≤ rank key
        → rank key < high
        → IsSorted rank p
        → AllBelow low before
        → AllAbove high rest
        → at_least key (live_entries (before ++ p ∷ rest))
          ≡ live_from p (lower_bound rank p key) ++ live_entries rest
    entries-at_least low high before rest p l h s b a =
        ap (at_least key) (live_entries-append before (p ∷ rest))
        ∙ at_least-append (live_entries before) (live_entries (p ∷ rest))
        ∙ ap (λ x. x ++ at_least key (live_entries (p ∷ rest))) (below-entries low before l b)
        ∙ at_least-append (live_from p 0) (live_entries rest)
        ∙ rw (leaf-at_least p s, above-entries high rest (omega (arith, h)) a) refl

  -- In a tree with a leaf that covers the key, where the keys of the leaves before it are below its
  -- range and those of the leaves that follow it in the chain are not, `Begin` with the key and then
  -- `operator*` and `operator++` until the end return, with more fuel than the height and the leaves
  -- have entries and pages, and read those live entries of all the leaves, in their order, whose key is
  -- not below the given one.
  pub begin_at-live :
      (limit leaf_max_size internal_max_size : ℕ) (rank_lt : (key : Key) → rank key < limit)
      (g : Shape) (t : Tree Key Value) (key : Key) (r fuel inner outer pid : ℕ)
      (p : LeafPage Key Value) (before rest : List (LeafPage Key Value))
      → Inv rank limit leaf_max_size internal_max_size g g.hi none t
      → t.root ≡ some r
      → t.pages pid ≡ some (leaf p)
      → Covers rank g pid key
      → AllBelow (g.lo pid) before
      → AllAbove (g.hi pid) rest
      → IsChain t.pages p rest
      → g.level r < fuel
      → length rest < fuel
      → p.size + steps rest ≤ inner
      → p.size + steps rest < outer
      → (begin_at rank fuel t key >>= collect inner outer t)
        ≡ ok (at_least key (live_entries (before ++ p ∷ rest)))
  unfolding begin_at
  begin_at-live limit leaf_max_size internal_max_size rank_lt g t key r fuel inner outer pid p
        before rest v er e covers below above c up h a b =
      let (path, _, d) =
        descend-leaf rank limit leaf_max_size internal_max_size g t v rank_lt r er fuel pid p key up
          e covers in
      let (it, first, s) =
        first_live-Stands t fuel pid (lower_bound rank p key) (p.size + steps rest) p rest e c h
          (omega arith) in
      let all = collect-Stands t inner outer (p.size + steps rest) it _ s a b in
      let entries =
        entries-at_least key (g.lo pid) (g.hi pid) before rest p covers.0 covers.1
          (v.leaves pid p e).sorted below above in
      simp (er, begin_at, d, first, all) (ap ok (sym entries))
