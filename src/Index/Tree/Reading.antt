-- ===== src/Index/Tree/Reading.antt =====
-- `GetValue` against the live entries of the leaves, and the place of a page in a descent.
use cmu_db_15445_project.Prelude.{
  ℕ, ◌<◌, ◌≡◌, refl, sym, ◌∙◌, false, Option, none, some, inl, inr, arith, Bool-cases, Option-cases,
  ok,
}
use cmu_db_15445_project.Index.Leaf.{LeafPage, is_tombstone}
use cmu_db_15445_project.Index.Tree.{leaf, Tree, read_leaf, get_value}
use cmu_db_15445_project.Index.Tree.Bisection.{IsSorted, read_leaf-at, read_leaf-absent}
use cmu_db_15445_project.Index.Tree.Shape.{Covers, IsTree}
use cmu_db_15445_project.Index.Tree.Descent.{leaf_for, get_value-leaf}
use cmu_db_15445_project.Index.Tree.Placing.{key_cases}

module _ {Key Value : Type 0} (rank : Key → ℕ) where
  -- Entry `j` of leaf `q` is live and has the key and the value.
  abbrev pub IsEntry : Tree Key Value → Key → Value → ℕ → ℕ → Type 0
  IsEntry t key value q j =
      (p : LeafPage Key Value) × (t.pages q ≡ some (leaf p))
      × (j < p.size)
      × (rank (p.key_array j) ≡ rank key)
      × (p.rid_array j ≡ value)
      × (is_tombstone p j ≡ false)

  read_leaf-entry :
      (p : LeafPage Key Value) (key : Key) (value : Value)
      → IsSorted rank p
      → read_leaf rank p key ≡ some value
      → (j : ℕ) × (j < p.size)
        × (rank (p.key_array j) ≡ rank key)
        × (p.rid_array j ≡ value)
        × (is_tombstone p j ≡ false)
  read_leaf-entry p key value s h = elim (key_cases rank p key s) [
    | inl (j, l, e) ↦
        let here = (read_leaf-at rank p s key j l e).1 in
        elim (Bool-cases (is_tombstone p j)) [
          | inl dead ↦ let x : none ≡ some value = sym (here ∙ rw dead refl) ∙ h in absurd cc
          | inr live ↦
              let x : some (p.rid_array j) ≡ some value = sym (here ∙ rw live refl) ∙ h in
              (j, l, e, cc, live)
        ]
    | inr a ↦ let x = (read_leaf-absent rank p s key a).1 in absurd cc
  ]

  module _ (limit leaf_max_size internal_max_size height : ℕ)
      (rank_lt : (key : Key) → rank key < limit) where
    -- In a tree, where the ranks of the keys have a bound, and with more fuel than the height, `GetValue` returns, and what it returns is the value
    -- of the only live entry of all leaves that has the key, or nothing when no leaf has one.
    pub get_value-entries :
        (t : Tree Key Value) (fuel : ℕ) (key : Key)
        → IsTree rank limit leaf_max_size internal_max_size height t
        → height < fuel
        → (o : Option Value) × (get_value rank fuel t key ≡ ok o)
          × ((value : Value) (q j : ℕ) → IsEntry t key value q j → o ≡ some value)
          × ((value : Value) → o ≡ some value → (q : ℕ) × (j : ℕ) × IsEntry t key value q j)
    unfolding get_value
    get_value-entries t fuel key (g, v, room, top) h = elim (Option-cases t.root) [
      | inl e ↦ (
        none,
        rw (e, get_value) refl,
        λ value q j (p, ep, _, _, _, _). let x = v.rootless e q in absurd cc,
        λ value x. absurd cc,
      )
      | inr (r, e) ↦
          let up : g.level r < fuel = omega (arith, top r e, h) in
          let (q, p, ep, c) =
            leaf_for rank limit leaf_max_size internal_max_size g t v rank_lt r e key in
          let at_leaf =
            get_value-leaf rank limit leaf_max_size internal_max_size g t v rank_lt r e fuel in
          (
            read_leaf rank p key,
            at_leaf q p key up ep c,
            λ value q' j (p', ep', l, k, x, live).
                let s = v.leaves q' p' ep' in
                let (low, high) = s.within j l in
                let c' : Covers rank g q' key = (omega (arith, low, k), omega (arith, high, k)) in
                let same : ok (read_leaf rank p' key) ≡ ok (read_leaf rank p key) =
                  sym (at_leaf q' p' key up ep' c') ∙ at_leaf q p key up ep c in
                let there = (read_leaf-at rank p' s.sorted key j l k).1 in
                let found : read_leaf rank p' key ≡ some value = there ∙ rw (live, x) refl in cc,
            λ value x.
                let (j, l, k, y, live) = read_leaf-entry p key value (v.leaves q p ep).sorted x in
                (q, j, (p, ep, l, k, y, live)),
          )
    ]
