-- ===== src/Index/Tree/Paths.antt =====
-- Paths, leaves and room when a page with children is written.
use cmu_db_15445_project.Prelude.{
  ℕ, suc, ◌≤◌, ◌≡◌, ◌≢◌, ap, sym, ◌∙◌, Option, none, some, List, [], ◌∷◌, inl, inr, arith,
}
use cmu_db_15445_project.Index.Leaf.{LeafPage}
use cmu_db_15445_project.Index.Internal.{InternalPage}
use cmu_db_15445_project.Index.Tree.{leaf, internal, Tree, put}
use cmu_db_15445_project.Index.Tree.Shape.{Shape, Inv, IsPath, HasRoom}
use cmu_db_15445_project.Index.Tree.Frames.{put-elsewhere, put_cases}

-- The two trees have the same leaves.
abbrev pub SameLeaves : {Key Value : Type 0} → Tree Key Value → Tree Key Value → Type 0
SameLeaves {Key} {Value} t t' =
    (pid : ℕ) (p : LeafPage Key Value)
    → (t.pages pid ≡ some (leaf p) → t'.pages pid ≡ some (leaf p))
      × (t'.pages pid ≡ some (leaf p) → t.pages pid ≡ some (leaf p))

module _ {Key Value : Type 0} (rank : Key → ℕ) (limit leaf_max_size internal_max_size : ℕ) where
  -- A path stays one when the pages from a level on keep their parents.
  pub IsPath-frame :
      (g g' : Shape) (shown : ℕ → ℕ) (loose : Option ℕ) (t t' : Tree Key Value)
      → Inv rank limit leaf_max_size internal_max_size g shown loose t
      → (level : ℕ) → ((x : ℕ) → level ≤ g.level x → loose ≢ some x)
      → ((x : ℕ)
          → t.pages x ≢ none
          → level ≤ g.level x
          → g.level (g.up x) ≡ suc (g.level x)
          → g'.up x ≡ g.up x)
      → t'.root ≡ t.root
      → (rest : List ℕ) (x : ℕ) → t.pages x ≢ none
      → level ≤ g.level x
      → IsPath g t x rest
      → IsPath g' t' x rest
  IsPath-frame g g' shown loose t t' v level tight same r [] x f l h = r ∙ h
  IsPath-frame g g' shown loose t t' v level tight same r (parent ∷ rest) x f l (o, u, h) =
      let (q, eq, b, own) = v.linked x f (tight x l) o in
      let above : g.level (g.up x) ≡ suc (g.level x) =
        rw own at ((v.nodes (g.up x) q eq).above (g.at x) b) in
      let fp : t.pages parent ≢ none =
        λ y. let z : some (internal q) ≡ none = sym eq ∙ ap t.pages u ∙ y in absurd cc in
      (
        λ y. o (sym r ∙ y),
        same x f l above ∙ u,
        IsPath-frame g g' shown loose t t' v level tight same r rest parent fp
            (omega (arith, l, above, ap g.level u)) h,
      )

  pub put_internal-leaves :
      (t : Tree Key Value) (pid : ℕ) (p q : InternalPage Key)
      → t.pages pid ≡ some (internal p)
      → SameLeaves t (put t pid (internal q))
  put_internal-leaves t pid p q e x l = (
    λ h.
        let o : x ≢ pid = λ y.
          let z : some (internal p) ≡ some (leaf l) = sym e ∙ ap t.pages (sym y) ∙ h in absurd cc in
        put-elsewhere t pid (internal q) x o ∙ h,
    λ h. elim (put_cases t pid (internal q) x (leaf l) h) [
      | inl (a, b) ↦ absurd cc
      | inr (o, h') ↦ h'
    ],
  )

  pub new_internal-leaves :
      (t : Tree Key Value) (pid : ℕ) (q : InternalPage Key)
      → t.pages pid ≡ none
      → SameLeaves t (put t pid (internal q))
  new_internal-leaves t pid q e x l = (
    λ h.
        let o : x ≢ pid =
          λ y. let z : none ≡ some (leaf l) = sym e ∙ ap t.pages (sym y) ∙ h in absurd cc in
        put-elsewhere t pid (internal q) x o ∙ h,
    λ h. elim (put_cases t pid (internal q) x (leaf l) h) [
      | inl (a, b) ↦ absurd cc
      | inr (o, h') ↦ h'
    ],
  )

  pub put_internal-HasRoom :
      (t : Tree Key Value) (pid : ℕ) (q : InternalPage Key)
      → HasRoom rank limit leaf_max_size internal_max_size none t
      → q.size ≤ internal_max_size
      → HasRoom rank limit leaf_max_size internal_max_size none (put t pid (internal q))
  put_internal-HasRoom t pid q h l = record {
    leaves = λ x p n e. elim (put_cases t pid (internal q) x (leaf p) e) [
      | inl (a, b) ↦ absurd cc
      | inr (o, e') ↦ h.leaves x p n e'
    ];
    nodes = λ x p n e. elim (put_cases t pid (internal q) x (internal p) e) [
      | inl (a, b) ↦ let y : q ≡ p = cc in rw⁻¹ y l
      | inr (o, e') ↦ h.nodes x p n e'
    ];
  }
