-- ===== src/Index/Tree/Frames.antt =====
-- The pages after one of them is written.
use cmu_db_15445_project.Prelude.{
  ℕ, ◌≡◌, ◌≢◌, ap, sym, ◌∙◌, Option, none, some, ◌⊎◌, inl, inr, ◌==◌, arith, Bool-cases, fun_ext,
}
use cmu_db_15445_project.Index.Tree.{Page, Tree, put}

pub eq_cases : (x y : ℕ) → (x ≡ y) ⊎ (x ≢ y)
eq_cases x y = elim (Bool-cases (x == y)) [
  | inl e ↦ inl (ground arith)
  | inr e ↦ inr (ground arith)
]

module _ {Key Value : Type 0} (t : Tree Key Value) (pid : ℕ) (page : Page Key Value) where
  pub put-here : (put t pid page).pages pid ≡ some page
  put-here = ground arith

  pub put-elsewhere : (x : ℕ) → x ≢ pid → (put t pid page).pages x ≡ t.pages x
  put-elsewhere x n = ground arith

  -- The same page ids have a page before and after.
  pub put-still : (x : ℕ) → t.pages x ≢ none → (put t pid page).pages x ≢ none
  put-still x h = elim (eq_cases x pid) [
    | inl s ↦ λ y. let z : (put t pid page).pages pid ≡ none = rw s at y in let w = put-here in cc
    | inr n ↦ λ y. h (sym (put-elsewhere x n) ∙ y)
  ]

  pub put-was : t.pages pid ≢ none → (x : ℕ) → (put t pid page).pages x ≢ none → t.pages x ≢ none
  put-was f x h = elim (eq_cases x pid) [
    | inl s ↦ λ y. f (rw s at y)
    | inr n ↦ λ y. h (put-elsewhere x n ∙ y)
  ]

  -- A page that is found is the written one, or another one that was there.
  pub put_cases :
      (x : ℕ) (q : Page Key Value)
      → (put t pid page).pages x ≡ some q
      → ((x ≡ pid) × (page ≡ q)) ⊎ ((x ≢ pid) × (t.pages x ≡ some q))
  put_cases x q h = elim (eq_cases x pid) [
    | inl s ↦ let z : some page ≡ some q = sym put-here ∙ rw s at h in inl (s, cc)
    | inr n ↦ inr (n, sym (put-elsewhere x n) ∙ h)
  ]

-- The last of two pages that are written to one page id stays.
pub put-put :
    {Key Value : Type 0} (t : Tree Key Value) (pid : ℕ) (page page' : Page Key Value)
    → put (put t pid page) pid page' ≡ put t pid page'
put-put t pid page page' =
    let e : (put (put t pid page) pid page').pages ≡ (put t pid page').pages =
      fun_ext (λ x. ground arith) in
    ap (λ (f : ℕ → Option (Page _ _)). record t { pages = f }) e
