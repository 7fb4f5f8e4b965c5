-- ===== src/Tests/Tree.antt =====
-- Small B+ trees.
use cmu_db_15445_project.Prelude.{
  ℕ, ◌+◌, ◌*◌, ◌%◌, ◌⊎◌, ◌≢◌, ◌<◌, ◌≡◌, refl, ap, sym, arith, Option, none, some, [], ◌∷◌, ltb,
  ◌==◌, if◌then◌else◌, Bool-cases, Option-cases, inl, inr, ok, crash, ◌>>=◌, true, false, List,
}
use cmu_db_15445_project.Index.Leaf.{LeafPage}
use cmu_db_15445_project.Index.Internal
use cmu_db_15445_project.Index.Internal.{InternalPage}
use cmu_db_15445_project.Index.Tree.Removal.{descend_writing, remove}
use cmu_db_15445_project.Index.Tree.FirstKey.{remove-crashes}
use cmu_db_15445_project.Index.Tree.{
  Page, leaf, internal, Tree, empty, bisect, descend, upper_bound, get_value,
}
use cmu_db_15445_project.Index.Tree.Insertion.{insert, insert_pessimistic}
use cmu_db_15445_project.Index.Tree.Iterator.{begin, begin_at, descend_leftmost}
use cmu_db_15445_project.Index.Tree.Bisection.{IsCut, bisect-IsCut}
use cmu_db_15445_project.Index.Tree.Shape.{Shape, IsLeaf, IsNode, IsTree}
use cmu_db_15445_project.Index.Tree.Reading.{IsEntry, get_value-entries}
use cmu_db_15445_project.Index.Tree.Optimism.{insert-insert_pessimistic}
use cmu_db_15445_project.Index.Tree.Growing.{HasKey, IsGrown}
use cmu_db_15445_project.Index.Tree.Inserting.{insert-IsGrown}
use cmu_db_15445_project.Index.Tree.Loading.{find, insert_all, insert_all-find}
use cmu_db_15445_project.Index.Tree.Scan.{collect, begin-live}
use cmu_db_15445_project.Index.Tree.Seeking.{at_least, begin_at-live}

-- The keys 10, 20 and 30, of which 20 is deleted.
abbrev first : LeafPage ℕ ℕ
first = record {
  size = 3;
  max_size = 4;
  next_page_id = some 1;
  tombstones = 1 ∷ [];
  key_array = λ j. 10 * (j + 1);
  rid_array = λ j. j;
}

-- The keys 40 and 50.
abbrev second : LeafPage ℕ ℕ
second = record {
  size = 2;
  max_size = 4;
  next_page_id = none;
  tombstones = [];
  key_array = λ j. 40 + 10 * j;
  rid_array = λ j. 3 + j;
}

abbrev top : InternalPage ℕ
top = record { size = 2; max_size = 3; key_array = λ j. 40; page_id_array = λ j. j }

-- Two leaves under a root.
abbrev two_leaves : Tree ℕ ℕ
two_leaves = record {
  root = some 2;
  pages = λ j.
      if j == 0
      then some (leaf first)
      else if j == 1
      then some (leaf second)
      else if j == 2
      then some (internal top)
      else none;
  next_page_id = 3;
}

abbrev rank : ℕ → ℕ
rank k = k % 100

rank_lt : (k : ℕ) → rank k < 100
rank_lt k = omega arith

abbrev shape : Shape
shape = record {
  lo = λ j. if j == 1 then 40 else 0;
  hi = λ j. if j == 0 then 40 else 100;
  level = λ j. if j == 2 then 1 else 0;
  up = λ j. 2;
  at = λ j. j;
}

pages_cases :
    (pid : ℕ) (page : Page ℕ ℕ)
    → two_leaves.pages pid ≡ some page
    → ((pid ≡ 0) × (leaf first ≡ page))
      ⊎ (((pid ≡ 1) × (leaf second ≡ page)) ⊎ ((pid ≡ 2) × (internal top ≡ page)))
pages_cases pid page e = elim (Bool-cases (pid == 0)) [
  | inl a ↦ let e' : some (leaf first) ≡ some page = rw a at e in inl (ground arith, cc)
  | inr a ↦ elim (Bool-cases (pid == 1)) [
    | inl b ↦
        let e' : some (leaf second) ≡ some page = rw (a, b) at e in inr (inl (ground arith, cc))
    | inr b ↦ elim (Bool-cases (pid == 2)) [
      | inl c ↦
          let e' : some (internal top) ≡ some page = rw (a, b, c) at e in
          inr (inr (ground arith, cc))
      | inr c ↦ let e' : none ≡ some page = rw (a, b, c) at e in absurd cc
    ]
  ]
]

-- A leaf is the first or the second; the page above is the root.
leaves_cases :
    (pid : ℕ) (p : LeafPage ℕ ℕ)
    → two_leaves.pages pid ≡ some (leaf p)
    → ((pid ≡ 0) × (first ≡ p)) ⊎ ((pid ≡ 1) × (second ≡ p))
leaves_cases pid p e = elim (pages_cases pid (leaf p) e) [
  | inl (a, b) ↦ inl (a, cc)
  | inr (inl (a, b)) ↦ inr (a, cc)
  | inr (inr (a, b)) ↦ absurd cc
]

nodes_cases :
    (pid : ℕ) (p : InternalPage ℕ)
    → two_leaves.pages pid ≡ some (internal p)
    → (pid ≡ 2) × (top ≡ p)
nodes_cases pid p e = elim (pages_cases pid (internal p) e) [
  | inl (a, b) ↦ absurd cc
  | inr (inl (a, b)) ↦ absurd cc
  | inr (inr (a, b)) ↦ (a, cc)
]

first_holds : IsLeaf rank 100 4 3 shape 0 first
first_holds = record {
  bottom = refl;
  maximum = refl;
  sorted = λ i j a b. ground arith;
  within = λ j a. ground arith;
}

second_holds : IsLeaf rank 100 4 3 shape 1 second
second_holds = record {
  bottom = refl;
  maximum = refl;
  sorted = λ i j a b. ground arith;
  within = λ j a. ground arith;
}

child_lt : (pid : ℕ) → two_leaves.pages pid ≢ none → two_leaves.root ≢ some pid → pid < 2
child_lt pid f m = elim (Option-cases (two_leaves.pages pid)) [
  | inl e ↦ absurd (f e)
  | inr (page, e) ↦ elim (pages_cases pid page e) [
    | inl (a, b) ↦ omega (arith, a)
    | inr (inl (a, b)) ↦ omega (arith, a)
    | inr (inr (a, b)) ↦ let x : two_leaves.root ≡ some pid = ap some (sym a) in absurd (m x)
  ]
]

top_holds : IsNode rank 100 4 3 shape shape.hi two_leaves 2 top
top_holds = record {
  some_child = omega arith;
  sorted = λ i j a b c. absurd (omega arith);
  within = λ j a b. ground arith;
  formatted = λ j a. λ e. ground arith;
  above = λ j a. ground arith;
  up = λ j a. refl;
  at = λ j a. refl;
  low = λ j a. ground arith;
  high = λ j a. ground arith;
}

two_leaves_holds : IsTree rank 100 4 3 1 two_leaves
two_leaves_holds = (
  shape,
  record {
    root = λ r e. let s : 2 ≡ r = cc in rw⁻¹ s (λ e. absurd cc, refl, refl, refl);
    rootless = λ e pid. absurd cc;
    tallest = λ r pid e f. let s : 2 ≡ r = cc in rw⁻¹ s (ground arith);
    linked = λ pid f n m. (top, refl, child_lt pid f m, refl);
    ordered = λ pid f. ground arith;
    fresh = λ pid f. ground arith;
    leaves = λ pid p e. elim (leaves_cases pid p e) [
      | inl (a, b) ↦ rw (a, ← b) first_holds
      | inr (a, b) ↦ rw (a, ← b) second_holds
    ];
    nodes = λ pid p e. let (a, b) = nodes_cases pid p e in rw (a, ← b) top_holds;
  },
  record {
    leaves = λ pid p n e. elim (leaves_cases pid p e) [
      | inl (a, b) ↦ rw⁻¹ b (omega arith)
      | inr (a, b) ↦ rw⁻¹ b (omega arith)
    ];
    nodes = λ pid p n e. let (a, b) = nodes_cases pid p e in rw⁻¹ b (omega arith);
  },
  λ r e. let s : 2 ≡ r = cc in rw⁻¹ s refl,
)

get_value-entries_example :
    (o : Option ℕ) × (get_value rank 2 two_leaves 30 ≡ ok o)
    × ((value : ℕ) (q j : ℕ) → IsEntry rank two_leaves 30 value q j → o ≡ some value)
    × ((value : ℕ) → o ≡ some value → (q : ℕ) × (j : ℕ) × IsEntry rank two_leaves 30 value q j)
get_value-entries_example =
    get_value-entries rank 100 4 3 1 rank_lt two_leaves 2 30 two_leaves_holds (omega arith)

bisect-IsCut_example :
    IsCut (λ i. ltb (first.key_array i) 20) 0 3 (bisect (λ i. ltb (first.key_array i) 20) 3 0 3)
bisect-IsCut_example =
    bisect-IsCut (λ i. ltb (first.key_array i) 20) 3 0 3 (omega arith) (omega arith)
      (λ i j a b c d. ground arith)

abbrev blank : InternalPage ℕ
blank = record { size = 0; max_size = 0; key_array = λ j. 0; page_id_array = λ j. 0 }

insert-insert_pessimistic_example :
    insert rank 4 3 4 4 second blank 2 two_leaves 25 7
    ≡ insert_pessimistic rank 4 3 4 4 second blank 2 two_leaves 25 7
insert-insert_pessimistic_example =
    insert-insert_pessimistic rank 4 3 4 4 second blank 2 two_leaves 25 7 (λ pid p e.
      elim (leaves_cases pid p e) [ inl (a, b) ↦ rw⁻¹ b refl | inr (a, b) ↦ rw⁻¹ b refl ])

begin-live_example :
    (begin 2 two_leaves >>= collect 8 8 two_leaves)
    ≡ ok ((10, 0) ∷ (30, 2) ∷ (40, 3) ∷ (50, 4) ∷ [])
unfolding descend_leftmost
begin-live_example =
    begin-live two_leaves 2 2 8 8 0 first (second ∷ []) refl refl refl (1, refl, refl, refl)
      (omega arith) (omega arith) (omega arith)

begin_at-live_example :
    (begin_at rank 2 two_leaves 45 >>= collect 8 8 two_leaves)
    ≡ ok (at_least rank 45 ((10, 0) ∷ (30, 2) ∷ (40, 3) ∷ (50, 4) ∷ []))
unfolding two_leaves_holds
begin_at-live_example =
    begin_at-live rank 100 4 3 rank_lt shape two_leaves 45 2 2 8 8 1 second (first ∷ []) []
      two_leaves_holds.1 refl refl (omega arith, omega arith) ((λ j b. ground arith), tt) tt refl
      (omega arith) (omega arith) (omega arith) (omega arith)

remove-crashes_example : remove rank 0 2 two_leaves 40 ≡ crash
unfolding descend descend_writing upper_bound bisect Internal.lookup Internal.lookup_index
    Internal.search
remove-crashes_example =
    remove-crashes rank second 40 (omega arith) refl refl 2 2 1 two_leaves (2 ∷ []) refl
      (omega arith) refl refl (omega arith) (omega arith)

insert-IsGrown_example :
    (HasKey rank 100 4 3 two_leaves 25
      × (insert rank 4 3 4 4 second blank 2 two_leaves 25 7 ≡ ok (two_leaves, false)))
    ⊎ ((HasKey rank 100 4 3 two_leaves 25 → ⊥)
        × ((t' : Tree ℕ ℕ) × (insert rank 4 3 4 4 second blank 2 two_leaves 25 7 ≡ ok (t', true))
            × IsGrown rank 100 4 3 1 two_leaves 25 7 t'))
insert-IsGrown_example =
    insert-IsGrown rank 100 4 3 4 4 second blank (omega arith) (omega arith) (omega arith)
      (omega arith) rank_lt two_leaves 1 25 7 2 two_leaves_holds (omega arith)

abbrev pairs : List (ℕ × ℕ)
pairs = (30, 1) ∷ (10, 2) ∷ (20, 3) ∷ (50, 4) ∷ (40, 5) ∷ (10, 6) ∷ []

insert_all-find_example :
    (t : Tree ℕ ℕ) × (insert_all rank 2 2 2 3 second blank 7 (empty 0) pairs ≡ ok t)
    × ((key : ℕ) → get_value rank 7 t key ≡ ok (find rank pairs key))
insert_all-find_example =
    insert_all-find rank 100 2 2 2 3 second blank (omega arith) (omega arith) (omega arith)
      (omega arith) rank_lt pairs 0 7 (omega arith)
