-- ===== src/Index/Tree/Shape.antt =====
-- The shape of a B+ tree: every page covers a range of keys, has a level above the leaves, and is
-- one child of one page, or the root.
use cmu_db_15445_project.Prelude.{
  ℕ, suc, ◌+◌, ◌<◌, ◌≤◌, ◌≡◌, ◌≢◌, Option, none, some, List, [], ◌∷◌, ◌==◌, if◌then◌else◌,
}
use cmu_db_15445_project.Index.Leaf.{LeafPage}
use cmu_db_15445_project.Index.Internal.{InternalPage}
use cmu_db_15445_project.Index.Tree.{leaf, internal, Tree}
use cmu_db_15445_project.Index.Tree.Bisection.{IsSorted}

-- Page `pid` covers the keys from `lo pid` to below `hi pid`, and is child `at pid` of `up pid`.
pub record Shape : Type 0 where
  pub lo : ℕ → ℕ
  pub hi : ℕ → ℕ
  pub level : ℕ → ℕ
  pub up : ℕ → ℕ
  pub at : ℕ → ℕ

-- The pages above a page, its parent first.
abbrev pub IsPath : {Key Value : Type 0} → Shape → Tree Key Value → ℕ → List ℕ → Type 0
IsPath g t pid [] = t.root ≡ some pid
IsPath g t pid (parent ∷ rest) = (t.root ≢ some pid) × (g.up pid ≡ parent) × IsPath g t parent rest

-- The page covers the key.
abbrev pub Covers : {Key : Type 0} → (Key → ℕ) → Shape → ℕ → Key → Type 0
Covers rank g pid key = (g.lo pid ≤ rank key) × (rank key < g.hi pid)

module _ {Key Value : Type 0} (rank : Key → ℕ) (limit leaf_max_size internal_max_size : ℕ) where
  pub record IsLeaf (g : Shape) (pid : ℕ) (p : LeafPage Key Value) : Type 0 where
    pub bottom : g.level pid ≡ 0
    pub maximum : p.max_size ≡ leaf_max_size
    pub sorted : IsSorted rank p
    pub within :
        (j : ℕ) → j < p.size → (g.lo pid ≤ rank (p.key_array j)) × (rank (p.key_array j) < g.hi pid)

  -- `shown c` is where the range of a page ends as its parent has it.
  pub record IsNode (g : Shape) (shown : ℕ → ℕ) (t : Tree Key Value) (pid : ℕ)
      (p : InternalPage Key) : Type 0 where
    pub some_child : 1 ≤ p.size
    pub sorted :
        (i j : ℕ) → 1 ≤ i → i < j → j < p.size → rank (p.key_array i) < rank (p.key_array j)
    pub within :
        (j : ℕ)
        → 1 ≤ j
        → j < p.size
        → (g.lo pid < rank (p.key_array j)) × (rank (p.key_array j) < g.hi pid)
    pub formatted : (j : ℕ) → j < p.size → t.pages (p.page_id_array j) ≢ none
    pub above : (j : ℕ) → j < p.size → g.level pid ≡ suc (g.level (p.page_id_array j))
    pub up : (j : ℕ) → j < p.size → g.up (p.page_id_array j) ≡ pid
    pub at : (j : ℕ) → j < p.size → g.at (p.page_id_array j) ≡ j
    pub low :
        (j : ℕ)
        → j < p.size
        → g.lo (p.page_id_array j) ≡ (if j == 0 then g.lo pid else rank (p.key_array j))
    pub high :
        (j : ℕ)
        → j < p.size
        → shown (p.page_id_array j)
          ≡ (if j + 1 == p.size then g.hi pid else rank (p.key_array (j + 1)))

  -- `loose` is a page that no page has as a child yet.
  pub record Inv (g : Shape) (shown : ℕ → ℕ) (loose : Option ℕ) (t : Tree Key Value) : Type 0 where
    pub root :
        (r : ℕ)
        → t.root ≡ some r
        → (t.pages r ≢ none) × (g.up r ≡ r) × (g.lo r ≡ 0) × (shown r ≡ limit)
    pub rootless : t.root ≡ none → (pid : ℕ) → t.pages pid ≡ none
    pub tallest : (r pid : ℕ) → t.root ≡ some r → t.pages pid ≢ none → g.level pid ≤ g.level r
    pub linked :
        (pid : ℕ)
        → t.pages pid ≢ none
        → loose ≢ some pid
        → t.root ≢ some pid
        → (p : InternalPage Key) × (t.pages (g.up pid) ≡ some (internal p))
          × (g.at pid < p.size)
          × (p.page_id_array (g.at pid) ≡ pid)
    pub ordered : (pid : ℕ) → t.pages pid ≢ none → g.lo pid < g.hi pid
    pub fresh : (pid : ℕ) → t.next_page_id ≤ pid → t.pages pid ≡ none
    pub leaves : (pid : ℕ) (p : LeafPage Key Value) → t.pages pid ≡ some (leaf p) → IsLeaf g pid p
    pub nodes :
        (pid : ℕ) (p : InternalPage Key) → t.pages pid ≡ some (internal p) → IsNode g shown t pid p

  -- Page `c` is split: its upper part is page `n`, and the parent of `c` does not have `n` yet.
  pub record Pending (g : Shape) (shown : ℕ → ℕ) (c n : ℕ) (t : Tree Key Value) : Type 0 where
    pub inv : Inv g shown (some n) t
    pub split : t.pages c ≢ none
    pub formatted : t.pages n ≢ none
    pub apart : c ≢ n
    pub cut : g.hi c ≡ g.lo n
    pub rest : shown c ≡ g.hi n
    pub others : (x : ℕ) → x ≢ c → shown x ≡ g.hi x
    pub beside : g.level n ≡ g.level c
    pub alone : g.up n ≡ n
    pub below : t.root ≢ some n

  -- No page but `big` has more entries than it may keep.
  pub record HasRoom (big : Option ℕ) (t : Tree Key Value) : Type 0 where
    pub leaves :
        (pid : ℕ) (p : LeafPage Key Value)
        → big ≢ some pid
        → t.pages pid ≡ some (leaf p)
        → p.size < leaf_max_size
    pub nodes :
        (pid : ℕ) (p : InternalPage Key)
        → big ≢ some pid
        → t.pages pid ≡ some (internal p)
        → p.size ≤ internal_max_size

  -- A tree of some shape, whose root is at the level `height`.
  abbrev pub IsTree : ℕ → Tree Key Value → Type 0
  IsTree height t =
      (g : Shape) × Inv g g.hi none t
      × HasRoom none t
      × ((r : ℕ) → t.root ≡ some r → g.level r ≡ height)
