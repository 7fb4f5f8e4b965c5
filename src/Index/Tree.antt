-- ===== src/Index/Tree.antt =====
-- bustub-master/src/storage/index/b_plus_tree.cpp: the B+ tree over its pages, `BPlusTree`.
--
-- One operation runs at a time: the page guards of Buffer/Guard.antt only pin and latch what it
-- reads and writes. The pages are a map from page ids; a page id without a page stands for bytes that
-- are no page of the tree, and to use them is a crash, as is to take a page for one of the other
-- kind. `rank` orders the keys as the comparator does: `comparator(a, b) < 0` is
-- `rank a < rank b`. `blank_leaf` and `blank_internal` are what the bytes of a new page read as
-- before `Init`. A descent is on fuel, which is enough when it is more than the height; a descent
-- that has no end does not return, and is a crash too. The buffer pool is taken to have a free frame
-- for every page that an operation holds; without one, its page guards abort. To take the bytes of a
-- page of one kind for a page of the other kind is a crash by convention: the source does it
-- unchecked.
pub mod Insertion
pub mod Repair
pub mod Removal
pub mod Iterator
pub mod Bisection
pub mod Shape
pub mod Descent
pub mod Placing
pub mod Reading
pub mod Inserting
pub mod Loading
pub mod Growing
pub mod Starting
pub mod Adding
pub mod Paths
pub mod Parents
pub mod Halves
pub mod Parts
pub mod Splitting
pub mod Rooting
pub mod Frames
pub mod Linking
pub mod Attaching
pub mod FirstKey
pub mod Scan
pub mod Seeking
pub mod Filling
pub mod Optimism
use cmu_db_15445_project.Prelude.{
  ℕ, zero, suc, ◌+◌, ◌-◌, ◌/◌, Bool, true, false, Option, none, some, List, [], ◌∷◌, ltb, leb, ◌==◌,
  ◌&&◌, if◌then◌else◌, update, Outcome, ok, crash, ◌>>=◌,
}
use cmu_db_15445_project.Index.Leaf.{LeafPage, is_tombstone}
use cmu_db_15445_project.Index.Internal.{InternalPage}

-- `while (lo < hi) { mid = (lo + hi) / 2; if (right mid) lo = mid + 1; else hi = mid; }`
unfoldable pub bisect : (ℕ → Bool) → ℕ → ℕ → ℕ → ℕ
bisect right zero lo hi = lo
bisect right (suc fuel) lo hi = elim (ltb lo hi) [
  | false ↦ lo
  | true ↦
      let mid = (lo + hi) / 2 in
      elim (right mid) [ true ↦ bisect right fuel (mid + 1) hi | false ↦ bisect right fuel lo mid ]
]

-- The separator that a key goes after.
unfoldable pub upper_bound : {Key : Type 0} (rank : Key → ℕ) → InternalPage Key → Key → ℕ
upper_bound rank p key = bisect (λ mid. leb (rank (p.key_array mid)) (rank key)) p.size 1 p.size

pub data Page (Key Value : Type 0) : Type 0 where
  leaf : LeafPage Key Value → Page Key Value
  internal : InternalPage Key → Page Key Value

-- The header page's `root_page_id_`, the pages, and the counter of the buffer pool.
pub record Tree (Key Value : Type 0) : Type 0 where
  pub root : Option ℕ
  pub pages : ℕ → Option (Page Key Value)
  pub next_page_id : ℕ

module _ {Key Value : Type 0} where
  abbrev pub put : Tree Key Value → ℕ → Page Key Value → Tree Key Value
  put t pid page = record t { pages = update t.pages pid (some page) }

  -- `AsMut<LeafPage>` and `AsMut<InternalPage>`.
  abbrev pub as_leaf : Option (Page Key Value) → Outcome (LeafPage Key Value)
  as_leaf (some (leaf p)) = ok p
  as_leaf _ = crash

  abbrev pub as_internal : Option (Page Key Value) → Outcome (InternalPage Key)
  as_internal (some (internal p)) = ok p
  as_internal _ = crash

  unfoldable pub empty : ℕ → Tree Key Value
  empty next_page_id = record { root = none; pages = λ _. none; next_page_id = next_page_id }

  unfoldable pub is_empty : Tree Key Value → Bool
  is_empty t = elim t.root [ none ↦ true | some _ ↦ false ]

  module _ (rank : Key → ℕ) where
    -- The place of a key in a leaf.
    unfoldable pub lower_bound : LeafPage Key Value → Key → ℕ
    lower_bound p key = bisect (λ mid. ltb (rank (p.key_array mid)) (rank key)) p.size 0 p.size

    -- `lo < size && comparator_(leaf->KeyAt(lo), key) == 0`
    abbrev pub is_at : LeafPage Key Value → Key → ℕ → Bool
    is_at p key lo = ltb lo p.size && rank (p.key_array lo) == rank key

    -- From a page down to the leaf, with the pages that were passed, the last one first.
    unfoldable pub descend :
        (ℕ → Option (Page Key Value))
        → Key
        → ℕ
        → ℕ
        → List ℕ
        → Outcome (ℕ × LeafPage Key Value × List ℕ)
    descend pages key zero pid path = crash
    descend pages key (suc fuel) pid path = elim (pages pid) [
      | none ↦ crash
      | some page ↦ elim page [
        | leaf p ↦ ok (pid, p, path)
        | internal p ↦
            descend pages key fuel (p.page_id_array (upper_bound rank p key - 1)) (pid ∷ path)
      ]
    ]

    -- What `GetValue` reads in the leaf.
    abbrev pub read_leaf : LeafPage Key Value → Key → Option Value
    read_leaf p key =
        let lo = lower_bound p key in
        if is_at p key lo then if is_tombstone p lo then none else some (p.rid_array lo) else none

    unfoldable pub get_value : ℕ → Tree Key Value → Key → Outcome (Option Value)
    get_value fuel t key = elim t.root [
      | none ↦ ok none
      | some pid ↦ descend t.pages key fuel pid [] >>= λ r. ok (read_leaf r.1 key)
    ]
