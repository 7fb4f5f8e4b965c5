-- ===== src/Index/Tree/Iterator.antt =====
-- `Begin`, `End` and bustub-master/src/storage/index/index_iterator.cpp, `IndexIterator`.
--
-- An iterator is the page and the index that it stands at; `none` is the end.
use cmu_db_15445_project.Prelude.{
  ℕ, zero, suc, ◌+◌, ◌-◌, Bool, true, false, Option, none, some, [], ltb, if◌then◌else◌, Outcome,
  ok, crash, ◌>>=◌,
}
use cmu_db_15445_project.Index.Leaf.{LeafPage, is_tombstone}
use cmu_db_15445_project.Index.Tree.{Page, leaf, internal, Tree, as_leaf, lower_bound, descend}

abbrev pub IndexIterator : Type 0
IndexIterator = Option (ℕ × ℕ)

abbrev pub end : IndexIterator
end = none

unfoldable pub is_end : IndexIterator → Bool
is_end none = true
is_end (some _) = false

module _ {Key Value : Type 0} where
  -- `while (index < leaf->GetSize() && leaf->IsTombstone(index)) index++;`, over `n` entries.
  unfoldable pub skip_tombstones : LeafPage Key Value → ℕ → ℕ → ℕ
  skip_tombstones p i zero = i
  skip_tombstones p i (suc n) =
      let rest = skip_tombstones p (i + 1) n in if is_tombstone p i then rest else i

  -- The first live entry from an index on, in this leaf or the next ones.
  unfoldable pub first_live :
      (ℕ → Option (Page Key Value)) → ℕ → ℕ → LeafPage Key Value → ℕ → Outcome IndexIterator
  first_live pages zero pid p i = crash
  first_live pages (suc fuel) pid p i =
      let j = skip_tombstones p i (p.size - i) in
      elim (ltb j p.size) [
        | true ↦ ok (some (pid, j))
        | false ↦ elim p.next_page_id [
          | none ↦ ok end
          | some next ↦ as_leaf (pages next) >>= λ q. first_live pages fuel next q 0
        ]
      ]

  unfoldable pub descend_leftmost :
      (ℕ → Option (Page Key Value)) → ℕ → ℕ → Outcome (ℕ × LeafPage Key Value)
  descend_leftmost pages zero pid = crash
  descend_leftmost pages (suc fuel) pid = elim (pages pid) [
    | none ↦ crash
    | some page ↦ elim page [
      | leaf p ↦ ok (pid, p)
      | internal p ↦ descend_leftmost pages fuel (p.page_id_array 0)
    ]
  ]

  unfoldable pub begin : ℕ → Tree Key Value → Outcome IndexIterator
  begin fuel t = elim t.root [
    | none ↦ ok end
    | some pid ↦ descend_leftmost t.pages fuel pid >>= λ r. first_live t.pages fuel r.0 r.1 0
  ]

  unfoldable pub begin_at : (Key → ℕ) → ℕ → Tree Key Value → Key → Outcome IndexIterator
  begin_at rank fuel t key = elim t.root [
    | none ↦ ok end
    | some pid ↦ descend rank t.pages key fuel pid [] >>= λ r.
        first_live t.pages fuel r.0 r.1 (lower_bound rank r.1 key)
  ]

  -- `operator*`.
  unfoldable pub deref : Tree Key Value → IndexIterator → Outcome (Key × Value)
  deref t none = crash
  deref t (some (pid, i)) = as_leaf (t.pages pid) >>= λ p. ok (p.key_array i, p.rid_array i)

  -- The loop of `operator++`.
  unfoldable pub advance_from :
      (ℕ → Option (Page Key Value)) → ℕ → ℕ → LeafPage Key Value → ℕ → Outcome IndexIterator
  advance_from pages zero pid p i = crash
  advance_from pages (suc fuel) pid p i = elim (ltb i p.size) [
    | true ↦ elim (is_tombstone p i) [
      | false ↦ ok (some (pid, i))
      | true ↦ advance_from pages fuel pid p (i + 1)
    ]
    | false ↦ elim p.next_page_id [
      | none ↦ ok end
      | some next ↦ as_leaf (pages next) >>= λ q. advance_from pages fuel next q 0
    ]
  ]

  unfoldable pub advance : ℕ → Tree Key Value → IndexIterator → Outcome IndexIterator
  advance fuel t none = crash
  advance fuel t (some (pid, i)) =
      as_leaf (t.pages pid) >>= λ p. advance_from t.pages fuel pid p (i + 1)
