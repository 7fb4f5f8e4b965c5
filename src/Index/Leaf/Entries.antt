-- ===== src/Index/Leaf/Entries.antt =====
-- The entries of a leaf page, in order and with their tombstones, under the operations on one page.
use cmu_db_15445_project.Prelude.{
  ℕ, ◌+◌, ◌-◌, ◌/◌, ◌≤◌, ◌<◌, ◌≡◌, refl, sym, Bool, false, List, [], ◌∷◌, ◌++◌, ltb, ◌==◌,
  if◌then◌else◌, arith,
}
use cmu_db_15445_project.Index.Arrays.{
  shift_right-at, shift_left-at, copy-at, listed, listed-ext, listed-split, listed-insert,
  listed-delete,
}
use cmu_db_15445_project.Index.Leaf.{
  LeafPage, has_tombstone, raise_from, drop_tombstone, tombstones_below, tombstones_from,
  is_tombstone, insert_at, remove_at, split,
}

pub has_tombstone-raise_from :
    (i j : ℕ) (ts : List ℕ)
    → has_tombstone j (raise_from i ts)
      ≡ (if ltb j i then has_tombstone j ts else if j == i then false else has_tombstone (j - 1) ts)
has_tombstone-raise_from i j [] = ground arith
has_tombstone-raise_from i j (t ∷ ts) = ground (arith, has_tombstone-raise_from i j ts)

has_tombstone-drop_tombstone :
    (i j : ℕ) (ts : List ℕ)
    → has_tombstone j (drop_tombstone i ts)
      ≡ (if ltb j i then has_tombstone j ts else has_tombstone (j + 1) ts)
has_tombstone-drop_tombstone i j [] = ground arith
has_tombstone-drop_tombstone i j (t ∷ ts) = ground (arith, has_tombstone-drop_tombstone i j ts)

pub has_tombstone-below :
    (m j : ℕ) (ts : List ℕ) → j < m → has_tombstone j (tombstones_below m ts) ≡ has_tombstone j ts
has_tombstone-below m j [] h = refl
has_tombstone-below m j (t ∷ ts) h = ground (arith, has_tombstone-below m j ts)

pub has_tombstone-from :
    (m j : ℕ) (ts : List ℕ) → has_tombstone j (tombstones_from m ts) ≡ has_tombstone (m + j) ts
has_tombstone-from m j [] = refl
has_tombstone-from m j (t ∷ ts) = ground (arith, has_tombstone-from m j ts)

module _ {Key Value : Type 0} where
  -- An entry is a key, a value, and whether the key is deleted.
  abbrev pub entry_at : LeafPage Key Value → ℕ → Key × Value × Bool
  entry_at p j = (p.key_array j, p.rid_array j, is_tombstone p j)

  abbrev pub entries : LeafPage Key Value → List (Key × Value × Bool)
  entries p = listed (entry_at p) 0 p.size

  abbrev pub entries_before : LeafPage Key Value → ℕ → List (Key × Value × Bool)
  entries_before p i = listed (entry_at p) 0 i

  abbrev pub entries_after : LeafPage Key Value → ℕ → List (Key × Value × Bool)
  entries_after p i = listed (entry_at p) i (p.size - i)

  -- `InsertAt` an index within the page puts a live entry there, and every other entry stays in
  -- order and alive or deleted as it was.
  pub insert_at-entries :
      (p : LeafPage Key Value) (i : ℕ) (k : Key) (v : Value)
      → i ≤ p.size
      → entries (insert_at p i k v) ≡ entries_before p i ++ (k, v, false) ∷ entries_after p i
  unfolding insert_at
  insert_at-entries p i k v h =
      listed-insert (entry_at p) (entry_at (insert_at p i k v)) i p.size (k, v, false) h
        (λ j l. ground (
          arith,
          shift_right-at p.key_array i (p.size - i) j,
          shift_right-at p.rid_array i (p.size - i) j,
          has_tombstone-raise_from i j p.tombstones,
        ))

  -- `RemoveAt` an index within the page takes out the entry there, and every other entry stays in
  -- order and alive or deleted as it was.
  pub remove_at-entries :
      (p : LeafPage Key Value) (i : ℕ)
      → i < p.size
      → entries (remove_at p i) ≡ entries_before p i ++ listed (entry_at p) (i + 1) (p.size - i - 1)
  unfolding remove_at
  remove_at-entries p i h = listed-delete (entry_at p) (entry_at (remove_at p i)) i p.size h (λ j l.
      ground (
        arith,
        shift_left-at p.key_array i (p.size - i - 1) j,
        shift_left-at p.rid_array i (p.size - i - 1) j,
        has_tombstone-drop_tombstone i j p.tombstones,
      ))

  -- `Split` leaves the first half of the entries in the page and gives the others to the new leaf,
  -- in order and alive or deleted as they were; the new leaf has as many entries as the page, or one
  -- more.
  pub split-entries :
      (p new_leaf : LeafPage Key Value)
      → (entries (split p new_leaf).0 ++ entries (split p new_leaf).1 ≡ entries p)
        × ((split p new_leaf).0.size ≤ (split p new_leaf).1.size)
        × ((split p new_leaf).1.size ≤ (split p new_leaf).0.size + 1)
  unfolding split
  split-entries p q =
      let m = p.size / 2 in
      let n = p.size - m in
      let front : entries (split p q).0 ≡ listed (entry_at p) 0 m =
        listed-ext (entry_at (split p q).0) (entry_at p) 0 0 m
          (λ k l. ground (arith, has_tombstone-below m k p.tombstones)) in
      let back : entries (split p q).1 ≡ listed (entry_at p) m n =
        listed-ext (entry_at (split p q).1) (entry_at p) 0 m n (λ k l. ground (
          arith,
          copy-at p.key_array m q.key_array 0 n k,
          copy-at p.rid_array m q.rid_array 0 n k,
          has_tombstone-from m k p.tombstones,
        )) in
      (
        rw (front, back) (sym (listed-split (entry_at p) m p.size (omega arith))),
        omega arith,
        omega arith,
      )
