-- ===== src/Index/Leaf/Removal.antt =====
-- `Remove` of a key from a leaf page.
use mathlib.Core.List.{append-nil, append_assoc}
use cmu_db_15445_project.Prelude.{
  ℕ, zero, suc, ◌+◌, ◌-◌, ◌≡◌, refl, ap, sym, ◌∙◌, Bool, true, false, List, [], ◌∷◌, ◌++◌, leb,
  ◌==◌, if◌then◌else◌, length, arith, Bool-cases, inl, inr,
}
use cmu_db_15445_project.Index.Arrays.{listed, listed-ext, listed-last, listed-split}
use cmu_db_15445_project.Index.Leaf.{LeafPage, has_tombstone, is_tombstone, remove_from, remove}
use cmu_db_15445_project.Index.Leaf.Entries.{entry_at, entries, entries_before, remove_at-entries}

has_tombstone-append :
    (i j : ℕ) (ts : List ℕ)
    → has_tombstone j (ts ++ i ∷ []) ≡ (if i == j then true else has_tombstone j ts)
has_tombstone-append i j [] = ground arith
has_tombstone-append i j (t ∷ ts) = ground (arith, has_tombstone-append i j ts)

module _ {Key Value : Type 0} (equal : Key → Key → Bool) (tomb_cnt : ℕ) where
  -- The removal of a key from a list of entries: of the first entry with the key, if it is alive.
  -- If the tombstones are all in use, the entry goes; else it is marked as deleted.
  abbrev pub delete_key : Bool → Key → List (Key × Value × Bool) → List (Key × Value × Bool) × Bool
  delete_key full key [] = ([], false)
  delete_key full key ((k, v, dead) ∷ es) =
      let rest = delete_key full key es in
      if equal k key
      then (if dead
          then ((k, v, dead) ∷ es, false)
          else if full
          then (es, true)
          else ((k, v, true) ∷ es, true))
      else ((k, v, dead) ∷ rest.0, rest.1)

  module _ (p : LeafPage Key Value) (key : Key) where
    abbrev full : Bool
    full = leb tomb_cnt (length p.tombstones)

    abbrev Removes : ℕ → ℕ → Type 0
    Removes i n =
        (entries (remove_from equal tomb_cnt p key i n).0
          ≡ entries_before p i ++ (delete_key full key (listed (entry_at p) i n)).0)
        × ((remove_from equal tomb_cnt p key i n).1
            ≡ (delete_key full key (listed (entry_at p) i n)).1)

    entries-at :
        (i n : ℕ)
        → i + suc n ≡ p.size
        → entries p ≡ entries_before p i ++ listed (entry_at p) i (suc n)
    entries-at i n e =
        let m : p.size - i ≡ suc n = omega arith in
        listed-split (entry_at p) i p.size (omega arith)
        ∙ ap (λ k. entries_before p i ++ listed (entry_at p) i k) m

    marked : ℕ → LeafPage Key Value
    marked i = record p { tombstones = p.tombstones ++ i ∷ [] }

    marked-entries :
        (i n : ℕ)
        → i + suc n ≡ p.size
        → entries (marked i)
          ≡ entries_before p i
            ++ (p.key_array i, p.rid_array i, true) ∷ listed (entry_at p) (i + 1) n
    unfolding marked
    marked-entries i n e =
        let q = marked i in
        let m : p.size - i ≡ suc n = omega arith in
        let front : listed (entry_at q) 0 i ≡ listed (entry_at p) 0 i =
          listed-ext (entry_at q) (entry_at p) 0 0 i
            (λ k l. ground (arith, has_tombstone-append i k p.tombstones)) in
        let here : entry_at q i ≡ (p.key_array i, p.rid_array i, true) =
          ground (arith, has_tombstone-append i i p.tombstones) in
        let back : listed (entry_at q) (i + 1) n ≡ listed (entry_at p) (i + 1) n =
          listed-ext (entry_at q) (entry_at p) (i + 1) (i + 1) n
            (λ k l. ground (arith, has_tombstone-append i (i + 1 + k) p.tombstones)) in
        listed-split (entry_at q) i p.size (omega arith)
        ∙ ap (λ k. listed (entry_at q) 0 i ++ listed (entry_at q) i k) m
        ∙ rw (front, here, back) refl

    remove_from-Removes : (n i : ℕ) → i + n ≡ p.size → Removes i n
    unfolding remove_from marked
    remove_from-Removes zero i e =
        let m : i ≡ p.size = omega arith in (rw m (sym (append-nil (entries p))), refl)
    remove_from-Removes (suc n) i e = elim (Bool-cases (equal (p.key_array i) key)) [
      | inl same ↦ elim (Bool-cases (is_tombstone p i)) [
        | inl dead ↦ rw (same, remove_from, dead) (entries-at i n e ∙ rw dead refl, refl)
        | inr alive ↦ elim (Bool-cases full) [
          | inl f ↦
              let m : p.size - i - 1 ≡ n = omega arith in
              rw (same, remove_from, alive, f)
                (
                  remove_at-entries p i (omega arith)
                      ∙ ap (λ k. entries_before p i ++ listed (entry_at p) (i + 1) k) m,
                  refl,
                )
          | inr f ↦ rw (same, remove_from, alive, f) (marked-entries i n e, refl)
        ]
      ]
      | inr other ↦
          let (a, b) = remove_from-Removes n (i + 1) (omega arith) in
          let z : listed (entry_at p) 0 (i + 1) ≡ entries_before p i ++ entry_at p i ∷ [] =
            listed-last (entry_at p) i in
          rw (other, remove_from)
            (a ∙ rw z (append_assoc (entries_before p i) (entry_at p i ∷ []) _), b)
    ]

  -- `Remove` does to the entries of a page what the removal of a key does to a list, and returns
  -- the same, whether there was a live entry to remove: the entry is marked as deleted while there is a
  -- free tombstone, and when the tombstones are all in use this entry goes from the page and those
  -- that were marked before stay, so that the older deletes stay pending.
  pub remove-entries :
      (p : LeafPage Key Value) (key : Key)
      → (entries (remove equal tomb_cnt p key).0
          ≡ (delete_key (leb tomb_cnt (length p.tombstones)) key (entries p)).0)
        × ((remove equal tomb_cnt p key).1
            ≡ (delete_key (leb tomb_cnt (length p.tombstones)) key (entries p)).1)
  unfolding remove
  remove-entries p key = remove_from-Removes p key p.size 0 (omega arith)
