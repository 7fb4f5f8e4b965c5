-- ===== src/Index/Internal/Entries.antt =====
-- The entries of an internal page under the operations on one page.
use cmu_db_15445_project.Prelude.{
  ℕ, zero, suc, ◌+◌, ◌-◌, ◌<◌, ◌≤◌, ◌≡◌, ◌≢◌, ◌∷◌, ◌++◌, arith, none, some, Option, Bool-cases, inl,
  inr, ◌==◌,
}
use cmu_db_15445_project.Index.Arrays.{
  shift_right-at, shift_left-at, listed, listed-insert, listed-delete,
}
use cmu_db_15445_project.Index.Internal.{
  InternalPage, insert_at, remove_at, value_index, value_index_from,
}

module _ {Key : Type 0} where
  abbrev pub entry_at : InternalPage Key → ℕ → Key × ℕ
  entry_at p j = (p.key_array j, p.page_id_array j)

  -- `InsertAt` an index within the page puts the entry there and keeps the others in order.
  pub insert_at-listed :
      (p : InternalPage Key) (i : ℕ) (k : Key) (v : ℕ)
      → i ≤ p.size
      → listed (entry_at (insert_at p i k v)) 0 (insert_at p i k v).size
        ≡ listed (entry_at p) 0 i ++ (k, v) ∷ listed (entry_at p) i (p.size - i)
  unfolding insert_at
  insert_at-listed p i k v h =
      listed-insert (entry_at p) (entry_at (insert_at p i k v)) i p.size (k, v) h
        (λ j l. ground (
          arith,
          shift_right-at p.key_array i (p.size - i) j,
          shift_right-at p.page_id_array i (p.size - i) j,
        ))

  -- `RemoveAt` an index within the page takes out the entry there and keeps the others in order.
  pub remove_at-listed :
      (p : InternalPage Key) (i : ℕ)
      → i < p.size
      → listed (entry_at (remove_at p i)) 0 (remove_at p i).size
        ≡ listed (entry_at p) 0 i ++ listed (entry_at p) (i + 1) (p.size - i - 1)
  unfolding remove_at
  remove_at-listed p i h = listed-delete (entry_at p) (entry_at (remove_at p i)) i p.size h (λ j l.
      ground (
        arith,
        shift_left-at p.key_array i (p.size - 1 - i) j,
        shift_left-at p.page_id_array i (p.size - 1 - i) j,
      ))

  -- The first index that holds the value, or nothing if there is none.
  abbrev pub IsFirst : InternalPage Key → ℕ → ℕ → ℕ → Option ℕ → Type 0
  IsFirst p value i n none = (j : ℕ) → i ≤ j → j < i + n → p.page_id_array j ≢ value
  IsFirst p value i n (some r) =
      (i ≤ r)
      × (r < i + n)
      × (p.page_id_array r ≡ value)
      × ((j : ℕ) → i ≤ j → j < r → p.page_id_array j ≢ value)

  widen :
      (p : InternalPage Key) (value i n : ℕ) (o : Option ℕ)
      → p.page_id_array i ≢ value
      → IsFirst p value (i + 1) n o
      → IsFirst p value i (suc n) o
  widen p value i n none h k = λ j a b. ground (arith, k j)
  widen p value i n (some r) h (a, b, c, k) =
      (omega arith, omega arith, c, λ j x y. ground (arith, k j))

  value_index_from-IsFirst :
      (p : InternalPage Key) (value i n : ℕ) → IsFirst p value i n (value_index_from p value i n)
  unfolding value_index_from
  value_index_from-IsFirst p value i zero = λ j a b. absurd (omega arith)
  value_index_from-IsFirst p value i (suc n) = elim (Bool-cases (p.page_id_array i == value)) [
    | inl e ↦
        rw (e, value_index_from)
          (omega arith, omega arith, ground arith, λ j a b. absurd (omega arith))
    | inr e ↦
        rw (e, value_index_from)
          (widen p value i n (value_index_from p value (i + 1) n) (ground arith)
            (value_index_from-IsFirst p value (i + 1) n))
  ]

  -- `ValueIndex` returns the first index of the page that holds the value, or nothing if none does.
  pub value_index-IsFirst :
      (p : InternalPage Key) (value : ℕ) → IsFirst p value 0 p.size (value_index p value)
  unfolding value_index
  value_index-IsFirst p value = value_index_from-IsFirst p value 0 p.size
