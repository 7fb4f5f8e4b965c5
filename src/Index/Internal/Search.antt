-- ===== src/Index/Internal/Search.antt =====
-- The binary search of `Lookup`.
use cmu_db_15445_project.Prelude.{
  ℕ, zero, suc, ◌+◌, ◌-◌, ◌/◌, ◌<◌, ◌≤◌, ◌≡◌, refl, Bool, true, false, leb, arith, Bool-cases, inl,
  inr,
}
use cmu_db_15445_project.Index.Internal.{InternalPage, search, lookup_index, lookup}

module _ {Key : Type 0} (le : Key → Key → Bool) (p : InternalPage Key) (key : Key) where
  -- The keys from the index 1 on that are at most the searched one come first.
  abbrev pub IsSorted : Type 0
  IsSorted =
      (i j : ℕ)
      → 1 ≤ i
      → i ≤ j
      → j < p.size
      → le (p.key_array j) key ≡ true
      → le (p.key_array i) key ≡ true

  -- The key at `r` is the last that is at most the searched one; `r` is 0 if there is none.
  abbrev pub IsChild : ℕ → Type 0
  IsChild r =
      (r < p.size)
      × (1 ≤ r → le (p.key_array r) key ≡ true)
      × ((j : ℕ) → r < j → j < p.size → le (p.key_array j) key ≡ false)

  module _ (s : IsSorted) where
    above :
        (i j : ℕ)
        → le (p.key_array i) key ≡ false
        → 1 ≤ i
        → i ≤ j
        → j < p.size
        → le (p.key_array j) key ≡ false
    above i j t a b c = elim (Bool-cases (le (p.key_array j) key)) [
      | inl u ↦ let x = s i j a b c u in absurd cc
      | inr u ↦ u
    ]

  search-IsChild :
      (fuel left right result : ℕ)
      → IsSorted
      → result + 1 ≡ left
      → left ≤ right + 1
      → right < p.size
      → right + 1 - left ≤ fuel
      → (1 ≤ result → le (p.key_array result) key ≡ true)
      → ((j : ℕ) → right < j → j < p.size → le (p.key_array j) key ≡ false)
      → IsChild (search le p key fuel left right result)
  unfolding search
  search-IsChild zero left right result s e l b f low high =
      (omega arith, low, λ j x y. high j (omega arith) y)
  search-IsChild (suc fuel) left right result s e l b f low high =
      elim (Bool-cases (leb left right)) [
        | inr out ↦ rw (out, search) (ground arith, low, λ j x y. high j (ground arith) y)
        | inl go ↦
            let mid = (left + right) / 2 in
            let inside : (left ≤ mid) × (mid ≤ right) = (ground arith, ground arith) in
            elim (Bool-cases (le (p.key_array mid) key)) [
              | inl t ↦
                  rw (go, search, t)
                    (search-IsChild fuel (mid + 1) right mid s refl (omega (arith, inside.1)) b
                      (omega (arith, f, inside.0)) (λ _. t) high)
              | inr t ↦
                  rw (go, search, t)
                    (search-IsChild fuel left (mid - 1) result s e (omega (arith, inside.0, e))
                      (omega (arith, inside.1, b)) (omega (arith, f, inside.0, inside.1, e)) low
                      (λ j x y.
                        above s mid j t (omega (arith, inside.0, e)) (omega (arith, inside.0, e, x))
                          y))
            ]
      ]

  -- On a page with an entry whose keys are sorted, `Lookup` returns the child under the last key
  -- that is at most the searched one, or the first child if there is no such key.
  pub lookup-IsChild :
      IsSorted → 0 < p.size → (r : ℕ) × (lookup le p key ≡ p.page_id_array r) × IsChild r
  unfolding lookup lookup_index
  lookup-IsChild s h = (
    lookup_index le p key,
    refl,
    search-IsChild p.size 1 (p.size - 1) 0 s (omega arith) (omega arith) (omega arith) (omega arith)
        (λ c. absurd (omega arith)) (λ j x y. absurd (omega arith)),
  )
