-- ===== src/Index/Tree/Placing.antt =====
-- A new key in a leaf: the entries and their order.
use cmu_db_15445_project.Prelude.{
  ℕ, ◌+◌, ◌-◌, ◌<◌, ◌≤◌, ◌≡◌, ◌≢◌, refl, ap, ◌∙◌, false, ◌⊎◌, inl, inr, ltb, ◌==◌, if◌then◌else◌,
  arith, Bool-cases,
}
use cmu_db_15445_project.Index.Arrays.{shift_right-at}
use cmu_db_15445_project.Index.Leaf.{LeafPage, insert_at}
use cmu_db_15445_project.Index.Leaf.Entries.{entry_at, has_tombstone-raise_from}
use cmu_db_15445_project.Index.Tree.{lower_bound, is_at}
use cmu_db_15445_project.Index.Tree.Bisection.{IsSorted, lower_bound-IsCut, read_leaf-at}

module _ {Key Value : Type 0} (rank : Key → ℕ) where
  -- Whether a leaf has a key.
  pub key_cases :
      (p : LeafPage Key Value) (key : Key)
      → IsSorted rank p
      → ((j : ℕ) × (j < p.size) × (rank (p.key_array j) ≡ rank key))
        ⊎ ((j : ℕ) → j < p.size → rank (p.key_array j) ≢ rank key)
  key_cases p key s =
      let lo = lower_bound rank p key in
      elim (Bool-cases (is_at rank p key lo)) [
        | inl e ↦ inl (lo, ground arith, ground arith)
        | inr e ↦
            inr (λ j l same.
              let here = (read_leaf-at rank p s key j l same).0 in ground (arith, here))
      ]

  module _ (p : LeafPage Key Value) (key : Key) (value : Value) (s : IsSorted rank p)
      (new : is_at rank p key (lower_bound rank p key) ≡ false) where
    abbrev pub lo : ℕ
    lo = lower_bound rank p key

    abbrev pub grown : LeafPage Key Value
    grown = insert_at p lo key value

    pub grown-at :
        (j : ℕ)
        → j ≤ p.size
        → entry_at grown j ≡ (
            if ltb j lo
            then entry_at p j
            else if j == lo
            then (key, value, false)
            else entry_at p (j - 1))
    unfolding insert_at
    grown-at j l = ground (
      arith,
      shift_right-at p.key_array lo (p.size - lo) j,
      shift_right-at p.rid_array lo (p.size - lo) j,
      has_tombstone-raise_from lo j p.tombstones,
    )

    pub grown-size :
        (grown.size ≡ p.size + 1)
        × (grown.max_size ≡ p.max_size)
        × (grown.next_page_id ≡ p.next_page_id)
    unfolding insert_at
    grown-size = (refl, refl, refl)

    pub grown-keys :
        (j : ℕ)
        → j ≤ p.size
        → rank (grown.key_array j) ≡ (
            if ltb j lo
            then rank (p.key_array j)
            else if j == lo
            then rank key
            else rank (p.key_array (j - 1)))
    grown-keys j l = ap (λ x. rank x.0) (grown-at j l) ∙ ground arith

    -- The keys of the page are below the new one before its place, and above it from there on.
    around :
        (j : ℕ)
        → j < p.size
        → (j < lo → rank (p.key_array j) < rank key) × (lo ≤ j → rank key < rank (p.key_array j))
    around j l =
        let c = lower_bound-IsCut rank p s key in
        (ground (arith, c.before j), ground (arith, c.after j, c.after lo, s lo j))

    -- The key at a place of the page with the new key, by where the place is.
    grown-keys_below : (j : ℕ) → j < lo → rank (grown.key_array j) ≡ rank (p.key_array j)
    grown-keys_below j l =
        let c = lower_bound-IsCut rank p s key in
        grown-keys j (omega (arith, l, c.to)) ∙ ground arith

    grown-keys_here : rank (grown.key_array lo) ≡ rank key
    grown-keys_here = let c = lower_bound-IsCut rank p s key in grown-keys lo c.to ∙ ground arith

    grown-keys_above :
        (j : ℕ) → lo ≤ j → j < p.size → rank (grown.key_array (j + 1)) ≡ rank (p.key_array j)
    grown-keys_above j l m =
        let back : (j + 1) - 1 ≡ j = omega arith in
        grown-keys (j + 1) (omega (arith, m)) ∙ rw back (ground arith)

    -- A place is below the new one, is it, or is one after an old place.
    pub place_cases : (j : ℕ) → (j < lo) ⊎ ((j ≡ lo) ⊎ ((k : ℕ) × (j ≡ k + 1) × (lo ≤ k)))
    place_cases j = elim (Bool-cases (ltb j lo)) [
      | inl e ↦ inl (ground arith)
      | inr e ↦ elim (Bool-cases (j == lo)) [
        | inl e' ↦ inr (inl (ground arith))
        | inr e' ↦ inr (inr (j - 1, ground arith, ground arith))
      ]
    ]

    pub grown-IsSorted : IsSorted rank grown
    grown-IsSorted i j a b =
        let size = grown-size.0 in
        let to = (lower_bound-IsCut rank p s key).to in
        elim (place_cases i) [
          | inl li ↦ elim (place_cases j) [
            | inl lj ↦ omega (
              arith,
              s i j a (omega (arith, lj, to)),
              grown-keys_below i li,
              grown-keys_below j lj,
            )
            | inr (inl ej) ↦
                let k = grown-keys_here in
                rw ej
                  (omega (arith, (around i (omega (arith, li, to))).0 li, grown-keys_below i li, k))
            | inr (inr (k, ej, lk)) ↦
                let m : k < p.size = omega (arith, b, size, ej) in
                rw ej (
                  omega (
                    arith,
                    s i k (omega (arith, li, lk)) m,
                    grown-keys_below i li,
                    grown-keys_above k lk m,
                  ))
          ]
          | inr (inl ei) ↦ elim (place_cases j) [
            | inl lj ↦ absurd (omega (arith, a, ei, lj))
            | inr (inl ej) ↦ absurd (omega (arith, a, ei, ej))
            | inr (inr (k, ej, lk)) ↦
                let m : k < p.size = omega (arith, b, size, ej) in
                rw (ei, ej)
                  (omega (arith, (around k m).1 lk, grown-keys_here, grown-keys_above k lk m))
          ]
          | inr (inr (h, ei, lh)) ↦ elim (place_cases j) [
            | inl lj ↦ absurd (omega (arith, a, ei, lj, lh))
            | inr (inl ej) ↦ absurd (omega (arith, a, ei, ej, lh))
            | inr (inr (k, ej, lk)) ↦
                let m : k < p.size = omega (arith, b, size, ej) in
                let l : h < k = omega (arith, a, ei, ej) in
                rw (ei, ej)
                  (omega (
                    arith,
                    s h k l m,
                    grown-keys_above h lh (omega (arith, l, m)),
                    grown-keys_above k lk m,
                  ))
          ]
        ]

    pub shifted :
        (j : ℕ) → j < p.size → entry_at grown (if ltb j lo then j else j + 1) ≡ entry_at p j
    shifted j l = elim (Bool-cases (ltb j lo)) [
      | inl e ↦ rw e (grown-at j (omega (arith, l)) ∙ rw e refl)
      | inr e ↦
          let back : (j + 1) - 1 ≡ j = omega arith in
          let over : ltb (j + 1) lo ≡ false = ground arith in
          let beside : (j + 1 == lo) ≡ false = ground arith in
          rw e (grown-at (j + 1) (omega (arith, l)) ∙ rw (over, beside, back) refl)
    ]
