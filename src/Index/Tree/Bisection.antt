-- ===== src/Index/Tree/Bisection.antt =====
-- The binary search: where a test that holds first and then fails changes.
use cmu_db_15445_project.Prelude.{
  ℕ, zero, suc, ◌+◌, ◌-◌, ◌/◌, ◌<◌, ◌≤◌, ◌≡◌, ◌≢◌, Bool, true, false, none, some, ltb, leb,
  if◌then◌else◌, ◌==◌, arith, Bool-cases, inl, inr,
}
use cmu_db_15445_project.Index.Leaf.{LeafPage, is_tombstone}
use cmu_db_15445_project.Index.Tree.{bisect, lower_bound, is_at, read_leaf}

-- `r` is where the test changes between `lo` and `hi`.
pub record IsCut (right : ℕ → Bool) (lo hi r : ℕ) : Type 0 where
  pub from : lo ≤ r
  pub to : r ≤ hi
  pub before : (i : ℕ) → lo ≤ i → i < r → right i ≡ true
  pub after : (i : ℕ) → r ≤ i → i < hi → right i ≡ false

abbrev pub IsMonotone : (ℕ → Bool) → ℕ → ℕ → Type 0
IsMonotone right lo hi = (i j : ℕ) → lo ≤ i → i ≤ j → j < hi → right j ≡ true → right i ≡ true

-- The binary search ends, with as much fuel as the range is long, at the place where the test
-- changes.
pub bisect-IsCut :
    (right : ℕ → Bool) (fuel lo hi : ℕ)
    → lo ≤ hi
    → hi - lo ≤ fuel
    → IsMonotone right lo hi
    → IsCut right lo hi (bisect right fuel lo hi)
unfolding bisect
bisect-IsCut right zero lo hi h f m = record {
  from = omega arith;
  to = h;
  before = λ i a b. absurd (omega arith);
  after = λ i a b. absurd (omega arith);
}
bisect-IsCut right (suc fuel) lo hi h f m = elim (Bool-cases (ltb lo hi)) [
  | inr done ↦
      rw (done, bisect)
        (record {
          from = omega arith;
          to = h;
          before = λ i a b. absurd (omega arith);
          after = λ i a b. absurd (ground arith);
        })
  | inl more ↦
      let mid = (lo + hi) / 2 in
      let inside : (lo ≤ mid) × (mid < hi) = (ground arith, ground arith) in
      elim (Bool-cases (right mid)) [
        | inl t ↦
            let c =
              bisect-IsCut right fuel (mid + 1) hi (omega (arith, inside.1))
                (omega (arith, inside.0, f))
                (λ i j a b d. m i j (omega (arith, a, inside.0)) b d) in
            rw (more, bisect, t)
              (record {
                from = omega (arith, c.from, inside.0);
                to = c.to;
                before = λ i a b. elim (Bool-cases (leb i mid)) [
                  | inl e ↦ m i mid a (ground arith) inside.1 t
                  | inr e ↦ c.before i (ground arith) b
                ];
                after = c.after;
              })
        | inr t ↦
            let c =
              bisect-IsCut right fuel lo mid inside.0 (omega (arith, inside.1, f))
                (λ i j a b d. m i j a b (omega (arith, d, inside.1))) in
            rw (more, bisect, t)
              (record {
                from = c.from;
                to = omega (arith, c.to, inside.1);
                before = c.before;
                after = λ i a b. elim (Bool-cases (ltb i mid)) [
                  | inl e ↦ c.after i a (ground arith)
                  | inr e ↦ elim (Bool-cases (right i)) [
                    | inl u ↦ let x = m mid i inside.0 (ground arith) b u in absurd cc
                    | inr u ↦ u
                  ]
                ];
              })
      ]
]

module _ {Key Value : Type 0} (rank : Key → ℕ) where
  -- The keys of a leaf ascend.
  abbrev pub IsSorted : LeafPage Key Value → Type 0
  IsSorted p = (i j : ℕ) → i < j → j < p.size → rank (p.key_array i) < rank (p.key_array j)

  module _ (p : LeafPage Key Value) (s : IsSorted p) (key : Key) where
    pub lower_bound-IsCut :
        IsCut (λ mid. ltb (rank (p.key_array mid)) (rank key)) 0 p.size (lower_bound rank p key)
    unfolding lower_bound
    lower_bound-IsCut = bisect-IsCut _ p.size 0 p.size (omega arith) (omega arith) (λ i j a b d e.
        elim (Bool-cases (i == j)) [
          | inl same ↦ let q : i ≡ j = ground arith in rw q e
          | inr other ↦ ground (arith, s i j)
        ])

    -- A leaf that has the key at an index is read there; one that has it nowhere has no value.
    pub read_leaf-at :
        (j : ℕ)
        → j < p.size
        → rank (p.key_array j) ≡ rank key
        → (lower_bound rank p key ≡ j)
          × (read_leaf rank p key ≡ (if is_tombstone p j then none else some (p.rid_array j)))
    read_leaf-at j l e =
        let c = lower_bound-IsCut in
        let here : lower_bound rank p key ≡ j = ground (
          arith,
          c.before j,
          c.after (lower_bound rank p key),
          c.to,
          s (lower_bound rank p key) j,
        ) in
        (here, rw here (ground arith))

    pub read_leaf-absent :
        ((j : ℕ) → j < p.size → rank (p.key_array j) ≢ rank key)
        → (is_at rank p key (lower_bound rank p key) ≡ false) × (read_leaf rank p key ≡ none)
    read_leaf-absent h =
        (ground (arith, h (lower_bound rank p key)), ground (arith, h (lower_bound rank p key)))
