-- ===== src/Concurrency/Watermark/Lowest.antt =====
-- The watermark is the lowest timestamp that a running transaction reads.
use cmu_db_15445_project.Prelude.{
  ℕ, ◌+◌, ◌-◌, ◌<◌, ◌≤◌, ◌≡◌, refl, false, none, some, List, [], ◌∷◌, ltb, ◌==◌, if◌then◌else◌,
  arith, count, erase, count-erase, Bool-cases, Option-cases, inl, inr, ◌⊎◌,
}
use cmu_db_15445_project.Prelude.Assoc.{lookup, insert, lookup-insert, lookup-erase_key}
use cmu_db_15445_project.Concurrency.Watermark.{
  Watermark, set_insert, set_erase, first, number, init, add_txn, remove_txn, get_watermark,
}

-- Ascending, without repetitions.
abbrev pub IsAscending : List ℕ → Type 0
IsAscending [] = ◌≡◌ {A = ℕ} 0 0
IsAscending (x ∷ xs) = ((k : ℕ) → 0 < count k xs → x < k) × IsAscending xs

count-set_insert :
    (t k : ℕ) (xs : List ℕ)
    → IsAscending xs
    → count k (set_insert t xs) ≡ (if t == k then 1 else count k xs)
count-set_insert t k [] h = ground arith
count-set_insert t k (x ∷ xs) (h, r) = ground (arith, count-set_insert t k xs r, h k, h t)

count-set_erase :
    (t k : ℕ) (xs : List ℕ)
    → IsAscending xs
    → count k (set_erase t xs) ≡ (if t == k then 0 else count k xs)
count-set_erase t k [] h = ground arith
count-set_erase t k (x ∷ xs) (h, r) = ground (arith, count-set_erase t k xs r, h k)

set_insert-IsAscending : (t : ℕ) (xs : List ℕ) → IsAscending xs → IsAscending (set_insert t xs)
set_insert-IsAscending t [] h = (λ k c. absurd (omega arith), refl)
set_insert-IsAscending t (x ∷ xs) (h, r) = elim (Bool-cases (ltb t x)) [
  | inl e ↦ rw e (λ k c. ground (arith, h k), (h, r))
  | inr e ↦ elim (Bool-cases (t == x)) [
    | inl f ↦ rw (e, f) (h, r)
    | inr f ↦
        rw (e, f)
          (λ k c. ground (arith, h k, count-set_insert t k xs r), set_insert-IsAscending t xs r)
  ]
]

set_erase-IsAscending : (t : ℕ) (xs : List ℕ) → IsAscending xs → IsAscending (set_erase t xs)
set_erase-IsAscending t [] h = refl
set_erase-IsAscending t (x ∷ xs) (h, r) = elim (Bool-cases (t == x)) [
  | inl f ↦ rw f r
  | inr f ↦
      rw f (λ k c. ground (arith, h k, count-set_erase t k xs r), set_erase-IsAscending t xs r)
]

-- What holds while the transactions that read at the timestamps of `active` run.
pub record Inv (active : List ℕ) (s : Watermark) : Type 0 where
  pub reads :
      (k : ℕ)
      → lookup k s.current_reads ≡ (if count k active == 0 then none else some (count k active))
  pub listed : (k : ℕ) → count k s.read_timestamps ≡ (if count k active == 0 then 0 else 1)
  pub ascending : IsAscending s.read_timestamps
  pub shown : first s.watermark s.read_timestamps ≡ s.watermark

first-first : (d : ℕ) (xs : List ℕ) → first (first d xs) xs ≡ first d xs
first-first d [] = refl
first-first d (x ∷ xs) = refl

add_txn-Inv :
    (s : Watermark) (active : List ℕ) (t : ℕ)
    → Inv active s
    → s.commit_ts ≤ t
    → (u : Watermark) × (add_txn s t ≡ some u) × Inv (t ∷ active) u
unfolding add_txn
add_txn-Inv s active t v h =
    let e : ltb t s.commit_ts ≡ false = ground arith in
    let timestamps = set_insert t s.read_timestamps in
    let u : Watermark = record s {
      current_reads = insert t (number (lookup t s.current_reads) + 1) s.current_reads;
      read_timestamps = timestamps;
      watermark = first s.watermark timestamps;
    } in
    (
      u,
      rw (e, add_txn) refl,
      record {
        reads = λ k. ground (
          arith,
          lookup-insert k t (number (lookup t s.current_reads) + 1) s.current_reads,
          v.reads k,
          v.reads t,
        );
        listed =
            λ k. ground (arith, count-set_insert t k s.read_timestamps v.ascending, v.listed k);
        ascending = set_insert-IsAscending t s.read_timestamps v.ascending;
        shown = first-first s.watermark timestamps;
      },
    )

-- In a state that satisfies the invariant for the running transactions, one that would read before
-- the commit timestamp is refused with an exception; any other is added, and the invariant holds with
-- it.
pub add_txn_cases :
    (s : Watermark) (active : List ℕ) (t : ℕ)
    → Inv active s
    → ((t < s.commit_ts) × (add_txn s t ≡ none))
      ⊎ ((s.commit_ts ≤ t) × ((u : Watermark) × (add_txn s t ≡ some u) × Inv (t ∷ active) u))
unfolding add_txn
add_txn_cases s active t v = elim (Bool-cases (ltb t s.commit_ts)) [
  | inl e ↦ inl (ground arith, rw (e, add_txn) refl)
  | inr e ↦ let l : s.commit_ts ≤ t = ground arith in inr (l, add_txn-Inv s active t v l)
]

-- A new watermark, before any transaction runs.
init-Inv : (commit_ts : ℕ) → Inv [] (init commit_ts)
unfolding init
init-Inv commit_ts = record {
  reads = λ k. refl;
  listed = λ k. refl;
  ascending = refl;
  shown = refl;
}

-- `RemoveTxn` keeps the invariant, for the running transactions without one that reads at the
-- timestamp, if any does.
pub remove_txn-Inv :
    (s : Watermark) (active : List ℕ) (t : ℕ) → Inv active s → Inv (erase t active) (remove_txn s t)
unfolding remove_txn
remove_txn-Inv s active t v = elim (Option-cases (lookup t s.current_reads)) [
  | inl e ↦
      rw (e, remove_txn)
        (record {
          reads = λ k. ground (arith, v.reads k, v.reads t, count-erase k t active);
          listed = λ k. ground (arith, v.listed k, v.reads t, count-erase k t active);
          ascending = v.ascending;
          shown = v.shown;
        })
  | inr (n, e) ↦ elim (Bool-cases (n - 1 == 0)) [
    | inl z ↦
        rw (e, remove_txn, z)
          (record {
            reads = λ k. ground (
              arith,
              v.reads k,
              v.reads t,
              count-erase k t active,
              lookup-erase_key k t s.current_reads,
            );
            listed = λ k. ground (
              arith,
              v.listed k,
              v.reads t,
              count-erase k t active,
              count-set_erase t k s.read_timestamps v.ascending,
            );
            ascending = set_erase-IsAscending t s.read_timestamps v.ascending;
            shown = first-first s.commit_ts (set_erase t s.read_timestamps);
          })
    | inr z ↦
        rw (e, remove_txn, z)
          (record {
            reads = λ k. ground (
              arith,
              v.reads k,
              v.reads t,
              count-erase k t active,
              lookup-insert k t (n - 1) s.current_reads,
            );
            listed = λ k. ground (arith, v.listed k, v.reads t, count-erase k t active);
            ascending = v.ascending;
            shown = first-first s.commit_ts s.read_timestamps;
          })
  ]
]

-- In a state that satisfies the invariant, `GetWatermark` is the commit timestamp if no transaction
-- runs, or else the lowest timestamp that a running transaction reads.
pub get_watermark-lowest :
    (s : Watermark) (active : List ℕ)
    → Inv active s
    → ((active ≡ []) × (get_watermark s ≡ s.commit_ts))
      ⊎ ((0 < count (get_watermark s) active)
          × ((k : ℕ) → 0 < count k active → get_watermark s ≤ k))
unfolding get_watermark
get_watermark-lowest s active v =
    go active s.current_reads s.read_timestamps v.reads v.listed v.ascending v.shown
  where
    go :
        (l : List ℕ) (m : List (ℕ × ℕ)) (ts : List ℕ)
        → ((k : ℕ) → lookup k m ≡ (if count k l == 0 then none else some (count k l)))
        → ((k : ℕ) → count k ts ≡ (if count k l == 0 then 0 else 1))
        → IsAscending ts
        → first s.watermark ts ≡ s.watermark
        → ((l ≡ []) × ((elim m [ [] ↦ s.commit_ts | _ ∷ _ ↦ s.watermark ]) ≡ s.commit_ts))
          ⊎ ((0 < count (elim m [ [] ↦ s.commit_ts | _ ∷ _ ↦ s.watermark ]) l)
              × ((k : ℕ) → 0 < count k l → (elim m [ [] ↦ s.commit_ts | _ ∷ _ ↦ s.watermark ]) ≤ k))
    go [] [] ts a b c d = inl (refl, refl)
    go [] ((k, n) ∷ m) ts a b c d = absurd (ground (arith, a k))
    go (t ∷ l) [] ts a b c d = absurd (ground (arith, a t))
    go (t ∷ l) ((k, n) ∷ m) [] a b c d = absurd (ground (arith, b t))
    go (t ∷ l) ((k, n) ∷ m) (x ∷ xs) a b (c, r) d =
        let e : x ≡ s.watermark = d in
        inr (ground (arith, b x, b s.watermark), λ j h. ground (arith, b j, c j))
