-- ===== src/Index/Arrays.antt =====
-- The arrays of a page as functions from the index, the loops that move their elements, and the list
-- that a part of an array holds.
use cmu_db_15445_project.Prelude.{
  ℕ, zero, suc, ◌+◌, ◌-◌, ◌≤◌, ◌<◌, ◌≡◌, refl, ap, sym, ◌∙◌, List, [], ◌∷◌, ◌++◌, ltb, leb, ◌&&◌,
  ◌==◌, if◌then◌else◌, arith, length,
}

module _ {A : Type 0} where
  -- `a[i] = x`.
  abbrev pub assign : (ℕ → A) → ℕ → A → ℕ → A
  assign a i x j = if i == j then x else a j

  -- `for (int k = i + n; k > i; k--) a[k] = a[k - 1];`
  abbrev pub shift_right : (ℕ → A) → ℕ → ℕ → ℕ → A
  shift_right a i zero = a
  shift_right a i (suc n) = shift_right (assign a (i + suc n) (a (i + n))) i n

  -- `for (int k = i; k < i + n; k++) a[k] = a[k + 1];`
  abbrev pub shift_left : (ℕ → A) → ℕ → ℕ → ℕ → A
  shift_left a i zero = a
  shift_left a i (suc n) = shift_left (assign a i (a (i + 1))) (i + 1) n

  -- `for (int k = 0; k < n; k++) b[to + k] = a[from + k];`
  abbrev pub copy : (ℕ → A) → ℕ → (ℕ → A) → ℕ → ℕ → ℕ → A
  copy a from b to zero = b
  copy a from b to (suc n) = copy a (from + 1) (assign b to (a from)) (to + 1) n

  pub shift_right-at :
      (a : ℕ → A) (i n j : ℕ)
      → shift_right a i n j ≡ (if ltb i j && leb j (i + n) then a (j - 1) else a j)
  shift_right-at a i zero j = ground arith
  shift_right-at a i (suc n) j =
      ground (arith, shift_right-at (assign a (i + suc n) (a (i + n))) i n j)

  pub shift_left-at :
      (a : ℕ → A) (i n j : ℕ)
      → shift_left a i n j ≡ (if leb i j && ltb j (i + n) then a (j + 1) else a j)
  shift_left-at a i zero j = ground arith
  shift_left-at a i (suc n) j = ground (arith, shift_left-at (assign a i (a (i + 1))) (i + 1) n j)

  pub copy-at :
      (a : ℕ → A) (from : ℕ) (b : ℕ → A) (to n j : ℕ)
      → copy a from b to n j ≡ (if leb to j && ltb j (to + n) then a (from + (j - to)) else b j)
  copy-at a from b to zero j = ground arith
  copy-at a from b to (suc n) j =
      ground (arith, copy-at a (from + 1) (assign b to (a from)) (to + 1) n j)

  -- The `n` elements from the index `i` on.
  abbrev pub listed : (ℕ → A) → ℕ → ℕ → List A
  listed a i zero = []
  listed a i (suc n) = a i ∷ listed a (i + 1) n

  pub listed-ext :
      (a b : ℕ → A) (i j n : ℕ)
      → ((k : ℕ) → k < n → a (i + k) ≡ b (j + k))
      → listed a i n ≡ listed b j n
  listed-ext a b i j zero h = refl
  listed-ext a b i j (suc n) h =
      let head : a i ≡ b j = ground (arith, h 0) in
      let tail = listed-ext a b (i + 1) (j + 1) n (λ k l. ground (arith, h (k + 1))) in
      rw (head, tail) refl

  pub listed-append :
      (a : ℕ → A) (i m n : ℕ) → listed a i (m + n) ≡ listed a i m ++ listed a (i + m) n
  listed-append a i zero n = ground arith
  listed-append a i (suc m) n =
      let e : suc m + n ≡ suc (m + n) = omega arith in
      let k : i + suc m ≡ i + 1 + m = omega arith in
      rw (e, k) (ap (◌∷◌ (a i)) (listed-append a (i + 1) m n))

  pub length-listed : (a : ℕ → A) (i n : ℕ) → length (listed a i n) ≡ n
  length-listed a i zero = refl
  length-listed a i (suc n) = ap suc (length-listed a (i + 1) n)

  pub listed-split :
      (a : ℕ → A) (i n : ℕ) → i ≤ n → listed a 0 n ≡ listed a 0 i ++ listed a i (n - i)
  listed-split a i n h =
      let e : n ≡ i + (n - i) = omega arith in
      let z : 0 + i ≡ i = omega arith in
      ap (listed a 0) e
      ∙ listed-append a 0 i (n - i)
      ∙ ap (λ k. listed a 0 i ++ listed a k (n - i)) z

  pub listed-insert :
      (a b : ℕ → A) (i n : ℕ) (x : A)
      → i ≤ n
      → ((j : ℕ) → j ≤ n → b j ≡ (if ltb j i then a j else if j == i then x else a (j - 1)))
      → listed b 0 (n + 1) ≡ listed a 0 i ++ x ∷ listed a i (n - i)
  listed-insert a b i n x l h =
      let e : n + 1 - i ≡ suc (n - i) = omega arith in
      let front : listed b 0 i ≡ listed a 0 i = listed-ext b a 0 0 i (λ k c. ground (arith, h k)) in
      let back : listed b (i + 1) (n - i) ≡ listed a i (n - i) =
        listed-ext b a (i + 1) i (n - i) (λ k c. ground (arith, h (i + 1 + k))) in
      let here : b i ≡ x = ground (arith, h i) in
      listed-split b i (n + 1) (omega arith)
      ∙ ap (λ m. listed b 0 i ++ listed b i m) e
      ∙ rw (front, here, back) refl

  pub listed-delete :
      (a b : ℕ → A) (i n : ℕ)
      → i < n
      → ((j : ℕ) → j + 1 < n → b j ≡ (if ltb j i then a j else a (j + 1)))
      → listed b 0 (n - 1) ≡ listed a 0 i ++ listed a (i + 1) (n - i - 1)
  listed-delete a b i n l h =
      let e : n - 1 - i ≡ n - i - 1 = omega arith in
      let front : listed b 0 i ≡ listed a 0 i = listed-ext b a 0 0 i (λ k c. ground (arith, h k)) in
      let back : listed b i (n - i - 1) ≡ listed a (i + 1) (n - i - 1) =
        listed-ext b a i (i + 1) (n - i - 1) (λ k c. ground (arith, h (i + k))) in
      listed-split b i (n - 1) (omega arith)
      ∙ ap (λ m. listed b 0 i ++ listed b i m) e
      ∙ rw (front, back) refl

  pub listed-last : (a : ℕ → A) (n : ℕ) → listed a 0 (n + 1) ≡ listed a 0 n ++ a n ∷ []
  listed-last a n =
      let z : 0 + n ≡ n = omega arith in
      listed-append a 0 n 1 ∙ ap (λ k. listed a 0 n ++ a k ∷ []) z

  pub listed-cons : (a : ℕ → A) (i n m : ℕ) → m ≡ suc n → listed a i m ≡ a i ∷ listed a (i + 1) n
  listed-cons a i n m e = ap (listed a i) e

  -- Cut at the element with the index `k`.
  pub listed-mid :
      (a : ℕ → A) (i m n t k : ℕ)
      → t ≡ m + suc n
      → k ≡ i + m
      → listed a i t ≡ listed a i m ++ a k ∷ listed a (k + 1) n
  listed-mid a i m n t k e c =
      ap (listed a i) e
      ∙ listed-append a i m (suc n)
      ∙ ap (λ x. listed a i m ++ a x ∷ listed a (x + 1) n) (sym c)
