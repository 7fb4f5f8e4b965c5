-- ===== src/Prelude/Lists.antt =====
-- Lists over the native numbers: length, counting, erasing one occurrence, functions as maps.
use Prim.Native.Nat.{ℕ, suc, ◌+◌, ◌-◌, ◌≤◌, ◌<◌}
use mathlib.Core.Path.{◌≡◌, refl, sym, ap, ◌∙◌}
use mathlib.Core.List.{
  List, [], ◌∷◌, ◌++◌, reverse, reverse-cons, reverse-reverse, reverse-append, append_assoc,
}
use mathlib.Core.Option.{Option, none, some}
use native.Mathlib.Omega.{arith}
use cmu_db_15445_project.Prelude.Tests.{◌==◌, if◌then◌else◌}

module _ {ℓ} {A : Type ℓ} where
  abbrev pub length : List A → ℕ
  length [] = 0
  length (x ∷ xs) = suc (length xs)

  pub length-append : (xs ys : List A) → length (xs ++ ys) ≡ length xs + length ys
  length-append [] ys = omega arith
  length-append (x ∷ xs) ys = omega (arith, length-append xs ys)

  -- `std::list::pop_back`, which is not called on an empty list.
  abbrev pub pop_back : List A → List A
  pop_back [] = []
  pop_back (x ∷ []) = []
  pop_back (x ∷ y ∷ xs) = x ∷ pop_back (y ∷ xs)

  -- `std::list::back`.
  abbrev pub back : List A → Option A
  back [] = none
  back (x ∷ []) = some x
  back (x ∷ y ∷ xs) = back (y ∷ xs)

  pub length-pop_back : (xs : List A) → length (pop_back xs) ≡ length xs - 1
  length-pop_back [] = omega arith
  length-pop_back (x ∷ []) = omega arith
  length-pop_back (x ∷ y ∷ xs) = omega (arith, length-pop_back (y ∷ xs))

-- How often a number occurs.
abbrev pub count : ℕ → List ℕ → ℕ
count x [] = 0
count x (y ∷ ys) = (if y == x then 1 else 0) + count x ys

-- Without the first occurrence.
abbrev pub erase : ℕ → List ℕ → List ℕ
erase x [] = []
erase x (y ∷ ys) = if y == x then ys else y ∷ erase x ys

pub count-append : (x : ℕ) (ys zs : List ℕ) → count x (ys ++ zs) ≡ count x ys + count x zs
count-append x [] zs = omega arith
count-append x (y ∷ ys) zs = omega (arith, count-append x ys zs)

pub count-reverse : (x : ℕ) (ys : List ℕ) → count x (reverse ys) ≡ count x ys
count-reverse x [] = refl
count-reverse x (y ∷ ys) =
    simp reverse-cons (omega (arith, count-append x (reverse ys) (y ∷ []), count-reverse x ys))

pub count-erase :
    (x y : ℕ) (ys : List ℕ) → count x (erase y ys) ≡ count x ys - (if y == x then 1 else 0)
count-erase x y [] = ground arith
count-erase x y (z ∷ ys) = ground (arith, count-erase x y ys)

pub length-erase : (x : ℕ) (ys : List ℕ) → 0 < count x ys → length (erase x ys) + 1 ≡ length ys
length-erase x [] h = absurd (omega arith)
length-erase x (y ∷ ys) h = ground (arith, length-erase x ys)

pub count-pop_back :
    (x : ℕ) (ys : List ℕ) {b : ℕ}
    → back ys ≡ some b
    → count x (pop_back ys) + (if b == x then 1 else 0) ≡ count x ys
count-pop_back x [] h = cc
count-pop_back x (y ∷ []) h = ground arith
count-pop_back x (y ∷ z ∷ ys) {b} h = ground (arith, count-pop_back x (z ∷ ys) {b = b} h)

-- A map as a function, with one key given anew or taken away.
module _ {ℓ} {V : Type ℓ} where
  abbrev pub update : (ℕ → Option V) → ℕ → Option V → ℕ → Option V
  update m k v j = if k == j then v else m j

pub count-le-length : (x : ℕ) (ys : List ℕ) → count x ys ≤ length ys
count-le-length x [] = omega arith
count-le-length x (y ∷ ys) = ground (arith, count-le-length x ys)

pub count-back : (ys : List ℕ) {b : ℕ} → back ys ≡ some b → 0 < count b ys
count-back [] h = cc
count-back (y ∷ []) h = ground arith
count-back (y ∷ z ∷ ys) {b} h = ground (arith, count-back (z ∷ ys) {b = b} h)

pub reverse-split {ℓ} :
    {A : Type ℓ} (l : List A) (x : A) (older newer : List A)
    → reverse l ≡ older ++ x ∷ newer
    → l ≡ reverse newer ++ x ∷ reverse older
reverse-split l x older newer e =
    sym (reverse-reverse l)
    ∙ ap reverse e
    ∙ reverse-append older (x ∷ newer)
    ∙ simp (reverse-cons, append_assoc)

module _ {ℓ} {A : Type ℓ} where
  abbrev pub get_elem? : List A → ℕ → Option A
  get_elem? [] i = none
  get_elem? (x ∷ xs) ℕ.zero = some x
  get_elem? (x ∷ xs) (suc i) = get_elem? xs i

  -- A write out of bounds changes nothing.
  abbrev pub set : List A → ℕ → A → List A
  set [] i v = []
  set (x ∷ xs) ℕ.zero v = v ∷ xs
  set (x ∷ xs) (suc i) v = x ∷ set xs i v

  pub length-set : (xs : List A) (i : ℕ) (v : A) → length (set xs i v) ≡ length xs
  length-set [] i v = refl
  length-set (x ∷ xs) ℕ.zero v = refl
  length-set (x ∷ xs) (suc i) v = ap suc (length-set xs i v)

  -- The sum of a weight over a list.
  abbrev pub total : (A → ℕ) → List A → ℕ
  total w [] = 0
  total w (x ∷ xs) = w x + total w xs

  pub total-set :
      (w : A → ℕ) (xs : List A) (i : ℕ) (x v : A)
      → get_elem? xs i ≡ some x
      → total w (set xs i v) + w x ≡ total w xs + w v
  total-set w [] i x v h = cc
  total-set w (y ∷ xs) ℕ.zero x v h = let e : y ≡ x = cc in rw e (omega arith)
  total-set w (y ∷ xs) (suc i) x v h = omega (arith, total-set w xs i x v h)

  pub le-total :
      (w : A → ℕ) (xs : List A) (i : ℕ) (x : A) → get_elem? xs i ≡ some x → w x ≤ total w xs
  le-total w [] i x h = cc
  le-total w (y ∷ xs) ℕ.zero x h = let e : y ≡ x = cc in rw e (omega arith)
  le-total w (y ∷ xs) (suc i) x h = omega (arith, le-total w xs i x h)

  pub get_elem?-set :
      (xs : List A) (i j : ℕ) (x v : A)
      → get_elem? xs i ≡ some x
      → get_elem? (set xs i v) j ≡ (if i == j then some v else get_elem? xs j)
  get_elem?-set [] i j x v h = cc
  get_elem?-set (y ∷ xs) ℕ.zero ℕ.zero x v h = refl
  get_elem?-set (y ∷ xs) ℕ.zero (suc j) x v h = ground arith
  get_elem?-set (y ∷ xs) (suc i) ℕ.zero x v h = ground arith
  get_elem?-set (y ∷ xs) (suc i) (suc j) x v h = ground (arith, get_elem?-set xs i j x v h)

  pub total-le-length : (w : A → ℕ) (xs : List A) → ((x : A) → w x ≤ 1) → total w xs ≤ length xs
  total-le-length w [] h = omega arith
  total-le-length w (x ∷ xs) h = omega (arith, h x, total-le-length w xs h)

  pub two-le-total :
      (w : A → ℕ) (xs : List A) (i j : ℕ) (x y : A)
      → i < j
      → get_elem? xs i ≡ some x
      → get_elem? xs j ≡ some y
      → w x + w y ≤ total w xs
  two-le-total w [] i j x y n h k = cc
  two-le-total w (z ∷ xs) i ℕ.zero x y n h k = absurd (omega arith)
  two-le-total w (z ∷ xs) ℕ.zero (suc j) x y n h k =
      let e : z ≡ x = cc in rw e (omega (arith, le-total w xs j y k))
  two-le-total w (z ∷ xs) (suc i) (suc j) x y n h k =
      omega (arith, two-le-total w xs i j x y (omega arith) h k)
