-- ===== src/Primer/CountMin/Estimates.antt =====
-- What the sketch counts, and how far `Count` is from the number of insertions.
use cmu_db_15445_project.Prelude.{
  ℕ, zero, suc, ◌+◌, ◌-◌, ◌%◌, ◌<◌, ◌≤◌, ◌≡◌, refl, ◌∙◌, min, Bool, true, List, [], ◌∷◌, ◌++◌, ◌==◌,
  ◌&&◌, if◌then◌else◌, ltb, leb, arith, length, Bool-cases, inl, inr, ==_iff,
}
use cmu_db_15445_project.Prelude.Words.{add32, word32}
use cmu_db_15445_project.Primer.CountMin.{
  Sketch, clear, bucket, bump, insert_rows, insert, count_rows, count,
}

module _ {Key : Type 0} (hash : ℕ → Key → ℕ) where
  -- How many of the items fall in a cell.
  abbrev pub collisions : ℕ → ℕ → ℕ → List Key → ℕ
  collisions width r c [] = 0
  collisions width r c (x ∷ xs) = (if hash r x % width == c then 1 else 0) + collisions width r c xs

  pub collisions-le : (width r c : ℕ) (xs : List Key) → collisions width r c xs ≤ length xs
  collisions-le width r c [] = omega arith
  collisions-le width r c (x ∷ xs) = ground (arith, collisions-le width r c xs)

  pub collisions-append :
      (width r c : ℕ) (xs ys : List Key)
      → collisions width r c (xs ++ ys) ≡ collisions width r c xs + collisions width r c ys
  collisions-append width r c [] ys = omega arith
  collisions-append width r c (x ∷ xs) ys = omega (arith, collisions-append width r c xs ys)

  -- The sketch after the items are inserted, the last of the list first.
  abbrev pub inserted : Sketch → List Key → Sketch
  inserted s [] = s
  inserted s (x ∷ xs) = insert hash (inserted s xs) x

  insert_rows-at :
      (x : Key) (n i : ℕ) (s : Sketch) (r c : ℕ)
      → (insert_rows hash s x i n).matrix r c ≡ (
          if leb i r && ltb r (i + n) && bucket hash s r x == c
          then add32 (s.matrix r c) 1
          else s.matrix r c)
  unfolding insert_rows
  insert_rows-at x zero i s r c = ground arith
  insert_rows-at x (suc n) i s r c =
      insert_rows-at x n (i + 1) (bump hash s x i) r c ∙ elim (Bool-cases (i == r)) [
        | inl e ↦ let same : i ≡ r = (==_iff i r).0 e in rw same (ground arith)
        | inr e ↦ ground arith
      ]

  insert_rows-shape :
      (x : Key) (n i : ℕ) (s : Sketch)
      → ((insert_rows hash s x i n).width ≡ s.width) × ((insert_rows hash s x i n).depth ≡ s.depth)
  unfolding insert_rows
  insert_rows-shape x zero i s = (refl, refl)
  insert_rows-shape x (suc n) i s = insert_rows-shape x n (i + 1) (bump hash s x i)

  pub inserted-shape :
      (s : Sketch) (xs : List Key)
      → ((inserted s xs).width ≡ s.width) × ((inserted s xs).depth ≡ s.depth)
  unfolding insert
  inserted-shape s [] = (refl, refl)
  inserted-shape s (x ∷ xs) =
      let (a, b) = insert_rows-shape x (inserted s xs).depth 0 (inserted s xs) in
      let (c, d) = inserted-shape s xs in (a ∙ c, b ∙ d)

  -- After fewer than 2^32 insertions into a cleared sketch, a cell holds the number of the inserted
  -- items that fall in it.
  pub cells-inserted :
      (s : Sketch) (xs : List Key) (r c : ℕ)
      → length xs < word32
      → r < s.depth
      → (inserted (clear s) xs).matrix r c ≡ collisions s.width r c xs
  unfolding insert clear
  cells-inserted s [] r c h l = refl
  cells-inserted s (x ∷ xs) r c h l =
      let t = inserted (clear s) xs in
      let (a, b) = inserted-shape (clear s) xs in
      let width : t.width ≡ s.width = a in
      let depth : t.depth ≡ s.depth = b in
      insert_rows-at x t.depth 0 t r c
      ∙ rw (width, depth) (ground (arith, cells-inserted s xs r c, collisions-le s.width r c xs))

  count_rows-least :
      (x : Key) (s : Sketch) (n i result low : ℕ)
      → low ≤ result
      → ((r : ℕ) → i ≤ r → r < i + n → low ≤ s.matrix r (bucket hash s r x))
      → low ≤ count_rows hash s x i n result
  unfolding count_rows
  count_rows-least x s zero i result low h k = h
  count_rows-least x s (suc n) i result low h k =
      let here : low ≤ s.matrix i (bucket hash s i x) = k i (omega arith) (omega arith) in
      count_rows-least x s n (i + 1) (min result (s.matrix i (bucket hash s i x))) low
        (omega (arith, h, here)) (λ r a b. k r (omega arith) (omega arith))

  count_rows-le :
      (x : Key) (s : Sketch) (n i result : ℕ)
      → (count_rows hash s x i n result ≤ result)
        × ((r : ℕ)
            → i ≤ r
            → r < i + n
            → count_rows hash s x i n result ≤ s.matrix r (bucket hash s r x))
  unfolding count_rows
  count_rows-le x s zero i result = (omega arith, λ r a b. absurd (omega arith))
  count_rows-le x s (suc n) i result =
      let m = min result (s.matrix i (bucket hash s i x)) in
      let (a, b) = count_rows-le x s n (i + 1) m in
      (
        omega arith,
        λ r c d. elim (Bool-cases (i == r)) [
          | inl e ↦ let same : i ≡ r = (==_iff i r).0 e in rw (← same) (omega arith)
          | inr e ↦ b r (ground arith) (omega arith)
        ],
      )

  -- How often an item was inserted, by a test for equality.
  module _ (same : Key → Key → Bool) (same_eq : (x y : Key) → same x y ≡ true → x ≡ y) where
    abbrev pub occurrences : Key → List Key → ℕ
    occurrences x [] = 0
    occurrences x (y ∷ ys) = (if same y x then 1 else 0) + occurrences x ys

    occurrences-le :
        (x : Key) (xs : List Key) (width r : ℕ)
        → occurrences x xs ≤ collisions width r (hash r x % width) xs
    occurrences-le x [] width r = omega arith
    occurrences-le x (y ∷ ys) width r = elim (Bool-cases (same y x)) [
      | inl e ↦
          let eq : y ≡ x = same_eq y x e in rw eq (ground (arith, occurrences-le x ys width r))
      | inr e ↦ ground (arith, occurrences-le x ys width r)
    ]

    -- After fewer than 2^32 insertions into a cleared sketch, `Count` of an item is at least the
    -- number of its insertions, and at most the number of insertions that fall in its cell of any row.
    pub count-bounds :
        (s : Sketch) (xs : List Key) (x : Key)
        → length xs < word32
        → (occurrences x xs ≤ count hash (inserted (clear s) xs) x)
          × ((r : ℕ)
              → r < s.depth
              → count hash (inserted (clear s) xs) x ≤ collisions s.width r (hash r x % s.width) xs)
    unfolding count clear
    count-bounds s xs x h =
        let t = inserted (clear s) xs in
        let (width, depth) = inserted-shape (clear s) xs in
        let cell : (r : ℕ)
            → r < s.depth
            → t.matrix r (bucket hash t r x) ≡ collisions s.width r (hash r x % s.width) xs =
          λ r l. rw width (cells-inserted s xs r (hash r x % s.width) h l) in
        let (_, above) = count_rows-le x t t.depth 0 (word32 - 1) in
        (
          count_rows-least x t t.depth 0 (word32 - 1) (occurrences x xs)
              (omega (arith, h, occurrences-le x xs 1 0, collisions-le 1 0 (hash 0 x % 1) xs))
              (λ r a b.
                let l : r < s.depth = omega (arith, b, depth) in
                omega (arith, cell r l, occurrences-le x xs s.width r)),
          λ r l.
              let up : r < 0 + t.depth = omega (arith, l, depth) in
              omega (arith, cell r l, above r (omega arith) up),
        )
