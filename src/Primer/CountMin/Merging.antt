-- ===== src/Primer/CountMin/Merging.antt =====
-- Merging two sketches: the cells of the other sketch are added.
use cmu_db_15445_project.Prelude.{
  ℕ, zero, suc, ◌+◌, ◌<◌, ◌≡◌, ◌≢◌, refl, ◌∙◌, ◌⊎◌, none, some, List, ◌++◌, ◌==◌, ◌&&◌,
  if◌then◌else◌, ltb, leb, arith, length, length-append, Bool-cases, inl, inr, ==_iff,
}
use cmu_db_15445_project.Prelude.Words.{add32, word32}
use cmu_db_15445_project.Primer.CountMin.{Sketch, add_row, add_rows, merge, clear}
use cmu_db_15445_project.Primer.CountMin.Estimates.{
  collisions, collisions-le, collisions-append, inserted, inserted-shape, cells-inserted,
}

add_row-at :
    (other : ℕ → ℕ) (n j : ℕ) (row : ℕ → ℕ) (c : ℕ)
    → add_row row other j n c
      ≡ (if leb j c && ltb c (j + n) then add32 (row c) (other c) else row c)
add_row-at other zero j row c = ground arith
add_row-at other (suc n) j row c =
    ground
      (arith, add_row-at other n (j + 1) (λ d. if j == d then add32 (row d) (other d) else row d) c)

add_rows-at :
    (width : ℕ) (other : ℕ → ℕ → ℕ) (n i : ℕ) (m : ℕ → ℕ → ℕ) (r c : ℕ)
    → add_rows width m other i n r c
      ≡ (if leb i r && ltb r (i + n) && ltb c width then add32 (m r c) (other r c) else m r c)
add_rows-at width other zero i m r c = ground arith
add_rows-at width other (suc n) i m r c =
    add_rows-at width other n (i + 1) (λ q. if i == q then add_row (m q) (other q) 0 width else m q)
      r c
    ∙ ground (arith, add_row-at (other r) width 0 (m r) c)

module _ {Key : Type 0} (hash : ℕ → Key → ℕ) where
  cells :
      (s t : Sketch) (xs ys : List Key)
      → length xs + length ys < word32
      → s.width ≡ t.width
      → (r c : ℕ) → r < s.depth
      → r < t.depth
      → c < s.width
      → add_rows
          (inserted hash (clear s) xs).width
          (inserted hash (clear s) xs).matrix
          (inserted hash (clear t) ys).matrix
          0
          (inserted hash (clear s) xs).depth
          r
          c
        ≡ (inserted hash (clear s) (xs ++ ys)).matrix r c
  unfolding clear
  cells s t xs ys h same r c l l' k =
      let a = inserted hash (clear s) xs in
      let b = inserted hash (clear t) ys in
      let (wa, da) = inserted-shape hash (clear s) xs in
      let mine = cells-inserted hash s xs r c (omega (arith, h)) l in
      let other : b.matrix r c ≡ collisions hash s.width r c ys =
        rw same (cells-inserted hash t ys r c (omega (arith, h)) l') in
      let all = cells-inserted hash s (xs ++ ys) r c (omega (arith, h, length-append xs ys)) l in
      let sum = collisions-append hash s.width r c xs ys in
      add_rows-at a.width b.matrix a.depth 0 a.matrix r c
      ∙ rw (wa, da)
          (ground (
            arith,
            mine,
            other,
            all,
            sum,
            collisions-le hash s.width r c xs,
            collisions-le hash s.width r c ys,
          ))

  -- Sketches of different sizes are not merged. If fewer than 2^32 items were inserted into two
  -- cleared sketches of one size, the merged sketch has the size and the cells of one into which all
  -- the items were inserted.
  pub merge_cases :
      (s t : Sketch) (xs ys : List Key)
      → length xs + length ys < word32
      → (((s.width ≢ t.width) ⊎ (s.depth ≢ t.depth))
          × (merge (inserted hash (clear s) xs) (inserted hash (clear t) ys) ≡ none))
        ⊎ ((s.width ≡ t.width)
            × (s.depth ≡ t.depth)
            × ((u : Sketch) × (merge (inserted hash (clear s) xs) (inserted hash (clear t) ys)
                  ≡ some u)
                × (u.width ≡ s.width)
                × (u.depth ≡ s.depth)
                × ((r c : ℕ)
                    → r < s.depth
                    → c < s.width
                    → u.matrix r c ≡ (inserted hash (clear s) (xs ++ ys)).matrix r c)))
  unfolding merge clear
  merge_cases s t xs ys h =
      let a = inserted hash (clear s) xs in
      let b = inserted hash (clear t) ys in
      let (wa, da) = inserted-shape hash (clear s) xs in
      let (wb, db) = inserted-shape hash (clear t) ys in
      elim (Bool-cases (s.width == t.width)) [
        | inr e ↦ inl (inl (ground arith), rw (wa, wb, e, merge) refl)
        | inl e ↦ elim (Bool-cases (s.depth == t.depth)) [
          | inr f ↦ inl (inr (ground arith), rw (wa, wb, da, db, e, f, merge) refl)
          | inl f ↦
              let same : s.width ≡ t.width = (==_iff s.width t.width).0 e in
              let same_depth : s.depth ≡ t.depth = (==_iff s.depth t.depth).0 f in
              inr (
                same,
                same_depth,
                (
                  record a { matrix = add_rows a.width a.matrix b.matrix 0 a.depth },
                  rw (wa, wb, da, db, e, f, merge) refl,
                  wa,
                  da,
                  λ r c l k. cells s t xs ys h same r c l (omega arith) k,
                ),
              )
        ]
      ]
