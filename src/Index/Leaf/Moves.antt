-- ===== src/Index/Leaf/Moves.antt =====
-- The moves of entries between two leaf pages, which redistribute or merge them.
use mathlib.Core.List.{append_assoc}
use cmu_db_15445_project.Prelude.{
  ℕ, suc, ◌+◌, ◌-◌, ◌<◌, ◌≤◌, ◌≡◌, refl, ap, sym, ◌∙◌, false, List, [], ◌∷◌, ◌++◌, arith,
}
use cmu_db_15445_project.Index.Arrays.{
  shift_right-at, shift_left-at, copy-at, listed, listed-ext, listed-append, listed-insert,
  listed-last,
}
use cmu_db_15445_project.Index.Leaf.{
  LeafPage, is_tombstone, move_last_to_front_of, move_first_to_end_of, move_all_to,
}
use cmu_db_15445_project.Index.Leaf.Entries.{entry_at}

module _ {Key Value : Type 0} where
  -- The keys and values of a page, deleted or not.
  abbrev pub pair_at : LeafPage Key Value → ℕ → Key × Value
  pair_at p j = (p.key_array j, p.rid_array j)

  abbrev pub pairs : LeafPage Key Value → List (Key × Value)
  pairs p = listed (pair_at p) 0 p.size

  -- The page and the recipient that a move leaves.
  module _ (p r : LeafPage Key Value) where
    -- `MoveAllTo` appends the keys and values of the page to those of the recipient, and leaves the
    -- page empty.
    pub move_all_to-pairs :
        (pairs (move_all_to p r).1 ≡ pairs r ++ pairs p) × (pairs (move_all_to p r).0 ≡ [])
    unfolding move_all_to
    move_all_to-pairs =
        let q = (move_all_to p r).1 in
        let z : 0 + r.size ≡ r.size = omega arith in
        let front : listed (pair_at q) 0 r.size ≡ pairs r =
          listed-ext (pair_at q) (pair_at r) 0 0 r.size (λ k l. ground (
            arith,
            copy-at p.key_array 0 r.key_array r.size p.size k,
            copy-at p.rid_array 0 r.rid_array r.size p.size k,
          )) in
        let back : listed (pair_at q) r.size p.size ≡ pairs p =
          listed-ext (pair_at q) (pair_at p) r.size 0 p.size (λ k l. ground (
            arith,
            copy-at p.key_array 0 r.key_array r.size p.size (r.size + k),
            copy-at p.rid_array 0 r.rid_array r.size p.size (r.size + k),
          )) in
        (
          listed-append (pair_at q) 0 r.size p.size
              ∙ ap (λ k. listed (pair_at q) 0 r.size ++ listed (pair_at q) k p.size) z
              ∙ rw (front, back) refl,
          refl,
        )

    -- If the tombstones of the recipient are within it, every entry that `MoveAllTo` moves is alive
    -- in the recipient, also one that was deleted.
    pub move_all_to-revives :
        ((j : ℕ) → r.size ≤ j → is_tombstone r j ≡ false)
        → (j : ℕ) → j < p.size
        → entry_at (move_all_to p r).1 (r.size + j) ≡ (p.key_array j, p.rid_array j, false)
    unfolding move_all_to
    move_all_to-revives h j l = ground (
      arith,
      h (r.size + j),
      copy-at p.key_array 0 r.key_array r.size p.size (r.size + j),
      copy-at p.rid_array 0 r.rid_array r.size p.size (r.size + j),
    )

    -- `MoveFirstToEndOf`, for a page with an entry and a recipient to its left, keeps the sequence of
    -- the keys and values of the two; the recipient has one more, and the page one less.
    pub move_first_to_end_of-pairs :
        0 < p.size
        → (pairs (move_first_to_end_of p r).1 ++ pairs (move_first_to_end_of p r).0
            ≡ pairs r ++ pairs p)
          × ((move_first_to_end_of p r).1.size ≡ r.size + 1)
          × ((move_first_to_end_of p r).0.size + 1 ≡ p.size)
    unfolding move_first_to_end_of
    move_first_to_end_of-pairs h =
        let p' = (move_first_to_end_of p r).0 in
        let r' = (move_first_to_end_of p r).1 in
        let n = p.size - 1 in
        let e : p.size ≡ suc n = omega arith in
        let front : listed (pair_at r') 0 r.size ≡ pairs r =
          listed-ext (pair_at r') (pair_at r) 0 0 r.size (λ k l. ground arith) in
        let moved : pair_at r' r.size ≡ pair_at p 0 = ground arith in
        let back : listed (pair_at p') 0 n ≡ listed (pair_at p) 1 n =
          listed-ext (pair_at p') (pair_at p) 0 1 n (λ k l.
            ground (arith, shift_left-at p.key_array 0 n k, shift_left-at p.rid_array 0 n k)) in
        let all : pairs p ≡ pair_at p 0 ∷ listed (pair_at p) 1 n = ap (listed (pair_at p) 0) e in
        let grown : pairs r' ≡ pairs r ++ pair_at p 0 ∷ [] =
          listed-last (pair_at r') r.size ∙ rw (front, moved) refl in
        (
          rw (grown, back, all)
              (append_assoc (pairs r) (pair_at p 0 ∷ []) (listed (pair_at p) 1 n)),
          refl,
          omega arith,
        )

    -- `MoveLastToFrontOf`, for a page with an entry and a recipient to its right, keeps the sequence
    -- of the keys and values of the two; the recipient has one more, and the page one less.
    pub move_last_to_front_of-pairs :
        0 < p.size
        → (pairs (move_last_to_front_of p r).0 ++ pairs (move_last_to_front_of p r).1
            ≡ pairs p ++ pairs r)
          × ((move_last_to_front_of p r).1.size ≡ r.size + 1)
          × ((move_last_to_front_of p r).0.size + 1 ≡ p.size)
    unfolding move_last_to_front_of
    move_last_to_front_of-pairs h =
        let r' = (move_last_to_front_of p r).1 in
        let n = p.size - 1 in
        let e : p.size ≡ n + 1 = omega arith in
        let z : r.size - 0 ≡ r.size = omega arith in
        let grown : pairs r' ≡ pair_at p n ∷ pairs r =
          listed-insert (pair_at r) (pair_at r') 0 r.size (pair_at p n) (omega arith) (λ j l.
            ground
              (arith, shift_right-at r.key_array 0 r.size j, shift_right-at r.rid_array 0 r.size j))
          ∙ ap (λ k. pair_at p n ∷ listed (pair_at r) 0 k) z in
        let all : pairs p ≡ listed (pair_at p) 0 n ++ pair_at p n ∷ [] =
          ap (listed (pair_at p) 0) e ∙ listed-last (pair_at p) n in
        (
          rw (grown, all)
              (sym (append_assoc (listed (pair_at p) 0 n) (pair_at p n ∷ []) (pairs r))),
          refl,
          omega arith,
        )
