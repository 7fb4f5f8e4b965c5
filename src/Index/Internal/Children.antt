-- ===== src/Index/Internal/Children.antt =====
-- The children and separators of two internal pages under a split and under moves between them.
use mathlib.Core.List.{append_assoc}
use cmu_db_15445_project.Prelude.{
  ℕ, ◌+◌, ◌-◌, ◌/◌, ◌≤◌, ◌≡◌, refl, ap, sym, ◌∙◌, List, [], ◌∷◌, ◌++◌, arith,
}
use cmu_db_15445_project.Index.Arrays.{
  assign, shift_right-at, shift_left-at, copy-at, listed, listed-ext, listed-cons, listed-mid,
  listed-insert, listed-last,
}
use cmu_db_15445_project.Index.Internal.{
  InternalPage, split, move_last_to_front_of, move_first_to_end_of, move_all_to,
}

module _ {Key : Type 0} where
  abbrev pub children : InternalPage Key → List ℕ
  children p = listed p.page_id_array 0 p.size

  abbrev pub keys : InternalPage Key → List Key
  keys p = listed p.key_array 1 (p.size - 1)

  -- `Split` of a page with two children or more: the children of the page are those that it keeps
  -- and then those of the new page, and its keys are those that it keeps, the key that it returns,
  -- and those of the new page.
  pub split-children :
      (p q : InternalPage Key)
      → 2 ≤ p.size
      → (children (split p q).0 ++ children (split p q).1 ≡ children p)
        × (keys (split p q).0 ++ (split p q).2 ∷ keys (split p q).1 ≡ keys p)
  unfolding split
  split-children p q h =
      let mid = p.size / 2 in
      let n = p.size - (mid + 1) in
      let r = (split p q).1 in
      let head : r.page_id_array 0 ≡ p.page_id_array mid = ground (
        arith,
        copy-at p.page_id_array (mid + 1) (assign q.page_id_array 0 (p.page_id_array mid)) 1 n 0,
      ) in
      let tail : listed r.page_id_array 1 n ≡ listed p.page_id_array (mid + 1) n =
        listed-ext r.page_id_array p.page_id_array 1 (mid + 1) n (λ k l. ground (
          arith,
          copy-at p.page_id_array (mid + 1) (assign q.page_id_array 0 (p.page_id_array mid)) 1 n
              (1 + k),
        )) in
      let right_keys : listed r.key_array 1 n ≡ listed p.key_array (mid + 1) n =
        listed-ext r.key_array p.key_array 1 (mid + 1) n
          (λ k l. ground (arith, copy-at p.key_array (mid + 1) q.key_array 1 n (1 + k))) in
      let few : 1 + n - 1 ≡ n = omega arith in
      let cut = listed-mid p.page_id_array 0 mid n p.size mid (omega arith) (omega arith) in
      let cut_keys =
        listed-mid p.key_array 1 (mid - 1) n (p.size - 1) mid (omega arith) (omega arith) in
      let right : children r ≡ p.page_id_array mid ∷ listed p.page_id_array (mid + 1) n =
        listed-cons r.page_id_array 0 n (1 + n) (omega arith) ∙ rw (head, tail) refl in
      let right_all : keys r ≡ listed p.key_array (mid + 1) n =
        ap (listed r.key_array 1) few ∙ right_keys in
      (rw right (sym cut), rw right_all (sym cut_keys))

  -- The page and the recipient that a move leaves, and the key that it returns.
  module _ (p r : InternalPage Key) (middle : Key) where
    -- `MoveLastToFrontOf`, for a page with two children or more and a recipient with one or more to
    -- its right, keeps the sequence of the children of the two, and that of their keys with the
    -- separator between: the returned key separates them now.
    pub move_last_to_front_of-children :
        2 ≤ p.size
        → 1 ≤ r.size
        → (children (move_last_to_front_of p r middle).0
              ++ children (move_last_to_front_of p r middle).1
            ≡ children p ++ children r)
          × (keys (move_last_to_front_of p r middle).0
                ++ (move_last_to_front_of p r middle).2 ∷ keys (move_last_to_front_of p r middle).1
              ≡ keys p ++ middle ∷ keys r)
    unfolding move_last_to_front_of
    move_last_to_front_of-children h one =
        let r' = (move_last_to_front_of p r middle).1 in
        let n = p.size - 1 in
        let z : r.size - 0 ≡ r.size = omega arith in
        let e : p.size ≡ n + 1 = omega arith in
        let grown : children r' ≡ p.page_id_array n ∷ children r =
          listed-insert r.page_id_array r'.page_id_array 0 r.size (p.page_id_array n) (omega arith)
            (λ j l. ground (arith, shift_right-at r.page_id_array 0 r.size j))
          ∙ ap (λ k. p.page_id_array n ∷ listed r.page_id_array 0 k) z in
        let all : children p ≡ listed p.page_id_array 0 n ++ p.page_id_array n ∷ [] =
          ap (listed p.page_id_array 0) e ∙ listed-last p.page_id_array n in
        let first : r'.key_array 1 ≡ middle =
          ground (arith, shift_right-at r.key_array 0 r.size 1) in
        let others : listed r'.key_array 2 (r.size - 1) ≡ keys r =
          listed-ext r'.key_array r.key_array 2 1 (r.size - 1)
            (λ k l. ground (arith, shift_right-at r.key_array 0 r.size (2 + k))) in
        let more : keys r' ≡ middle ∷ keys r =
          listed-cons r'.key_array 1 (r.size - 1) (r.size + 1 - 1) (omega arith)
          ∙ rw (first, others) refl in
        let cut : keys p ≡ listed p.key_array 1 (n - 1) ++ p.key_array n ∷ [] =
          listed-mid p.key_array 1 (n - 1) 0 n n (omega arith) (omega arith) in
        (
          rw (grown, all)
              (sym
                (append_assoc (listed p.page_id_array 0 n) (p.page_id_array n ∷ []) (children r))),
          rw (more, cut)
              (sym (
                append_assoc (listed p.key_array 1 (n - 1)) (p.key_array n ∷ [])
                  (middle ∷ keys r))),
        )

    -- `MoveAllTo`, for pages with one child or more, appends the children of the page to those of
    -- the recipient, and the separator and the keys of the page to its keys.
    pub move_all_to-children :
        1 ≤ p.size
        → 1 ≤ r.size
        → (children (move_all_to p r middle).1 ≡ children r ++ children p)
          × (keys (move_all_to p r middle).1 ≡ keys r ++ middle ∷ keys p)
          × (children (move_all_to p r middle).0 ≡ [])
    unfolding move_all_to
    move_all_to-children h one =
        let q = (move_all_to p r middle).1 in
        let n = p.size - 1 in
        let m = r.size in
        let b = assign r.page_id_array m (p.page_id_array 0) in
        let c = assign r.key_array m middle in
        let front : listed q.page_id_array 0 m ≡ children r =
          listed-ext q.page_id_array r.page_id_array 0 0 m
            (λ k l. ground (arith, copy-at p.page_id_array 1 b (m + 1) n k)) in
        let head : q.page_id_array m ≡ p.page_id_array 0 =
          ground (arith, copy-at p.page_id_array 1 b (m + 1) n m) in
        let back : listed q.page_id_array (m + 1) n ≡ listed p.page_id_array 1 n =
          listed-ext q.page_id_array p.page_id_array (m + 1) 1 n
            (λ k l. ground (arith, copy-at p.page_id_array 1 b (m + 1) n (m + 1 + k))) in
        let front_keys : listed q.key_array 1 (m - 1) ≡ keys r =
          listed-ext q.key_array r.key_array 1 1 (m - 1)
            (λ k l. ground (arith, copy-at p.key_array 1 c (m + 1) n (1 + k))) in
        let head_key : q.key_array m ≡ middle =
          ground (arith, copy-at p.key_array 1 c (m + 1) n m) in
        let back_keys : listed q.key_array (m + 1) n ≡ keys p =
          listed-ext q.key_array p.key_array (m + 1) 1 n
            (λ k l. ground (arith, copy-at p.key_array 1 c (m + 1) n (m + 1 + k))) in
        let all : children p ≡ p.page_id_array 0 ∷ listed p.page_id_array 1 n =
          listed-cons p.page_id_array 0 n p.size (omega arith) in
        (
          listed-mid q.page_id_array 0 m n (m + 1 + n) m (omega arith) (omega arith)
              ∙ rw (front, head, back, all) refl,
          listed-mid q.key_array 1 (m - 1) n (m + 1 + n - 1) m (omega arith) (omega arith)
              ∙ rw (front_keys, head_key, back_keys) refl,
          refl,
        )

    -- `MoveFirstToEndOf`, for a page with two children or more, copies the first child of the page to
    -- the end of the recipient, but what leaves the page is its second child.
    pub move_first_to_end_of-children :
        2 ≤ p.size
        → (children (move_first_to_end_of p r middle).1 ≡ children r ++ p.page_id_array 0 ∷ [])
          × (children (move_first_to_end_of p r middle).0
              ≡ p.page_id_array 0 ∷ listed p.page_id_array 2 (p.size - 2))
    unfolding move_first_to_end_of
    move_first_to_end_of-children h =
        let p' = (move_first_to_end_of p r middle).0 in
        let r' = (move_first_to_end_of p r middle).1 in
        let n = p.size - 2 in
        let front : listed r'.page_id_array 0 r.size ≡ children r =
          listed-ext r'.page_id_array r.page_id_array 0 0 r.size (λ k l. ground arith) in
        let moved : r'.page_id_array r.size ≡ p.page_id_array 0 = ground arith in
        let head : p'.page_id_array 0 ≡ p.page_id_array 0 =
          ground (arith, shift_left-at p.page_id_array 1 (p.size - 1 - 1) 0) in
        let tail : listed p'.page_id_array 1 n ≡ listed p.page_id_array 2 n =
          listed-ext p'.page_id_array p.page_id_array 1 2 n
            (λ k l. ground (arith, shift_left-at p.page_id_array 1 (p.size - 1 - 1) (1 + k))) in
        (
          listed-last r'.page_id_array r.size ∙ rw (front, moved) refl,
          listed-cons p'.page_id_array 0 n (p.size - 1) (omega arith) ∙ rw (head, tail) refl,
        )
