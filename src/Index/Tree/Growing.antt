-- ===== src/Index/Tree/Growing.antt =====
-- A new key in the leaf that covers it: the tree and the entries afterwards.
use cmu_db_15445_project.Prelude.{
  ℕ, suc, ◌+◌, ◌-◌, ◌/◌, ◌<◌, ◌≤◌, ◌≡◌, ◌≢◌, refl, ap, sym, ◌∙◌, Bool, false, none, some, List, ◌⊎◌,
  inl, inr, arith, Outcome, ok,
}
use cmu_db_15445_project.Index.Leaf.{LeafPage}
use cmu_db_15445_project.Index.Internal.{InternalPage}
use cmu_db_15445_project.Index.Tree.{leaf, internal, Tree, put, lower_bound, is_at}
use cmu_db_15445_project.Index.Tree.Insertion.{split_leaf, insert_into_parent}
use cmu_db_15445_project.Index.Tree.Bisection.{lower_bound-IsCut}
use cmu_db_15445_project.Index.Tree.Shape.{Shape, IsLeaf, Inv, Covers, IsPath, HasRoom, IsTree}
use cmu_db_15445_project.Index.Tree.Placing.{grown, grown-keys, grown-size, grown-IsSorted}
use cmu_db_15445_project.Index.Tree.Frames.{put-here, put-elsewhere, put_cases, put-put}
use cmu_db_15445_project.Index.Tree.Filling.{put-Inv}
use cmu_db_15445_project.Index.Tree.Splitting.{split_shape, split_shown, split_tree}
use cmu_db_15445_project.Index.Tree.Halves.{
  left, right, left-at, right-at, left-size, right-size, halves-Pending,
}
use cmu_db_15445_project.Index.Tree.Paths.{IsPath-frame}
use cmu_db_15445_project.Index.Tree.Parents.{Grows, insert_into_parent-Grows}
use cmu_db_15445_project.Index.Tree.Adding.{
  EntryIn, Has, old-entry, new-entry, entry_cases, part_cases, from-left, from-right, put-Has,
  put-Has_cases, parted-Has, parted-Has_back,
}

module _ {Key Value : Type 0} (rank : Key → ℕ) (limit leaf_max_size internal_max_size : ℕ) where
  -- A leaf has the key, in a live entry or a deleted one.
  abbrev pub HasKey : Tree Key Value → Key → Type 0
  HasKey t key =
      (pid : ℕ) × (p : LeafPage Key Value) × (t.pages pid ≡ some (leaf p))
      × ((j : ℕ) × (j < p.size) × (rank (p.key_array j) ≡ rank key))

  -- A tree that has the entry besides those of the other tree, and is higher by one level at most.
  abbrev pub IsGrown : ℕ → Tree Key Value → Key → Value → Tree Key Value → Type 0
  IsGrown height t key value t' =
      ((h : ℕ) × (h ≤ suc height) × IsTree rank limit leaf_max_size internal_max_size h t')
      × Has rank t' key value false
      × ((k : Key) (v : Value) (d : Bool) → Has rank t k v d → Has rank t' k v d)
      × ((k : Key) (v : Value) (d : Bool)
          → Has rank t' k v d
          → Has rank t k v d ⊎ ((rank k ≡ rank key) × (value ≡ v) × (false ≡ d)))

  module _ (g : Shape) (t : Tree Key Value)
      (v : Inv rank limit leaf_max_size internal_max_size g g.hi none t)
      (room : HasRoom rank limit leaf_max_size internal_max_size none t) (height : ℕ)
      (top : (r : ℕ) → t.root ≡ some r → g.level r ≡ height) (pid : ℕ) (p : LeafPage Key Value)
      (e : t.pages pid ≡ some (leaf p)) (key : Key) (value : Value) (covers : Covers rank g pid key)
      (new : is_at rank p key (lower_bound rank p key) ≡ false) where
    abbrev old : IsLeaf rank limit leaf_max_size internal_max_size g pid p
    old = v.leaves pid p e

    abbrev q : LeafPage Key Value
    q = grown rank p key value old.sorted new

    abbrev filled : Tree Key Value
    filled = put t pid (leaf q)

    q-IsLeaf : IsLeaf rank limit leaf_max_size internal_max_size g pid q
    q-IsLeaf =
        let size = grown-size rank p key value old.sorted new in
        let to = (lower_bound-IsCut rank p old.sorted key).to in
        let (low, high) = covers in
        record {
          bottom = old.bottom;
          maximum = size.1 ∙ old.maximum;
          sorted = grown-IsSorted rank p key value old.sorted new;
          within = λ j l. ground (
            arith,
            grown-keys rank p key value old.sorted new j,
            size.0,
            old.within j,
            old.within (j - 1),
          );
        }

    filled_holds : Inv rank limit leaf_max_size internal_max_size g g.hi none filled
    filled_holds =
        put-Inv rank limit leaf_max_size internal_max_size g g.hi none t v pid p q e q-IsLeaf

    -- The leaf is not full.
    pub with_room : q.size ≢ leaf_max_size → IsGrown height t key value filled
    with_room n =
        let size = (grown-size rank p key value old.sorted new).0 in
        let before = room.leaves pid p (λ y. cc) e in
        (
          (
            height,
            omega arith,
            (
              g,
              filled_holds,
              record {
                leaves = λ x l no ex. elim (put_cases t pid (leaf q) x (leaf l) ex) [
                  | inl (a, b) ↦ let z : q ≡ l = cc in rw⁻¹ z (omega (arith, n, size, before))
                  | inr (o, ex') ↦ room.leaves x l no ex'
                ];
                nodes = λ x l no ex. elim (put_cases t pid (leaf q) x (internal l) ex) [
                  | inl (a, b) ↦ absurd cc
                  | inr (o, ex') ↦ room.nodes x l no ex'
                ];
              },
              top,
            ),
          ),
          (pid, q, put-here t pid (leaf q), new-entry rank p key value old.sorted new),
          put-Has rank t pid p q e (old-entry rank p key value old.sorted new),
          λ k w d h. elim (put-Has_cases rank t pid p q e k w d h) [
            | inl a ↦ elim (entry_cases rank p key value old.sorted new k w d a) [
              | inl b ↦ inl (pid, p, e, b)
              | inr b ↦ inr b
            ]
            | inr a ↦ inl a
          ],
        )

    -- The leaf is full now, and is split.
    module _ (leaf_slot_cnt internal_slot_cnt : ℕ) (blank_leaf : LeafPage Key Value)
        (blank_internal : InternalPage Key) (two : 2 ≤ leaf_max_size) (two' : 2 ≤ internal_max_size)
        (wide : leaf_max_size ≤ leaf_slot_cnt) (wide' : internal_max_size < internal_slot_cnt)
        (full : q.size ≡ leaf_max_size) where
      abbrev n : ℕ
      n = t.next_page_id

      some_entries : 2 ≤ q.size
      some_entries = omega (arith, two, full)

      abbrev lower : LeafPage Key Value
      lower =
          left rank limit leaf_max_size internal_max_size g filled filled_holds pid q blank_leaf
            (put-here t pid (leaf q)) some_entries

      abbrev upper : LeafPage Key Value
      upper =
          right rank limit leaf_max_size internal_max_size g filled filled_holds pid q blank_leaf
            (put-here t pid (leaf q)) some_entries

      lower-size : (lower.size ≡ q.size / 2) × (upper.size ≡ q.size - q.size / 2)
      lower-size = (
        left-size rank limit leaf_max_size internal_max_size g filled filled_holds pid q blank_leaf
            (put-here t pid (leaf q)) some_entries,
        right-size rank limit leaf_max_size internal_max_size g filled filled_holds pid q blank_leaf
            (put-here t pid (leaf q)) some_entries,
      )

      abbrev next : Tree Key Value
      next = split_tree filled pid (leaf lower) (leaf upper)

      abbrev g2 : Shape
      g2 = split_shape g pid n (rank (upper.key_array 0)) 0

      new_slot : filled.pages n ≡ none
      new_slot = filled_holds.fresh n (omega arith)

      next_room : HasRoom rank limit leaf_max_size internal_max_size none next
      next_room =
          let (size, size') = lower-size in
          record {
            leaves = λ x l no ex.
                elim (put_cases (put filled pid (leaf lower)) n (leaf upper) x (leaf l) ex) [
                  | inl (a, b) ↦ let z : upper ≡ l = cc in rw⁻¹ z (omega (arith, size', full, two))
                  | inr (o, ex') ↦ elim (put_cases filled pid (leaf lower) x (leaf l) ex') [
                    | inl (a, b) ↦ let z : lower ≡ l = cc in rw⁻¹ z (omega (arith, size, full, two))
                    | inr (o', ex'') ↦
                        room.leaves x l no (sym (put-elsewhere t pid (leaf q) x o') ∙ ex'')
                  ]
                ];
            nodes = λ x l no ex.
                elim (put_cases (put filled pid (leaf lower)) n (leaf upper) x (internal l) ex) [
                  | inl (a, b) ↦ absurd cc
                  | inr (o, ex') ↦ elim (put_cases filled pid (leaf lower) x (internal l) ex') [
                    | inl (a, b) ↦ absurd cc
                    | inr (o', ex'') ↦
                        room.nodes x l no (sym (put-elsewhere t pid (leaf q) x o') ∙ ex'')
                  ]
                ];
          }

      next-IsPath : (path : List ℕ) → IsPath g t pid path → IsPath g2 next pid path
      next-IsPath path h =
          let f : t.pages pid ≢ none = λ y. let z : some (leaf p) ≡ none = sym e ∙ y in absurd cc in
          IsPath-frame rank limit leaf_max_size internal_max_size g g2 g.hi none t next v
            (g.level pid) (λ x l y. cc)
            (λ x fx l up.
              let o : x ≢ n = λ y. fx (ap t.pages y ∙ v.fresh n (omega arith)) in
              let np : g.up x ≢ pid = λ y. omega (arith, ap g.level y, up, l) in ground arith)
            refl path pid f (omega arith) h

      next-Grows :
          (path : List ℕ)
          → IsPath g t pid path
          → Grows rank limit leaf_max_size internal_max_size leaf_slot_cnt internal_slot_cnt
              blank_leaf blank_internal two' wide' height next
              (insert_into_parent rank leaf_max_size internal_max_size leaf_slot_cnt
                internal_slot_cnt blank_leaf blank_internal path next pid
                (upper.key_array 0)
                n)
      next-Grows path h =
          insert_into_parent-Grows rank limit leaf_max_size internal_max_size leaf_slot_cnt
            internal_slot_cnt blank_leaf blank_internal two' wide' path g2 (split_shown g pid n) pid
            n height next (upper.key_array 0)
            (halves-Pending rank limit leaf_max_size internal_max_size g filled filled_holds pid q
              blank_leaf (put-here t pid (leaf q)) some_entries)
            next_room
            (λ r er.
              let o : r ≢ n = λ y. (v.root r er).0 (ap t.pages y ∙ v.fresh n (omega arith)) in
              ground (arith, top r er))
            (ground arith) (next-IsPath path h)

      abbrev from_filled :
          (k : Key) (w : Value) (d : Bool)
          → EntryIn rank q k w d
          → EntryIn rank lower k w d ⊎ EntryIn rank upper k w d
      from_filled =
          part_cases rank q lower upper (q.size / 2) (omega arith) lower-size.0 lower-size.1
            (left-at rank limit leaf_max_size internal_max_size g filled filled_holds pid q
              blank_leaf (put-here t pid (leaf q)) some_entries)
            (right-at rank limit leaf_max_size internal_max_size g filled filled_holds pid q
              blank_leaf (put-here t pid (leaf q)) some_entries)

      next-Has_back : (k : Key) (w : Value) (d : Bool) → Has rank next k w d → Has rank filled k w d
      next-Has_back k w d (x, l, ex, m) =
          parted-Has_back rank filled pid n q lower upper (put-here t pid (leaf q)) new_slot
            (from-left rank q lower upper (q.size / 2) (omega arith) lower-size.0 lower-size.1
              (left-at rank limit leaf_max_size internal_max_size g filled filled_holds pid q
                blank_leaf (put-here t pid (leaf q)) some_entries)
              (right-at rank limit leaf_max_size internal_max_size g filled filled_holds pid q
                blank_leaf (put-here t pid (leaf q)) some_entries))
            (from-right rank q lower upper (q.size / 2) (omega arith) lower-size.0 lower-size.1
              (left-at rank limit leaf_max_size internal_max_size g filled filled_holds pid q
                blank_leaf (put-here t pid (leaf q)) some_entries)
              (right-at rank limit leaf_max_size internal_max_size g filled filled_holds pid q
                blank_leaf (put-here t pid (leaf q)) some_entries))
            k w d (x, l, ex, m)

      next-Has : (k : Key) (w : Value) (d : Bool) → Has rank filled k w d → Has rank next k w d
      next-Has k w d h =
          let (x, l, ex, m) =
            parted-Has rank filled pid n q lower upper (put-here t pid (leaf q)) new_slot
              from_filled k w d h in
          (x, l, ex, m)

      pub with_split :
          (path : List ℕ)
          → IsPath g t pid path
          → (t' : Tree Key Value) × (split_leaf rank leaf_max_size internal_max_size leaf_slot_cnt
                internal_slot_cnt blank_leaf blank_internal t pid q path
              ≡ ok t')
            × IsGrown height t key value t'
      with_split path h =
          let (t', ran, tree, same) = next-Grows path h in
          let back = put-put t pid (leaf q) (leaf lower) in
          let again : (T : Tree Key Value) → Outcome (Tree Key Value) = λ T.
            insert_into_parent rank leaf_max_size internal_max_size leaf_slot_cnt internal_slot_cnt
              blank_leaf blank_internal path
              (record (put T n (leaf upper)) { next_page_id = n + 1 }) pid (upper.key_array 0) n in
          let to : (k : Key) (w : Value) (d : Bool) → Has rank next k w d → Has rank t' k w d =
            λ k w d (x, l, ex, m). (x, l, (same x l).0 ex, m) in
          let from : (k : Key) (w : Value) (d : Bool) → Has rank t' k w d → Has rank next k w d =
            λ k w d (x, l, ex, m). (x, l, (same x l).1 ex, m) in
          (
            t',
            ap again (sym back) ∙ ran,
            (
              elim tree [ inl a ↦ (height, omega arith, a) | inr a ↦ (suc height, omega arith, a) ],
              to key value false (
                  next-Has key value false
                    (pid, q, put-here t pid (leaf q), new-entry rank p key value old.sorted new)),
              (λ k w d a. to k w d (
                  next-Has k w d (
                    put-Has rank t pid p q e (old-entry rank p key value old.sorted new) k w d a))),
              λ k w d a.
                  elim (put-Has_cases rank t pid p q e k w d (next-Has_back k w d (from k w d a))) [
                    | inl b ↦ elim (entry_cases rank p key value old.sorted new k w d b) [
                      | inl d ↦ inl (pid, p, e, d)
                      | inr d ↦ inr d
                    ]
                    | inr b ↦ inl b
                  ],
            ),
          )
