-- ===== src/Index/Tree/Loading.antt =====
-- A sequence of insertions into an empty tree, and the map that the tree stands for afterwards.
use cmu_db_15445_project.Prelude.{
  ℕ, suc, ◌+◌, ◌<◌, ◌≤◌, ◌≡◌, ◌≢◌, refl, ap, sym, ◌∙◌, Bool, true, false, Option, none, some, List,
  [], ◌∷◌, inl, inr, ◌==◌, if◌then◌else◌, arith, Bool-cases, Option-cases, Outcome, ok, ◌>>=◌,
  length,
}
use cmu_db_15445_project.Index.Leaf.{LeafPage}
use cmu_db_15445_project.Index.Internal.{InternalPage}
use cmu_db_15445_project.Index.Tree.{Tree, empty, get_value}
use cmu_db_15445_project.Index.Tree.Insertion.{insert}
use cmu_db_15445_project.Index.Tree.Shape.{IsTree}
use cmu_db_15445_project.Index.Tree.Reading.{get_value-entries}
use cmu_db_15445_project.Index.Tree.Adding.{Has}
use cmu_db_15445_project.Index.Tree.Inserting.{insert-IsGrown}

module _ {Key Value : Type 0} (rank : Key → ℕ) where
  -- The first value that a list has for a key.
  abbrev pub find : List (Key × Value) → Key → Option Value
  find [] key = none
  find ((k, v) ∷ rest) key = if rank key == rank k then some v else find rest key

  -- The map with a new key; a key that is there keeps its value.
  abbrev pub add : (Key → Option Value) → Key → Value → Key → Option Value
  add m key value k = elim (m k) [
    | some v ↦ some v
    | none ↦ if rank k == rank key then some value else none
  ]

  -- The live entries of the leaves are those of the map, and none is deleted.
  abbrev pub Represents : Tree Key Value → (Key → Option Value) → Type 0
  Represents t m =
      ((k : Key) (v : Value) → m k ≡ some v → Has rank t k v false)
      × ((k : Key) (v : Value) (d : Bool) → Has rank t k v d → m k ≡ some v)

  module _ (leaf_max_size internal_max_size : ℕ) (leaf_slot_cnt internal_slot_cnt : ℕ)
      (blank_leaf : LeafPage Key Value) (blank_internal : InternalPage Key) where
    -- One `Insert` after the other.
    unfoldable pub insert_all : ℕ → Tree Key Value → List (Key × Value) → Outcome (Tree Key Value)
    insert_all fuel t [] = ok t
    insert_all fuel t ((k, v) ∷ rest) =
        insert rank leaf_max_size internal_max_size leaf_slot_cnt internal_slot_cnt blank_leaf
          blank_internal fuel t k v
        >>= λ r. insert_all fuel r.0 rest

  module _ (limit leaf_max_size internal_max_size : ℕ) (leaf_slot_cnt internal_slot_cnt : ℕ)
      (blank_leaf : LeafPage Key Value) (blank_internal : InternalPage Key)
      (two : 2 ≤ leaf_max_size) (two' : 2 ≤ internal_max_size)
      (wide : leaf_max_size ≤ leaf_slot_cnt) (wide' : internal_max_size < internal_slot_cnt)
      (rank_lt : (key : Key) → rank key < limit) where
    -- In a tree that stands for a map, `Insert` returns whether the key is new, and what is left is a
    -- tree, at most one level higher, that stands for the map with the key added when it is new.
    pub insert-Represents :
        (height fuel : ℕ) (t : Tree Key Value) (m : Key → Option Value) (key : Key) (value : Value)
        → IsTree rank limit leaf_max_size internal_max_size height t
        → Represents t m
        → height < fuel
        → (t' : Tree Key Value) × (fresh : Bool) × (insert rank leaf_max_size internal_max_size
              leaf_slot_cnt internal_slot_cnt blank_leaf blank_internal fuel t key value
            ≡ ok (t', fresh))
          × (fresh ≡ true → m key ≡ none)
          × (fresh ≡ false → m key ≢ none)
          × ((h : ℕ) × (h ≤ suc height) × IsTree rank limit leaf_max_size internal_max_size h t')
          × Represents t' (add m key value)
    insert-Represents height fuel t m key value tree (to, from) up =
        elim (insert-IsGrown rank limit leaf_max_size internal_max_size leaf_slot_cnt
          internal_slot_cnt blank_leaf blank_internal two two' wide wide' rank_lt t height key value
          fuel tree up) [
            | inl ((pid, p, ep, (j, b, same)), ran) ↦
                let there : m key ≡ some (p.rid_array j) =
                  from key (p.rid_array j) _ (pid, p, ep, (j, b, (same, refl, refl))) in
                let kept : (k : Key) → add m key value k ≡ m k = λ k. elim (Option-cases (m k)) [
                  | inr (w, e) ↦ rw (add, e) refl
                  | inl e ↦ elim (Bool-cases (rank k == rank key)) [
                    | inl y ↦
                        let s : rank (p.key_array j) ≡ rank k = ground arith in
                        let x = from k (p.rid_array j) _ (pid, p, ep, (j, b, (s, refl, refl))) in
                        absurd cc
                    | inr y ↦ rw (add, e, y) refl
                  ]
                ] in
                (
                  t,
                  false,
                  ran,
                  (λ y. absurd cc),
                  (λ y z. let x : none ≡ some (p.rid_array j) = sym z ∙ there in absurd cc),
                  (height, omega arith, tree),
                  ((λ k v e. to k v (sym (kept k) ∙ e)), λ k v d h. kept k ∙ from k v d h),
                )
            | inr (absent, (t', ran, (taller, new, old, back))) ↦
                let missing : (k : Key) → rank k ≡ rank key → m k ≡ none = λ k s.
                  elim (Option-cases (m k)) [
                    | inl e ↦ e
                    | inr (w, e) ↦
                        let (pid, p, ep, (j, b, (s', _, _))) = to k w e in
                        absurd (absent (pid, p, ep, (j, b, s' ∙ s)))
                  ] in
                (
                  t',
                  true,
                  ran,
                  (λ y. missing key refl),
                  (λ y. absurd cc),
                  taller,
                  (
                    (λ k v e. elim (Option-cases (m k)) [
                      | inr (w, ew) ↦
                          let z : some w ≡ some v = rw (add, ew) at e in
                          old k v false (to k v (ew ∙ z))
                      | inl ew ↦ elim (Bool-cases (rank k == rank key)) [
                        | inl y ↦
                            let z : some value ≡ some v = rw (add, ew, y) at e in
                            let (pid, p, ep, (j, b, (s, x, live))) = new in
                            let x' : p.rid_array j ≡ v = cc in
                            (pid, p, ep, (j, b, (ground arith, x', live)))
                        | inr y ↦ let z : none ≡ some v = rw (add, ew, y) at e in absurd cc
                      ]
                    ]),
                    λ k v d h. elim (back k v d h) [
                      | inl a ↦ let e = from k v d a in rw (add, e) refl
                      | inr (s, x, y) ↦
                          let e = missing k s in
                          let y : (rank k == rank key) ≡ true = ground arith in
                          rw (add, e, y) (ap some x)
                    ],
                  ),
                )
          ]

    -- The map with all pairs of a list added.
    abbrev add_all : (Key → Option Value) → List (Key × Value) → Key → Option Value
    add_all m [] = m
    add_all m ((k, v) ∷ rest) = add_all (add m k v) rest

    add_all-find :
        (l : List (Key × Value)) (key : Key) (m : Key → Option Value)
        → add_all m l key ≡ (elim (m key) [ some v ↦ some v | none ↦ find l key ])
    add_all-find [] key m = elim (Option-cases (m key)) [
      | inl e ↦ rw e refl
      | inr (w, e) ↦ rw e refl
    ]
    add_all-find ((k, v) ∷ rest) key m = elim (Option-cases (m key)) [
      | inr (w, e) ↦ add_all-find rest key (add m k v) ∙ rw (add, e) refl
      | inl e ↦ elim (Bool-cases (rank key == rank k)) [
        | inl y ↦ add_all-find rest key (add m k v) ∙ rw (add, e, y) refl
        | inr y ↦ add_all-find rest key (add m k v) ∙ rw (add, e, y) refl
      ]
    ]

    insert_all-Represents :
        (l : List (Key × Value)) (height fuel : ℕ) (t : Tree Key Value) (m : Key → Option Value)
        → IsTree rank limit leaf_max_size internal_max_size height t
        → Represents t m
        → height + length l < fuel
        → (t' : Tree Key Value) × (insert_all leaf_max_size internal_max_size leaf_slot_cnt
              internal_slot_cnt blank_leaf blank_internal fuel t l
            ≡ ok t')
          × ((h : ℕ) × (h < fuel) × IsTree rank limit leaf_max_size internal_max_size h t')
          × Represents t' (add_all m l)
    unfolding insert_all
    insert_all-Represents [] height fuel t m tree r up =
        (t, refl, (height, omega (arith, up), tree), r)
    insert_all-Represents ((k, v) ∷ rest) height fuel t m tree r up =
        let (t1, fresh, ran, _, _, (h, taller, tree1), r1) =
          insert-Represents height fuel t m k v tree r (omega (arith, up)) in
        let (t', ran', tree', r') =
          insert_all-Represents rest h fuel t1 (add m k v) tree1 r1 (omega (arith, up, taller)) in
        (t', rw (insert_all, ran) ran', tree', r')

    empty-IsTree :
        (id : ℕ)
        → IsTree rank limit leaf_max_size internal_max_size 0 (empty {Key = Key} {Value = Value} id)
    unfolding empty
    empty-IsTree id = (
      record { lo = λ x. 0; hi = λ x. limit; level = λ x. 0; up = λ x. x; at = λ x. 0 },
      record {
        root = λ r e. absurd cc;
        rootless = λ e x. refl;
        tallest = λ r x e f. omega arith;
        linked = λ x f n r. absurd (f refl);
        ordered = λ x f. absurd (f refl);
        fresh = λ x l. refl;
        leaves = λ x l e. absurd cc;
        nodes = λ x l e. absurd cc;
      },
      record { leaves = λ x l n e. absurd cc; nodes = λ x l n e. absurd cc },
      λ r e. absurd cc,
    )

    -- When pages may have two entries or more, the maximum size of a leaf is at most the slots of its
    -- arrays and that of an internal page less than them, and the ranks of the keys have a bound, the
    -- insertion of any list of pairs into an empty tree returns, with more fuel than pairs, and
    -- `GetValue` then returns for every key the value of the first pair of the list that has the key,
    -- and nothing when none has.
    pub insert_all-find :
        (l : List (Key × Value)) (id fuel : ℕ)
        → length l < fuel
        → (t : Tree Key Value) × (insert_all leaf_max_size internal_max_size leaf_slot_cnt
              internal_slot_cnt blank_leaf blank_internal fuel
              (empty id)
              l
            ≡ ok t)
          × ((key : Key) → get_value rank fuel t key ≡ ok (find l key))
    unfolding empty
    insert_all-find l id fuel up =
        let (t, ran, (h, lh, tree), (to, from)) =
          insert_all-Represents l 0 fuel (empty id) (λ k. none) (empty-IsTree id)
            ((λ k v e. absurd cc), λ k v d (x, p, e, _). absurd cc) (omega (arith, up)) in
        (
          t,
          ran,
          λ key.
              let (o, got, entry, found) =
                get_value-entries rank limit leaf_max_size internal_max_size h rank_lt t fuel key
                  tree lh in
              let final = add_all-find l key (λ k. none) in
              got
              ∙ ap ok (elim (Option-cases o) [
                | inr (w, e) ↦
                    let (q, j, (p, ep, b, s, x, live)) = found w e in
                    e ∙ sym (from key w false (q, p, ep, (j, b, (s, x, live)))) ∙ final
                | inl e ↦ elim (Option-cases (find l key)) [
                  | inl n ↦ e ∙ sym n
                  | inr (w, y) ↦
                      let (q, p, ep, (j, b, (s, x, live))) = to key w (final ∙ y) in
                      let z = entry w q j (p, ep, b, s, x, live) in absurd cc
                ]
              ]),
        )
