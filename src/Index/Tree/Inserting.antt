-- ===== src/Index/Tree/Inserting.antt =====
-- `Insert` in a tree: the tree and the entries afterwards.
use cmu_db_15445_project.Prelude.{
  ℕ, ◌<◌, ◌≤◌, ◌≡◌, refl, sym, ◌∙◌, Bool, true, false, Option, none, some, List, [], ◌⊎◌, inl, inr,
  ◌==◌, leb, arith, Bool-cases, Option-cases, Outcome, ok, ◌>>=◌,
}
use cmu_db_15445_project.Index.Leaf.{LeafPage}
use cmu_db_15445_project.Index.Internal.{InternalPage}
use cmu_db_15445_project.Index.Tree.{leaf, Tree, put, lower_bound, is_at, descend}
use cmu_db_15445_project.Index.Tree.Insertion.{insert_in_leaf, insert_pessimistic, insert}
use cmu_db_15445_project.Index.Tree.Bisection.{read_leaf-at}
use cmu_db_15445_project.Index.Tree.Shape.{Shape, Inv, Covers, IsPath, HasRoom, IsTree}
use cmu_db_15445_project.Index.Tree.Descent.{descend-leaf, leaf_for}
use cmu_db_15445_project.Index.Tree.Placing.{grown}
use cmu_db_15445_project.Index.Tree.Optimism.{insert-insert_pessimistic}
use cmu_db_15445_project.Index.Tree.Growing.{HasKey, IsGrown, with_room, with_split}
use cmu_db_15445_project.Index.Tree.Starting.{started, started-IsGrown}

module _ {Key Value : Type 0} (rank : Key → ℕ) (limit leaf_max_size internal_max_size : ℕ) where
  module _ (leaf_slot_cnt internal_slot_cnt : ℕ) (blank_leaf : LeafPage Key Value)
      (blank_internal : InternalPage Key) (two : 2 ≤ leaf_max_size) (two' : 2 ≤ internal_max_size)
      (wide : leaf_max_size ≤ leaf_slot_cnt) (wide' : internal_max_size < internal_slot_cnt)
      (rank_lt : (key : Key) → rank key < limit) (t : Tree Key Value) (height : ℕ) (key : Key)
      (value : Value) where
    abbrev run : ℕ → Outcome (Tree Key Value × Bool)
    run fuel =
        insert_pessimistic rank leaf_max_size internal_max_size leaf_slot_cnt internal_slot_cnt
          blank_leaf blank_internal fuel t key value

    -- The descent from a root, and what is done at its end.
    from_root :
        (o : Option ℕ) (a : Outcome (Tree Key Value × Bool))
        (k : ℕ × LeafPage Key Value × List ℕ → Outcome (Tree Key Value × Bool)) (fuel r : ℕ)
        (x : ℕ × LeafPage Key Value × List ℕ)
        → o ≡ some r
        → descend rank t.pages key fuel r [] ≡ ok x
        → (elim o [ none ↦ a | some pid ↦ descend rank t.pages key fuel pid [] >>= k ]) ≡ k x
    from_root o a k fuel r x e w = rw (e, w) refl

    -- What the pessimistic part does in the leaf that the descent ends at.
    in_leaf :
        (g : Shape) (v : Inv rank limit leaf_max_size internal_max_size g g.hi none t)
        → HasRoom rank limit leaf_max_size internal_max_size none t
        → ((r : ℕ) → t.root ≡ some r → g.level r ≡ height)
        → (pid : ℕ) (p : LeafPage Key Value) (path : List ℕ) (e : t.pages pid ≡ some (leaf p))
        → Covers rank g pid key
        → IsPath g t pid path
        → is_at rank p key (lower_bound rank p key) ≡ false
        → (t' : Tree Key Value) × (insert_in_leaf rank leaf_max_size internal_max_size leaf_slot_cnt
              internal_slot_cnt blank_leaf blank_internal t key value
              (pid, p, path)
            ≡ ok (t', true))
          × IsGrown rank limit leaf_max_size internal_max_size height t key value t'
    in_leaf g v room top pid p path e c h new =
        let s = (v.leaves pid p e).sorted in
        let less = room.leaves pid p (λ y. cc) e in
        let fits : leb leaf_slot_cnt p.size ≡ false = ground (arith, wide, less) in
        elim (Bool-cases ((grown rank p key value s new).size == leaf_max_size)) [
          | inl full ↦
              let (t', ran, rest) =
                with_split rank limit leaf_max_size internal_max_size g t v room height top pid p e
                  key value c new leaf_slot_cnt internal_slot_cnt blank_leaf blank_internal two two'
                  wide wide' (ground arith) path h in
              (t', rw (new, fits, full, ran) refl, rest)
          | inr free ↦ (
            put t pid (leaf (grown rank p key value s new)),
            rw (new, fits, free) refl,
            with_room rank limit leaf_max_size internal_max_size g t v room height top pid p e key
                value c new (ground arith),
          )
        ]

    -- In a tree whose pages may have two entries or more, where the maximum size of a leaf is at most
    -- the slots of its arrays and that of an internal page less than them, the ranks of the keys have a
    -- bound, and with more fuel than the height, `Insert` returns. When a leaf has the key already, in a
    -- live entry or a deleted one, it returns false and the tree is as it was. Otherwise it returns true,
    -- and what is left is a tree, at most one level higher, whose leaves have the entries from before,
    -- live or deleted, and the new one, and no others.
    pub insert-IsGrown :
        (fuel : ℕ)
        → IsTree rank limit leaf_max_size internal_max_size height t
        → height < fuel
        → (HasKey rank limit leaf_max_size internal_max_size t key
            × (insert rank leaf_max_size internal_max_size leaf_slot_cnt internal_slot_cnt
                  blank_leaf blank_internal fuel t key value
                ≡ ok (t, false)))
          ⊎ ((HasKey rank limit leaf_max_size internal_max_size t key → ⊥)
              × ((t' : Tree Key Value) × (insert rank leaf_max_size internal_max_size leaf_slot_cnt
                      internal_slot_cnt blank_leaf blank_internal fuel t key value
                    ≡ ok (t', true))
                  × IsGrown rank limit leaf_max_size internal_max_size height t key value t'))
    unfolding insert_pessimistic
    insert-IsGrown fuel (g, v, room, top) up =
        let plain =
          insert-insert_pessimistic rank leaf_max_size internal_max_size leaf_slot_cnt
            internal_slot_cnt blank_leaf blank_internal fuel t key value
            (λ x l ex. (v.leaves x l ex).maximum) in
        elim (Option-cases t.root) [
          | inl e ↦
              let vacant = v.rootless e in
              let fits : leb leaf_slot_cnt 0 ≡ false = ground (arith, two, wide) in
              inr (
                (λ (x, l, ex, j). let z : none ≡ some (leaf l) = sym (vacant x) ∙ ex in absurd cc),
                (
                  started rank limit leaf_max_size internal_max_size leaf_slot_cnt internal_slot_cnt
                      blank_leaf blank_internal two two' wide wide' rank_lt t height key value,
                  plain ∙ simp (e, insert_pessimistic, fits) refl,
                  started-IsGrown rank limit leaf_max_size internal_max_size leaf_slot_cnt
                      internal_slot_cnt blank_leaf blank_internal two two' wide wide' rank_lt t
                      height key value vacant,
                ),
              )
          | inr (r, e) ↦
              let (q, p, ep, c) =
                leaf_for rank limit leaf_max_size internal_max_size g t v rank_lt r e key in
              let l = v.leaves q p ep in
              let (path, is_path, walk) =
                descend-leaf rank limit leaf_max_size internal_max_size g t v rank_lt r e fuel q p
                  key (omega (arith, top r e, up)) ep c in
              elim (Bool-cases (is_at rank p key (lower_bound rank p key))) [
                | inl there ↦ inl (
                  (q, p, ep, (lower_bound rank p key, ground arith, ground arith)),
                  plain ∙ simp (e, insert_pessimistic, walk, there) refl,
                )
                | inr new ↦
                    let absent : HasKey rank limit leaf_max_size internal_max_size t key → ⊥ =
                      λ (x, k, ex, (j, b, same)).
                        let s = v.leaves x k ex in
                        let (low, high) = s.within j b in
                        let (path', _, walk') =
                          descend-leaf rank limit leaf_max_size internal_max_size g t v rank_lt r e
                            fuel x k key (omega (arith, top r e, up)) ex
                            (omega (arith, low, same), omega (arith, high, same)) in
                        let both : ok (q, p, path) ≡ ok (x, k, path') = sym walk ∙ walk' in
                        let y : p ≡ k = cc in
                        let found = (read_leaf-at rank k s.sorted key j b same).0 in
                        let new' : is_at rank k key (lower_bound rank k key) ≡ false =
                          rw y at new in
                        ground (arith, found, b, same) in
                    let (t', ran, rest) = in_leaf g v room top q p path ep c is_path new in
                    inr (
                      absent,
                      (
                        t',
                        plain
                            ∙ (from_root t.root _
                                  (insert_in_leaf rank leaf_max_size internal_max_size leaf_slot_cnt
                                    internal_slot_cnt blank_leaf blank_internal t key value)
                                  fuel r (q, p, path) e walk
                                ∙ ran),
                        rest,
                      ),
                    )
              ]
        ]
