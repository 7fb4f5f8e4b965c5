-- ===== src/Index/Tree/Parents.antt =====
-- `InsertIntoParent`: from a page that was split up to a tree again.
use cmu_db_15445_project.Prelude.{
  ℕ, suc, ◌+◌, ◌/◌, ◌<◌, ◌≤◌, ◌≡◌, ◌≢◌, refl, ap, sym, ◌∙◌, true, false, none, some, List, [], ◌∷◌,
  ◌⊎◌, inl, inr, ltb, leb, arith, Bool-cases, Outcome, ok,
}
use cmu_db_15445_project.Index.Leaf.{LeafPage}
use cmu_db_15445_project.Index.Internal
use cmu_db_15445_project.Index.Internal.{InternalPage}
use cmu_db_15445_project.Index.Tree.{internal, Tree, put, upper_bound}
use cmu_db_15445_project.Index.Tree.Insertion.{new_root, insert_into_parent}
use cmu_db_15445_project.Index.Tree.Shape.{Shape, Inv, Pending, IsPath, HasRoom, IsTree}
use cmu_db_15445_project.Index.Tree.Frames.{put-here, put-elsewhere, put-put}
use cmu_db_15445_project.Index.Tree.Linking.{linked_shape, place}
use cmu_db_15445_project.Index.Tree.Attaching.{linked-Inv}
use cmu_db_15445_project.Index.Tree.Rooting.{rooted_shape, rooted-Inv}
use cmu_db_15445_project.Index.Tree.Splitting.{split_shape, split_shown, split_tree}
use cmu_db_15445_project.Index.Tree.Parts.{lower, parts-Pending}
use cmu_db_15445_project.Index.Tree.Paths.{
  SameLeaves, IsPath-frame, put_internal-leaves, new_internal-leaves, put_internal-HasRoom,
}

module _ {Key Value : Type 0} (rank : Key → ℕ) (limit leaf_max_size internal_max_size : ℕ) where
  module _ (leaf_slot_cnt internal_slot_cnt : ℕ) (blank_leaf : LeafPage Key Value)
      (blank_internal : InternalPage Key) (two : 2 ≤ internal_max_size)
      (wide : internal_max_size < internal_slot_cnt) where
    -- The call returns, with a tree of the height or one more, and the leaves are as before.
    abbrev pub Grows : ℕ → Tree Key Value → Outcome (Tree Key Value) → Type 0
    Grows height t m =
        (t' : Tree Key Value) × (m ≡ ok t')
        × (IsTree rank limit leaf_max_size internal_max_size height t'
            ⊎ IsTree rank limit leaf_max_size internal_max_size (suc height) t')
        × SameLeaves t t'

    abbrev run : List ℕ → Tree Key Value → ℕ → Key → ℕ → Outcome (Tree Key Value)
    run =
        insert_into_parent rank leaf_max_size internal_max_size leaf_slot_cnt internal_slot_cnt
          blank_leaf blank_internal

    -- The parent has room, or it is split too, and what is left to do is done above it.
    module _ (g : Shape) (shown : ℕ → ℕ) (c n height : ℕ) (t : Tree Key Value)
        (w : Pending rank limit leaf_max_size internal_max_size g shown c n t)
        (room : HasRoom rank limit leaf_max_size internal_max_size none t)
        (top : (r : ℕ) → t.root ≡ some r → g.level r ≡ height) (key : Key)
        (same : rank key ≡ g.lo n) where
      at_root : t.root ≡ some c → Grows height t (run [] t c key n)
      unfolding insert_into_parent
      at_root is_root =
          let m = t.next_page_id in
          let page =
            new_root rank leaf_max_size internal_max_size leaf_slot_cnt internal_slot_cnt blank_leaf
              blank_internal c key n in
          let h =
            put_internal-HasRoom rank limit leaf_max_size internal_max_size t m page room two in
          let empty_slot = w.inv.fresh m (omega arith) in
          let fits : leb internal_slot_cnt 1 ≡ false = ground (arith, two, wide) in
          (
            _,
            rw (insert_into_parent, fits) refl,
            inr (
              rooted_shape g limit c n m,
              rooted-Inv rank limit leaf_max_size internal_max_size leaf_slot_cnt internal_slot_cnt
                  blank_leaf blank_internal g shown c n t w is_root key same,
              record { leaves = h.leaves; nodes = h.nodes },
              λ r e. let y : m ≡ r = cc in let l = top c is_root in rw⁻¹ y (ground arith),
            ),
            new_internal-leaves rank limit leaf_max_size internal_max_size t m page empty_slot,
          )

      module _ (pp : ℕ) (p : InternalPage Key) (e : t.pages pp ≡ some (internal p))
          (inside : g.at c < p.size) (child : p.page_id_array (g.at c) ≡ c)
          (not_root : t.root ≢ some c) where
        abbrev grown : InternalPage Key
        grown = Internal.insert_at p (g.at c + 1) key n

        abbrev linked : Tree Key Value
        linked = put t pp (internal grown)

        abbrev g1 : Shape
        g1 = linked_shape g pp (g.at c) n

        at_place : upper_bound rank p key ≡ g.at c + 1
        at_place =
            place rank limit leaf_max_size internal_max_size g shown c n t w pp p e inside child key
              same

        linked_holds : Inv rank limit leaf_max_size internal_max_size g1 g1.hi none linked
        linked_holds =
            linked-Inv rank limit leaf_max_size internal_max_size g shown c n t w pp p e inside
              child key same not_root

        grown-size : grown.size ≡ p.size + 1
        unfolding Internal.insert_at
        grown-size = refl

        with_room :
            (rest : List ℕ)
            → p.size < internal_max_size
            → Grows height t (run (pp ∷ rest) t c key n)
        unfolding insert_into_parent
        with_room rest l =
            let less : ltb p.size internal_max_size ≡ true = ground arith in
            let fits : leb internal_slot_cnt p.size ≡ false = ground (arith, wide) in
            (
              linked,
              rw (insert_into_parent, e, fits, at_place, less) refl,
              inl (
                g1,
                linked_holds,
                put_internal-HasRoom rank limit leaf_max_size internal_max_size t pp grown room
                    (omega (arith, grown-size, l)),
                top,
              ),
              put_internal-leaves rank limit leaf_max_size internal_max_size t pp p grown e,
            )

        some_children : 2 ≤ grown.size
        some_children = omega (arith, grown-size, (w.inv.nodes pp p e).some_child)

        abbrev parts : InternalPage Key × InternalPage Key × Key
        parts = Internal.split grown (Internal.init internal_max_size blank_internal)

        abbrev m : ℕ
        m = t.next_page_id

        abbrev g2 : Shape
        g2 = split_shape g1 pp m (rank parts.2) (grown.size / 2)

        abbrev next : Tree Key Value
        next = split_tree linked pp (internal parts.0) (internal parts.1)

        next_holds :
            Pending rank limit leaf_max_size internal_max_size g2 (split_shown g1 pp m) pp m next
        next_holds =
            parts-Pending rank limit leaf_max_size internal_max_size g1 linked linked_holds pp grown
              blank_internal (put-here t pp (internal grown)) some_children

        goes_on :
            (rest : List ℕ)
            → internal_max_size ≤ p.size
            → run (pp ∷ rest) t c key n ≡ run rest next pp parts.2 m
        unfolding insert_into_parent
        goes_on rest l =
            let full : ltb p.size internal_max_size ≡ false = ground arith in
            let most = room.nodes pp p (λ y. cc) e in
            let fits : leb internal_slot_cnt p.size ≡ false = ground (arith, wide, most) in
            let back = put-put t pp (internal grown) (internal parts.0) in
            let again : (T : Tree Key Value) → Outcome (Tree Key Value) = λ T.
              run rest (record (put T m (internal parts.1)) { next_page_id = m + 1 }) pp parts.2
                m in
            rw (insert_into_parent, e, fits, at_place, full) (ap again (sym back))

        new_slot : (put linked pp (internal parts.0)).pages m ≡ none
        new_slot =
            let free = w.inv.fresh m (omega arith) in
            let o : m ≢ pp = λ y.
              let z : some (internal p) ≡ none = sym e ∙ ap t.pages (sym y) ∙ free in absurd cc in
            put-elsewhere linked pp (internal parts.0) m o
            ∙ put-elsewhere t pp (internal grown) m o
            ∙ free

        next_leaves : SameLeaves t next
        next_leaves x l =
            let (a, a') =
              put_internal-leaves rank limit leaf_max_size internal_max_size t pp p grown e x l in
            let (b, b') =
              put_internal-leaves rank limit leaf_max_size internal_max_size linked pp grown parts.0
                (put-here t pp (internal grown)) x l in
            let (d, d') =
              new_internal-leaves rank limit leaf_max_size internal_max_size
                (put linked pp (internal parts.0)) m parts.1 new_slot x l in
            (λ h. d (b (a h)), λ h. a' (b' (d' h)))

        next_room : HasRoom rank limit leaf_max_size internal_max_size none next
        next_room =
            let full = room.nodes pp p (λ y. cc) e in
            let (size, _, _, _, size') =
              lower rank limit leaf_max_size internal_max_size g1 linked linked_holds pp grown
                blank_internal (put-here t pp (internal grown)) some_children in
            let h : HasRoom rank limit leaf_max_size internal_max_size none
                (put t pp (internal parts.0)) =
              put_internal-HasRoom rank limit leaf_max_size internal_max_size t pp parts.0 room
                (omega (arith, size, grown-size, full, two)) in
            let back = put-put t pp (internal grown) (internal parts.0) in
            let h' : HasRoom rank limit leaf_max_size internal_max_size none
                (put linked pp (internal parts.0)) =
              rw back h in
            let k =
              put_internal-HasRoom rank limit leaf_max_size internal_max_size
                (put linked pp (internal parts.0)) m parts.1 h'
                (omega (arith, size', grown-size, full, two)) in
            record { leaves = k.leaves; nodes = k.nodes }

        next_top : (r : ℕ) → next.root ≡ some r → g2.level r ≡ height
        next_top r er =
            let f = (w.inv.root r er).0 in
            let o : r ≢ m = λ y. f (ap t.pages y ∙ w.inv.fresh m (omega arith)) in
            ground (arith, top r er)

        next-IsPath : (rest : List ℕ) → IsPath g t pp rest → IsPath g2 next pp rest
        next-IsPath rest h =
            let f : t.pages pp ≢ none =
              λ y. let z : some (internal p) ≡ none = sym e ∙ y in absurd cc in
            let above = (w.inv.nodes pp p e).above (g.at c) inside in
            let above' : g.level pp ≡ suc (g.level c) = rw child at above in
            IsPath-frame rank limit leaf_max_size internal_max_size g g2 shown (some n) t next w.inv
              (g.level pp)
              (λ x l y. let z : n ≡ x = cc in omega (arith, above', w.beside, ap g.level z, l))
              (λ x fx l up.
                let o : x ≢ m = λ y. fx (ap t.pages y ∙ w.inv.fresh m (omega arith)) in
                let nn : x ≢ n = λ y. omega (arith, above', w.beside, ap g.level y, l) in
                let np : g.up x ≢ pp = λ y. omega (arith, ap g.level y, up, l) in ground arith)
              refl rest pp f (omega arith) h

    -- `InsertIntoParent` returns, with a tree again.
    pub insert_into_parent-Grows :
        (path : List ℕ) (g : Shape) (shown : ℕ → ℕ) (c n height : ℕ) (t : Tree Key Value)
        (key : Key)
        → Pending rank limit leaf_max_size internal_max_size g shown c n t
        → HasRoom rank limit leaf_max_size internal_max_size none t
        → ((r : ℕ) → t.root ≡ some r → g.level r ≡ height)
        → rank key ≡ g.lo n
        → IsPath g t c path
        → Grows height t (run path t c key n)
    insert_into_parent-Grows [] g shown c n height t key w room top same h =
        at_root g shown c n height t w room top key same h
    insert_into_parent-Grows (pp ∷ rest) g shown c n height t key w room top same (o, u, h) =
        let (p, eq, inside, child) =
          w.inv.linked c w.split (λ y. let z : n ≡ c = cc in w.apart (sym z)) o in
        let e : t.pages pp ≡ some (internal p) = ap t.pages (sym u) ∙ eq in
        elim (Bool-cases (ltb p.size internal_max_size)) [
          | inl less ↦
              with_room g shown c n height t w room top key same pp p e inside child o rest
                (ground arith)
          | inr full ↦
              let full' : internal_max_size ≤ p.size = ground arith in
              let (t', ran, tree, leaves) =
                insert_into_parent-Grows rest
                  (g2 g shown c n height t w room top key same pp p e inside child o)
                  (split_shown (g1 g shown c n height t w room top key same pp p e inside child o)
                    pp t.next_page_id)
                  pp t.next_page_id height
                  (next g shown c n height t w room top key same pp p e inside child o)
                  (parts g shown c n height t w room top key same pp p e inside child o).2
                  (next_holds g shown c n height t w room top key same pp p e inside child o)
                  (next_room g shown c n height t w room top key same pp p e inside child o)
                  (next_top g shown c n height t w room top key same pp p e inside child o)
                  (ground arith)
                  (next-IsPath g shown c n height t w room top key same pp p e inside child o rest
                    h) in
              (
                t',
                goes_on g shown c n height t w room top key same pp p e inside child o rest full'
                    ∙ ran,
                tree,
                λ x l.
                    let (a, a') =
                      next_leaves g shown c n height t w room top key same pp p e inside child o x
                        l in
                    let (b, b') = leaves x l in (λ y. b (a y), λ y. a' (b' y)),
              )
        ]
