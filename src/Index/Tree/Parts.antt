-- ===== src/Index/Tree/Parts.antt =====
-- The two parts of a page with children.
use cmu_db_15445_project.Prelude.{
  ℕ, suc, ◌+◌, ◌-◌, ◌/◌, ◌<◌, ◌≤◌, ◌≡◌, ◌≢◌, refl, ap, sym, ◌∙◌, true, false, none, some, inl, inr,
  leb, ◌==◌, if◌then◌else◌, arith, Bool-cases,
}
use cmu_db_15445_project.Index.Arrays.{assign, copy-at}
use cmu_db_15445_project.Index.Internal
use cmu_db_15445_project.Index.Internal.{InternalPage}
use cmu_db_15445_project.Index.Tree.{internal, Tree}
use cmu_db_15445_project.Index.Tree.Shape.{Shape, IsNode, Inv, Pending}
use cmu_db_15445_project.Index.Tree.Frames.{eq_cases}
use cmu_db_15445_project.Index.Tree.Splitting.{
  split_shape, split_shown, split_tree, old_page, split-still, split-left, split-right,
  split-Pending,
}

module _ {Key Value : Type 0} (rank : Key → ℕ) (limit leaf_max_size internal_max_size : ℕ) where
  module _ (g : Shape) (t : Tree Key Value)
      (v : Inv rank limit leaf_max_size internal_max_size g g.hi none t) (pid : ℕ) where
    abbrev n : ℕ
    n = t.next_page_id

    module _ (p blank : InternalPage Key) (e : t.pages pid ≡ some (internal p))
        (two : 2 ≤ p.size) where
      abbrev middle : ℕ
      middle = p.size / 2

      abbrev parts : InternalPage Key × InternalPage Key × Key
      parts = Internal.split p (Internal.init internal_max_size blank)

      abbrev kn : IsNode rank limit leaf_max_size internal_max_size g g.hi t pid p
      kn = v.nodes pid p e

      pub lower :
          (parts.0.size ≡ middle)
          × (parts.0.key_array ≡ p.key_array)
          × (parts.0.page_id_array ≡ p.page_id_array)
          × (parts.2 ≡ p.key_array middle)
          × (parts.1.size ≡ p.size - middle)
      unfolding Internal.split
      lower = (refl, refl, refl, refl, omega (arith, two))

      upper :
          (j : ℕ)
          → j < p.size - middle
          → (parts.1.page_id_array j ≡ p.page_id_array (middle + j))
            × (1 ≤ j → rank (parts.1.key_array j) ≡ rank (p.key_array (middle + j)))
      unfolding Internal.split Internal.init
      upper j l = (
        ground (
          arith,
          copy-at p.page_id_array (middle + 1)
              (assign blank.page_id_array 0 (p.page_id_array middle)) 1 (p.size - (middle + 1)) j,
        ),
        λ one.
            ground
              (arith, copy-at p.key_array (middle + 1) blank.key_array 1 (p.size - (middle + 1)) j),
      )

      abbrev s' : ℕ
      s' = rank (parts.2)

      promoted : s' ≡ rank (p.key_array middle)
      promoted = let (_, _, _, x, _) = lower in ap rank x

      inside' : (g.lo pid < s') × (s' < g.hi pid)
      inside' =
          let (a, b) = kn.within middle (omega (arith, two)) (omega (arith, two)) in
          (omega (arith, promoted, a), omega (arith, promoted, b))

      abbrev g'' : Shape
      g'' = split_shape g pid n s' middle

      abbrev shown'' : ℕ → ℕ
      shown'' = split_shown g pid n

      abbrev t'' : Tree Key Value
      t'' = split_tree t pid (internal parts.0) (internal parts.1)

      some_page : t.pages pid ≢ none
      some_page = λ y. let z : some (internal p) ≡ none = sym e ∙ y in absurd cc

      new_id : (x : ℕ) → t.pages x ≢ none → x ≢ n
      new_id =
          old_page rank limit leaf_max_size internal_max_size g t v pid s' middle some_page
            (internal parts.0) (internal parts.1) inside'.0 inside'.1

      -- A child is not its own parent.
      not_self : (j : ℕ) → j < p.size → p.page_id_array j ≢ pid
      not_self j l y =
          let a = kn.above j l in
          let a' : g.level pid ≡ suc (g.level pid) = rw y at a in omega (arith, a')

      -- A child of the page goes with its part.
      child_part :
          (j : ℕ)
          → j < p.size
          → (t''.pages (p.page_id_array j) ≢ none)
            × (g''.level (p.page_id_array j) ≡ g.level (p.page_id_array j))
            × (g''.up (p.page_id_array j) ≡ (if leb middle j then n else pid))
            × (g''.at (p.page_id_array j) ≡ (if leb middle j then j - middle else j))
            × (g''.lo (p.page_id_array j) ≡ (if j == 0 then g.lo pid else rank (p.key_array j)))
            × (shown'' (p.page_id_array j)
                ≡ (if j + 1 == p.size then g.hi pid else rank (p.key_array (j + 1))))
      child_part j l =
          let x = p.page_id_array j in
          let f = kn.formatted j l in
          let o = new_id x f in
          let ns = not_self j l in
          let u = kn.up j l in
          let a = kn.at j l in
          let off : (x == n) ≡ false = ground arith in
          let off' : (x == pid) ≡ false = ground arith in
          let on : (g.up x == pid) ≡ true = ground arith in
          (
            split-still rank limit leaf_max_size internal_max_size g t v pid s' middle some_page
                (internal parts.0) (internal parts.1) inside'.0 inside'.1 x f,
            rw off refl,
            rw (off, off', on, a) (ground (arith, u)),
            rw (off', on, a) (ground arith),
            rw off (kn.low j l),
            rw off (kn.high j l),
          )

      lower-IsNode : IsNode rank limit leaf_max_size internal_max_size g'' shown'' t'' pid parts.0
      unfolding Internal.split
      lower-IsNode =
          let (size, _, _, _, _) = lower in
          let o = new_id pid some_page in
          let off : (pid == n) ≡ false = ground arith in
          let on : (pid == pid) ≡ true = ground arith in
          let pm = promoted in
          let hi_pid : g''.hi pid ≡ s' = rw (off, on) refl in
          let m' : middle < p.size = omega (arith, two) in
          let below : (j : ℕ) → j < parts.0.size → j < middle = λ j b. omega (arith, b, size) in
          let inner : (j : ℕ) → j < parts.0.size → j < p.size = λ j b. omega (arith, below j b) in
          record {
            some_child = omega (arith, two, size);
            sorted = λ i j one l b. kn.sorted i j one l (inner j b);
            within = λ j one b.
                rw (off, on)
                  (
                    (kn.within j one (inner j b)).0,
                    omega (arith, pm, kn.sorted j middle one (below j b) m'),
                  );
            formatted = λ j b. (child_part j (inner j b)).0;
            above = λ j b.
                let (_, x, _, _, _, _) = child_part j (inner j b) in
                rw off (kn.above j (inner j b) ∙ ap suc (sym x));
            up = λ j b.
                let (_, _, x, _, _, _) = child_part j (inner j b) in x ∙ ground (arith, below j b);
            at = λ j b.
                let (_, _, _, x, _, _) = child_part j (inner j b) in x ∙ ground (arith, below j b);
            low = λ j b. let (_, _, _, _, x, _) = child_part j (inner j b) in rw off x;
            high = λ j b.
                let (_, _, _, _, _, x) = child_part j (inner j b) in
                elim (eq_cases (j + 1) middle) [
                  | inl y ↦ ground (arith, x, pm, hi_pid, y, two)
                  | inr y ↦ ground (arith, x, below j b)
                ];
          }

      upper-IsNode : IsNode rank limit leaf_max_size internal_max_size g'' shown'' t'' n parts.1
      upper-IsNode =
          let (_, _, _, _, size) = lower in
          let on : (n == n) ≡ true = ground arith in
          let pm = promoted in
          let inner : (j : ℕ) → j < parts.1.size → middle + j < p.size =
            λ j b. omega (arith, b, size) in
          let keys : (j : ℕ)
              → 1 ≤ j
              → j < parts.1.size
              → rank (parts.1.key_array j) ≡ rank (p.key_array (middle + j)) =
            λ j one b. (upper j (omega (arith, b, size))).1 one in
          let ids : (j : ℕ)
              → j < parts.1.size
              → parts.1.page_id_array j ≡ p.page_id_array (middle + j) =
            λ j b. (upper j (omega (arith, b, size))).0 in
          record {
            some_child = omega (arith, two, size);
            sorted = λ i j one l b. omega (
              arith,
              keys i one (omega (arith, l, b)),
              keys j (omega (arith, one, l)) b,
              kn.sorted (middle + i) (middle + j) (omega (arith, one)) (omega (arith, l))
                  (inner j b),
            );
            within = λ j one b.
                let k = keys j one b in
                rw (on, k)
                  (
                    omega (
                      arith,
                      pm,
                      kn.sorted middle (middle + j) (omega (arith, two)) (omega (arith, one))
                          (inner j b),
                    ),
                    (kn.within (middle + j) (omega (arith, one)) (inner j b)).1,
                  );
            formatted = λ j b. rw (ids j b) (child_part (middle + j) (inner j b)).0;
            above = λ j b.
                let (_, x, _, _, _, _) = child_part (middle + j) (inner j b) in
                rw (on, ids j b) (kn.above (middle + j) (inner j b) ∙ ap suc (sym x));
            up = λ j b.
                let (_, _, x, _, _, _) = child_part (middle + j) (inner j b) in
                rw (ids j b) (x ∙ ground arith);
            at = λ j b.
                let (_, _, _, x, _, _) = child_part (middle + j) (inner j b) in
                rw (ids j b) (x ∙ ground arith);
            low = λ j b.
                let (_, _, _, _, x, _) = child_part (middle + j) (inner j b) in
                rw (on, ids j b)
                  (x ∙ elim (eq_cases j 0) [
                    | inl y ↦
                        let z : middle + 0 ≡ middle = omega arith in
                        let h : (middle == 0) ≡ false = ground (arith, two) in rw (y, z, h) (sym pm)
                    | inr y ↦ ground (arith, two, keys j (omega (arith, y)) b)
                  ]);
            high = λ j b.
                let (_, _, _, _, _, x) = child_part (middle + j) (inner j b) in
                rw (on, ids j b)
                  (x ∙ elim (eq_cases (j + 1) parts.1.size) [
                    | inl y ↦ ground (arith, size)
                    | inr y ↦ ground (arith, size, keys (j + 1) (omega arith) (omega (arith, b, y)))
                  ]);
          }

      moved_child :
          (x : ℕ)
          → t.pages x ≢ none
          → t.root ≢ some x
          → g.up x ≡ pid
          → (q : InternalPage Key) × (t''.pages (g''.up x) ≡ some (internal q))
            × (g''.at x < q.size)
            × (q.page_id_array (g''.at x) ≡ x)
      moved_child x f r y =
          let (q, eq, l, own) = v.linked x f (λ z. cc) r in
          let z : some (internal q) ≡ some (internal p) = sym eq ∙ ap t.pages y ∙ e in
          let w : q ≡ p = cc in
          let l' : g.at x < p.size = rw w at l in
          let own' : p.page_id_array (g.at x) ≡ x = rw w at own in
          let (_, _, u, a, _, _) = child_part (g.at x) l' in
          let u' : g''.up x ≡ (if leb middle (g.at x) then n else pid) = rw own' at u in
          let a' : g''.at x ≡ (if leb middle (g.at x) then g.at x - middle else g.at x) =
            rw own' at a in
          let (size, _, ids, _, size') = lower in
          elim (Bool-cases (leb middle (g.at x))) [
            | inl after ↦
                let b : g.at x - middle < p.size - middle = ground arith in
                let back : middle + (g.at x - middle) ≡ g.at x = ground arith in
                rw (u', a', after)
                  (
                    parts.1,
                    split-right rank limit leaf_max_size internal_max_size g t v pid s' middle
                        some_page (internal parts.0) (internal parts.1) inside'.0 inside'.1,
                    omega (arith, size', b),
                    (upper (g.at x - middle) b).0 ∙ ap p.page_id_array back ∙ own',
                  )
            | inr before ↦
                rw (u', a', before)
                  (
                    parts.0,
                    split-left rank limit leaf_max_size internal_max_size g t v pid s' middle
                        some_page (internal parts.0) (internal parts.1) inside'.0 inside'.1,
                    ground (arith, size),
                    ap (λ (k : ℕ → ℕ). k (g.at x)) ids ∙ own',
                  )
          ]

      pub parts-Pending :
          Pending rank limit leaf_max_size internal_max_size
            (split_shape g pid n (rank parts.2) middle)
            (split_shown g pid n)
            pid
            n
            (split_tree t pid (internal parts.0) (internal parts.1))
      parts-Pending =
          split-Pending rank limit leaf_max_size internal_max_size g t v pid s' middle some_page
            (internal parts.0) (internal parts.1) inside'.0 inside'.1 lower-IsNode upper-IsNode
            moved_child
