-- ===== src/Index/Tree/Linking.antt =====
-- A page that was split off becomes a child of the parent of the other part.
use cmu_db_15445_project.Prelude.{
  ℕ, suc, ◌+◌, ◌-◌, ◌<◌, ◌≤◌, ◌≡◌, ◌≢◌, refl, ap, sym, ◌∙◌, true, false, none, some, ◌⊎◌, inl, inr,
  leb, ltb, ◌==◌, ◌&&◌, if◌then◌else◌, arith, Bool-cases,
}
use cmu_db_15445_project.Index.Arrays.{shift_right-at}
use cmu_db_15445_project.Index.Internal
use cmu_db_15445_project.Index.Internal.{InternalPage}
use cmu_db_15445_project.Index.Tree.{internal, Tree, put, upper_bound}
use cmu_db_15445_project.Index.Tree.Shape.{Shape, IsNode, Inv, Pending}
use cmu_db_15445_project.Index.Tree.Descent.{upper_bound-child}
use cmu_db_15445_project.Index.Tree.Frames.{eq_cases, put-still}

-- The child `n` of `pp` after the child `i`.
abbrev pub linked_shape : Shape → ℕ → ℕ → ℕ → Shape
linked_shape g pp i n = record g {
  up = λ x. if x == n then pp else g.up x;
  at = λ x. if x == n then i + 1 else if g.up x == pp && ltb i (g.at x) then g.at x + 1 else g.at x;
}

module _ {Key Value : Type 0} (rank : Key → ℕ) (limit leaf_max_size internal_max_size : ℕ) where
  module _ (g : Shape) (shown : ℕ → ℕ) (c n : ℕ) (t : Tree Key Value)
      (w : Pending rank limit leaf_max_size internal_max_size g shown c n t) (pp : ℕ)
      (p : InternalPage Key) (e : t.pages pp ≡ some (internal p)) (inside : g.at c < p.size)
      (child : p.page_id_array (g.at c) ≡ c) (key : Key) (same : rank key ≡ g.lo n) where
    abbrev v : Inv rank limit leaf_max_size internal_max_size g shown (some n) t
    v = w.inv

    abbrev k : IsNode rank limit leaf_max_size internal_max_size g shown t pp p
    k = v.nodes pp p e

    abbrev i : ℕ
    i = g.at c

    -- The range of `c` in its parent, with the new separator inside.
    pub child_range :
        (g.lo c ≡ (if i == 0 then g.lo pp else rank (p.key_array i)))
        × (g.hi n ≡ (if i + 1 == p.size then g.hi pp else rank (p.key_array (i + 1))))
        × (g.lo c < rank key)
        × (rank key < g.hi n)
        × (g.level pp ≡ suc (g.level c))
        × (g.up c ≡ pp)
    child_range =
        let low = k.low i inside in
        let high = k.high i inside in
        let a = k.above i inside in
        let u = k.up i inside in
        let oc = v.ordered c w.split in
        let on = v.ordered n w.formatted in
        (
          rw child at low,
          sym w.rest ∙ rw child at high,
          omega (arith, oc, w.cut, same),
          omega (arith, on, same),
          rw child at a,
          rw child at u,
        )

    pub place : upper_bound rank p key ≡ i + 1
    place =
        let (_, _, a, b, _, _) = child_range in
        upper_bound-child rank limit leaf_max_size internal_max_size g shown (some n) t v pp p e key
          i inside (rw child (omega (arith, a))) (rw child (omega (arith, b, w.rest)))

    abbrev grown : InternalPage Key
    grown = Internal.insert_at p (i + 1) key n

    pub grown-below :
        (j : ℕ)
        → j ≤ i
        → (rank (grown.key_array j) ≡ rank (p.key_array j))
          × (grown.page_id_array j ≡ p.page_id_array j)
    unfolding Internal.insert_at
    grown-below j l = (
      ap rank (ground (arith, shift_right-at p.key_array (i + 1) (p.size - (i + 1)) j)),
      ground (arith, shift_right-at p.page_id_array (i + 1) (p.size - (i + 1)) j),
    )

    pub grown-here : (rank (grown.key_array (i + 1)) ≡ rank key) × (grown.page_id_array (i + 1) ≡ n)
    unfolding Internal.insert_at
    grown-here = (ground arith, ground arith)

    pub grown-above :
        (j : ℕ)
        → i < j
        → j < p.size
        → (rank (grown.key_array (j + 1)) ≡ rank (p.key_array j))
          × (grown.page_id_array (j + 1) ≡ p.page_id_array j)
    unfolding Internal.insert_at
    grown-above j l m =
        let back : (j + 1) - 1 ≡ j = omega arith in
        (
          ap rank
              (ground (arith, shift_right-at p.key_array (i + 1) (p.size - (i + 1)) (j + 1), back)),
          ground (arith, shift_right-at p.page_id_array (i + 1) (p.size - (i + 1)) (j + 1), back),
        )

    pub grown-size : grown.size ≡ p.size + 1
    unfolding Internal.insert_at
    grown-size = refl

    place_cases : (j : ℕ) → (j ≤ i) ⊎ ((j ≡ i + 1) ⊎ ((m : ℕ) × (j ≡ m + 1) × (i < m)))
    place_cases j = elim (Bool-cases (leb j i)) [
      | inl a ↦ inl (ground arith)
      | inr a ↦ elim (Bool-cases (j == i + 1)) [
        | inl b ↦ inr (inl (ground arith))
        | inr b ↦ inr (inr (j - 1, ground arith, ground arith))
      ]
    ]

    abbrev g' : Shape
    g' = linked_shape g pp i n

    abbrev t' : Tree Key Value
    t' = put t pp (internal grown)

    -- The page `n` is no child of a page yet.
    pub not_child :
        (x : ℕ) (q : InternalPage Key) (j : ℕ)
        → t.pages x ≡ some (internal q)
        → j < q.size
        → q.page_id_array j ≢ n
    not_child x q j ex l s =
        let up = (v.nodes x q ex).up j l in
        let above = (v.nodes x q ex).above j l in
        let up' : g.up n ≡ x = rw s at up in
        let above' : g.level x ≡ suc (g.level n) = rw s at above in
        let y : n ≡ x = sym w.alone ∙ up' in absurd (omega (arith, ap g.level y, above'))

    -- A child that the parent had keeps its range; its index is shifted after the new one.
    pub old_child :
        (j : ℕ)
        → j < p.size
        → (t'.pages (p.page_id_array j) ≢ none)
          × (g.level pp ≡ suc (g.level (p.page_id_array j)))
          × (g'.up (p.page_id_array j) ≡ pp)
          × (g'.at (p.page_id_array j) ≡ (if ltb i j then j + 1 else j))
          × (g.lo (p.page_id_array j) ≡ (if j == 0 then g.lo pp else rank (p.key_array j)))
          × (j ≢ i
              → g.hi (p.page_id_array j)
                ≡ (if j + 1 == p.size then g.hi pp else rank (p.key_array (j + 1))))
    old_child j l =
        let x = p.page_id_array j in
        let o = not_child pp p j e l in
        let u = k.up j l in
        let a = k.at j l in
        let off : (x == n) ≡ false = ground arith in
        let on : (g.up x == pp) ≡ true = ground arith in
        (
          put-still t pp (internal grown) x (k.formatted j l),
          k.above j l,
          rw off u,
          rw (off, on, a) refl,
          k.low j l,
          λ ne. let nc : x ≢ c = λ s. ne (sym a ∙ ap g.at s) in sym (w.others x nc) ∙ k.high j l,
        )

    pub new_child :
        (t'.pages n ≢ none) × (g.level pp ≡ suc (g.level n)) × (g'.up n ≡ pp) × (g'.at n ≡ i + 1)
    new_child =
        let (_, _, _, _, above, _) = child_range in
        (
          put-still t pp (internal grown) n w.formatted,
          omega (arith, above, w.beside),
          ground arith,
          ground arith,
        )

    keys_around :
        ((j : ℕ) → 1 ≤ j → j ≤ i → rank (p.key_array j) < rank key)
        × ((j : ℕ) → i < j → j < p.size → rank key < rank (p.key_array j))
        × (g.lo pp < rank key)
        × (rank key < g.hi pp)
    keys_around =
        let (low, high, a, b, _, _) = child_range in
        (
          λ j one l. ground (arith, low, a, k.sorted j i),
          λ j l m. ground (arith, high, b, k.sorted (i + 1) j),
          ground (arith, low, a, k.within i),
          ground (arith, high, b, k.within (i + 1)),
        )

    -- What the page says of its child at a place.
    abbrev HasChild : ℕ → ℕ → Type 0
    HasChild j x =
        (t'.pages x ≢ none)
        × (g.level pp ≡ suc (g.level x))
        × (g'.up x ≡ pp)
        × (g'.at x ≡ j)
        × (g.lo x ≡ (if j == 0 then g.lo pp else rank (grown.key_array j)))
        × (g.hi x ≡ (if j + 1 == grown.size then g.hi pp else rank (grown.key_array (j + 1))))

    child_before : (j : ℕ) → j ≤ i → HasChild j (p.page_id_array j)
    child_before j l =
        let m : j < p.size = omega (arith, l, inside) in
        let (f, a, u, x, low, high) = old_child j m in
        let (below, _) = grown-below j l in
        (
          f,
          a,
          u,
          ground arith,
          rw below low,
          elim (eq_cases j i) [
            | inl s ↦
                let here = grown-here.0 in
                rw (s, child) (w.cut ∙ sym same ∙ sym here ∙ ground (arith, grown-size))
            | inr ne ↦
                let (next, _) = grown-below (j + 1) (omega (arith, l, ne)) in
                high ne ∙ ground (arith, grown-size)
          ],
        )

    child_here : HasChild (i + 1) n
    child_here =
        let (f, a, u, x) = new_child in
        let (_, high, _, _, _, _) = child_range in
        let here = grown-here.0 in
        (
          f,
          a,
          u,
          x,
          ground arith,
          elim (eq_cases (i + 1) p.size) [
            | inl s ↦ ground (arith, grown-size)
            | inr ne ↦
                let (next, _) = grown-above (i + 1) (omega arith) (omega (arith, inside, ne)) in
                ground (arith, grown-size)
          ],
        )

    child_after : (m : ℕ) → i < m → m < p.size → HasChild (m + 1) (p.page_id_array m)
    child_after m l b =
        let (f, a, u, x, low, high) = old_child m b in
        let (above, _) = grown-above m l b in
        (
          f,
          a,
          u,
          ground arith,
          ground arith,
          high (omega (arith, l)) ∙ (elim (eq_cases (m + 1) p.size) [
            | inl s ↦ ground (arith, grown-size)
            | inr ne ↦
                let (next, _) = grown-above (m + 1) (omega (arith, l)) (omega (arith, b, ne)) in
                ground (arith, grown-size)
          ]),
        )

    has_child : (j : ℕ) → j < grown.size → HasChild j (grown.page_id_array j)
    has_child j b = elim (place_cases j) [
      | inl l ↦ rw (grown-below j l).1 (child_before j l)
      | inr (inl s) ↦ rw (s, grown-here.1) child_here
      | inr (inr (m, s, l)) ↦
          let b' : m < p.size = omega (arith, b, s, grown-size) in
          rw (s, (grown-above m l b').1) (child_after m l b')
    ]

    grown-sorted :
        (a b : ℕ)
        → 1 ≤ a
        → a < b
        → b < grown.size
        → rank (grown.key_array a) < rank (grown.key_array b)
    grown-sorted a b one l h =
        let (before, after, _, _) = keys_around in
        elim (place_cases a) [
          | inl la ↦ elim (place_cases b) [
            | inl lb ↦ omega (
              arith,
              (grown-below a la).0,
              (grown-below b lb).0,
              k.sorted a b one l (omega (arith, lb, inside)),
            )
            | inr (inl eb) ↦
                rw eb (omega (arith, (grown-below a la).0, grown-here.0, before a one la))
            | inr (inr (m, eb, lb)) ↦
                let b' : m < p.size = omega (arith, h, eb, grown-size) in
                rw eb (
                  omega (
                    arith,
                    (grown-below a la).0,
                    (grown-above m lb b').0,
                    k.sorted a m one (omega (arith, la, lb)) b',
                  ))
          ]
          | inr (inl ea) ↦ elim (place_cases b) [
            | inl lb ↦ absurd (omega (arith, l, ea, lb))
            | inr (inl eb) ↦ absurd (omega (arith, l, ea, eb))
            | inr (inr (m, eb, lb)) ↦
                let b' : m < p.size = omega (arith, h, eb, grown-size) in
                rw (ea, eb) (omega (arith, grown-here.0, (grown-above m lb b').0, after m lb b'))
          ]
          | inr (inr (q, ea, la)) ↦ elim (place_cases b) [
            | inl lb ↦ absurd (omega (arith, l, ea, la, lb))
            | inr (inl eb) ↦ absurd (omega (arith, l, ea, la, eb))
            | inr (inr (m, eb, lb)) ↦
                let b' : m < p.size = omega (arith, h, eb, grown-size) in
                let q' : q < m = omega (arith, l, ea, eb) in
                rw (ea, eb)
                  (omega (
                    arith,
                    (grown-above q la (omega (arith, q', b'))).0,
                    (grown-above m lb b').0,
                    k.sorted q m (omega (arith, la)) q' b',
                  ))
          ]
        ]

    grown-within :
        (j : ℕ)
        → 1 ≤ j
        → j < grown.size
        → (g.lo pp < rank (grown.key_array j)) × (rank (grown.key_array j) < g.hi pp)
    grown-within j one b =
        let (_, _, low, high) = keys_around in
        elim (place_cases j) [
          | inl l ↦ rw (grown-below j l).0 (k.within j one (omega (arith, l, inside)))
          | inr (inl s) ↦ rw (s, grown-here.0) (low, high)
          | inr (inr (m, s, l)) ↦
              let b' : m < p.size = omega (arith, b, s, grown-size) in
              rw (s, (grown-above m l b').0) (k.within m (omega (arith, l)) b')
        ]

    pub grown-IsNode : IsNode rank limit leaf_max_size internal_max_size g' g.hi t' pp grown
    grown-IsNode = record {
      some_child = omega (arith, grown-size);
      sorted = grown-sorted;
      within = grown-within;
      formatted = λ j l. (has_child j l).0;
      above = λ j l. (has_child j l).1;
      up = λ j l. (has_child j l).2;
      at = λ j l. let (_, _, _, x, _, _) = has_child j l in x;
      low = λ j l. let (_, _, _, _, x, _) = has_child j l in x;
      high = λ j l. let (_, _, _, _, _, x) = has_child j l in x;
    }
