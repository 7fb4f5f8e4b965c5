-- ===== src/Index/Tree/Scan.antt =====
-- A scan with an iterator over a chain of leaves, and the two loops that look for a live entry.
use cmu_db_15445_project.Prelude.{
  ℕ, zero, suc, ◌+◌, ◌-◌, ◌<◌, ◌≤◌, ◌≡◌, refl, ap, sym, ◌∙◌, false, true, Option, none, some, List,
  [], ◌∷◌, ◌++◌, inl, inr, arith, Bool-cases, Outcome, ok, crash, ◌>>=◌, length, ltb, if◌then◌else◌,
}
use cmu_db_15445_project.Index.Leaf.{LeafPage, is_tombstone}
use cmu_db_15445_project.Index.Tree.{Page, leaf, Tree}
use cmu_db_15445_project.Index.Tree.Iterator.{
  IndexIterator, skip_tombstones, first_live, begin, descend_leftmost, deref, advance_from, advance,
}

module _ {Key Value : Type 0} where
  -- The leaves after a leaf, as `next_page_id_` links them.
  abbrev pub IsChain :
      (ℕ → Option (Page Key Value)) → LeafPage Key Value → List (LeafPage Key Value) → Type 0
  IsChain pages p [] = p.next_page_id ≡ none
  IsChain pages p (q ∷ qs) =
      (pid : ℕ) × (p.next_page_id ≡ some pid) × (pages pid ≡ some (leaf q)) × IsChain pages q qs

  -- The live entries of `n` from the index `i` on.
  abbrev pub live : LeafPage Key Value → ℕ → ℕ → List (Key × Value)
  live p i zero = []
  live p i (suc n) =
      let rest = live p (i + 1) n in
      if is_tombstone p i then rest else (p.key_array i, p.rid_array i) ∷ rest

  abbrev pub live_from : LeafPage Key Value → ℕ → List (Key × Value)
  live_from p i = live p i (p.size - i)

  abbrev pub live_entries : List (LeafPage Key Value) → List (Key × Value)
  live_entries [] = []
  live_entries (p ∷ ps) = live_from p 0 ++ live_entries ps

  -- How many steps the loop of `operator++` has left.
  abbrev pub steps : List (LeafPage Key Value) → ℕ
  steps [] = 1
  steps (p ∷ ps) = p.size + 1 + steps ps

  -- `for (; !it.IsEnd(); ++it) result.push_back(*it);`
  unfoldable pub collect : ℕ → ℕ → Tree Key Value → IndexIterator → Outcome (List (Key × Value))
  collect inner zero t it = crash
  collect inner (suc fuel) t none = ok []
  collect inner (suc fuel) t (some at) = deref t (some at) >>= λ entry.
      advance inner t (some at) >>= λ it. collect inner fuel t it >>= λ rest. ok (entry ∷ rest)

  -- The iterator stands at the first of the entries.
  abbrev Stands : (ℕ → Option (Page Key Value)) → IndexIterator → List (Key × Value) → ℕ → Type 0
  Stands pages none entries n = entries ≡ []
  Stands pages (some (pid, j)) entries n =
      (p : LeafPage Key Value) × (rest : List (LeafPage Key Value)) × (pages pid ≡ some (leaf p))
      × (j < p.size)
      × IsChain pages p rest
      × (entries ≡ (p.key_array j, p.rid_array j) ∷ (live_from p (j + 1) ++ live_entries rest))
      × ((p.size - (j + 1)) + steps rest < n)

  live_from-end : (p : LeafPage Key Value) (i : ℕ) → p.size ≤ i → live_from p i ≡ []
  live_from-end p i h = let e : p.size - i ≡ 0 = omega arith in rw e refl

  live_from-step :
      (p : LeafPage Key Value) (i : ℕ)
      → i < p.size
      → live_from p i ≡ (
          if is_tombstone p i
          then live_from p (i + 1)
          else (p.key_array i, p.rid_array i) ∷ live_from p (i + 1))
  live_from-step p i h =
      let e : p.size - i ≡ suc (p.size - (i + 1)) = omega arith in ap (live p i) e

  module _ (t : Tree Key Value) where
    -- The loop of `operator++` ends at the first live entry.
    advance_from-Stands :
        (fuel pid i n : ℕ) (p : LeafPage Key Value) (rest : List (LeafPage Key Value))
        → t.pages pid ≡ some (leaf p)
        → IsChain t.pages p rest
        → (p.size - i) + steps rest ≤ fuel
        → (p.size - i) + steps rest ≤ n
        → (it : IndexIterator) × (advance_from t.pages fuel pid p i ≡ ok it)
          × Stands t.pages it (live_from p i ++ live_entries rest) n
    unfolding advance_from
    advance_from-Stands zero pid i n p [] e c h b = absurd (omega arith)
    advance_from-Stands zero pid i n p (q ∷ qs) e c h b = absurd (omega arith)
    advance_from-Stands (suc fuel) pid i n p [] e c h b = elim (Bool-cases (ltb i p.size)) [
      | inl more ↦
          let m : i < p.size = ground arith in
          let step = live_from-step p i m in
          elim (Bool-cases (is_tombstone p i)) [
            | inl dead ↦
                rw (advance_from, more, step, dead)
                  (advance_from-Stands fuel pid (i + 1) n p [] e c (omega (arith, h, m))
                    (omega (arith, b)))
            | inr alive ↦ (
              some (pid, i),
              rw (advance_from, more, alive) refl,
              (p, [], e, m, c, rw (step, alive) refl, omega (arith, m, b)),
            )
          ]
      | inr less ↦
          (none, rw (advance_from, less, c) refl, rw (live_from-end p i (ground arith)) refl)
    ]
    advance_from-Stands (suc fuel) pid i n p (q ∷ qs) e (next, link, eq, c) h b =
        elim (Bool-cases (ltb i p.size)) [
          | inl more ↦
              let m : i < p.size = ground arith in
              let step = live_from-step p i m in
              elim (Bool-cases (is_tombstone p i)) [
                | inl dead ↦
                    rw (advance_from, more, step, dead)
                      (advance_from-Stands fuel pid (i + 1) n p (q ∷ qs) e (next, link, eq, c)
                        (omega (arith, h, m)) (omega (arith, b)))
                | inr alive ↦ (
                  some (pid, i),
                  rw (advance_from, more, alive) refl,
                  (
                    p,
                    q ∷ qs,
                    e,
                    m,
                    (next, link, eq, c),
                    rw (step, alive) refl,
                    omega (arith, m, b),
                  ),
                )
              ]
          | inr less ↦
              rw (advance_from, less, link, eq, live_from-end p i (ground arith))
                (advance_from-Stands fuel next 0 n q qs eq c (omega (arith, h)) (omega (arith, b)))
        ]

    -- A scan from an iterator that stands at the first of the entries reads them all.
    pub collect-Stands :
        (inner fuel n : ℕ) (it : IndexIterator) (entries : List (Key × Value))
        → Stands t.pages it entries n
        → n ≤ inner
        → n < fuel
        → collect inner fuel t it ≡ ok entries
    unfolding collect deref advance
    collect-Stands inner zero n it entries s a b = absurd (omega arith)
    collect-Stands inner (suc fuel) n none entries s a b = ap ok (sym s)
    collect-Stands inner (suc fuel) n (some (pid, j)) entries (p, rest, e, l, c, at, m) a b =
        let (it, step, s) =
          advance_from-Stands inner pid (j + 1) ((p.size - (j + 1)) + steps rest) p rest e c
            (omega (arith, m, a)) (omega arith) in
        let tail = collect-Stands inner fuel _ it _ s (omega (arith, m, a)) (omega (arith, m, b)) in
        rw (collect, deref, advance, e, step, tail, at) refl

    -- The tombstones that are skipped are no live entries, and what they end at is one.
    skip_tombstones-live :
        (p : LeafPage Key Value) (i n : ℕ)
        → p.size - i ≡ n
        → (live_from p (skip_tombstones p i n) ≡ live_from p i)
          × (skip_tombstones p i n < p.size → is_tombstone p (skip_tombstones p i n) ≡ false)
    unfolding skip_tombstones
    skip_tombstones-live p i zero h = (refl, λ l. absurd (omega arith))
    skip_tombstones-live p i (suc n) h =
        let step = live_from-step p i (omega (arith, h)) in
        let (same, alive) = skip_tombstones-live p (i + 1) n (omega (arith, h)) in
        elim (Bool-cases (is_tombstone p i)) [
          | inl dead ↦ rw (skip_tombstones, dead) (same ∙ sym (step ∙ rw dead refl), alive)
          | inr live ↦ rw (skip_tombstones, live) (refl, λ l. live)
        ]

    module _ (p : LeafPage Key Value) (i : ℕ) where
      abbrev from : ℕ
      from = skip_tombstones p i (p.size - i)

      first_live-here :
          ltb from p.size ≡ true
          → live_from p i ≡ (p.key_array from, p.rid_array from) ∷ live_from p (from + 1)
      first_live-here more =
          let (same, alive) = skip_tombstones-live p i (p.size - i) refl in
          let l : from < p.size = ground arith in
          let live = alive l in sym same ∙ live_from-step p from l ∙ rw live refl

      first_live-none : ltb from p.size ≡ false → live_from p i ≡ []
      first_live-none less =
          sym (skip_tombstones-live p i (p.size - i) refl).0 ∙ live_from-end p from (ground arith)

    -- The loops of `Begin` end at the first live entry too.
    pub first_live-Stands :
        (fuel pid i n : ℕ) (p : LeafPage Key Value) (rest : List (LeafPage Key Value))
        → t.pages pid ≡ some (leaf p)
        → IsChain t.pages p rest
        → length rest < fuel
        → p.size + steps rest ≤ n
        → (it : IndexIterator) × (first_live t.pages fuel pid p i ≡ ok it)
          × Stands t.pages it (live_from p i ++ live_entries rest) n
    unfolding first_live
    first_live-Stands zero pid i n p rest e c h b = absurd (omega arith)
    first_live-Stands (suc fuel) pid i n p [] e c h b = elim (Bool-cases (ltb (from p i) p.size)) [
      | inl more ↦ (
        some (pid, from p i),
        rw (first_live, more) refl,
        (p, [], e, ground arith, c, rw (first_live-here p i more) refl, ground arith),
      )
      | inr less ↦ (none, rw (first_live, less, c) refl, rw (first_live-none p i less) refl)
    ]
    first_live-Stands (suc fuel) pid i n p (q ∷ qs) e (next, link, eq, c) h b =
        elim (Bool-cases (ltb (from p i) p.size)) [
          | inl more ↦ (
            some (pid, from p i),
            rw (first_live, more) refl,
            (
              p,
              q ∷ qs,
              e,
              ground arith,
              (next, link, eq, c),
              rw (first_live-here p i more) refl,
              ground arith,
            ),
          )
          | inr less ↦
              rw (first_live, less, link, eq, first_live-none p i less)
                (first_live-Stands fuel next 0 n q qs eq c (omega (arith, h)) (omega (arith, b)))
        ]

    -- In a chain of leaves, `Begin` and then `operator*` and `operator++` until the end return, with
    -- more fuel than the leaves have entries and pages, and read the live entries of the leaves in their order.
    pub begin-live :
        (r fuel inner outer pid : ℕ) (p : LeafPage Key Value) (rest : List (LeafPage Key Value))
        → t.root ≡ some r
        → descend_leftmost t.pages fuel r ≡ ok (pid, p)
        → t.pages pid ≡ some (leaf p)
        → IsChain t.pages p rest
        → length rest < fuel
        → p.size + steps rest ≤ inner
        → p.size + steps rest < outer
        → (begin fuel t >>= collect inner outer t) ≡ ok (live_entries (p ∷ rest))
    unfolding begin
    begin-live r fuel inner outer pid p rest er d e c h a b =
        let (it, first, s) =
          first_live-Stands fuel pid 0 (p.size + steps rest) p rest e c h (omega arith) in
        let all = collect-Stands inner outer (p.size + steps rest) it _ s a b in
        simp (er, begin, d, first, all) refl
