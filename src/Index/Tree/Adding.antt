-- ===== src/Index/Tree/Adding.antt =====
-- The entries of the leaves when a leaf takes a new key and is split.
use cmu_db_15445_project.Prelude.{
  ℕ, ◌+◌, ◌-◌, ◌<◌, ◌≤◌, ◌≡◌, ◌≢◌, refl, ap, sym, ◌∙◌, Bool, true, false, none, some, ◌⊎◌, inl, inr,
  ltb, if◌then◌else◌, arith, Bool-cases,
}
use cmu_db_15445_project.Index.Leaf.{LeafPage}
use cmu_db_15445_project.Index.Leaf.Entries.{entry_at}
use cmu_db_15445_project.Index.Tree.{leaf, Tree, put, lower_bound, is_at}
use cmu_db_15445_project.Index.Tree.Bisection.{IsSorted, lower_bound-IsCut}
use cmu_db_15445_project.Index.Tree.Placing.{lo, grown, grown-at, grown-size, place_cases, shifted}
use cmu_db_15445_project.Index.Tree.Frames.{eq_cases, put-here, put-elsewhere, put_cases}

module _ {Key Value : Type 0} (rank : Key → ℕ) where
  -- The entry has the key and the value, and is deleted or not.
  abbrev Matches : Key × Value × Bool → Key → Value → Bool → Type 0
  Matches (a, b, dead) key value d = (rank a ≡ rank key) × (b ≡ value) × (dead ≡ d)

  abbrev pub EntryIn : LeafPage Key Value → Key → Value → Bool → Type 0
  EntryIn p key value d = (j : ℕ) × (j < p.size) × Matches (entry_at p j) key value d

  abbrev pub Has : Tree Key Value → Key → Value → Bool → Type 0
  Has t key value d =
      (pid : ℕ) × (p : LeafPage Key Value) × (t.pages pid ≡ some (leaf p)) × EntryIn p key value d

  pub same-Matches :
      (a b : Key × Value × Bool) (key : Key) (value : Value) (d : Bool)
      → a ≡ b
      → Matches b key value d
      → Matches a key value d
  same-Matches a b key value d e m = rw e m

  module _ (p : LeafPage Key Value) (key : Key) (value : Value) (s : IsSorted rank p)
      (new : is_at rank p key (lower_bound rank p key) ≡ false) where
    abbrev q : LeafPage Key Value
    q = grown rank p key value s new

    abbrev at : ℕ
    at = lo rank p key value s new

    pub old-entry : (k : Key) (v : Value) (d : Bool) → EntryIn p k v d → EntryIn q k v d
    old-entry k v d (j, l, m) = (
      if ltb j at then j else j + 1,
      ground (arith, grown-size rank p key value s new, l),
      same-Matches _ _ k v d (shifted rank p key value s new j l) m,
    )

    entry-here : entry_at q at ≡ (key, value, false)
    entry-here =
        grown-at rank p key value s new at (lower_bound-IsCut rank p s key).to ∙ ground arith

    pub new-entry : EntryIn q key value false
    new-entry = (
      at,
      omega (arith, (lower_bound-IsCut rank p s key).to, grown-size rank p key value s new),
      same-Matches _ _ key value false entry-here (refl, refl, refl),
    )

    pub entry_cases :
        (k : Key) (v : Value) (d : Bool)
        → EntryIn q k v d
        → EntryIn p k v d ⊎ ((rank k ≡ rank key) × (value ≡ v) × (false ≡ d))
    entry_cases k v d (j, l, m) =
        let size = grown-size rank p key value s new in
        let to = (lower_bound-IsCut rank p s key).to in
        elim (place_cases rank p key value s new j) [
          | inl b ↦
              let b' : j < p.size = omega (arith, b, to) in
              let off : ltb j at ≡ true = ground arith in
              let e : entry_at q j ≡ entry_at p j =
                grown-at rank p key value s new j (omega (arith, b')) ∙ rw off refl in
              inl (j, b', same-Matches _ _ k v d (sym e) m)
          | inr (inl y) ↦
              let m' =
                same-Matches (key, value, false) (entry_at q j) k v d
                  (sym entry-here ∙ ap (entry_at q) (sym y)) m in
              inr (sym m'.0, m'.1, m'.2)
          | inr (inr (i, y, b)) ↦
              let i' : i < p.size = omega (arith, l, y, size) in
              let off : ltb i at ≡ false = ground arith in
              let e : entry_at q (i + 1) ≡ entry_at p i =
                ap (entry_at q) (rw off refl) ∙ shifted rank p key value s new i i' in
              inl (i, i', same-Matches _ _ k v d (sym e ∙ ap (entry_at q) (sym y)) m)
        ]

  -- A leaf, its left part and its right part from `mid` on.
  module _ (p left right : LeafPage Key Value) (mid : ℕ) (below : mid ≤ p.size)
      (left-size : left.size ≡ mid) (right-size : right.size ≡ p.size - mid)
      (left-at : (j : ℕ) → j < mid → entry_at left j ≡ entry_at p j)
      (right-at : (j : ℕ) → j < p.size - mid → entry_at right j ≡ entry_at p (mid + j)) where
    pub part_cases :
        (k : Key) (v : Value) (d : Bool)
        → EntryIn p k v d
        → EntryIn left k v d ⊎ EntryIn right k v d
    part_cases k v d (j, l, m) = elim (Bool-cases (ltb j mid)) [
      | inl b ↦
          inl (j, ground (arith, left-size), same-Matches _ _ k v d (left-at j (ground arith)) m)
      | inr b ↦
          let back : mid + (j - mid) ≡ j = ground arith in
          inr (
            j - mid,
            ground (arith, right-size),
            same-Matches _ _ k v d (right-at (j - mid) (ground arith) ∙ ap (entry_at p) back) m,
          )
    ]

    pub from-left : (k : Key) (v : Value) (d : Bool) → EntryIn left k v d → EntryIn p k v d
    from-left k v d (j, l, m) =
        let b : j < mid = omega (arith, l, left-size) in
        (j, omega (arith, b, below), same-Matches _ _ k v d (sym (left-at j b)) m)

    pub from-right : (k : Key) (v : Value) (d : Bool) → EntryIn right k v d → EntryIn p k v d
    from-right k v d (j, l, m) =
        let b : j < p.size - mid = omega (arith, l, right-size) in
        (mid + j, omega (arith, b, below), same-Matches _ _ k v d (sym (right-at j b)) m)

  -- A leaf is replaced by another one, with one more entry.
  module _ (t : Tree Key Value) (pid : ℕ) (p q : LeafPage Key Value)
      (e : t.pages pid ≡ some (leaf p)) where
    abbrev t' : Tree Key Value
    t' = put t pid (leaf q)

    pub put-Has :
        ((k : Key) (v : Value) (d : Bool) → EntryIn p k v d → EntryIn q k v d)
        → (k : Key) (v : Value) (d : Bool) → Has t k v d
        → Has t' k v d
    put-Has h k v d (x, l, ex, m) = elim (eq_cases x pid) [
      | inl y ↦
          let z : some (leaf l) ≡ some (leaf p) = sym ex ∙ ap t.pages y ∙ e in
          let w : l ≡ p = cc in (pid, q, put-here t pid (leaf q), h k v d (rw w at m))
      | inr o ↦ (x, l, put-elsewhere t pid (leaf q) x o ∙ ex, m)
    ]

    pub put-Has_cases :
        (k : Key) (v : Value) (d : Bool) → Has t' k v d → EntryIn q k v d ⊎ Has t k v d
    put-Has_cases k v d (x, l, ex, m) = elim (put_cases t pid (leaf q) x (leaf l) ex) [
      | inl (y, w) ↦ let z : l ≡ q = cc in inl (rw z at m)
      | inr (o, ex') ↦ inr (x, l, ex', m)
    ]

  -- A leaf is replaced by its two parts, of which the right one is a new page.
  module _ (t : Tree Key Value) (pid n : ℕ) (p left right : LeafPage Key Value)
      (e : t.pages pid ≡ some (leaf p)) (free : t.pages n ≡ none) where
    abbrev parted : Tree Key Value
    parted = put (put t pid (leaf left)) n (leaf right)

    not_free : (x : ℕ) (l : LeafPage Key Value) → t.pages x ≡ some (leaf l) → x ≢ n
    not_free x l ex y =
        let z : none ≡ some (leaf l) = sym free ∙ ap t.pages (sym y) ∙ ex in absurd cc

    pub parted-Has :
        ((k : Key) (v : Value) (d : Bool)
          → EntryIn p k v d
          → EntryIn left k v d ⊎ EntryIn right k v d)
        → (k : Key) (v : Value) (d : Bool) → Has t k v d
        → Has parted k v d
    parted-Has h k v d (x, l, ex, m) = elim (eq_cases x pid) [
      | inl y ↦
          let z : some (leaf l) ≡ some (leaf p) = sym ex ∙ ap t.pages y ∙ e in
          let w : l ≡ p = cc in
          elim (h k v d (rw w at m)) [
            | inl a ↦ (
              pid,
              left,
              put-elsewhere (put t pid (leaf left)) n (leaf right) pid (not_free pid p e)
                  ∙ put-here t pid (leaf left),
              a,
            )
            | inr b ↦ (n, right, put-here (put t pid (leaf left)) n (leaf right), b)
          ]
      | inr o ↦ (
        x,
        l,
        put-elsewhere (put t pid (leaf left)) n (leaf right) x (not_free x l ex)
            ∙ put-elsewhere t pid (leaf left) x o
            ∙ ex,
        m,
      )
    ]

    pub parted-Has_back :
        ((k : Key) (v : Value) (d : Bool) → EntryIn left k v d → EntryIn p k v d)
        → ((k : Key) (v : Value) (d : Bool) → EntryIn right k v d → EntryIn p k v d)
        → (k : Key) (v : Value) (d : Bool) → Has parted k v d
        → Has t k v d
    parted-Has_back h h' k v d (x, l, ex, m) =
        elim (put_cases (put t pid (leaf left)) n (leaf right) x (leaf l) ex) [
          | inl (y, w) ↦ let z : l ≡ right = cc in (pid, p, e, h' k v d (rw z at m))
          | inr (o, ex') ↦ elim (put_cases t pid (leaf left) x (leaf l) ex') [
            | inl (y, w) ↦ let z : l ≡ left = cc in (pid, p, e, h k v d (rw z at m))
            | inr (o', ex'') ↦ (x, l, ex'', m)
          ]
        ]
