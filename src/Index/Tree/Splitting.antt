-- ===== src/Index/Tree/Splitting.antt =====
-- A page in two parts: the tree before the parent knows the second one.
use cmu_db_15445_project.Prelude.{
  ℕ, ◌+◌, ◌-◌, ◌<◌, ◌≡◌, ◌≢◌, refl, ap, sym, ◌∙◌, not, none, some, ◌⊎◌, inl, inr, leb, ◌==◌, ◌&&◌,
  if◌then◌else◌, arith,
}
use cmu_db_15445_project.Index.Internal.{InternalPage}
use cmu_db_15445_project.Index.Tree.{Page, leaf, internal, Tree, put}
use cmu_db_15445_project.Index.Tree.Shape.{Shape, IsLeaf, IsNode, Inv, Pending}
use cmu_db_15445_project.Index.Tree.Frames.{eq_cases, put-here, put-elsewhere, put-still, put_cases}

-- The keys of `pid` from `s` on, and its children from `mid` on, are those of `n`.
abbrev pub split_shape : Shape → ℕ → ℕ → ℕ → ℕ → Shape
split_shape g pid n s mid = record {
  lo = λ x. if x == n then s else g.lo x;
  hi = λ x. if x == n then g.hi pid else if x == pid then s else g.hi x;
  level = λ x. if x == n then g.level pid else g.level x;
  up = λ x.
      if x == n
      then n
      else if g.up x == pid && not (x == pid) && leb mid (g.at x)
      then n
      else g.up x;
  at = λ x. if g.up x == pid && not (x == pid) && leb mid (g.at x) then g.at x - mid else g.at x;
}

-- Where the ranges end as the parents have them.
abbrev pub split_shown : Shape → ℕ → ℕ → ℕ → ℕ
split_shown g pid n x = if x == n then g.hi pid else g.hi x

abbrev pub split_tree :
    {Key Value : Type 0} → Tree Key Value → ℕ → Page Key Value → Page Key Value → Tree Key Value
split_tree t pid left right = record (put (put t pid left) t.next_page_id right) {
  next_page_id = t.next_page_id + 1;
}

module _ {Key Value : Type 0} (rank : Key → ℕ) (limit leaf_max_size internal_max_size : ℕ) where
  abbrev pub IsPage : Shape → (ℕ → ℕ) → Tree Key Value → ℕ → Page Key Value → Type 0
  IsPage g shown t pid (leaf p) = IsLeaf rank limit leaf_max_size internal_max_size g pid p
  IsPage g shown t pid (internal p) =
      IsNode rank limit leaf_max_size internal_max_size g shown t pid p

  module _ (g : Shape) (t : Tree Key Value)
      (v : Inv rank limit leaf_max_size internal_max_size g g.hi none t) (pid s mid : ℕ)
      (e : t.pages pid ≢ none) (left right : Page Key Value) (low : g.lo pid < s)
      (high : s < g.hi pid) where
    abbrev n : ℕ
    n = t.next_page_id

    abbrev g' : Shape
    g' = split_shape g pid n s mid

    abbrev shown' : ℕ → ℕ
    shown' = split_shown g pid n

    abbrev t' : Tree Key Value
    t' = split_tree t pid left right

    pub old_page : (x : ℕ) → t.pages x ≢ none → x ≢ n
    old_page x f y = f (ap t.pages y ∙ v.fresh n (omega arith))

    pub split-still : (x : ℕ) → t.pages x ≢ none → t'.pages x ≢ none
    split-still x f = put-still (put t pid left) n right x (put-still t pid left x f)

    pub split-left : t'.pages pid ≡ some left
    split-left = put-elsewhere (put t pid left) n right pid (old_page pid e) ∙ put-here t pid left

    pub split-right : t'.pages n ≡ some right
    split-right = put-here (put t pid left) n right

    pub split-other : (x : ℕ) → x ≢ pid → x ≢ n → t'.pages x ≡ t.pages x
    split-other x a b = put-elsewhere (put t pid left) n right x b ∙ put-elsewhere t pid left x a

    was : (x : ℕ) → x ≢ n → t'.pages x ≢ none → t.pages x ≢ none
    was x b f = elim (eq_cases x pid) [ inl y ↦ rw y e | inr a ↦ λ y. f (split-other x a b ∙ y) ]

    pub split_cases :
        (x : ℕ) (q : Page Key Value)
        → t'.pages x ≡ some q
        → ((x ≡ n) × (right ≡ q))
          ⊎ (((x ≡ pid) × (left ≡ q)) ⊎ ((x ≢ n) × (x ≢ pid) × (t.pages x ≡ some q)))
    split_cases x q h = elim (put_cases (put t pid left) n right x q h) [
      | inl (a, b) ↦ inl (a, b)
      | inr (o, h') ↦ elim (put_cases t pid left x q h') [
        | inl (a, b) ↦ inr (inl (a, b))
        | inr (o', h'') ↦ inr (inr (o, o', h''))
      ]
    ]

    other_node :
        (x : ℕ) (q : InternalPage Key)
        → x ≢ n
        → x ≢ pid
        → t.pages x ≡ some (internal q)
        → IsNode rank limit leaf_max_size internal_max_size g' shown' t' x q
    other_node x q xn xp ex =
        let k = v.nodes x q ex in
        record {
          some_child = k.some_child;
          sorted = k.sorted;
          within = λ j one l. ground (arith, k.within j one l);
          formatted = λ j l. split-still (q.page_id_array j) (k.formatted j l);
          above = λ j l.
              let o = old_page (q.page_id_array j) (k.formatted j l) in ground (arith, k.above j l);
          up = λ j l.
              let o = old_page (q.page_id_array j) (k.formatted j l) in ground (arith, k.up j l);
          at = λ j l.
              let o = old_page (q.page_id_array j) (k.formatted j l) in
              ground (arith, k.up j l, k.at j l);
          low = λ j l.
              let o = old_page (q.page_id_array j) (k.formatted j l) in ground (arith, k.low j l);
          high = λ j l.
              let o = old_page (q.page_id_array j) (k.formatted j l) in ground (arith, k.high j l);
        }

    same_page :
        (x : ℕ) (a q : Page Key Value) → a ≡ q → IsPage g' shown' t' x a → IsPage g' shown' t' x q
    same_page x a q b h = rw⁻¹ b h

    module _ (left_holds : IsPage g' shown' t' pid left) (right_holds : IsPage g' shown' t' n right)
        (children : (x : ℕ)
          → t.pages x ≢ none
          → t.root ≢ some x
          → g.up x ≡ pid
          → (q : InternalPage Key) × (t'.pages (g'.up x) ≡ some (internal q))
            × (g'.at x < q.size)
            × (q.page_id_array (g'.at x) ≡ x)) where
      linked_child :
          (x : ℕ)
          → x ≢ n
          → t.pages x ≢ none
          → t.root ≢ some x
          → (q : InternalPage Key) × (t'.pages (g'.up x) ≡ some (internal q))
            × (g'.at x < q.size)
            × (q.page_id_array (g'.at x) ≡ x)
      linked_child x xn f r = elim (eq_cases (g.up x) pid) [
        | inl y ↦ children x f r y
        | inr o ↦
            let (q, eq, l, own) = v.linked x f (λ y. cc) r in
            let u : g'.up x ≡ g.up x = ground arith in
            let a : g'.at x ≡ g.at x = ground arith in
            let un =
              old_page (g.up x) (λ y. let z : some (internal q) ≡ none = sym eq ∙ y in absurd cc) in
            rw (u, a) (q, split-other (g.up x) o un ∙ eq, l, own)
      ]

      split-Inv : Inv rank limit leaf_max_size internal_max_size g' shown' (some n) t'
      split-Inv = record {
        root = λ r er.
            let (f, u, a, b) = v.root r er in
            let o = old_page r f in (split-still r f, ground arith, ground arith, ground arith);
        rootless = λ er x. absurd (e (v.rootless er pid));
        tallest = λ r x er f.
            let o = old_page r (v.root r er).0 in
            elim (eq_cases x n) [
              | inl y ↦ rw y (ground (arith, v.tallest r pid er e))
              | inr xn ↦ ground (arith, v.tallest r x er (was x xn f))
            ];
        linked = λ x f no r.
            let xn : x ≢ n = λ y. no (ap some (sym y)) in linked_child x xn (was x xn f) r;
        ordered = λ x f. elim (eq_cases x n) [
          | inl y ↦ rw y (ground arith)
          | inr xn ↦ ground (arith, v.ordered x (was x xn f))
        ];
        fresh = λ x l.
            let xp : x ≢ pid = λ y. e (ap t.pages (sym y) ∙ v.fresh x (omega (arith, l))) in
            split-other x xp (omega (arith, l)) ∙ v.fresh x (omega (arith, l));
        leaves = λ x q ex. elim (split_cases x (leaf q) ex) [
          | inl (a, b) ↦
              let z : IsPage g' shown' t' n (leaf q) = same_page n right (leaf q) b right_holds in
              rw a z
          | inr (inl (a, b)) ↦
              let z : IsPage g' shown' t' pid (leaf q) = same_page pid left (leaf q) b left_holds in
              rw a z
          | inr (inr (xn, xp, ex')) ↦
              let k = v.leaves x q ex' in
              record {
                bottom = ground (arith, k.bottom);
                maximum = k.maximum;
                sorted = k.sorted;
                within = λ j l. ground (arith, k.within j l);
              }
        ];
        nodes = λ x q ex. elim (split_cases x (internal q) ex) [
          | inl (a, b) ↦
              let z : IsPage g' shown' t' n (internal q) =
                same_page n right (internal q) b right_holds in
              rw a z
          | inr (inl (a, b)) ↦
              let z : IsPage g' shown' t' pid (internal q) =
                same_page pid left (internal q) b left_holds in
              rw a z
          | inr (inr (xn, xp, ex')) ↦ other_node x q xn xp ex'
        ];
      }

      pub split-Pending : Pending rank limit leaf_max_size internal_max_size g' shown' pid n t'
      split-Pending =
          let o = old_page pid e in
          record {
            inv = split-Inv;
            split = split-still pid e;
            formatted = λ y. let z : some right ≡ none = sym split-right ∙ y in absurd cc;
            apart = o;
            cut = ground arith;
            rest = ground arith;
            others = λ x a. ground arith;
            beside = ground arith;
            alone = ground arith;
            below = λ y. old_page n (v.root n y).0 refl;
          }
