-- ===== src/Buffer/Arc/Eviction.antt =====
-- `Evict`: the victim is the least recently used evictable frame of the list that the target size
-- prefers, or of the other list if that one has none.
use mathlib.Core.List.{reverse-cons}
use cmu_db_15445_project.Prelude.{
  ℕ, ◌+◌, ◌≤◌, ◌<◌, ◌≡◌, true, false, Option, none, some, List, [], ◌∷◌, ◌++◌, reverse, count,
  arith, refl, ap, inl, inr, Option-cases, Bool-cases, Returns, ok, length, count-append,
  count-reverse, Outcome, Returns-bind, Returns-mono, leb, reverse-split, ◌==◌, ◌⊎◌, update,
  length-erase,
}
use cmu_db_15445_project.Prelude.Words.{word64}
use cmu_db_15445_project.Buffer.Arc.{
  ArcReplacer, FrameStatus, mfu_status, mru_status, find_evictable, evict_mru, evict_mfu,
  try_evict_from_mru, try_evict_from_mfu, evict, or_else,
}
use cmu_db_15445_project.Buffer.Arc.Counts.{present, evictables}
use cmu_db_15445_project.Buffer.Arc.Invariant.{Inv}
use cmu_db_15445_project.Buffer.Arc.Removal.{evict_mru-Inv, evict_mfu-Inv}

-- The last evictable frame of a list, whose front is the most recently used.
abbrev pub IsLast : (ℕ → Option FrameStatus) → List ℕ → ℕ → Type 0
IsLast m l f =
    (newer : List ℕ) × (older : List ℕ) × (l ≡ newer ++ f ∷ older) × (evictables m older ≡ 0)

-- What the backward loop finds.
abbrev Found : (ℕ → Option FrameStatus) → List ℕ → Option (ℕ × FrameStatus) → Type 0
Found m l none = evictables m l ≡ 0
Found m l (some (f, s)) = (m f ≡ some s) × (s.evictable ≡ true) × IsLast m l f

abbrev FoundFirst : (ℕ → Option FrameStatus) → List ℕ → Option (ℕ × FrameStatus) → Type 0
FoundFirst m l none = evictables m l ≡ 0
FoundFirst m l (some (f, s)) =
    (m f ≡ some s)
    × (s.evictable ≡ true)
    × ((older : List ℕ) × (newer : List ℕ) × (l ≡ older ++ f ∷ newer) × (evictables m older ≡ 0))

module _ (m : ℕ → Option FrameStatus) where
  find_evictable_step :
      (f : ℕ) (s : FrameStatus) (l : List ℕ) (r : Option (ℕ × FrameStatus))
      → m f ≡ some s
      → s.evictable ≡ false
      → FoundFirst m l r
      → FoundFirst m (f ∷ l) r
  find_evictable_step f s l none e b h = ground arith
  find_evictable_step f s l (some (g, t)) e b (i, j, (older, newer, k, z)) =
      (i, j, (f ∷ older, newer, ap (◌∷◌ f) k, ground arith))

  find_evictable-FoundFirst :
      (l : List ℕ)
      → ((g : ℕ) → 0 < count g l → present (m g) ≡ 1)
      → Returns (find_evictable m l) (FoundFirst m l)
  unfolding find_evictable
  find_evictable-FoundFirst [] alive = refl
  find_evictable-FoundFirst (f ∷ l) alive = elim (Option-cases (m f)) [
    | inl e ↦ absurd (ground (arith, alive f))
    | inr (s, e) ↦ elim (Bool-cases s.evictable) [
      | inl b ↦ rw (e, find_evictable, b) (e, b, ([], l, refl, refl))
      | inr b ↦
          rw (e, find_evictable, b)
            (Returns-mono (find_evictable m l) (FoundFirst m l) (FoundFirst m (f ∷ l))
              (find_evictable-FoundFirst l (λ g h. alive g (omega arith)))
              (λ r. find_evictable_step f s l r e b))
    ]
  ]

  evictables-append : (xs ys : List ℕ) → evictables m (xs ++ ys) ≡ evictables m xs + evictables m ys
  evictables-append [] ys = omega arith
  evictables-append (x ∷ xs) ys = omega (arith, evictables-append xs ys)

  evictables-reverse : (xs : List ℕ) → evictables m (reverse xs) ≡ evictables m xs
  evictables-reverse [] = refl
  evictables-reverse (x ∷ xs) =
      simp reverse-cons
        (omega (arith, evictables-append (reverse xs) (x ∷ []), evictables-reverse xs))

  FoundFirst→Found :
      (l : List ℕ) (r : Option (ℕ × FrameStatus)) → FoundFirst m (reverse l) r → Found m l r
  FoundFirst→Found l none h = omega (arith, evictables-reverse l)
  FoundFirst→Found l (some (f, s)) (e, b, (older, newer, k, z)) = (
    e,
    b,
    (
      reverse newer,
      reverse older,
      reverse-split l f older newer k,
      omega (arith, evictables-reverse older),
    ),
  )

  find_evictable-Found :
      (l : List ℕ)
      → ((g : ℕ) → 0 < count g l → present (m g) ≡ 1)
      → Returns (find_evictable m (reverse l)) (Found m l)
  find_evictable-Found l alive =
      Returns-mono (find_evictable m (reverse l)) (FoundFirst m (reverse l)) (Found m l)
        (find_evictable-FoundFirst (reverse l) (λ g h. alive g (omega (arith, count-reverse g l))))
        (FoundFirst→Found l)

  IsLast-count : (l : List ℕ) (f : ℕ) → IsLast m l f → 0 < count f l
  IsLast-count l f (newer, older, e, z) = rw e (ground (arith, count-append f newer (f ∷ older)))

-- The page of the victim goes to the front of the ghost list that belongs to its list.
abbrev pub IsDemoted : ArcReplacer → ArcReplacer → ℕ → Type 0
IsDemoted a b f =
    (s : FrameStatus) × (a.alive_map f ≡ some s)
    × (s.evictable ≡ true)
    × (((s.arc_status ≡ mru_status)
          × (b.mru_ghost ≡ s.page_id ∷ a.mru_ghost)
          × (b.mfu_ghost ≡ a.mfu_ghost))
        ⊎ ((s.arc_status ≡ mfu_status)
            × (b.mru_ghost ≡ a.mru_ghost)
            × (b.mfu_ghost ≡ s.page_id ∷ a.mfu_ghost)))

-- What an eviction of `f` changes, whichever list it is from.
abbrev pub Goes : ArcReplacer → ArcReplacer → ℕ → Type 0
Goes a b f =
    Inv b
    × (b.alive_map ≡ update a.alive_map f none)
    × IsDemoted a b f
    × (length b.mru + length b.mru_ghost ≡ length a.mru + length a.mru_ghost)
    × (length b.mfu + length b.mfu_ghost ≡ length a.mfu + length a.mfu_ghost)
    × (b.replacer_size ≡ a.replacer_size)

abbrev Tried : ArcReplacer → List ℕ → ArcReplacer × Option ℕ → Type 0
Tried a l (b, none) = (b ≡ a) × (evictables a.alive_map l ≡ 0)
Tried a l (b, some f) = IsLast a.alive_map l f × Goes a b f

module _ (a : ArcReplacer) (v : Inv a) where
  evict_mru-Goes :
      (f : ℕ) (s : FrameStatus)
      → a.alive_map f ≡ some s
      → s.evictable ≡ true
      → 0 < count f a.mru
      → Goes a (evict_mru a f s) f
  unfolding evict_mru
  evict_mru-Goes f s e b here = (
    evict_mru-Inv a f s v e b here,
    refl,
    (s, e, b, inl (ground (arith, v.mru_frames f), refl, refl)),
    omega (arith, length-erase f a.mru here),
    refl,
    refl,
  )

  evict_mfu-Goes :
      (f : ℕ) (s : FrameStatus)
      → a.alive_map f ≡ some s
      → s.evictable ≡ true
      → 0 < count f a.mfu
      → Goes a (evict_mfu a f s) f
  unfolding evict_mfu
  evict_mfu-Goes f s e b here = (
    evict_mfu-Inv a f s v e b here,
    refl,
    (s, e, b, inr (ground (arith, v.mfu_frames f), refl, refl)),
    refl,
    omega (arith, length-erase f a.mfu here),
    refl,
  )

  try_evict_from_mru-Tried : Returns (try_evict_from_mru a) (Tried a a.mru)
  unfolding try_evict_from_mru
  try_evict_from_mru-Tried =
      Returns-bind (find_evictable a.alive_map (reverse a.mru)) _ (Found a.alive_map a.mru)
        (Tried a a.mru)
        (find_evictable-Found a.alive_map a.mru
          (λ g h. ground (arith, v.mru_frames g, v.alive_tags g)))
        (elim [
          | none ↦ λ z. (refl, z)
          | some (f, s) ↦
              λ h. (h.2, evict_mru-Goes f s h.0 h.1 (IsLast-count a.alive_map a.mru f h.2))
        ])

  try_evict_from_mfu-Tried : Returns (try_evict_from_mfu a) (Tried a a.mfu)
  unfolding try_evict_from_mfu
  try_evict_from_mfu-Tried =
      Returns-bind (find_evictable a.alive_map (reverse a.mfu)) _ (Found a.alive_map a.mfu)
        (Tried a a.mfu)
        (find_evictable-Found a.alive_map a.mfu
          (λ g h. ground (arith, v.mfu_frames g, v.alive_tags g)))
        (elim [
          | none ↦ λ z. (refl, z)
          | some (f, s) ↦
              λ h. (h.2, evict_mfu-Goes f s h.0 h.1 (IsLast-count a.alive_map a.mfu f h.2))
        ])

-- `f` is the last evictable frame of the first list, or of the second if the first has none.
abbrev pub IsPreferred : (ℕ → Option FrameStatus) → List ℕ → List ℕ → ℕ → Type 0
IsPreferred m first second f = IsLast m first f ⊎ ((evictables m first ≡ 0) × IsLast m second f)

abbrev pub Evicted : ArcReplacer → ArcReplacer × Option ℕ → Type 0
Evicted a (b, none) = (b ≡ a) × (evictables a.alive_map a.mru + evictables a.alive_map a.mfu ≡ 0)
Evicted a (b, some f) =
    Goes a b f
    × ((a.mru_target_size ≤ length a.mru) × IsPreferred a.alive_map a.mru a.mfu f
        ⊎ (length a.mru < a.mru_target_size) × IsPreferred a.alive_map a.mfu a.mru f)

abbrev TriedBoth : ArcReplacer → List ℕ → List ℕ → ArcReplacer × Option ℕ → Type 0
TriedBoth a first second (b, none) =
    (b ≡ a) × (evictables a.alive_map first ≡ 0) × (evictables a.alive_map second ≡ 0)
TriedBoth a first second (b, some f) = Goes a b f × IsPreferred a.alive_map first second f

or_else-TriedBoth :
    (a : ArcReplacer) (first second : List ℕ) (m : Outcome (ArcReplacer × Option ℕ))
    (k : ArcReplacer → Outcome (ArcReplacer × Option ℕ))
    → Returns m (Tried a first)
    → Returns (k a) (Tried a second)
    → Returns (or_else m k) (TriedBoth a first second)
or_else-TriedBoth a first second m k h j =
    Returns-bind m _ (Tried a first) (TriedBoth a first second) h (λ r. go r.0 r.1)
  where
    go :
        (b : ArcReplacer) (r : Option ℕ)
        → Tried a first (b, r)
        → Returns (elim r [ none ↦ k b | some fid ↦ ok (b, some fid) ]) (TriedBoth a first second)
    go b none t =
        rw (t.0)
          (Returns-mono (k a) (Tried a second) (TriedBoth a first second) j (λ r. last r.0 r.1))
      where
        last :
            (c : ArcReplacer) (r : Option ℕ)
            → Tried a second (c, r)
            → TriedBoth a first second (c, r)
        last c none u = (u.0, t.1, u.1)
        last c (some f) u = (u.1, inr (t.1, u.0))
    go b (some f) t = (t.1, inl t.0)

module _ (a : ArcReplacer) where
  from_mru :
      (b : ArcReplacer) (r : Option ℕ)
      → a.mru_target_size ≤ length a.mru
      → TriedBoth a a.mru a.mfu (b, r)
      → Evicted a (b, r)
  from_mru b none t h = (h.0, omega (arith, h.1, h.2))
  from_mru b (some f) t h = (h.0, inl (t, h.1))

  from_mfu :
      (b : ArcReplacer) (r : Option ℕ)
      → length a.mru < a.mru_target_size
      → TriedBoth a a.mfu a.mru (b, r)
      → Evicted a (b, r)
  from_mfu b none t h = (h.0, omega (arith, h.1, h.2))
  from_mfu b (some f) t h = (h.0, inr (t, h.1))

-- On a valid replacer with fewer than 2^64 evictable frames, `Evict` does not crash. It returns
-- nothing only if no frame is evictable, and then changes nothing; else it returns the least
-- recently used evictable frame of the list that the target size prefers (of the other list if
-- that one has none). The replacer stays valid, that frame alone leaves it, and its page goes to
-- the front of the matching ghost list.
pub evict-Evicted :
    (a : ArcReplacer)
    → Inv a
    → evictables a.alive_map a.mru + evictables a.alive_map a.mfu < word64
    → Returns (evict a) (Evicted a)
unfolding evict
evict-Evicted a v small = elim (Bool-cases (a.curr_size == 0)) [
  | inl z ↦ rw z (refl, ground (arith, v.counted))
  | inr nz ↦ rw nz (elim (Bool-cases (leb a.mru_target_size (length a.mru))) [
    | inl t ↦ rw t (
        Returns-mono _ (TriedBoth a a.mru a.mfu) (Evicted a)
          (or_else-TriedBoth a a.mru a.mfu _ _ (try_evict_from_mru-Tried a v)
            (try_evict_from_mfu-Tried a v))
          (λ r. from_mru a r.0 r.1 (ground arith)))
    | inr t ↦ rw t (
        Returns-mono _ (TriedBoth a a.mfu a.mru) (Evicted a)
          (or_else-TriedBoth a a.mfu a.mru _ _ (try_evict_from_mfu-Tried a v)
            (try_evict_from_mru-Tried a v))
          (λ r. from_mfu a r.0 r.1 (ground arith)))
  ])
]
