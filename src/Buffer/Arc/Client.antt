-- ===== src/Buffer/Arc/Client.antt =====
-- What the buffer pool's pairs of calls do to the replacer.
use cmu_db_15445_project.Prelude.{
  ℕ, ◌+◌, ◌≤◌, ◌<◌, ◌≡◌, Bool, true, false, Option, none, some, arith, ap, ◌∙◌, refl, inl, inr,
  Option-cases, Returns, Returns-mono, Returns-bind, Returns-both, Returns-ok, ok, length,
  length-erase, if◌then◌else◌, ◌==◌,
}
use cmu_db_15445_project.Buffer.Arc.{
  ArcReplacer, FrameStatus, is_evictable, record_access, set_evictable, remove, evict, promote,
  adapt_target, revive, make_room, push_mru,
}
use cmu_db_15445_project.Buffer.Arc.Invariant.{Inv, set_evictable-Inv, set_evictable-page_of}
use cmu_db_15445_project.Buffer.Arc.Access.{
  IsAbsent, record_access-Inv, make_room-keeps, adapt_target-le,
}
use cmu_db_15445_project.Buffer.Arc.Bounds.{
  IsBounded, IsSound, record_access-IsBounded, set_evictable-IsBounded, evict-IsBounded,
  remove-IsBounded, evictables-le,
}
use cmu_db_15445_project.Buffer.Arc.Counts.{page_of, evictables}
use cmu_db_15445_project.Buffer.Arc.Eviction.{Goes, Evicted, evict-Evicted}
use cmu_db_15445_project.Buffer.Arc.Removal.{Removed, remove_cases}

abbrev pub frames_alive : ArcReplacer → ℕ
frames_alive a = length a.mru + length a.mfu

-- `b` knows the frames of `a` with their pages and flags, but for `f`, which holds the page `p`
-- and may not be evicted; there are `n` frames more.
pub record IsPinned (a : ArcReplacer) (f p n : ℕ) (b : ArcReplacer) : Type 0 where
  pub sound : IsSound b
  pub pages :
      (g : ℕ) → page_of (b.alive_map g) ≡ (if f == g then some p else page_of (a.alive_map g))
  pub flags :
      (g : ℕ)
      → is_evictable (b.alive_map g) ≡ (if f == g then false else is_evictable (a.alive_map g))
  pub number : frames_alive b ≡ frames_alive a + n
  pub capacity : b.replacer_size ≡ a.replacer_size

module _ (a : ArcReplacer) (f : ℕ) where
  pub set_evictable-flags :
      (v : Bool) (g : ℕ)
      → is_evictable ((set_evictable a f v).alive_map g) ≡ (
          if f == g
          then (elim (a.alive_map f) [ none ↦ false | some s ↦ v ])
          else is_evictable (a.alive_map g))
  unfolding set_evictable
  set_evictable-flags v g = ground arith

  pub set_evictable-number :
      (v : Bool)
      → (frames_alive (set_evictable a f v) ≡ frames_alive a)
        × ((set_evictable a f v).replacer_size ≡ a.replacer_size)
  unfolding set_evictable
  set_evictable-number v = (ground arith, ground arith)

  -- What `RecordAccess` itself does to the frames.
  abbrev Accesses : ℕ → ℕ → ArcReplacer → Type 0
  Accesses p n b =
      ((g : ℕ)
        → (page_of (b.alive_map g) ≡ (if f == g then some p else page_of (a.alive_map g)))
          × (is_evictable (b.alive_map g) ≡ (
              if f == g
              then (if n == 0 then is_evictable (a.alive_map f) else false)
              else is_evictable (a.alive_map g))))
      × (frames_alive b ≡ frames_alive a + n)
      × (b.replacer_size ≡ a.replacer_size)

  promote-Accesses :
      (p : ℕ) (s : FrameStatus)
      → Inv a
      → a.alive_map f ≡ some s
      → s.page_id ≡ p
      → Accesses p 0 (promote a f s)
  unfolding promote
  promote-Accesses p s v e h = (
    λ g. (ground arith, ground arith),
    ground (
      arith,
      v.mru_frames f,
      v.mfu_frames f,
      v.alive_tags f,
      length-erase f a.mru,
      length-erase f a.mfu,
    ),
    refl,
  )

  revive-Accesses : (p : ℕ) (s : FrameStatus) (t : ℕ) → Accesses p 1 (revive a f p s t)
  unfolding revive
  revive-Accesses p s t = (λ g. (ground arith, ground arith), ground arith, refl)

  push-Accesses : (p : ℕ) → Accesses p 1 (push_mru (make_room a) f p)
  push-Accesses p =
      let (alive, recent, frequent, _, _, c) = make_room-keeps a in
      (
        λ g. (rw alive (ground arith), rw alive (ground arith)),
        rw (recent, frequent) (omega arith),
        c,
      )

  known-Accesses :
      (p : ℕ)
      → Inv a
      → page_of (a.alive_map f) ≡ some p
      → Returns (record_access a f p) (Accesses p 0)
  unfolding record_access
  known-Accesses p v e = elim (Option-cases (a.alive_map f)) [
    | inl h ↦ absurd (ground arith)
    | inr (s, h) ↦ rw (h, record_access) (promote-Accesses p s v h (ground arith))
  ]

  new-Accesses :
      (p : ℕ) → Inv a → a.alive_map f ≡ none → Returns (record_access a f p) (Accesses p 1)
  unfolding record_access
  new-Accesses p v e = elim (Option-cases (a.ghost_map p)) [
    | inr (g, k) ↦
        rw (e, k, record_access)
          (Returns-bind (adapt_target a g.arc_status) _ (λ t. t ≤ a.replacer_size) (Accesses p 1)
            (adapt_target-le a p g v k) (λ t _. revive-Accesses p g t))
    | inl k ↦ rw (e, k, record_access) (push-Accesses p)
  ]

-- A second access to a frame in memory, after it is pinned.
pub pin_known :
    (a : ArcReplacer) (f p : ℕ)
    → IsSound a
    → page_of (a.alive_map f) ≡ some p
    → Returns (record_access (set_evictable a f false) f p) (IsPinned a f p 0)
pin_known a f p (v, w) e =
    let b = set_evictable a f false in
    let here : page_of (b.alive_map f) ≡ some p = set_evictable-page_of a f false f ∙ e in
    let v' = set_evictable-Inv a f false v in
    let w' = set_evictable-IsBounded a f false w in
    let keeps = set_evictable-number a f false in
    Returns-mono _ _ (IsPinned a f p 0)
      (Returns-both _ _ _ (record_access-Inv b f p v' (λ n. absurd (ground arith))) (
        Returns-both _ _ _ (record_access-IsBounded b f p v' w' (λ n. absurd (ground arith)))
          (known-Accesses b f p v' here)))
      (λ c (i, (j, (k, m, r))). record {
        sound = (i, j);
        pages = λ g. (k g).0 ∙ rw (set_evictable-page_of a f false g);
        flags = λ g.
            ground
              (arith, (k g).1, set_evictable-flags a f false g, set_evictable-flags a f false f);
        number = omega (arith, m, keeps.0);
        capacity = r ∙ keeps.1;
      })

-- The first access to a frame, and its pin.
pub pin_new :
    (a : ArcReplacer) (f p : ℕ)
    → IsSound a
    → a.alive_map f ≡ none
    → IsAbsent a p
    → frames_alive a < a.replacer_size
    → Returns (record_access a f p) (λ b. IsPinned a f p 1 (set_evictable b f false))
pin_new a f p (v, w) e absent free =
    Returns-mono _ _ (λ b. IsPinned a f p 1 (set_evictable b f false))
      (Returns-both _ _ _ (record_access-Inv a f p v (λ n. absent)) (
        Returns-both _ _ _ (record_access-IsBounded a f p v w (λ n. free))
          (new-Accesses a f p v e)))
      (λ b (i, (j, (k, m, r))).
        let keeps = set_evictable-number b f false in
        record {
          sound = (set_evictable-Inv b f false i, set_evictable-IsBounded b f false j);
          pages = λ g. set_evictable-page_of b f false g ∙ (k g).0;
          flags = λ g. ground (arith, (k g).1, set_evictable-flags b f false g);
          number = omega (arith, m, keeps.0);
          capacity = keeps.1 ∙ r;
        })

-- `b` knows the frames of `a` with their pages and flags, but for `f`.
pub record IsVacated (a : ArcReplacer) (f : ℕ) (b : ArcReplacer) : Type 0 where
  pub sound : IsSound b
  pub known : is_evictable (a.alive_map f) ≡ true
  pub pages : (g : ℕ) → page_of (b.alive_map g) ≡ (if f == g then none else page_of (a.alive_map g))
  pub flags :
      (g : ℕ)
      → is_evictable (b.alive_map g) ≡ (if f == g then false else is_evictable (a.alive_map g))
  pub number : frames_alive b + 1 ≡ frames_alive a
  pub capacity : b.replacer_size ≡ a.replacer_size

Goes-IsVacated : (a b : ArcReplacer) (f : ℕ) → IsBounded b → Goes a b f → IsVacated a f b
Goes-IsVacated a b f w (v, m, (s, e, t, which), recent, other, c) = record {
  sound = (v, w);
  known = rw e t;
  pages = λ g. rw m (ground arith);
  flags = λ g. rw m (ground arith);
  number = elim which [
    | inl (_, x, y) ↦ omega (arith, recent, other, ap length x, ap length y)
    | inr (_, x, y) ↦ omega (arith, recent, other, ap length x, ap length y)
  ];
  capacity = c;
}

-- `Evict`, seen by its client.
abbrev pub Vacates : ArcReplacer → ArcReplacer × Option ℕ → Type 0
Vacates a (b, none) = (b ≡ a) × (evictables a.alive_map a.mru + evictables a.alive_map a.mfu ≡ 0)
Vacates a (b, some f) = IsVacated a f b

pub evict-Vacates : (a : ArcReplacer) → IsSound a → Returns (evict a) (Vacates a)
evict-Vacates a (v, w) =
    Returns-mono _ (Evicted a) (Vacates a)
      (evict-Evicted a v
        (omega (arith, evictables-le a.alive_map a.mru, evictables-le a.alive_map a.mfu)))
      (λ r. go r.0 r.1)
  where
    go : (b : ArcReplacer) (r : Option ℕ) → Evicted a (b, r) → Vacates a (b, r)
    go b none h = h
    go b (some f) h = Goes-IsVacated a b f (evict-IsBounded a b (some f) w h) h.0

remove-number :
    (a b : ArcReplacer) (f : ℕ)
    → Inv a
    → is_evictable (a.alive_map f) ≡ true
    → remove a f ≡ ok b
    → (frames_alive b + 1 ≡ frames_alive a) × (b.replacer_size ≡ a.replacer_size)
unfolding remove
remove-number a b f v h e = elim (Option-cases (a.alive_map f)) [
  | inl k ↦ absurd (ground arith)
  | inr (s, k) ↦ (
    ground (
      arith,
      v.mru_frames f,
      v.mfu_frames f,
      v.alive_tags f,
      length-erase f a.mru,
      length-erase f a.mfu,
    ),
    ground arith,
  )
]

-- `Remove` of a frame that may be evicted.
pub remove-IsVacated :
    (a : ArcReplacer) (f : ℕ)
    → IsSound a
    → is_evictable (a.alive_map f) ≡ true
    → Returns (remove a f) (IsVacated a f)
remove-IsVacated a f (v, w) h = elim (remove_cases a f v) [
  | inl (e, _) ↦ absurd (ground arith)
  | inr (inl (s, e, b, _)) ↦ absurd (ground arith)
  | inr (inr (s, e, b, r)) ↦ go (Returns-ok (remove a f) _ r)
]
  where
    go :
        (b : ArcReplacer) × (remove a f ≡ ok b) × Removed a f b
        → Returns (remove a f) (IsVacated a f)
    go (b, e, (i, m, _)) = rw e (record {
      sound = (i, remove-IsBounded a b f w e);
      known = h;
      pages = λ g. rw m (ground arith);
      flags = λ g. rw m (ground arith);
      number = (remove-number a b f v h e).0;
      capacity = (remove-number a b f v h e).1;
    })
