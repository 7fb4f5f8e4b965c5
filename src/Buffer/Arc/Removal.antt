-- ===== src/Buffer/Arc/Removal.antt =====
-- Taking a frame out of its list: the body of both lambdas of `Evict`, and `Remove`.
use cmu_db_15445_project.Prelude.{
  ℕ, ◌+◌, ◌%◌, ◌<◌, ◌≡◌, true, false, none, some, count, arith, refl, inl, inr, Option-cases,
  Bool-cases, Returns, ok, crash, erase, count-erase, update, ◌⊎◌,
}
use cmu_db_15445_project.Prelude.Words.{word64, sub64}
use cmu_db_15445_project.Buffer.Arc.{
  ArcReplacer, FrameStatus, mru_status, mfu_status, evict_mru, evict_mfu, remove,
}
use cmu_db_15445_project.Buffer.Arc.Counts.{evictables-gone}
use cmu_db_15445_project.Buffer.Arc.Invariant.{Inv}

-- `curr_size--` after the number of evictable frames has dropped from `m + 1`.
sub64-counted : (c m n : ℕ) → c ≡ n % word64 → m + 1 ≡ n → sub64 c 1 ≡ m % word64
sub64-counted c m n h k = omega arith

module _ (a : ArcReplacer) (f : ℕ) (s : FrameStatus) (v : Inv a) (e : a.alive_map f ≡ some s)
    (b : s.evictable ≡ true) where
  pub evict_mru-Inv : 0 < count f a.mru → Inv (evict_mru a f s)
  unfolding evict_mru
  evict_mru-Inv here = record {
    mru_frames = λ g. ground (arith, v.mru_frames g, count-erase g f a.mru);
    mfu_frames = λ g. ground (arith, v.mfu_frames g, v.mru_frames f, v.alive_tags g);
    alive_tags = λ g. ground (arith, v.alive_tags g);
    mru_pages = λ q. ground (arith, v.mru_pages q, v.not_ghost f s.page_id);
    mfu_pages = λ q. ground (arith, v.mfu_pages q, v.not_ghost f s.page_id);
    ghost_tags = λ q. ground (arith, v.ghost_tags q);
    one_frame = λ g h q i j. ground (arith, v.one_frame g h q);
    not_ghost = λ g q i. ground (arith, v.not_ghost g q, v.one_frame f g q);
    counted = sub64-counted a.curr_size _ _ v.counted (
        ground (
          arith,
          v.mru_frames f,
          v.mfu_frames f,
          v.alive_tags f,
          evictables-gone a.alive_map f a.mru a.mfu,
        ));
    target = v.target;
  }

  pub evict_mfu-Inv : 0 < count f a.mfu → Inv (evict_mfu a f s)
  unfolding evict_mfu
  evict_mfu-Inv here = record {
    mru_frames = λ g. ground (arith, v.mru_frames g, v.mfu_frames f, v.alive_tags g);
    mfu_frames = λ g. ground (arith, v.mfu_frames g, count-erase g f a.mfu);
    alive_tags = λ g. ground (arith, v.alive_tags g);
    mru_pages = λ q. ground (arith, v.mru_pages q, v.not_ghost f s.page_id);
    mfu_pages = λ q. ground (arith, v.mfu_pages q, v.not_ghost f s.page_id);
    ghost_tags = λ q. ground (arith, v.ghost_tags q);
    one_frame = λ g h q i j. ground (arith, v.one_frame g h q);
    not_ghost = λ g q i. ground (arith, v.not_ghost g q, v.one_frame f g q);
    counted = sub64-counted a.curr_size _ _ v.counted (
        ground (
          arith,
          v.mru_frames f,
          v.mfu_frames f,
          v.alive_tags f,
          evictables-gone a.alive_map f a.mfu a.mru,
        ));
    target = v.target;
  }

remove_mru-Inv :
    (a : ArcReplacer) (f : ℕ) (s : FrameStatus)
    → Inv a
    → a.alive_map f ≡ some s
    → s.evictable ≡ true
    → s.arc_status ≡ mru_status
    → Inv (record a {
      mru = erase f a.mru;
      alive_map = update a.alive_map f none;
      curr_size = sub64 a.curr_size 1;
    })
remove_mru-Inv a f s v e b t = record {
  mru_frames = λ g. ground (arith, v.mru_frames g, count-erase g f a.mru);
  mfu_frames = λ g. ground (arith, v.mfu_frames g);
  alive_tags = λ g. ground (arith, v.alive_tags g);
  mru_pages = v.mru_pages;
  mfu_pages = v.mfu_pages;
  ghost_tags = v.ghost_tags;
  one_frame = λ g h q i j. ground (arith, v.one_frame g h q);
  not_ghost = λ g q i. ground (arith, v.not_ghost g q);
  counted = sub64-counted a.curr_size _ _ v.counted (
      ground (
        arith,
        v.mru_frames f,
        v.mfu_frames f,
        v.alive_tags f,
        evictables-gone a.alive_map f a.mru a.mfu,
      ));
  target = v.target;
}

remove_mfu-Inv :
    (a : ArcReplacer) (f : ℕ) (s : FrameStatus)
    → Inv a
    → a.alive_map f ≡ some s
    → s.evictable ≡ true
    → s.arc_status ≡ mfu_status
    → Inv (record a {
      mfu = erase f a.mfu;
      alive_map = update a.alive_map f none;
      curr_size = sub64 a.curr_size 1;
    })
remove_mfu-Inv a f s v e b t = record {
  mru_frames = λ g. ground (arith, v.mru_frames g);
  mfu_frames = λ g. ground (arith, v.mfu_frames g, count-erase g f a.mfu);
  alive_tags = λ g. ground (arith, v.alive_tags g);
  mru_pages = v.mru_pages;
  mfu_pages = v.mfu_pages;
  ghost_tags = v.ghost_tags;
  one_frame = λ g h q i j. ground (arith, v.one_frame g h q);
  not_ghost = λ g q i. ground (arith, v.not_ghost g q);
  counted = sub64-counted a.curr_size _ _ v.counted (
      ground (
        arith,
        v.mru_frames f,
        v.mfu_frames f,
        v.alive_tags f,
        evictables-gone a.alive_map f a.mfu a.mru,
      ));
  target = v.target;
}

-- An alive frame is tagged by the list that holds it.
pub alive-tag :
    (a : ArcReplacer) (f : ℕ) {s : FrameStatus}
    → Inv a
    → a.alive_map f ≡ some s
    → (s.arc_status ≡ mru_status) ⊎ (s.arc_status ≡ mfu_status)
alive-tag a f {s} v e = ground (arith, v.alive_tags f)

abbrev pub Removed : ArcReplacer → ℕ → ArcReplacer → Type 0
Removed a f b = Inv b × (b.alive_map ≡ update a.alive_map f none) × (b.ghost_map ≡ a.ghost_map)

-- On a valid replacer, `Remove` of a frame that the replacer knows and may evict takes it out and keeps the invariant;
-- of one that it may not evict, it aborts; of any other, it does nothing.
pub remove_cases :
    (a : ArcReplacer) (f : ℕ)
    → Inv a
    → ((a.alive_map f ≡ none) × (remove a f ≡ ok a))
      ⊎ (((s : FrameStatus) × (a.alive_map f ≡ some s)
            × (s.evictable ≡ false)
            × (remove a f ≡ crash))
          ⊎ ((s : FrameStatus) × (a.alive_map f ≡ some s)
              × (s.evictable ≡ true)
              × Returns (remove a f) (Removed a f)))
unfolding remove
remove_cases a f v = elim (Option-cases (a.alive_map f)) [
  | inl e ↦ inl (e, rw (e, remove))
  | inr (s, e) ↦ elim (Bool-cases s.evictable) [
    | inr b ↦ inr (inl (s, e, b, rw (e, remove, b)))
    | inl b ↦ inr (
        inr (
          s,
          e,
          b,
          elim (alive-tag a f v e) [
            | inl t ↦ rw (e, remove, b, t) (remove_mru-Inv a f s v e b t, refl, refl)
            | inr t ↦ rw (e, remove, b, t) (remove_mfu-Inv a f s v e b t, refl, refl)
          ],
        ))
  ]
]
