-- ===== src/Buffer/Arc/Invariant.antt =====
-- What holds of the replacer between two calls, and that each method keeps it.
use cmu_db_15445_project.Prelude.{
  ℕ, ◌+◌, ◌%◌, ◌≤◌, ◌≡◌, Bool, none, some, count, arith, sym, ◌∙◌, inl, inr, Option-cases,
}
use cmu_db_15445_project.Prelude.Words.{word64}
use cmu_db_15445_project.Buffer.Arc.{ArcReplacer, init, set_evictable}
use cmu_db_15445_project.Buffer.Arc.Counts.{
  in_mru, in_mfu, in_mru_ghost, in_mfu_ghost, present, evictables, evictables-update,
  evictables-update_absent, page_of, weight-le-evictables,
}

-- Each list holds exactly the keys that a map gives its tag, each once; a page is in one frame
-- only, and is not in memory and in a ghost list at once; `curr_size` counts the evictable frames.
pub record Inv (a : ArcReplacer) : Type 0 where
  pub mru_frames : (f : ℕ) → count f a.mru ≡ in_mru (a.alive_map f)
  pub mfu_frames : (f : ℕ) → count f a.mfu ≡ in_mfu (a.alive_map f)
  pub alive_tags :
      (f : ℕ) → in_mru (a.alive_map f) + in_mfu (a.alive_map f) ≡ present (a.alive_map f)
  pub mru_pages : (p : ℕ) → count p a.mru_ghost ≡ in_mru_ghost (a.ghost_map p)
  pub mfu_pages : (p : ℕ) → count p a.mfu_ghost ≡ in_mfu_ghost (a.ghost_map p)
  pub ghost_tags :
      (p : ℕ)
      → in_mru_ghost (a.ghost_map p) + in_mfu_ghost (a.ghost_map p) ≡ present (a.ghost_map p)
  pub one_frame :
      (f g p : ℕ) → page_of (a.alive_map f) ≡ some p → page_of (a.alive_map g) ≡ some p → f ≡ g
  pub not_ghost : (f p : ℕ) → page_of (a.alive_map f) ≡ some p → a.ghost_map p ≡ none
  pub counted : a.curr_size ≡ (evictables a.alive_map a.mru + evictables a.alive_map a.mfu) % word64
  pub target : a.mru_target_size ≤ a.replacer_size

-- The constructor's replacer is valid.
pub init-Inv : (num_frames : ℕ) → Inv (init num_frames)
unfolding init
init-Inv n = record {
  mru_frames = λ f. omega arith;
  mfu_frames = λ f. omega arith;
  alive_tags = λ f. omega arith;
  mru_pages = λ p. omega arith;
  mfu_pages = λ p. omega arith;
  ghost_tags = λ p. omega arith;
  one_frame = λ f g p h k. cc;
  not_ghost = λ f p h. cc;
  counted = omega arith;
  target = omega arith;
}

module _ (a : ArcReplacer) (f : ℕ) (b : Bool) where
  pub set_evictable-page_of :
      (g : ℕ) → page_of ((set_evictable a f b).alive_map g) ≡ page_of (a.alive_map g)
  unfolding set_evictable
  set_evictable-page_of g = ground arith

  set_evictable-counted :
      Inv a
      → (set_evictable a f b).curr_size
        ≡ (evictables (set_evictable a f b).alive_map (set_evictable a f b).mru
            + evictables (set_evictable a f b).alive_map (set_evictable a f b).mfu)
          % word64
  unfolding set_evictable
  set_evictable-counted v = elim (Option-cases (a.alive_map f)) [
    | inl e ↦ rw (e, set_evictable) v.counted
    | inr (s, e) ↦ ground (
      arith,
      v.counted,
      v.mru_frames f,
      v.mfu_frames f,
      v.alive_tags f,
      weight-le-evictables a.alive_map f a.mru,
      weight-le-evictables a.alive_map f a.mfu,
      evictables-update a.alive_map f (some (record s { evictable = b })) a.mru,
      evictables-update a.alive_map f (some (record s { evictable = b })) a.mfu,
      evictables-update_absent a.alive_map f (some (record s { evictable = b })) a.mru,
      evictables-update_absent a.alive_map f (some (record s { evictable = b })) a.mfu,
    )
  ]

  -- `SetEvictable` keeps the invariant.
  pub set_evictable-Inv : Inv a → Inv (set_evictable a f b)
  unfolding set_evictable
  set_evictable-Inv v = record {
    mru_frames = λ g. ground (arith, v.mru_frames g);
    mfu_frames = λ g. ground (arith, v.mfu_frames g);
    alive_tags = λ g. ground (arith, v.alive_tags g);
    mru_pages = λ p. ground (arith, v.mru_pages p);
    mfu_pages = λ p. ground (arith, v.mfu_pages p);
    ghost_tags = λ p. ground (arith, v.ghost_tags p);
    one_frame = λ g h p j k.
        v.one_frame g h p (sym (set_evictable-page_of g) ∙ j) (sym (set_evictable-page_of h) ∙ k);
    not_ghost = λ g p h. ground (arith, v.not_ghost g p (sym (set_evictable-page_of g) ∙ h));
    counted = set_evictable-counted v;
    target = ground (arith, v.target);
  }
