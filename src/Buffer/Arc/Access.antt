-- ===== src/Buffer/Arc/Access.antt =====
-- `RecordAccess` keeps the invariant on each of its four cases.
use cmu_db_15445_project.Prelude.{
  ℕ, ◌+◌, ◌%◌, ◌≤◌, ◌≡◌, ◌≢◌, Option, none, some, arith, sym, ◌∙◌, ap, Returns-bind, inl, inr,
  Option-cases, Returns, erase, back, count-erase, count-pop_back, count-le-length, count-back,
  if◌then◌else◌, ◌==◌,
}
use cmu_db_15445_project.Prelude.Words.{word64}
use cmu_db_15445_project.Buffer.Arc.{
  ArcReplacer, FrameStatus, mfu_status, mru_status, promote, adapt_target, revive, trim_mru_ghost,
  trim_mfu_ghost, make_room, push_mru, record_access, fresh_status,
}
use cmu_db_15445_project.Buffer.Arc.Counts.{
  evictables, evictables-erase, evictables-update_absent, page_of,
}
use cmu_db_15445_project.Buffer.Arc.Invariant.{Inv}

-- No frame in memory holds the page.
abbrev pub IsAbsent : ArcReplacer → ℕ → Type 0
IsAbsent a p = (f : ℕ) → page_of (a.alive_map f) ≢ some p

module _ (a : ArcReplacer) (f : ℕ) (s : FrameStatus) (e : a.alive_map f ≡ some s) where
  promote-page_of : (g : ℕ) → page_of ((promote a f s).alive_map g) ≡ page_of (a.alive_map g)
  unfolding promote
  promote-page_of g = ground arith

  promote-counted :
      Inv a
      → (promote a f s).curr_size
        ≡ (evictables (promote a f s).alive_map (promote a f s).mru
            + evictables (promote a f s).alive_map (promote a f s).mfu)
          % word64
  unfolding promote
  promote-counted v =
      let v' : Option FrameStatus = some (record s { arc_status = mfu_status }) in
      ground (
        arith,
        v.counted,
        v.mru_frames f,
        v.mfu_frames f,
        v.alive_tags f,
        evictables-erase a.alive_map f a.mru,
        evictables-erase a.alive_map f a.mfu,
        count-erase f f a.mru,
        count-erase f f a.mfu,
        evictables-update_absent a.alive_map f v' (erase f a.mru),
        evictables-update_absent a.alive_map f v' a.mru,
        evictables-update_absent a.alive_map f v' (erase f a.mfu),
        evictables-update_absent a.alive_map f v' a.mfu,
      )

  promote-Inv : Inv a → Inv (promote a f s)
  unfolding promote
  promote-Inv v = record {
    mru_frames =
        λ g. ground (arith, v.mru_frames g, v.mfu_frames g, v.alive_tags g, count-erase g f a.mru);
    mfu_frames =
        λ g. ground (arith, v.mru_frames g, v.mfu_frames g, v.alive_tags g, count-erase g f a.mfu);
    alive_tags = λ g. ground (arith, v.alive_tags g);
    mru_pages = v.mru_pages;
    mfu_pages = v.mfu_pages;
    ghost_tags = v.ghost_tags;
    one_frame =
        λ g h p j k. v.one_frame g h p (sym (promote-page_of g) ∙ j) (sym (promote-page_of h) ∙ k);
    not_ghost = λ g p h. v.not_ghost g p (sym (promote-page_of g) ∙ h);
    counted = promote-counted v;
    target = v.target;
  }

module _ (a : ArcReplacer) where
  -- A page whose tag is `mru_ghost_status` stands in that list, so no division by zero is met.
  pub adapt_target-le :
      (p : ℕ) (g : FrameStatus)
      → Inv a
      → a.ghost_map p ≡ some g
      → Returns (adapt_target a g.arc_status) (λ t. t ≤ a.replacer_size)
  unfolding adapt_target
  adapt_target-le p g v e =
      ground (arith, v.target, v.mru_pages p, v.ghost_tags p, count-le-length p a.mru_ghost)

  module _ (f p : ℕ) (g : FrameStatus) (t : ℕ) (new : a.alive_map f ≡ none)
      (e : a.ghost_map p ≡ some g) where
    revive-page_of :
        (h : ℕ)
        → page_of ((revive a f p g t).alive_map h)
          ≡ (if f == h then some p else page_of (a.alive_map h))
    unfolding revive
    revive-page_of h = ground arith

    revive-counted :
        Inv a
        → (revive a f p g t).curr_size
          ≡ (evictables (revive a f p g t).alive_map (revive a f p g t).mru
              + evictables (revive a f p g t).alive_map (revive a f p g t).mfu)
            % word64
    unfolding revive
    revive-counted v =
        let v' : Option FrameStatus = some (fresh_status p f mfu_status) in
        ground (
          arith,
          v.counted,
          v.mru_frames f,
          v.mfu_frames f,
          evictables-update_absent a.alive_map f v' a.mru,
          evictables-update_absent a.alive_map f v' a.mfu,
        )

    revive-Inv : Inv a → IsAbsent a p → t ≤ a.replacer_size → Inv (revive a f p g t)
    unfolding revive
    revive-Inv v absent bound = record {
      mru_frames = λ h. ground (arith, v.mru_frames h);
      mfu_frames = λ h. ground (arith, v.mfu_frames h);
      alive_tags = λ h. ground (arith, v.alive_tags h);
      mru_pages = λ q.
          ground (arith, v.mru_pages q, v.mfu_pages q, v.ghost_tags q, count-erase q p a.mru_ghost);
      mfu_pages = λ q.
          ground (arith, v.mru_pages q, v.mfu_pages q, v.ghost_tags q, count-erase q p a.mfu_ghost);
      ghost_tags = λ q. ground (arith, v.ghost_tags q);
      one_frame = λ h k q i j.
          ground (arith, v.one_frame h k q, absent h, absent k, revive-page_of h, revive-page_of k);
      not_ghost = λ h q i. ground (arith, v.not_ghost h q, absent h, revive-page_of h);
      counted = revive-counted v;
      target = bound;
    }

trim_mru_ghost-Inv : (a : ArcReplacer) → Inv a → Inv (trim_mru_ghost a)
unfolding trim_mru_ghost
trim_mru_ghost-Inv a v = elim (Option-cases (back a.mru_ghost)) [
  | inl e ↦ rw (e, trim_mru_ghost) v
  | inr (b, e) ↦
      rw (e, trim_mru_ghost)
        (record {
          mru_frames = v.mru_frames;
          mfu_frames = v.mfu_frames;
          alive_tags = v.alive_tags;
          mru_pages = λ q. ground (
            arith,
            v.mru_pages q,
            v.ghost_tags q,
            count-back a.mru_ghost e,
            count-pop_back q a.mru_ghost e,
          );
          mfu_pages = λ q. ground (
            arith,
            v.mru_pages q,
            v.mfu_pages q,
            v.ghost_tags q,
            count-back a.mru_ghost e,
            count-pop_back q a.mru_ghost e,
          );
          ghost_tags = λ q. ground (arith, v.ghost_tags q);
          one_frame = v.one_frame;
          not_ghost = λ h q i. ground (arith, v.not_ghost h q i);
          counted = v.counted;
          target = v.target;
        })
]

trim_mfu_ghost-Inv : (a : ArcReplacer) → Inv a → Inv (trim_mfu_ghost a)
unfolding trim_mfu_ghost
trim_mfu_ghost-Inv a v = elim (Option-cases (back a.mfu_ghost)) [
  | inl e ↦ rw (e, trim_mfu_ghost) v
  | inr (b, e) ↦
      rw (e, trim_mfu_ghost)
        (record {
          mru_frames = v.mru_frames;
          mfu_frames = v.mfu_frames;
          alive_tags = v.alive_tags;
          mru_pages = λ q. ground (
            arith,
            v.mru_pages q,
            v.mfu_pages q,
            v.ghost_tags q,
            count-back a.mfu_ghost e,
            count-pop_back q a.mfu_ghost e,
          );
          mfu_pages = λ q. ground (
            arith,
            v.mfu_pages q,
            v.ghost_tags q,
            count-back a.mfu_ghost e,
            count-pop_back q a.mfu_ghost e,
          );
          ghost_tags = λ q. ground (arith, v.ghost_tags q);
          one_frame = v.one_frame;
          not_ghost = λ h q i. ground (arith, v.not_ghost h q i);
          counted = v.counted;
          target = v.target;
        })
]

make_room-Inv : (a : ArcReplacer) → Inv a → Inv (make_room a)
unfolding make_room
make_room-Inv a v = ground (arith, trim_mru_ghost-Inv a v, trim_mfu_ghost-Inv a v, v)

-- Making room keeps the frames, and brings no page into a ghost list.
pub make_room-keeps :
    (a : ArcReplacer)
    → ((make_room a).alive_map ≡ a.alive_map)
      × ((make_room a).mru ≡ a.mru)
      × ((make_room a).mfu ≡ a.mfu)
      × ((make_room a).curr_size ≡ a.curr_size)
      × ((p : ℕ) → a.ghost_map p ≡ none → (make_room a).ghost_map p ≡ none)
      × ((make_room a).replacer_size ≡ a.replacer_size)
unfolding make_room trim_mru_ghost trim_mfu_ghost
make_room-keeps a =
    (ground arith, ground arith, ground arith, ground arith, λ p h. ground arith, ground arith)

module _ (a : ArcReplacer) (f p : ℕ) (new : a.alive_map f ≡ none) (e : a.ghost_map p ≡ none) where
  push_mru-Inv : Inv a → IsAbsent a p → Inv (push_mru a f p)
  push_mru-Inv v absent =
      let v' : Option FrameStatus = some (fresh_status p f mru_status) in
      record {
        mru_frames = λ h. ground (arith, v.mru_frames h);
        mfu_frames = λ h. ground (arith, v.mfu_frames h);
        alive_tags = λ h. ground (arith, v.alive_tags h);
        mru_pages = v.mru_pages;
        mfu_pages = v.mfu_pages;
        ghost_tags = v.ghost_tags;
        one_frame = λ h k q i j. ground (arith, v.one_frame h k q, absent h, absent k);
        not_ghost = λ h q i. ground (arith, v.not_ghost h q, absent h);
        counted = ground (
          arith,
          v.counted,
          v.mru_frames f,
          v.mfu_frames f,
          evictables-update_absent a.alive_map f v' a.mru,
          evictables-update_absent a.alive_map f v' a.mfu,
        );
        target = v.target;
      }

-- On a valid replacer, `RecordAccess` keeps the invariant on every case and never divides by zero, if a frame that is
-- new to the replacer is given a page that no frame holds.
pub record_access-Inv :
    (a : ArcReplacer) (f p : ℕ)
    → Inv a
    → (a.alive_map f ≡ none → IsAbsent a p)
    → Returns (record_access a f p) Inv
unfolding record_access
record_access-Inv a f p v fresh = elim (Option-cases (a.alive_map f)) [
  | inr (s, e) ↦ rw (e, record_access) (promote-Inv a f s e v)
  | inl e ↦ elim (Option-cases (a.ghost_map p)) [
    | inr (g, h) ↦
        rw (e, h, record_access)
          (Returns-bind (adapt_target a g.arc_status) _ (λ t. t ≤ a.replacer_size) Inv
            (adapt_target-le a p g v h) (λ t b. revive-Inv a f p g t e h v (fresh e) b))
    | inl h ↦
        rw (e, h, record_access)
          (let k = make_room-keeps a in
            push_mru-Inv (make_room a) f p (ap (λ (m : ℕ → Option FrameStatus). m f) k.0 ∙ e)
              (k.4 p h) (make_room-Inv a v) (rw (k.0) (fresh e)))
  ]
]
