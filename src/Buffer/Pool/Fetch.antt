-- ===== src/Buffer/Pool/Fetch.antt =====
-- `CheckedReadPage` and `CheckedWritePage` up to the guard.
use cmu_db_15445_project.Prelude.{
  ℕ, ◌+◌, ◌≡◌, false, Option, none, some, [], count, arith, refl, ◌∙◌, ◌⊎◌, inl, inr, Option-cases,
  ok, Returns, Returns-bind, ◌>>=◌, update,
}
use cmu_db_15445_project.Prelude.Assoc.{lookup, insert, lookup-insert}
use cmu_db_15445_project.Prelude.Words.{add64}
use cmu_db_15445_project.Buffer.Arc
use cmu_db_15445_project.Buffer.Arc.{ArcReplacer, is_evictable}
use cmu_db_15445_project.Buffer.Arc.Counts.{evictables}
use cmu_db_15445_project.Buffer.Arc.Client.{IsPinned, pin_known, pin_new}
use cmu_db_15445_project.Buffer.Disk.{DiskManager}
use cmu_db_15445_project.Buffer.Pool.{Pool, set_frame, hit, take_frame, load, fetch}
use cmu_db_15445_project.Buffer.Pool.Invariant.{Inv, memory}
use cmu_db_15445_project.Buffer.Pool.Taking.{Others, SameLatch, InHand, Taken, take_frame-Taken}

module _ {Data : Type 0} (zeros : Data) (D : DiskManager Data) where
  -- What `fetch` of page `p` does to a pool.
  abbrev pub Fetched : Pool zeros D → ℕ → Pool zeros D × Option ℕ → Type 0
  Fetched s p (s', none) =
      (s' ≡ s)
      × (lookup p s.page_table ≡ none)
      × (s.free_frames ≡ [])
      × (evictables s.replacer.alive_map s.replacer.mru
            + evictables s.replacer.alive_map s.replacer.mfu
          ≡ 0)
  Fetched s p (s', some f) =
      Inv zeros D 0 s'
      × ((q : ℕ) → memory zeros D s' q ≡ memory zeros D s q)
      × (lookup p s'.page_table ≡ some f)
      × Others zeros D s s' f
      × SameLatch zeros D s s' f
      × ((lookup p s.page_table ≡ some f)
            × ((s'.frames f).pin_count ≡ add64 (s.frames f).pin_count 1)
          ⊎ (lookup p s.page_table ≡ none)
            × ((s.frames f).pin_count ≡ 0)
            × ((s'.frames f).pin_count ≡ 1))

  module _ (s : Pool zeros D) (f p : ℕ) (v : Inv zeros D 0 s)
      (e : lookup p s.page_table ≡ some f) where
    pin_frame : ArcReplacer → Pool zeros D
    pin_frame r = record s {
      frames =
          set_frame s.frames f (record (s.frames f) { pin_count = add64 (s.frames f).pin_count 1 });
      replacer = r;
    }

    pin_frame-Inv : (r : ArcReplacer) → IsPinned s.replacer f p 0 r → Inv zeros D 0 (pin_frame r)
    unfolding pin_frame
    pin_frame-Inv r h = record {
      arc = h.sound;
      mapped = v.mapped;
      listed = v.listed;
      pages = λ g. ground (arith, h.pages g, v.pages g, v.mapped p f);
      free = λ g k. ground (arith, v.free g, v.mapped p f);
      free_once = v.free_once;
      unpinned = λ g k. ground (arith, h.flags g, v.unpinned g);
      number = omega (arith, h.number, v.number);
      capacity = h.capacity ∙ v.capacity;
      clean = λ q g k j. ground (arith, v.clean q g);
    }

    pin_frame-memory :
        (r : ArcReplacer) (q : ℕ) → memory zeros D (pin_frame r) q ≡ memory zeros D s q
    unfolding pin_frame
    pin_frame-memory r q = ground arith

    hit-Fetched : Returns (hit zeros D s f p) (λ s'. Fetched s p (s', some f))
    unfolding hit pin_frame
    hit-Fetched =
        Returns-bind _ _ (IsPinned s.replacer f p 0) _
          (pin_known s.replacer f p v.arc (v.pages f ∙ v.mapped p f e))
          (λ r h. (
            pin_frame-Inv r h,
            pin_frame-memory r,
            e,
            λ g n. (ground arith, refl),
            (ground arith, ground arith),
            inl (e, ground arith),
          ))

  module _ (s : Pool zeros D) (f p : ℕ) (v : Inv zeros D 1 s) (new : s.frame_to_page f ≡ none)
      (e : lookup p s.page_table ≡ none) where
    put_page : ArcReplacer → Pool zeros D
    put_page r =
        let (disk', bytes) = D.read_page s.disk p in
        record s {
          disk = disk';
          page_table = insert p f s.page_table;
          frame_to_page = update s.frame_to_page f (some p);
          frames = set_frame s.frames f (record (s.frames f) { page_data = bytes; pin_count = 1 });
          replacer = r;
        }

    put_page-memory : (r : ArcReplacer) (q : ℕ) → memory zeros D (put_page r) q ≡ memory zeros D s q
    unfolding put_page
    put_page-memory r q = ground (
      arith,
      lookup-insert q p f s.page_table,
      v.mapped q f,
      D.read_content s.disk p,
      D.read_keeps s.disk p q,
    )

    put_page-Inv :
        (r : ArcReplacer)
        → IsPinned s.replacer f p 1 r
        → count f s.free_frames ≡ 0
        → Inv zeros D 0 (put_page r)
    unfolding put_page
    put_page-Inv r h c = record {
      arc = h.sound;
      mapped =
          λ q g k. ground (arith, v.mapped q g, v.listed q f, lookup-insert q p f s.page_table);
      listed = λ q g k. ground (arith, v.listed q g, lookup-insert q p f s.page_table);
      pages = λ g. ground (arith, h.pages g, v.pages g);
      free = λ g k. ground (arith, v.free g);
      free_once = v.free_once;
      unpinned = λ g k. ground (arith, h.flags g, v.unpinned g);
      number = omega (arith, h.number, v.number);
      capacity = h.capacity ∙ v.capacity;
      clean = λ q g k j. ground (
        arith,
        v.clean q g,
        v.mapped q g,
        lookup-insert q p f s.page_table,
        D.read_content s.disk p,
        D.read_keeps s.disk p q,
      );
    }

  load-Fetched :
      (s t : Pool zeros D) (f p : ℕ)
      → lookup p s.page_table ≡ none
      → InHand zeros D s t f
      → Returns (load zeros D t f p) (λ s'. Fetched s p (s', some f))
  unfolding load put_page
  load-Fetched s t f p e (v, same, new, c, others, latch, gone, unpinned) =
      Returns-bind (Arc.record_access t.replacer f p) _
        (λ r. IsPinned t.replacer f p 1 (Arc.set_evictable r f false)) _
        (pin_new t.replacer f p v.arc (ground (arith, v.pages f))
          (λ g h. ground (arith, v.pages g, v.listed p g, gone p e))
          (omega (arith, v.number, v.capacity)))
        (λ r h.
          let r' = Arc.set_evictable r f false in
          (
            put_page-Inv t f p v new (gone p e) r' h c,
            (λ q. put_page-memory t f p v new (gone p e) r' q ∙ same q),
            rw (lookup-insert p p f t.page_table) (ground arith),
            (λ g n. (ground (arith, (others g n).0), ground (arith, (others g n).1))),
            (ground (arith, latch.0), ground (arith, latch.1)),
            inr (e, unpinned, ground arith),
          ))

  -- On a pool that satisfies the invariant, `CheckedReadPage` and `CheckedWritePage`, before they
  -- make a guard, do not crash. They keep
  -- the invariant and the bytes of every page. They return a frame that holds the page, pinned once
  -- more if the page was in the pool, or else pinned once, taken from the free frames or from those
  -- that were not pinned; all other frames stay as they
  -- are, and no latch is touched. They return nothing only if the page
  -- is not in the pool, no frame is free and none may be evicted, and then change nothing.
  pub fetch-Fetched :
      (s : Pool zeros D) (p : ℕ) → Inv zeros D 0 s → Returns (fetch zeros D s p) (Fetched s p)
  unfolding fetch
  fetch-Fetched s p v = elim (Option-cases (lookup p s.page_table)) [
    | inr (f, e) ↦
        rw (e, fetch)
          (Returns-bind (hit zeros D s f p) _ (λ s'. Fetched s p (s', some f)) (Fetched s p)
            (hit-Fetched s f p v e) (λ s' h. h))
    | inl e ↦
        rw (e, fetch)
          (Returns-bind (take_frame zeros D s) _ (Taken zeros D s) (Fetched s p)
            (take_frame-Taken zeros D s v) (λ t. loaded t.0 t.1 e))
  ]
    where
      loaded :
          (t : Pool zeros D) (o : Option ℕ)
          → lookup p s.page_table ≡ none
          → Taken zeros D s (t, o)
          → Returns
              (elim o [
                | none ↦ ok (t, none)
                | some f ↦ load zeros D t f p >>= λ s'. ok (s', some f)
              ])
              (Fetched s p)
      loaded t none e h = (h.0, e, h.1, h.2)
      loaded t (some f) e h =
          Returns-bind (load zeros D t f p) _ (λ s'. Fetched s p (s', some f)) (Fetched s p)
            (load-Fetched s t f p e h) (λ s' k. k)
