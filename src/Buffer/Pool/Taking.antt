-- ===== src/Buffer/Pool/Taking.antt =====
-- A frame for a new page: a free one, or one that the replacer gives up.
use cmu_db_15445_project.Prelude.{
  ℕ, ◌+◌, ◌≤◌, ◌<◌, ◌≡◌, ◌≢◌, true, Option, none, some, List, [], ◌∷◌, length, count, arith, refl,
  ap, ◌∙◌, inl, inr, Option-cases, Bool-cases, ok, Returns, Returns-bind, if◌then◌else◌, ◌==◌,
}
use cmu_db_15445_project.Prelude.Assoc.{lookup, lookup-erase_key}
use cmu_db_15445_project.Buffer.Arc
use cmu_db_15445_project.Buffer.Arc.{ArcReplacer, is_evictable}
use cmu_db_15445_project.Buffer.Arc.Counts.{evictables}
use cmu_db_15445_project.Buffer.Arc.Client.{IsVacated, Vacates, evict-Vacates}
use cmu_db_15445_project.Buffer.Disk.{DiskManager, write_content}
use cmu_db_15445_project.Buffer.Pool.{Pool, unmap, take_frame}
use cmu_db_15445_project.Buffer.Pool.Invariant.{Inv, memory}

module _ {Data : Type 0} (zeros : Data) (D : DiskManager Data) where
  -- The frames other than `f` are left alone, with their pages.
  abbrev pub Others : Pool zeros D → Pool zeros D → ℕ → Type 0
  Others s s' f =
      (g : ℕ) → f ≢ g → (s'.frames g ≡ s.frames g) × (s'.frame_to_page g ≡ s.frame_to_page g)

  -- The latch of a frame is not touched.
  abbrev pub SameLatch : Pool zeros D → Pool zeros D → ℕ → Type 0
  SameLatch s s' f =
      ((s'.frames f).readers ≡ (s.frames f).readers) × ((s'.frames f).writer ≡ (s.frames f).writer)

  -- A frame in hand: neither free nor mapped.
  abbrev pub InHand : Pool zeros D → Pool zeros D → ℕ → Type 0
  InHand s t f =
      Inv zeros D 1 t
      × ((q : ℕ) → memory zeros D t q ≡ memory zeros D s q)
      × (t.frame_to_page f ≡ none)
      × (count f t.free_frames ≡ 0)
      × Others s t f
      × SameLatch s t f
      × ((q : ℕ) → lookup q s.page_table ≡ none → lookup q t.page_table ≡ none)
      × ((s.frames f).pin_count ≡ 0)

  take_free-InHand :
      (s : Pool zeros D) (f : ℕ) (rest : List ℕ)
      → Inv zeros D 0 s
      → s.free_frames ≡ f ∷ rest
      → InHand s (record s { free_frames = rest }) f
  take_free-InHand s f rest v e = (
    record {
      arc = v.arc;
      mapped = v.mapped;
      listed = v.listed;
      pages = v.pages;
      free = λ g h. v.free g (rw e (omega arith));
      free_once = λ g. omega (arith, once g);
      unpinned = v.unpinned;
      number = omega (arith, v.number, ap length e);
      capacity = v.capacity;
      clean = v.clean;
    },
    λ q. refl,
    (v.free f head_free).0,
    ground (arith, once f),
    λ g n. (refl, refl),
    (refl, refl),
    λ q h. h,
    (v.free f head_free).1,
  )
    where
      once : (g : ℕ) → count g (f ∷ rest) ≤ 1
      once g = rw e at (v.free_once g)

      head_free : 0 < count f s.free_frames
      head_free = rw e (ground arith)

  module _ (s : Pool zeros D) (f : ℕ) (r : ArcReplacer) (v : Inv zeros D 0 s)
      (h : IsVacated s.replacer f r) where
    evicted : Pool zeros D
    evicted = unmap zeros D (record s { replacer = r }) f

    module _ (p : ℕ) (e : s.frame_to_page f ≡ some p) where
      written : D.State
      written =
          if (s.frames f).is_dirty then D.write_page s.disk p (s.frames f).page_data else s.disk

      -- After the write-back the disk holds the frame's bytes, written now or unchanged since.
      written-content :
          (q : ℕ)
          → D.content written q ≡ (if p == q then (s.frames f).page_data else D.content s.disk q)
      unfolding written
      written-content q = elim (Bool-cases (s.frames f).is_dirty) [
        | inl d ↦ rw d (write_content D s.disk p q (s.frames f).page_data)
        | inr d ↦ rw d (ground (arith, v.clean p f, v.listed p f))
      ]

      evicted-memory : (q : ℕ) → memory zeros D evicted q ≡ memory zeros D s q
      unfolding evicted unmap written
      evicted-memory q =
          rw (e, unmap)
            (ground (
              arith,
              lookup-erase_key q p s.page_table,
              v.listed p f,
              written-content q,
              v.mapped q f,
            ))

      evicted-Inv : Inv zeros D 1 evicted
      unfolding evicted unmap written
      evicted-Inv =
          rw (e, unmap)
            (record {
              arc = h.sound;
              mapped = λ q g k. ground (
                arith,
                v.mapped q g,
                v.mapped p f,
                lookup-erase_key q p s.page_table,
                v.listed q g,
                v.listed p f,
              );
              listed = λ q g k.
                  ground (arith, v.listed q g, v.listed p f, lookup-erase_key q p s.page_table);
              pages = λ g. ground (arith, h.pages g, v.pages g);
              free = λ g k. ground (arith, v.free g);
              free_once = v.free_once;
              unpinned = λ g k. ground (arith, h.flags g, v.unpinned g);
              number = omega (arith, h.number, v.number);
              capacity = h.capacity ∙ v.capacity;
              clean = λ q g k j. ground (
                arith,
                v.clean q g,
                v.mapped q g,
                v.listed p f,
                lookup-erase_key q p s.page_table,
                written-content q,
              );
            })

      evicted-InHand : InHand s evicted f
      unfolding evicted unmap
      evicted-InHand = (
        evicted-Inv,
        evicted-memory,
        rw (e, unmap) (ground arith),
        rw (e, unmap) (ground (arith, v.free f)),
        λ g n. rw (e, unmap) (ground arith, ground arith),
        rw (e, unmap) (ground arith, ground arith),
        λ q k. rw (e, unmap) (ground (arith, lookup-erase_key q p s.page_table)),
        v.unpinned f h.known,
      )

  abbrev pub Taken : Pool zeros D → Pool zeros D × Option ℕ → Type 0
  Taken s (t, none) =
      (t ≡ s)
      × (s.free_frames ≡ [])
      × (evictables s.replacer.alive_map s.replacer.mru
            + evictables s.replacer.alive_map s.replacer.mfu
          ≡ 0)
  Taken s (t, some f) = InHand s t f

  module _ (s : Pool zeros D) (v : Inv zeros D 0 s) where
    -- A frame that the replacer may evict holds a page.
    evictable-page :
        (f : ℕ)
        → is_evictable (s.replacer.alive_map f) ≡ true
        → (p : ℕ) × (s.frame_to_page f ≡ some p)
    evictable-page f h = elim (Option-cases (s.frame_to_page f)) [
      | inr x ↦ x
      | inl e ↦ absurd (ground (arith, v.pages f))
    ]

    evict-Taken :
        (r : ArcReplacer) (o : Option ℕ)
        → s.free_frames ≡ []
        → Vacates s.replacer (r, o)
        → Returns
            (elim o [
              | none ↦ ok (record s { replacer = r }, none)
              | some f ↦ ok (unmap zeros D (record s { replacer = r }) f, some f)
            ])
            (Taken s)
    unfolding evicted
    evict-Taken r none e (same, z) = (λ i. record s { replacer = same i }, e, z)
    evict-Taken r (some f) e h =
        let (p, mapped) = evictable-page f h.known in evicted-InHand s f r v h p mapped

    pub take_frame-Taken : Returns (take_frame zeros D s) (Taken s)
    unfolding take_frame
    take_frame-Taken = go s.free_frames refl
      where
        go : (l : List ℕ) → s.free_frames ≡ l → Returns (take_frame zeros D s) (Taken s)
        go [] e =
            simp (e, take_frame)
              (Returns-bind (Arc.evict s.replacer) _ (Vacates s.replacer) (Taken s)
                (evict-Vacates s.replacer v.arc) (λ r h. evict-Taken r.0 r.1 e h))
        go (f ∷ rest) e = simp (e, take_frame) (take_free-InHand s f rest v e)
