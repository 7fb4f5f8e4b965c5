-- ===== src/Buffer/Pool/Delete.antt =====
-- `DeletePage`.
use cmu_db_15445_project.Prelude.{
  ℕ, ◌<◌, ◌≡◌, ◌≢◌, true, false, none, some, [], ◌∷◌, ◌++◌, count-append, length-append, arith,
  refl, ◌∙◌, ◌⊎◌, inl, inr, Option-cases, Bool-cases, ltb, update, crash, Returns, Returns-bind,
}
use cmu_db_15445_project.Prelude.Assoc.{lookup, erase_key, lookup-erase_key}
use cmu_db_15445_project.Buffer.Arc
use cmu_db_15445_project.Buffer.Arc.{ArcReplacer, is_evictable}
use cmu_db_15445_project.Buffer.Arc.Removal.{remove_cases}
use cmu_db_15445_project.Buffer.Arc.Client.{IsVacated, remove-IsVacated}
use cmu_db_15445_project.Buffer.Disk.{DiskManager}
use cmu_db_15445_project.Buffer.Pool.{Pool, set_frame, reset, delete_page}
use cmu_db_15445_project.Buffer.Pool.Invariant.{Inv, memory}

module _ {Data : Type 0} (zeros : Data) (D : DiskManager Data) where
  -- The page is gone from the pool, and the bytes of every other page are kept.
  abbrev pub Deletes : Pool zeros D → ℕ → Pool zeros D → Type 0
  Deletes s p s' =
      Inv zeros D 0 s'
      × (lookup p s'.page_table ≡ none)
      × ((q : ℕ) → p ≢ q → memory zeros D s' q ≡ memory zeros D s q)
      × ((g : ℕ)
          → ((s'.frames g).readers ≡ (s.frames g).readers)
            × ((s'.frames g).writer ≡ (s.frames g).writer)
            × ((s'.frames g).pin_count ≡ (s.frames g).pin_count)
            × (0 < (s.frames g).pin_count → s'.frame_to_page g ≡ s.frame_to_page g))

  module _ (s : Pool zeros D) (p f : ℕ) (v : Inv zeros D 0 s)
      (e : lookup p s.page_table ≡ some f) where
    freed : ArcReplacer → Pool zeros D
    freed r = record s {
      replacer = r;
      page_table = erase_key p s.page_table;
      frame_to_page = update s.frame_to_page f none;
      free_frames = s.free_frames ++ f ∷ [];
      frames = set_frame s.frames f (reset zeros (s.frames f));
      disk = D.delete_page s.disk p;
    }

    freed-Inv : (r : ArcReplacer) → IsVacated s.replacer f r → Inv zeros D 0 (freed r)
    unfolding freed
    freed-Inv r h = record {
      arc = h.sound;
      mapped = λ q g k. ground (
        arith,
        v.mapped q g,
        v.mapped p f,
        lookup-erase_key q p s.page_table,
        v.listed q g,
        v.listed p f,
      );
      listed = λ q g k.
          ground
            (arith, v.listed q g, v.listed p f, v.mapped p f, lookup-erase_key q p s.page_table);
      pages = λ g. ground (arith, h.pages g, v.pages g);
      free = λ g k. ground (arith, v.free g, count-append g s.free_frames (f ∷ []));
      free_once = λ g.
          ground
            (arith, v.free f, v.mapped p f, v.free_once g, count-append g s.free_frames (f ∷ []));
      unpinned = λ g k. ground (arith, h.flags g, v.unpinned g);
      number = omega (arith, h.number, v.number, length-append s.free_frames (f ∷ []));
      capacity = h.capacity ∙ v.capacity;
      clean = λ q g k j. ground (
        arith,
        v.clean q g,
        v.mapped q g,
        v.mapped p f,
        v.listed q f,
        lookup-erase_key q p s.page_table,
        D.delete_ne s.disk p q,
      );
    }

    freed-Deletes :
        (r : ArcReplacer)
        → IsVacated s.replacer f r
        → (s.frames f).pin_count ≡ 0
        → Deletes s p (freed r)
    unfolding freed
    freed-Deletes r h z = (
      freed-Inv r h,
      ground (arith, lookup-erase_key p p s.page_table),
      λ q n. ground (
        arith,
        v.mapped q f,
        v.mapped p f,
        lookup-erase_key q p s.page_table,
        D.delete_ne s.disk p q,
      ),
      λ g. (ground arith, ground arith, ground arith, λ k. ground arith),
    )

  absent-Deletes :
      (s : Pool zeros D) (p : ℕ)
      → Inv zeros D 0 s
      → lookup p s.page_table ≡ none
      → Deletes s p (record s { disk = D.delete_page s.disk p })
  absent-Deletes s p v e = (
    record {
      arc = v.arc;
      mapped = v.mapped;
      listed = v.listed;
      pages = v.pages;
      free = v.free;
      free_once = v.free_once;
      unpinned = v.unpinned;
      number = v.number;
      capacity = v.capacity;
      clean = λ q g k j. ground (arith, v.clean q g, D.delete_ne s.disk p q);
    },
    e,
    λ q n. ground (arith, D.delete_ne s.disk p q),
    λ g. (refl, refl, refl, λ k. refl),
  )

  -- On a pool that satisfies the invariant, `DeletePage` returns false and changes nothing if the page is in a pinned frame. If the page is
  -- not in the pool, or in a frame that the replacer may evict, it returns true: the page is gone,
  -- the other
  -- pages keep their bytes, every frame its latch and pins, and the invariant holds.
  pub delete_page_cases :
      (s : Pool zeros D) (p : ℕ)
      → Inv zeros D 0 s
      → ((f : ℕ)
          → lookup p s.page_table ≡ some f
          → (0 < (s.frames f).pin_count) ⊎ (is_evictable (s.replacer.alive_map f) ≡ true))
      → Returns (delete_page zeros D s p) (λ r.
        ((r.1 ≡ true) × Deletes s p r.0)
        ⊎ ((r.1 ≡ false)
            × (r.0 ≡ s)
            × ((f : ℕ) × (lookup p s.page_table ≡ some f) × (0 < (s.frames f).pin_count))))
  unfolding delete_page freed
  delete_page_cases s p v settled = elim (Option-cases (lookup p s.page_table)) [
    | inl e ↦ rw (e, delete_page) (inl (refl, absent-Deletes s p v e))
    | inr (f, e) ↦ elim (Bool-cases (ltb 0 (s.frames f).pin_count)) [
      | inl b ↦ rw (e, delete_page, b) (inr (refl, refl, (f, refl, ground arith)))
      | inr b ↦
          rw (e, delete_page, b)
            (Returns-bind (Arc.remove s.replacer f) _ (IsVacated s.replacer f) _
              (remove-IsVacated s.replacer f v.arc (ground (arith, settled f e)))
              (λ r h. inl (refl, freed-Deletes s p f v e r h (ground arith))))
    ]
  ]

  -- On a pool that satisfies the invariant, to delete a page whose frame is not pinned and which the
  -- replacer may not evict aborts the program.
  pub delete_page-race :
      (s : Pool zeros D) (p f : ℕ)
      → Inv zeros D 0 s
      → lookup p s.page_table ≡ some f
      → (s.frames f).pin_count ≡ 0
      → is_evictable (s.replacer.alive_map f) ≡ false
      → delete_page zeros D s p ≡ crash
  unfolding delete_page
  delete_page-race s p f v e z b = elim (remove_cases s.replacer f v.arc.0) [
    | inl (n, _) ↦ absurd (ground (arith, v.pages f, v.mapped p f))
    | inr (inl (t, n, _, c)) ↦ rw (e, delete_page, z, c)
    | inr (inr (t, n, y, _)) ↦ absurd (ground arith)
  ]
