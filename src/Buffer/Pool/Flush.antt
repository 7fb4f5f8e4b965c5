-- ===== src/Buffer/Pool/Flush.antt =====
-- Flushing: the bytes of pages in the pool go to disk.
use cmu_db_15445_project.Prelude.{
  ℕ, ◌≡◌, true, false, none, some, List, [], ◌∷◌, arith, refl, sym, ◌∙◌, inl, inr, Option-cases,
  Bool-cases, ◌==◌, ==_iff,
}
use cmu_db_15445_project.Prelude.Assoc.{lookup}
use cmu_db_15445_project.Buffer.Disk.{DiskManager, write_content}
use cmu_db_15445_project.Buffer.Pool.{
  Pool, set_frame, flush_page_unsafe, flush_entries, flush_all_pages_unsafe,
}
use cmu_db_15445_project.Buffer.Pool.Invariant.{Inv, memory}

module _ {Data : Type 0} (zeros : Data) (D : DiskManager Data) where
  -- A flush keeps the invariant, the memory, the page table, and every frame but for dirty flags.
  pub record Flushes (s s' : Pool zeros D) : Type 0 where
    pub inv : Inv zeros D 0 s'
    pub same : (q : ℕ) → memory zeros D s' q ≡ memory zeros D s q
    pub table : s'.page_table ≡ s.page_table
    pub pins : (f : ℕ) → (s'.frames f).pin_count ≡ (s.frames f).pin_count
    pub readers : (f : ℕ) → (s'.frames f).readers ≡ (s.frames f).readers
    pub writers : (f : ℕ) → (s'.frames f).writer ≡ (s.frames f).writer
    pub reverse_map : s'.frame_to_page ≡ s.frame_to_page
    pub saved :
        (q : ℕ) → D.content s.disk q ≡ memory zeros D s q → D.content s'.disk q ≡ memory zeros D s q

  module _ (s : Pool zeros D) (p f : ℕ) (v : Inv zeros D 0 s)
      (e : lookup p s.page_table ≡ some f) where
    cleaned : Pool zeros D
    cleaned = record s {
      disk = D.write_page s.disk p (s.frames f).page_data;
      frames = set_frame s.frames f (record (s.frames f) { is_dirty = false });
    }

    cleaned-Inv : Inv zeros D 0 cleaned
    unfolding cleaned
    cleaned-Inv = record {
      arc = v.arc;
      mapped = v.mapped;
      listed = v.listed;
      pages = v.pages;
      free = λ g k. ground (arith, v.free g);
      free_once = v.free_once;
      unpinned = λ g k. ground (arith, v.unpinned g);
      number = v.number;
      capacity = v.capacity;
      clean = λ q g k j. ground (
        arith,
        v.clean q g,
        v.mapped q g,
        v.mapped p f,
        v.listed q f,
        write_content D s.disk p q (s.frames f).page_data,
      );
    }

    cleaned-Flushes : Flushes s cleaned
    unfolding cleaned
    cleaned-Flushes = record {
      inv = cleaned-Inv;
      same = λ q. ground (arith, v.mapped q f, write_content D s.disk p q (s.frames f).page_data);
      table = refl;
      pins = λ g. ground arith;
      readers = λ g. ground arith;
      writers = λ g. ground arith;
      reverse_map = refl;
      saved = λ q h. ground (arith, write_content D s.disk p q (s.frames f).page_data);
    }

    cleaned-saves : D.content cleaned.disk p ≡ memory zeros D s p
    unfolding cleaned
    cleaned-saves = ground (arith, write_content D s.disk p p (s.frames f).page_data)

  Flushes-refl : (s : Pool zeros D) → Inv zeros D 0 s → Flushes s s
  Flushes-refl s v = record {
    inv = v;
    same = λ q. refl;
    table = refl;
    pins = λ f. refl;
    readers = λ f. refl;
    writers = λ f. refl;
    reverse_map = refl;
    saved = λ q h. h;
  }

  -- On a pool that satisfies the invariant, `FlushPageUnsafe` returns whether the page is in the
  -- pool. It keeps the invariant, the page
  -- table, the pins and the bytes of every page, and then the disk holds the bytes of the page.
  pub flush_page_unsafe-Flushes :
      (s : Pool zeros D) (p : ℕ)
      → Inv zeros D 0 s
      → Flushes s (flush_page_unsafe zeros D s p).0
        × (D.content (flush_page_unsafe zeros D s p).0.disk p ≡ memory zeros D s p)
        × ((flush_page_unsafe zeros D s p).1
            ≡ (elim (lookup p s.page_table) [ none ↦ false | some f ↦ true ]))
  unfolding flush_page_unsafe cleaned
  flush_page_unsafe-Flushes s p v = elim (Option-cases (lookup p s.page_table)) [
    | inl e ↦ rw (e, flush_page_unsafe) (Flushes-refl s v, ground arith, refl)
    | inr (f, e) ↦ elim (Bool-cases (s.frames f).is_dirty) [
      | inl d ↦
          rw (e, flush_page_unsafe, d) (cleaned-Flushes s p f v e, cleaned-saves s p f v e, refl)
      | inr d ↦
          rw (e, flush_page_unsafe, d) (Flushes-refl s v, ground (arith, v.clean p f e d), refl)
    ]
  ]

  Flushes-trans : (s t u : Pool zeros D) → Flushes s t → Flushes t u → Flushes s u
  Flushes-trans s t u h k = record {
    inv = k.inv;
    same = λ q. k.same q ∙ h.same q;
    table = k.table ∙ h.table;
    pins = λ f. k.pins f ∙ h.pins f;
    readers = λ f. k.readers f ∙ h.readers f;
    writers = λ f. k.writers f ∙ h.writers f;
    reverse_map = k.reverse_map ∙ h.reverse_map;
    saved = λ q e. k.saved q (h.saved q e ∙ sym (h.same q)) ∙ h.same q;
  }

  flush_entries-Flushes :
      (l : List (ℕ × ℕ)) (s : Pool zeros D)
      → Inv zeros D 0 s
      → Flushes s (flush_entries zeros D l s)
        × ((q f : ℕ)
            → lookup q l ≡ some f
            → D.content (flush_entries zeros D l s).disk q ≡ memory zeros D s q)
  unfolding flush_entries
  flush_entries-Flushes [] s v = (Flushes-refl s v, λ q f h. cc)
  flush_entries-Flushes ((p, g) ∷ l) s v =
      let t = (flush_page_unsafe zeros D s p).0 in
      let (h, here, _) = flush_page_unsafe-Flushes s p v in
      let (k, rest) = flush_entries-Flushes l t h.inv in
      (
        Flushes-trans s t _ h k,
        λ q f e. elim (Bool-cases (p == q)) [
          | inl same ↦
              let eq : p ≡ q = (==_iff p q).0 same in
              rw (← eq) (k.saved p (here ∙ sym (h.same p)) ∙ h.same p)
          | inr other ↦ rest q f (ground arith) ∙ h.same q
        ],
      )

  -- On a pool that satisfies the invariant, `FlushAllPagesUnsafe` keeps it, the page table, the pins and the bytes of every
  -- page, and then the disk holds the bytes of every page.
  pub flush_all_pages_unsafe-saves :
      (s : Pool zeros D)
      → Inv zeros D 0 s
      → Flushes s (flush_all_pages_unsafe zeros D s)
        × ((q : ℕ) → D.content (flush_all_pages_unsafe zeros D s).disk q ≡ memory zeros D s q)
  unfolding flush_all_pages_unsafe
  flush_all_pages_unsafe-saves s v =
      let (h, saved) = flush_entries-Flushes s.page_table s v in
      (
        h,
        λ q. elim (Option-cases (lookup q s.page_table)) [
          | inl e ↦ h.saved q (ground arith)
          | inr (f, e) ↦ saved q f e
        ],
      )
