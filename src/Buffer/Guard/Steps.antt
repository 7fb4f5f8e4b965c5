-- ===== src/Buffer/Guard/Steps.antt =====
-- Every step of every thread keeps the invariant.
use mathlib.Core.Path.{subst}
use cmu_db_15445_project.Prelude.{
  ℕ, ◌+◌, ◌*◌, ◌<◌, ◌≡◌, ◌≢◌, Bool, true, false, none, some, [], ◌∷◌, length, get_elem?, le-total,
  total-le-length, arith, refl, ap, ◌∙◌, sym, inl, inr, ◌⊎◌, Bool-cases, if◌then◌else◌, ◌==◌,
  ==_iff, ltb, ok, crash, Outcome, Returns,
}
use cmu_db_15445_project.Prelude.Assoc.{lookup}
use cmu_db_15445_project.Prelude.Words.{word64}
use cmu_db_15445_project.Buffer.Disk.{DiskManager}
use cmu_db_15445_project.Buffer.Arc.{is_evictable}
use cmu_db_15445_project.Buffer.Pool.{Pool, init, fetch, delete_page, flush_page_unsafe}
use cmu_db_15445_project.Buffer.Pool.Invariant
use cmu_db_15445_project.Buffer.Pool.Invariant.{memory, init-Inv}
use cmu_db_15445_project.Buffer.Pool.Fetch.{Fetched, fetch-Fetched}
use cmu_db_15445_project.Buffer.Pool.Flush.{flush_page_unsafe-Flushes}
use cmu_db_15445_project.Buffer.Pool.Delete.{Deletes, delete_page_cases, delete_page-race}
use cmu_db_15445_project.Buffer.Guard.{
  Guard, Kind, waiting, holding, World, Step, Reach, opens, fails, latches, writes, flushes,
  unlatches, unpins, settles, deletes, here, next, flush, write_bytes, IsMarked, AllMarked,
}
use cmu_db_15445_project.Buffer.Guard.Invariant.{Inv, pins_of, one_if, pins_of-le, put_frame-Inv}
use cmu_db_15445_project.Buffer.Guard.Phases.{latches-Inv, unlatches-Inv, unpins-Inv, settles-Inv}

pub Returns-eq :
    {A : Type 0} (m : Outcome A) (P : A → Type 0) (a : A) → Returns m P → m ≡ ok a → P a
Returns-eq (ok b) P a h e = let same : b ≡ a = cc in subst P same h
Returns-eq crash P a h e = cc

ℕ_cases : (n : ℕ) → (n ≡ 0) ⊎ ((m : ℕ) × (n ≡ ℕ.suc m))
ℕ_cases ℕ.zero = inl refl
ℕ_cases (ℕ.suc m) = inr (m, refl)

module _ {Data : Type 0} (zeros : Data) (D : DiskManager Data) (w : World zeros D)
    (v : Inv zeros D w) where
  -- The pool changes, but neither the counts nor the pages of the frames that are in use.
  pool-Inv :
      (s : Pool zeros D)
      → Invariant.Inv zeros D 0 s
      → ((f : ℕ)
          → ((s.frames f).readers ≡ (w.pool.frames f).readers)
            × ((s.frames f).writer ≡ (w.pool.frames f).writer)
            × ((s.frames f).pin_count ≡ (w.pool.frames f).pin_count)
            × (0 < (w.pool.frames f).pin_count → s.frame_to_page f ≡ w.pool.frame_to_page f))
      → Inv zeros D (record w { pool = s })
  pool-Inv s pool same = record {
    pool = pool;
    small = v.small;
    pins = λ f. (same f).2 ∙ v.pins f;
    readers = λ f. (same f).0 ∙ v.readers f;
    writers = λ f. ap one_if (same f).1 ∙ v.writers f;
    alone = λ f h. (same f).0 ∙ v.alone f (sym (same f).1 ∙ h);
    resident = λ i g e p.
        (same g.frame).3
          (omega (arith, p, v.pins g.frame, le-total (pins_of g.frame) w.guards i g e))
        ∙ v.resident i g e p;
  }

  fails-Inv :
      (s : Pool zeros D) (p : ℕ)
      → fetch zeros D w.pool p ≡ ok (s, none)
      → Inv zeros D (record w { pool = s })
  fails-Inv s p e =
      let h =
        Returns-eq _ (Fetched zeros D w.pool p) (s, none) (fetch-Fetched zeros D w.pool p v.pool)
          e in
      rw h.0 v

  writes-Inv :
      (f : ℕ) (bytes : Data)
      → (w.pool.frames f).is_dirty ≡ true
      → Inv zeros D (record w { pool = write_bytes zeros D w.pool f bytes })
  unfolding write_bytes
  writes-Inv f bytes d =
      pool-Inv (write_bytes zeros D w.pool f bytes)
        (put_frame-Inv zeros D w.pool f v.pool _ (λ z. z) (λ c. cc))
        (λ g. (ground arith, ground arith, ground arith, λ h. refl))

  pub flush-eq :
      (p f : ℕ)
      → lookup p w.pool.page_table ≡ some f
      → flush zeros D w.pool p f ≡ (flush_page_unsafe zeros D w.pool p).0
  unfolding flush flush_page_unsafe
  flush-eq p f e = elim (Bool-cases (w.pool.frames f).is_dirty) [
    | inl d ↦ rw (e, d, flush, flush_page_unsafe) refl
    | inr d ↦ rw (e, d, flush, flush_page_unsafe) refl
  ]

  flushes-Inv :
      (i : ℕ) (g : Guard)
      → get_elem? w.guards i ≡ some g
      → g.phase ≡ holding
      → Inv zeros D (record w { pool = flush zeros D w.pool g.page_id g.frame })
  flushes-Inv i g e ph =
      let here = v.pool.listed g.page_id g.frame (v.resident i g e (ground arith)) in
      let (h, _, _) = flush_page_unsafe-Flushes zeros D w.pool g.page_id v.pool in
      rw (flush-eq g.page_id g.frame here) (
        pool-Inv _ h.inv
          (λ f. (h.readers f, h.writers f, h.pins f, λ _. ap (λ m. m f) h.reverse_map)))

  settled :
      (p f : ℕ) (s : Pool zeros D) (b : Bool)
      → delete_page zeros D w.pool p ≡ ok (s, b)
      → lookup p w.pool.page_table ≡ some f
      → (0 < (w.pool.frames f).pin_count) ⊎ (is_evictable (w.pool.replacer.alive_map f) ≡ true)
  settled p f s b e k = elim (Bool-cases (is_evictable (w.pool.replacer.alive_map f))) [
    | inl t ↦ inr t
    | inr t ↦ elim (Bool-cases (ltb 0 (w.pool.frames f).pin_count)) [
      | inl c ↦ inl (ground arith)
      | inr c ↦
          let gone = delete_page-race zeros D w.pool p f v.pool k (ground arith) t in absurd (cc)
    ]
  ]

  module _ (s : Pool zeros D) (p : ℕ) (b : Bool)
      (e : delete_page zeros D w.pool p ≡ ok (s, b)) where
    deleted_cases :
        ((b ≡ true) × Deletes zeros D w.pool p s)
        ⊎ ((b ≡ false)
            × (s ≡ w.pool)
            × ((f : ℕ) × (lookup p w.pool.page_table ≡ some f) × (0 < (w.pool.frames f).pin_count)))
    deleted_cases =
        Returns-eq _ _ (s, b) (delete_page_cases zeros D w.pool p v.pool (λ f. settled p f s b e)) e

    deletes-Inv : Inv zeros D (record w { pool = s })
    deletes-Inv = elim deleted_cases [
      | inl (_, h) ↦ pool-Inv s h.0 h.3
      | inr (_, same, _) ↦ rw same v
    ]

    pub deletes-memory : (q : ℕ) → p ≢ q → memory zeros D s q ≡ memory zeros D w.pool q
    deletes-memory q n = elim deleted_cases [
      | inl (_, h) ↦ h.2 q n
      | inr (_, same, _) ↦ rw same refl
    ]

  module _ (s : Pool zeros D) (p f : ℕ) (h : Fetched zeros D w.pool p (s, some f)) where
    same_latch :
        (x : ℕ)
        → ((s.frames x).readers ≡ (w.pool.frames x).readers)
          × ((s.frames x).writer ≡ (w.pool.frames x).writer)
    same_latch x = elim (Bool-cases (f == x)) [
      | inl b ↦ let e : f ≡ x = (==_iff f x).0 b in rw (← e) h.4
      | inr b ↦ let e = (h.3 x (ground arith)).0 in rw e (refl, refl)
    ]

    one_pin :
        (x : ℕ)
        → length w.guards + 1 < word64
        → (s.frames x).pin_count ≡ (w.pool.frames x).pin_count + (if f == x then 1 else 0)
    one_pin x small = elim (Bool-cases (f == x)) [
      | inl b ↦
          let e : f ≡ x = (==_iff f x).0 b in
          let few : (w.pool.frames f).pin_count + 1 < word64 =
            omega (arith, v.pins f, small, total-le-length (pins_of f) w.guards (pins_of-le f)) in
          elim h.5 [
            | inl (_, c) ↦ rw (← e) (ground arith)
            | inr (_, z, c) ↦ rw (← e) (ground arith)
          ]
      | inr b ↦ let e = (h.3 x (ground arith)).0 in rw e (ground arith)
    ]

    same_page :
        (x : ℕ) → 0 < (w.pool.frames x).pin_count → s.frame_to_page x ≡ w.pool.frame_to_page x
    same_page x c = elim (Bool-cases (f == x)) [
      | inl b ↦
          let e : f ≡ x = (==_iff f x).0 b in
          elim h.5 [
            | inl (k, _) ↦ rw (← e) (h.0.mapped p f h.2 ∙ sym (v.pool.mapped p f k))
            | inr (_, z, _) ↦ absurd (ground arith)
          ]
      | inr b ↦ (h.3 x (ground arith)).1
    ]

    opened-Inv :
        (k : Kind)
        → length w.guards + 1 < word64
        → Inv zeros D (record {
          pool = s;
          guards = record { page_id = p; frame = f; kind = k; phase = waiting } ∷ w.guards;
        })
    opened-Inv k small = record {
      pool = h.0;
      small = omega (arith, small);
      pins = λ x. ground (arith, one_pin x small, v.pins x);
      readers = λ x. ground (arith, same_latch x, v.readers x);
      writers = λ x. ground (arith, same_latch x, v.writers x);
      alone = λ x c. ground (arith, same_latch x, v.alone x);
      resident = λ i g c q. elim (ℕ_cases i) [
        | inl z ↦
            let e : record { page_id = p; frame = f; kind = k; phase = waiting } ≡ g =
              ground (arith) in
            subst (λ g. s.frame_to_page g.frame ≡ some g.page_id) e (h.0.mapped p f h.2)
        | inr (j, z) ↦
            let there : get_elem? w.guards j ≡ some g = rw z at c in
            same_page g.frame
              (omega (arith, q, v.pins g.frame, le-total (pins_of g.frame) w.guards j g there))
            ∙ v.resident j g there q
      ];
    }

  opens-Inv :
      (s : Pool zeros D) (p f : ℕ) (k : Kind)
      → length w.guards + 1 < word64
      → fetch zeros D w.pool p ≡ ok (s, some f)
      → Inv zeros D (record {
        pool = s;
        guards = record { page_id = p; frame = f; kind = k; phase = waiting } ∷ w.guards;
      })
  opens-Inv s p f k small e =
      opened-Inv s p f
        (Returns-eq _ (Fetched zeros D w.pool p) (s, some f) (fetch-Fetched zeros D w.pool p v.pool)
          e)
        k small

module _ {Data : Type 0} (zeros : Data) (D : DiskManager Data) where
  Step-Inv :
      (w u : World zeros D)
      → Inv zeros D w
      → (step : Step zeros D w u) → IsMarked zeros D step
      → Inv zeros D u
  Step-Inv w _ v (opens {s} p f k small e) m = opens-Inv zeros D w v s p f k small e
  Step-Inv w _ v (fails {s} p e) m = fails-Inv zeros D w v s p e
  Step-Inv w _ v (latches {s} i g e ph h) m = latches-Inv zeros D w v i g e s ph h
  Step-Inv w _ v (writes i g bytes e ph k) d = writes-Inv zeros D w v g.frame bytes d
  Step-Inv w _ v (flushes i g e ph) m = flushes-Inv zeros D w v i g e ph
  Step-Inv w _ v (unlatches i g e ph) m = unlatches-Inv zeros D w v i g e ph
  Step-Inv w _ v (unpins i g e ph) m = unpins-Inv zeros D w v i g e ph
  Step-Inv w _ v (settles i g e ph) m = settles-Inv zeros D w v i g e ph
  Step-Inv w _ v (deletes {s} p b e) m = deletes-Inv zeros D w v s p b e

  -- From a state that satisfies the invariant, every interleaving of the threads' steps in which no
  -- write goes to a frame that is not marked dirty (so none comes after a `Flush` by the same guard)
  -- leads to one that does: the pool is consistent, a frame's pin count is the number of guards on it, its
  -- latch has as many holders as there are guards that hold it, never a writer beside a reader, and
  -- the frame of a pinning guard holds the guard's page.
  pub Reach-Inv :
      (w u : World zeros D)
      → Inv zeros D w
      → (r : Reach zeros D w u) → AllMarked zeros D r
      → Inv zeros D u
  Reach-Inv w _ v here m = v
  Reach-Inv w x v (next {u} r step) (m, marked) = Step-Inv u x (Reach-Inv w u v r m) step marked

  -- A new pool without guards.
  pub start-Inv :
      (n : ℕ) (d : D.State)
      → 2 * n < word64
      → Inv zeros D (record { pool = init zeros D n d; guards = [] })
  unfolding init
  start-Inv n d small = record {
    pool = (init-Inv zeros D n d small).0;
    small = omega arith;
    pins = λ f. refl;
    readers = λ f. refl;
    writers = λ f. refl;
    alone = λ f h. refl;
    resident = λ i g e p. cc;
  }
