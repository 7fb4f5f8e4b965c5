-- ===== src/Buffer/Guard/Latches.antt =====
-- bustub-master/src/storage/page/page_guard.cpp: the latches of the frames in any run of the threads,
-- one with writes after a flush too.
use cmu_db_15445_project.Prelude.{
  ℕ, ◌+◌, ◌<◌, ◌≡◌, refl, ap, sym, ◌∙◌, true, none, some, ◌∷◌, get_elem?, total, total-set,
  le-total, arith, inl, inr,
}
use cmu_db_15445_project.Buffer.Disk.{DiskManager}
use cmu_db_15445_project.Buffer.Pool.{Pool}
use cmu_db_15445_project.Buffer.Guard.{
  Guard, Kind, Phase, shared, exclusive, waiting, holding, unlatched, unpinned, dropped, World,
  Step, Reach, opens, fails, latches, writes, flushes, unlatches, unpins, settles, deletes, here,
  next, at_phase, latch_frame, unlatch_frame, unpin, settle, flush, write_bytes,
}
use cmu_db_15445_project.Buffer.Guard.Invariant.{reads_of, writes_of, one_if}
use cmu_db_15445_project.Buffer.Guard.Phases.{kind_cases, latch_shared-eq, latch_exclusive-eq}
use cmu_db_15445_project.Buffer.Guard.Keeping.{Keeps, fetch-Keeps, delete_page-Keeps}

module _ {Data : Type 0} (zeros : Data) (D : DiskManager Data) where
  pub record Latched (w : World zeros D) : Type 0 where
    pub readers : (f : ℕ) → (w.pool.frames f).readers ≡ total (reads_of f) w.guards
    pub writers : (f : ℕ) → one_if (w.pool.frames f).writer ≡ total (writes_of f) w.guards
    pub alone : (f : ℕ) → (w.pool.frames f).writer ≡ true → (w.pool.frames f).readers ≡ 0

  module _ (w : World zeros D) (v : Latched w) where
    -- The pool changes, but no latch.
    pool-Latched : (s : Pool zeros D) → Keeps zeros D w.pool s → Latched (record w { pool = s })
    pool-Latched s k = record {
      readers = λ f. (k f).0 ∙ v.readers f;
      writers = λ f. ap one_if (k f).1 ∙ v.writers f;
      alone = λ f h. (k f).0 ∙ v.alone f (sym (k f).1 ∙ h);
    }

    opened-Latched :
        (s : Pool zeros D) (p f : ℕ) (k : Kind)
        → Keeps zeros D w.pool s
        → Latched (record {
          pool = s;
          guards = record { page_id = p; frame = f; kind = k; phase = waiting } ∷ w.guards;
        })
    opened-Latched s p f k same =
        let u = pool-Latched s same in
        record {
          readers = λ x. ground (arith, u.readers x);
          writers = λ x. ground (arith, u.writers x);
          alone = u.alone;
        }

    module _ (i : ℕ) (g : Guard) (e : get_elem? w.guards i ≡ some g) where
      -- A guard goes on to another phase, and its frame's latch with it.
      at_phase-Latched :
          (ph : Phase) (s : Pool zeros D)
          → ((f : ℕ)
              → (s.frames f).readers + reads_of f g
                ≡ (w.pool.frames f).readers + reads_of f (record g { phase = ph }))
          → ((f : ℕ)
              → one_if (s.frames f).writer + writes_of f g
                ≡ one_if (w.pool.frames f).writer + writes_of f (record g { phase = ph }))
          → ((f : ℕ) → (s.frames f).writer ≡ true → (s.frames f).readers ≡ 0)
          → Latched (at_phase zeros D w i g ph s)
      at_phase-Latched ph s read write alone =
          let g' : Guard = record g { phase = ph } in
          record {
            readers =
                λ f. omega (arith, read f, v.readers f, total-set (reads_of f) w.guards i g g' e);
            writers =
                λ f. omega (arith, write f, v.writers f, total-set (writes_of f) w.guards i g g' e);
            alone = alone;
          }

      latches-Latched :
          (s : Pool zeros D)
          → g.phase ≡ waiting
          → latch_frame zeros D g.kind w.pool g.frame ≡ some s
          → Latched (at_phase zeros D w i g holding s)
      latches-Latched s ph h = elim (kind_cases g.kind) [
        | inl k ↦
            let (free, same) = latch_shared-eq zeros D w.pool s g.frame (rw k at h) in
            rw same (
              at_phase-Latched holding _ (λ f. ground arith) (λ f. ground arith)
                (λ f. ground (arith, v.alone f)))
        | inr k ↦
            let (free, none_read, same) = latch_exclusive-eq zeros D w.pool s g.frame (rw k at h) in
            rw same (
              at_phase-Latched holding _ (λ f. ground arith) (λ f. ground arith)
                (λ f. ground (arith, v.alone f)))
      ]

      unlatches-Latched :
          (k : Kind)
          → g.phase ≡ holding
          → g.kind ≡ k
          → Latched (at_phase zeros D w i g unlatched (unlatch_frame zeros D k w.pool g.frame))
      unfolding unlatch_frame
      unlatches-Latched shared ph k =
          let read : 0 < (w.pool.frames g.frame).readers =
            ground (arith, v.readers g.frame, le-total (reads_of g.frame) w.guards i g e) in
          at_phase-Latched unlatched _ (λ f. ground arith) (λ f. ground arith)
            (λ f. ground (arith, v.alone f))
      unlatches-Latched exclusive ph k =
          let write : (w.pool.frames g.frame).writer ≡ true =
            ground (arith, v.writers g.frame, le-total (writes_of g.frame) w.guards i g e) in
          at_phase-Latched unlatched _ (λ f. ground arith) (λ f. ground arith)
            (λ f. ground (arith, v.alone f))

      unpins-Latched :
          g.phase ≡ unlatched
          → Latched (at_phase zeros D w i g unpinned (unpin zeros D w.pool g.frame))
      unfolding unpin
      unpins-Latched ph =
          at_phase-Latched unpinned _ (λ f. ground arith) (λ f. ground arith)
            (λ f. ground (arith, v.alone f))

      settles-Latched :
          g.phase ≡ unpinned
          → Latched (at_phase zeros D w i g dropped (settle zeros D w.pool g.frame))
      unfolding settle
      settles-Latched ph =
          at_phase-Latched dropped _ (λ f. ground arith) (λ f. ground arith)
            (λ f. ground (arith, v.alone f))

    flush-Keeps : (p f : ℕ) → Keeps zeros D w.pool (flush zeros D w.pool p f)
    unfolding flush
    flush-Keeps p f x = ground arith

    write_bytes-Keeps :
        (f : ℕ) (bytes : Data) → Keeps zeros D w.pool (write_bytes zeros D w.pool f bytes)
    unfolding write_bytes
    write_bytes-Keeps f bytes x = ground arith

  Step-Latched : (w u : World zeros D) → Latched w → Step zeros D w u → Latched u
  Step-Latched w _ v (opens {s} p f k small e) =
      opened-Latched w v s p f k (fetch-Keeps zeros D w.pool s p (some f) e)
  Step-Latched w _ v (fails {s} p e) = pool-Latched w v s (fetch-Keeps zeros D w.pool s p none e)
  Step-Latched w _ v (latches {s} i g e ph h) = latches-Latched w v i g e s ph h
  Step-Latched w _ v (writes i g bytes e ph k) =
      pool-Latched w v _ (write_bytes-Keeps w v g.frame bytes)
  Step-Latched w _ v (flushes i g e ph) = pool-Latched w v _ (flush-Keeps w v g.page_id g.frame)
  Step-Latched w _ v (unlatches i g e ph) = unlatches-Latched w v i g e g.kind ph refl
  Step-Latched w _ v (unpins i g e ph) = unpins-Latched w v i g e ph
  Step-Latched w _ v (settles i g e ph) = settles-Latched w v i g e ph
  Step-Latched w _ v (deletes {s} p b e) =
      pool-Latched w v s (delete_page-Keeps zeros D w.pool s p b e)

  pub Reach-Latched : (w u : World zeros D) → Latched w → Reach zeros D w u → Latched u
  Reach-Latched w _ v here = v
  Reach-Latched w x v (next {u} r step) = Step-Latched u x (Reach-Latched w u v r) step
