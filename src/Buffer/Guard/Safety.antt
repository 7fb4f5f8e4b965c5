-- ===== src/Buffer/Guard/Safety.antt =====
-- What the guards give the threads that use them, in every interleaving.
use cmu_db_15445_project.Prelude.{
  ℕ, ◌+◌, ◌≤◌, ◌<◌, ◌≡◌, ◌≢◌, true, Option, none, some, get_elem?, two-le-total, arith, refl, ap,
  inl, inr, if◌then◌else◌, ◌==◌, ok,
}
use cmu_db_15445_project.Prelude.Assoc.{lookup, lookup-erase_key}
use cmu_db_15445_project.Buffer.Disk.{DiskManager}
use cmu_db_15445_project.Buffer.Pool.{Pool, fetch, unmap}
use cmu_db_15445_project.Buffer.Pool.Invariant
use cmu_db_15445_project.Buffer.Pool.Invariant.{memory}
use cmu_db_15445_project.Buffer.Pool.Fetch.{Fetched, fetch-Fetched}
use cmu_db_15445_project.Buffer.Pool.Flush.{flush_page_unsafe-Flushes}
use cmu_db_15445_project.Buffer.Guard.{
  Guard, Kind, shared, exclusive, holding, World, Step, Reach, opens, fails, latches, writes,
  flushes, unlatches, unpins, settles, deletes, latch_frame, unlatch_frame, unpin, flush,
  write_bytes,
}
use cmu_db_15445_project.Buffer.Guard.Phases.{kind_cases, latch_shared-eq, latch_exclusive-eq}
use cmu_db_15445_project.Buffer.Guard.Steps.{Returns-eq, flush-eq, deletes-memory}
use cmu_db_15445_project.Buffer.Guard.Latches.{Latched, Reach-Latched}
use cmu_db_15445_project.Buffer.Guard.Invariant.{
  Inv, reads_of, writes_of, holds, one_if, put_frame-memory, settle-keeps,
}

module _ {Data : Type 0} (zeros : Data) (D : DiskManager Data) (w : World zeros D) where
  -- The bytes of every page after a step: a write gives the bytes of its guard's page, and no other
  -- step but a deletion changes any.
  abbrev pub bytes_after : {u : World zeros D} → Step zeros D w u → ℕ → Data
  bytes_after (writes i g bytes _ _ _) q = if g.page_id == q then bytes else memory zeros D w.pool q
  bytes_after _ q = memory zeros D w.pool q

  -- The page that a step deletes.
  abbrev pub deleted : {u : World zeros D} → Step zeros D w u → Option ℕ
  deleted (deletes p _ _) = some p
  deleted _ = none

module _ {Data : Type 0} (zeros : Data) (D : DiskManager Data) (w : World zeros D)
    (v : Inv zeros D w) where
  guarded_bytes :
      (i : ℕ) (g : Guard)
      → get_elem? w.guards i ≡ some g
      → g.phase ≡ holding
      → (lookup g.page_id w.pool.page_table ≡ some g.frame)
        × ((w.pool.frames g.frame).page_data ≡ memory zeros D w.pool g.page_id)
  guarded_bytes i g e ph =
      let k = v.pool.listed g.page_id g.frame (v.resident i g e (ground arith)) in (k, ground arith)

  writes-memory :
      (i : ℕ) (g : Guard) (bytes : Data) (q : ℕ)
      → get_elem? w.guards i ≡ some g
      → g.phase ≡ holding
      → memory zeros D (write_bytes zeros D w.pool g.frame bytes) q
        ≡ (if g.page_id == q then bytes else memory zeros D w.pool q)
  unfolding write_bytes
  writes-memory i g bytes q e ph =
      let (k, _) = guarded_bytes i g e ph in
      ground (arith, v.pool.mapped q g.frame, v.pool.mapped g.page_id g.frame)

  opens-memory :
      (s : Pool zeros D) (p q : ℕ) (o : Option ℕ)
      → fetch zeros D w.pool p ≡ ok (s, o)
      → memory zeros D s q ≡ memory zeros D w.pool q
  opens-memory s p q none e =
      let h =
        Returns-eq _ (Fetched zeros D w.pool p) (s, none) (fetch-Fetched zeros D w.pool p v.pool)
          e in
      rw h.0 refl
  opens-memory s p q (some f) e =
      let h =
        Returns-eq _ (Fetched zeros D w.pool p) (s, some f) (fetch-Fetched zeros D w.pool p v.pool)
          e in
      h.1 q

  latches-memory :
      (s : Pool zeros D) (k : Kind) (f q : ℕ)
      → latch_frame zeros D k w.pool f ≡ some s
      → memory zeros D s q ≡ memory zeros D w.pool q
  latches-memory s shared f q h =
      rw (latch_shared-eq zeros D w.pool s f h).1
        (put_frame-memory zeros D w.pool f v.pool _ refl q)
  latches-memory s exclusive f q h =
      rw (latch_exclusive-eq zeros D w.pool s f h).2
        (put_frame-memory zeros D w.pool f v.pool _ refl q)

  unlatches-memory :
      (k : Kind) (f q : ℕ)
      → memory zeros D (unlatch_frame zeros D k w.pool f) q ≡ memory zeros D w.pool q
  unfolding unlatch_frame
  unlatches-memory shared f q = put_frame-memory zeros D w.pool f v.pool _ refl q
  unlatches-memory exclusive f q = put_frame-memory zeros D w.pool f v.pool _ refl q

  unpins-memory : (f q : ℕ) → memory zeros D (unpin zeros D w.pool f) q ≡ memory zeros D w.pool q
  unfolding unpin
  unpins-memory f q = put_frame-memory zeros D w.pool f v.pool _ refl q

  -- In a state that satisfies the invariant, which says among other things that a frame that is not
  -- marked dirty holds what the disk holds, one step of a thread leaves the bytes of every page that
  -- it does not delete alone, except that a write through a guard, marked dirty or not, gives its
  -- bytes to the guard's page.
  pub Step-memory :
      (u : World zeros D) (step : Step zeros D w u) (q : ℕ)
      → deleted zeros D w step ≢ some q
      → memory zeros D u.pool q ≡ bytes_after zeros D w step q
  Step-memory _ (opens {s} p f k small e) q n = opens-memory s p q (some f) e
  Step-memory _ (fails {s} p e) q n = opens-memory s p q none e
  Step-memory _ (latches {s} i g e ph h) q n = latches-memory s g.kind g.frame q h
  Step-memory _ (writes i g bytes e ph k) q n = writes-memory i g bytes q e ph
  Step-memory _ (flushes i g e ph) q n =
      let (k, _) = guarded_bytes i g e ph in
      rw (flush-eq zeros D w v g.page_id g.frame k)
        ((flush_page_unsafe-Flushes zeros D w.pool g.page_id v.pool).0.same q)
  Step-memory _ (unlatches i g e ph) q n = unlatches-memory g.kind g.frame q
  Step-memory _ (unpins i g e ph) q n = unpins-memory g.frame q
  Step-memory _ (settles i g e ph) q n = (settle-keeps zeros D w.pool g.frame v.pool).2 q
  Step-memory _ (deletes {s} p b e) q n =
      deletes-memory zeros D w v s p b e q (λ same. n (ap some same))

module _ {Data : Type 0} (zeros : Data) (D : DiskManager Data) (w : World zeros D)
    (v : Latched zeros D w) where
  both_held :
      (i j : ℕ) (g h : Guard)
      → i < j
      → get_elem? w.guards i ≡ some g
      → get_elem? w.guards j ≡ some h
      → g.phase ≡ holding
      → h.phase ≡ holding
      → g.frame ≡ h.frame
      → (g.kind ≡ shared) × (h.kind ≡ shared)
  both_held i j g h n e k ph qh same =
      let two = two-le-total (writes_of g.frame) w.guards i j g h n e k in
      let read = two-le-total (reads_of g.frame) w.guards i j g h n e k in
      let one : holds exclusive g.phase g.kind + holds exclusive h.phase h.kind
          ≤ one_if (w.pool.frames g.frame).writer =
        ground (arith, v.writers g.frame) in
      let some_read : holds shared g.phase g.kind + holds shared h.phase h.kind
          ≤ (w.pool.frames g.frame).readers =
        ground (arith, v.readers g.frame) in
      let a = v.alone g.frame in
      elim (kind_cases g.kind) [
        | inl kg ↦ elim (kind_cases h.kind) [ inl kh ↦ (kg, kh) | inr kh ↦ absurd (ground arith) ]
        | inr kg ↦ elim (kind_cases h.kind) [
          | inl kh ↦ absurd (ground arith)
          | inr kh ↦ absurd (ground arith)
        ]
      ]

module _ {Data : Type 0} (zeros : Data) (D : DiskManager Data) (w u : World zeros D)
    (v : Inv zeros D w) (r : Reach zeros D w u) where
  -- After any steps from a state that satisfies the invariant, writes after a `Flush` by the same
  -- guard among them, two guards that hold the latch of one frame at the same time are both read
  -- guards.
  pub write_guard_alone :
      (i j : ℕ) (g h : Guard)
      → i < j
      → get_elem? u.guards i ≡ some g
      → get_elem? u.guards j ≡ some h
      → g.phase ≡ holding
      → h.phase ≡ holding
      → g.frame ≡ h.frame
      → (g.kind ≡ shared) × (h.kind ≡ shared)
  write_guard_alone = both_held zeros D u (
      Reach-Latched zeros D w u
        (record { readers = v.readers; writers = v.writers; alone = v.alone }) r)

-- On a pool that satisfies the invariant, if the frame of a page in the pool is dirty, is flushed by
-- its guard and then written through the same guard, and its page leaves the pool by an eviction,
-- then the page has the bytes from before the write.
pub flushed_then_written :
    {Data : Type 0} (zeros : Data) (D : DiskManager Data) (s : Pool zeros D) (p f : ℕ)
    (bytes : Data)
    → Invariant.Inv zeros D 0 s
    → lookup p s.page_table ≡ some f
    → (s.frames f).is_dirty ≡ true
    → memory zeros D (unmap zeros D (write_bytes zeros D (flush zeros D s p f) f bytes) f) p
      ≡ (s.frames f).page_data
unfolding flush write_bytes unmap
flushed_then_written zeros D s p f bytes v e d =
    let m = v.mapped p f e in
    ground (arith, lookup-erase_key p p s.page_table, D.write_self s.disk p (s.frames f).page_data)
