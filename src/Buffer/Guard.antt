-- ===== src/Buffer/Guard.antt =====
-- bustub-master/src/storage/page/page_guard.cpp: the guards that hold a page in the pool, and the
-- interleavings of the threads that use them.
--
-- `ReadPageGuard` and `WritePageGuard` differ in how they hold the frame's latch, their `kind`. A
-- guard is made under the pool latch (`fetch`), then waits for the frame's latch outside it. `Drop`
-- is three steps: it gives the latch back, then decrements the pin count, and then, under the pool
-- latch, lets the replacer have the frame if the count is 0. Threads may run between these.
pub mod Invariant
mod Phases
mod Keeping
mod Latches
pub mod Steps
pub mod Safety
use cmu_db_15445_project.Prelude.{
  ℕ, ◌+◌, ◌-◌, ◌<◌, ◌≡◌, Bool, true, false, Option, none, some, List, [], ◌∷◌, length, get_elem?,
  set, ltb, if◌then◌else◌, ◌==◌, ◌||◌, ok,
}
use cmu_db_15445_project.Prelude.Assoc.{lookup}
use cmu_db_15445_project.Prelude.Words.{sub64, word64}
use cmu_db_15445_project.Buffer.Arc
use cmu_db_15445_project.Buffer.Disk.{DiskManager}
use cmu_db_15445_project.Buffer.Pool
use cmu_db_15445_project.Buffer.Pool.{
  Pool, BufferPool, FrameHeader, set_frame, fetch, delete_page, flush_page_unsafe, flush_entries,
}

pub data Kind : Type 0 where
  shared exclusive : Kind

-- `dropped` is a guard that is not valid any more.
pub data Phase : Type 0 where
  waiting holding unlatched unpinned dropped : Phase

pub record Guard : Type 0 where
  pub page_id : ℕ
  pub frame : ℕ
  pub kind : Kind
  pub phase : Phase

module _ {Data : Type 0} (zeros : Data) (D : DiskManager Data) where
  abbrev put_frame : Pool zeros D → ℕ → FrameHeader Data → Pool zeros D
  put_frame s f h = record s { frames = set_frame s.frames f h }

  -- The constructors: `lock_shared()`, or `lock()` and the dirty flag. `none` is to wait.
  unfoldable pub latch_frame : Kind → Pool zeros D → ℕ → Option (Pool zeros D)
  latch_frame shared s f =
      let h = s.frames f in
      if h.writer then none else some (put_frame s f (record h { readers = h.readers + 1 }))
  latch_frame exclusive s f =
      let h = s.frames f in
      if h.writer || ltb 0 h.readers
      then none
      else some (put_frame s f (record h { writer = true; is_dirty = true }))

  -- `Drop`: `unlock_shared()` or `unlock()`.
  unfoldable pub unlatch_frame : Kind → Pool zeros D → ℕ → Pool zeros D
  unlatch_frame shared s f =
      let h = s.frames f in put_frame s f (record h { readers = h.readers - 1 })
  unlatch_frame exclusive s f = let h = s.frames f in put_frame s f (record h { writer = false })

  -- `pin_count_.fetch_sub(1)`.
  unfoldable pub unpin : Pool zeros D → ℕ → Pool zeros D
  unpin s f = let h = s.frames f in put_frame s f (record h { pin_count = sub64 h.pin_count 1 })

  -- The block under the pool latch.
  unfoldable pub settle : Pool zeros D → ℕ → Pool zeros D
  settle s f =
      if (s.frames f).pin_count == 0
      then record s { replacer = Arc.set_evictable s.replacer f true }
      else s

  -- `Flush` of either guard.
  unfoldable pub flush : Pool zeros D → ℕ → ℕ → Pool zeros D
  flush s page_id f =
      let h = s.frames f in
      if h.is_dirty
      then record s {
        disk = D.write_page s.disk page_id h.page_data;
        frames = set_frame s.frames f (record h { is_dirty = false });
      }
      else s

  -- A write through the pointer of `GetDataMut`.
  unfoldable pub write_bytes : Pool zeros D → ℕ → Data → Pool zeros D
  write_bytes s f bytes = put_frame s f (record (s.frames f) { page_data = bytes })

  -- `FlushPage`: the page is flushed while its frame is latched. `none` is to wait.
  unfoldable pub flush_page : Pool zeros D → ℕ → Option (Pool zeros D × Bool)
  flush_page s page_id = elim (lookup page_id s.page_table) [
    | none ↦ some (s, false)
    | some f ↦
        if (s.frames f).writer || ltb 0 (s.frames f).readers
        then none
        else let locked = put_frame s f (record (s.frames f) { writer = true }) in
          let (s', result) = flush_page_unsafe zeros D locked page_id in
          some (put_frame s' f (record (s'.frames f) { writer = false }), result)
  ]

  -- The threads' guards beside the pool.
  pub record World : Type 0 where
    pub pool : Pool zeros D
    pub guards : List Guard

  abbrev pub at_phase : World → ℕ → Guard → Phase → Pool zeros D → World
  at_phase w i g ph s = record { pool = s; guards = set w.guards i (record g { phase = ph }) }

  -- One step of one thread. A write through a write guard may come at any time while the guard holds
  -- the latch, after its `Flush` too, which leaves the frame not marked dirty.
  pub data Step (w : World) : World → Type 0 where
    opens :
        {s : Pool zeros D} (p f : ℕ) (k : Kind)
        → length w.guards + 1 < word64
        → fetch zeros D w.pool p ≡ ok (s, some f)
        → Step w (record {
          pool = s;
          guards = record { page_id = p; frame = f; kind = k; phase = waiting } ∷ w.guards;
        })
    fails :
        {s : Pool zeros D} (p : ℕ)
        → fetch zeros D w.pool p ≡ ok (s, none)
        → Step w (record w { pool = s })
    latches :
        {s : Pool zeros D} (i : ℕ) (g : Guard)
        → get_elem? w.guards i ≡ some g
        → g.phase ≡ waiting
        → latch_frame g.kind w.pool g.frame ≡ some s
        → Step w (at_phase w i g holding s)
    writes :
        (i : ℕ) (g : Guard) (bytes : Data)
        → get_elem? w.guards i ≡ some g
        → g.phase ≡ holding
        → g.kind ≡ exclusive
        → Step w (record w { pool = write_bytes w.pool g.frame bytes })
    flushes :
        (i : ℕ) (g : Guard)
        → get_elem? w.guards i ≡ some g
        → g.phase ≡ holding
        → Step w (record w { pool = flush w.pool g.page_id g.frame })
    unlatches :
        (i : ℕ) (g : Guard)
        → get_elem? w.guards i ≡ some g
        → g.phase ≡ holding
        → Step w (at_phase w i g unlatched (unlatch_frame g.kind w.pool g.frame))
    unpins :
        (i : ℕ) (g : Guard)
        → get_elem? w.guards i ≡ some g
        → g.phase ≡ unlatched
        → Step w (at_phase w i g unpinned (unpin w.pool g.frame))
    settles :
        (i : ℕ) (g : Guard)
        → get_elem? w.guards i ≡ some g
        → g.phase ≡ unpinned
        → Step w (at_phase w i g dropped (settle w.pool g.frame))
    deletes :
        {s : Pool zeros D} (p : ℕ) (b : Bool)
        → delete_page zeros D w.pool p ≡ ok (s, b)
        → Step w (record w { pool = s })

  pub data Reach (w : World) : World → Type 0 where
    here : Reach w w
    next : {u v : World} → Reach w u → Step u v → Reach w v

module _ {Data : Type 0} (zeros : Data) (D : DiskManager Data) where
  -- A write goes to a frame that is marked dirty: its guard has not flushed the page since it got the
  -- latch.
  abbrev pub IsMarked : {w u : World zeros D} → Step zeros D w u → Type 0
  IsMarked {w} (writes i g bytes _ _ _) = (w.pool.frames g.frame).is_dirty ≡ true
  IsMarked _ = Unit

  -- No write of a run comes after a flush by the same guard.
  abbrev pub AllMarked : {w u : World zeros D} → Reach zeros D w u → Type 0
  AllMarked here = Unit
  AllMarked (next r step) = AllMarked r × IsMarked step
