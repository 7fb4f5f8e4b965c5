-- ===== src/Buffer/Pool.antt =====
-- bustub-master/src/buffer/buffer_pool_manager.cpp: the pool of frames over a disk manager.
--
-- The pool latch is held from the start of a method to its end, or to the `unlock` before a guard
-- is made, so what happens under it is one step. `fetch` is the common body of `CheckedWritePage`
-- and `CheckedReadPage`, which differ in the guard that they make (Guard.antt). A frame's
-- `frame_id_` is its index. Frame and page ids are not negative.
pub mod Invariant
mod Taking
pub mod Fetch
pub mod Flush
pub mod Delete
use cmu_db_15445_project.Prelude.{
  ℕ, suc, ◌+◌, Bool, true, false, Option, none, some, List, [], ◌∷◌, ◌++◌, ltb, if◌then◌else◌, ◌==◌,
  update, Outcome, ok, crash, ◌>>=◌,
}
use cmu_db_15445_project.Prelude.Assoc.{lookup, insert, erase_key}
use cmu_db_15445_project.Prelude.Words.{add64, add32}
use cmu_db_15445_project.Buffer.Arc
use cmu_db_15445_project.Buffer.Arc.{ArcReplacer}
use cmu_db_15445_project.Buffer.Disk.{DiskManager}

-- `rwlatch_` is how many hold it shared, and whether one holds it alone.
pub record FrameHeader (Data : Type 0) : Type 0 where
  pub readers : ℕ
  pub writer : Bool
  pub pin_count : ℕ
  pub is_dirty : Bool
  pub page_data : Data

pub record BufferPool (Data State : Type 0) : Type 0 where
  pub num_frames : ℕ
  pub next_page_id : ℕ
  pub frames : ℕ → FrameHeader Data
  pub page_table : List (ℕ × ℕ)
  pub frame_to_page : ℕ → Option ℕ
  pub free_frames : List ℕ
  pub replacer : ArcReplacer
  pub disk : State

-- The frames with one of them given anew.
abbrev pub set_frame {ℓ} : {A : Type ℓ} → (ℕ → A) → ℕ → A → ℕ → A
set_frame frames fid x g = if fid == g then x else frames g

-- `0, 1, ..., n - 1`, as the constructor's loop pushes them.
unfoldable pub ids_from : ℕ → ℕ → List ℕ
ids_from i ℕ.zero = []
ids_from i (suc n) = i ∷ ids_from (i + 1) n

module _ {Data : Type 0} (zeros : Data) where
  -- `Reset` leaves the latch alone.
  abbrev pub reset : FrameHeader Data → FrameHeader Data
  reset h = record h { page_data = zeros; pin_count = 0; is_dirty = false }

  abbrev pub new_frame : FrameHeader Data
  new_frame = record {
    readers = 0;
    writer = false;
    pin_count = 0;
    is_dirty = false;
    page_data = zeros;
  }

  module _ (D : DiskManager Data) where
    abbrev pub Pool : Type 0
    Pool = BufferPool Data D.State

    -- The constructor.
    unfoldable pub init : ℕ → D.State → Pool
    init num_frames disk_manager = record {
      num_frames = num_frames;
      next_page_id = 0;
      frames = λ _. new_frame;
      page_table = [];
      frame_to_page = λ _. none;
      free_frames = ids_from 0 num_frames;
      replacer = Arc.init num_frames;
      disk = disk_manager;
    }

    -- `NewPage`: an `int32_t` counter. Page ids are its 32 bits read as an unsigned number, so an id
    -- of 2^31 or more stands for a negative `page_id_t`.
    unfoldable pub new_page : Pool → Pool × ℕ
    new_page s = (record s { next_page_id = add32 s.next_page_id 1 }, s.next_page_id)

    -- `DeletePage`. The replacer aborts on a frame that it may not evict.
    unfoldable pub delete_page : Pool → ℕ → Outcome (Pool × Bool)
    delete_page s page_id = elim (lookup page_id s.page_table) [
      | none ↦ ok (record s { disk = D.delete_page s.disk page_id }, true)
      | some fid ↦
          if ltb 0 (s.frames fid).pin_count
          then ok (s, false)
          else Arc.remove s.replacer fid >>= λ r. ok (
            record s {
              replacer = r;
              page_table = erase_key page_id s.page_table;
              frame_to_page = update s.frame_to_page fid none;
              free_frames = s.free_frames ++ fid ∷ [];
              frames = set_frame s.frames fid (reset (s.frames fid));
              disk = D.delete_page s.disk page_id;
            },
            true,
          )
    ]

    -- The page is in the pool already.
    unfoldable pub hit : Pool → ℕ → ℕ → Outcome Pool
    hit s fid page_id =
        let h = s.frames fid in
        Arc.record_access (Arc.set_evictable s.replacer fid false) fid page_id >>= λ r.
        ok (record s {
          frames = set_frame s.frames fid (record h { pin_count = add64 h.pin_count 1 });
          replacer = r;
        })

    -- The page of an evicted frame is written back if it is dirty, and leaves the pool.
    unfoldable pub unmap : Pool → ℕ → Pool
    unmap s fid = elim (s.frame_to_page fid) [
      | none ↦ record s { frames = set_frame s.frames fid (reset (s.frames fid)) }
      | some evicted_pid ↦ record s {
        disk =
            if (s.frames fid).is_dirty
            then D.write_page s.disk evicted_pid (s.frames fid).page_data
            else s.disk;
        page_table = erase_key evicted_pid s.page_table;
        frame_to_page = update s.frame_to_page fid none;
        frames = set_frame s.frames fid (reset (s.frames fid));
      }
    ]

    -- A free frame, or one that the replacer gives up.
    unfoldable pub take_frame : Pool → Outcome (Pool × Option ℕ)
    take_frame s = elim s.free_frames [
      | fid ∷ rest ↦ ok (record s { free_frames = rest }, some fid)
      | [] ↦ Arc.evict s.replacer >>= λ e. elim e.1 [
        | none ↦ ok (record s { replacer = e.0 }, none)
        | some fid ↦ ok (unmap (record s { replacer = e.0 }) fid, some fid)
      ]
    ]

    -- The page is read into the frame.
    unfoldable pub load : Pool → ℕ → ℕ → Outcome Pool
    load s fid page_id =
        let (disk', bytes) = D.read_page s.disk page_id in
        Arc.record_access s.replacer fid page_id >>= λ r. ok (record s {
          disk = disk';
          page_table = insert page_id fid s.page_table;
          frame_to_page = update s.frame_to_page fid (some page_id);
          frames =
              set_frame s.frames fid (record (s.frames fid) { page_data = bytes; pin_count = 1 });
          replacer = Arc.set_evictable r fid false;
        })

    -- `CheckedWritePage` and `CheckedReadPage` up to the guard: the pinned frame, or nothing.
    unfoldable pub fetch : Pool → ℕ → Outcome (Pool × Option ℕ)
    fetch s page_id = elim (lookup page_id s.page_table) [
      | some fid ↦ hit s fid page_id >>= λ s'. ok (s', some fid)
      | none ↦ take_frame s >>= λ t. elim t.1 [
        | none ↦ ok (t.0, none)
        | some fid ↦ load t.0 fid page_id >>= λ s'. ok (s', some fid)
      ]
    ]

    -- `FlushPageUnsafe`.
    unfoldable pub flush_page_unsafe : Pool → ℕ → Pool × Bool
    flush_page_unsafe s page_id = elim (lookup page_id s.page_table) [
      | none ↦ (s, false)
      | some fid ↦
          if (s.frames fid).is_dirty
          then (
            record s {
              disk = D.write_page s.disk page_id (s.frames fid).page_data;
              frames = set_frame s.frames fid (record (s.frames fid) { is_dirty = false });
            },
            true,
          )
          else (s, true)
    ]

    -- `FlushAllPagesUnsafe` is this loop over the whole page table.
    unfoldable pub flush_entries : List (ℕ × ℕ) → Pool → Pool
    flush_entries [] s = s
    flush_entries ((pid, fid) ∷ rest) s = flush_entries rest (flush_page_unsafe s pid).0

    unfoldable pub flush_all_pages_unsafe : Pool → Pool
    flush_all_pages_unsafe s = flush_entries s.page_table s

    -- `GetPinCount`.
    unfoldable pub get_pin_count : Pool → ℕ → Option ℕ
    get_pin_count s page_id = elim (lookup page_id s.page_table) [
      | none ↦ none
      | some fid ↦ some (s.frames fid).pin_count
    ]
