-- ===== src/Tests/Pool.antt =====
-- The buffer pool in the states of the runs.
use cmu_db_15445_project.Prelude.{ℕ, ◌≡◌, ◌<◌, true, false, none, some, refl, Returns, ◌⊎◌, inr}
use cmu_db_15445_project.Prelude.Assoc.{lookup}
use cmu_db_15445_project.Buffer.Disk.{resize_to, page_at, assign, read_page}
use cmu_db_15445_project.Buffer.Arc
use cmu_db_15445_project.Buffer.Arc.{is_evictable}
use cmu_db_15445_project.Buffer.Pool.{
  init, fetch, take_frame, load, ids_from, flush_page_unsafe, flush_all_pages_unsafe, delete_page,
  unmap,
}
use cmu_db_15445_project.Buffer.Pool.Invariant.{memory}
use cmu_db_15445_project.Buffer.Pool.Fetch.{Fetched, fetch-Fetched}
use cmu_db_15445_project.Buffer.Pool.Flush.{
  Flushes, flush_page_unsafe-Flushes, flush_all_pages_unsafe-saves,
}
use cmu_db_15445_project.Buffer.Pool.Delete.{Deletes, delete_page_cases}
use cmu_db_15445_project.Buffer.Guard.{
  latch_frame, unlatch_frame, unpin, settle, write_bytes, flush,
}
use cmu_db_15445_project.Buffer.Guard.Steps.{Reach-Inv}
use cmu_db_15445_project.Buffer.Guard.Safety.{flushed_then_written}
use cmu_db_15445_project.Tests.World.{
  disk, start, start_holds, locked, written, settled, locked_run, locked_run-AllMarked, written_run,
  written_run-AllMarked, settled_run, settled_run-AllMarked,
}

fetch-Fetched_example : Returns (fetch 0 disk settled.pool 5) (Fetched 0 disk settled.pool 5)
fetch-Fetched_example =
    fetch-Fetched 0 disk settled.pool 5
      (Reach-Inv 0 disk start settled start_holds settled_run settled_run-AllMarked).pool

flush_page_unsafe-Flushes_example :
    Flushes 0 disk written.pool (flush_page_unsafe 0 disk written.pool 3).0
    × (disk.content (flush_page_unsafe 0 disk written.pool 3).0.disk 3
        ≡ memory 0 disk written.pool 3)
    × ((flush_page_unsafe 0 disk written.pool 3).1
        ≡ (elim (lookup 3 written.pool.page_table) [ none ↦ false | some f ↦ true ]))
flush_page_unsafe-Flushes_example =
    flush_page_unsafe-Flushes 0 disk written.pool 3
      (Reach-Inv 0 disk start written start_holds written_run written_run-AllMarked).pool

flush_all_pages_unsafe-saves_example :
    Flushes 0 disk written.pool (flush_all_pages_unsafe 0 disk written.pool)
    × ((q : ℕ)
        → disk.content (flush_all_pages_unsafe 0 disk written.pool).disk q
          ≡ memory 0 disk written.pool q)
flush_all_pages_unsafe-saves_example =
    flush_all_pages_unsafe-saves 0 disk written.pool
      (Reach-Inv 0 disk start written start_holds written_run written_run-AllMarked).pool

may_go :
    (f : ℕ)
    → lookup 3 settled.pool.page_table ≡ some f
    → (0 < (settled.pool.frames f).pin_count)
      ⊎ (is_evictable (settled.pool.replacer.alive_map f) ≡ true)
unfolding init fetch take_frame load ids_from read_page resize_to page_at assign latch_frame
    unlatch_frame unpin settle write_bytes Arc.init Arc.record_access Arc.make_room
    Arc.set_evictable
may_go f e = let e' : 0 ≡ f = cc in rw (← e') (inr refl)

delete_page_cases_example : Returns (delete_page 0 disk settled.pool 3) (λ r.
    ((r.1 ≡ true) × Deletes 0 disk settled.pool 3 r.0)
    ⊎ ((r.1 ≡ false)
        × (r.0 ≡ settled.pool)
        × ((f : ℕ) × (lookup 3 settled.pool.page_table ≡ some f)
            × (0 < (settled.pool.frames f).pin_count))))
delete_page_cases_example =
    delete_page_cases 0 disk settled.pool 3
      (Reach-Inv 0 disk start settled start_holds settled_run settled_run-AllMarked).pool may_go

locked_state : (lookup 3 locked.pool.page_table ≡ some 0) × ((locked.pool.frames 0).is_dirty ≡ true)
unfolding init fetch take_frame load ids_from read_page resize_to page_at assign latch_frame
    Arc.init Arc.record_access Arc.make_room Arc.set_evictable
locked_state = (refl, refl)

flushed_then_written_example :
    memory 0 disk (unmap 0 disk (write_bytes 0 disk (flush 0 disk locked.pool 3 0) 0 9) 0) 3
    ≡ (locked.pool.frames 0).page_data
flushed_then_written_example =
    flushed_then_written 0 disk locked.pool 3 0 9
      (Reach-Inv 0 disk start locked start_holds locked_run locked_run-AllMarked).pool
      locked_state.0 locked_state.1
