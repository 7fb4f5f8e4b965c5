-- ===== src/Tests/World.antt =====
-- A pool of two frames over an empty disk, and two runs of threads on it: one writes page 3
-- through a write guard and drops the guard; in the other, two read guards hold page 3.
use cmu_db_15445_project.Prelude.{ℕ, Option, none, some, [], ◌∷◌, refl, arith, Outcome, ok, crash}
use cmu_db_15445_project.Buffer.Disk.{
  DiskManager, unlimited_memory, resize_to, page_at, assign, read_page,
}
use cmu_db_15445_project.Buffer.Arc
use cmu_db_15445_project.Buffer.Pool.{Pool, init, fetch, take_frame, load, hit, ids_from}
use cmu_db_15445_project.Buffer.Guard.{
  Guard, Kind, Phase, shared, exclusive, waiting, holding, unlatched, unpinned, dropped, World,
  Step, Reach, opens, latches, writes, unlatches, unpins, settles, here, next, at_phase, AllMarked,
  latch_frame, unlatch_frame, unpin, settle, write_bytes,
}
use cmu_db_15445_project.Buffer.Guard.Invariant.{Inv}
use cmu_db_15445_project.Buffer.Guard.Steps.{start-Inv}

abbrev pub disk : DiskManager ℕ
disk = unlimited_memory 0

abbrev pub start : World 0 disk
start = record { pool = init 0 disk 2 []; guards = [] }

pub start_holds : Inv 0 disk start
start_holds = start-Inv 0 disk 2 [] (omega arith)

abbrev fetched : Pool 0 disk → Outcome (Pool 0 disk × Option ℕ) → Pool 0 disk
fetched s (ok (t, o)) = t
fetched s crash = s

abbrev latched : Pool 0 disk → Option (Pool 0 disk) → Pool 0 disk
latched s none = s
latched s (some t) = t

abbrev guard : Kind → Phase → Guard
guard k ph = record { page_id = 3; frame = 0; kind = k; phase = ph }

abbrev open_with : Kind → World 0 disk → World 0 disk
open_with k w = record {
  pool = fetched w.pool (fetch 0 disk w.pool 3);
  guards = guard k waiting ∷ w.guards;
}

abbrev latch : ℕ → Kind → World 0 disk → World 0 disk
latch i k w =
    at_phase 0 disk w i (guard k waiting) holding (latched w.pool (latch_frame 0 disk k w.pool 0))

abbrev pub opened : World 0 disk
opened = open_with exclusive start

abbrev pub locked : World 0 disk
locked = latch 0 exclusive opened

abbrev pub written : World 0 disk
written = record locked { pool = write_bytes 0 disk locked.pool 0 9 }

abbrev pub released : World 0 disk
released =
    at_phase 0 disk written 0 (guard exclusive holding) unlatched
      (unlatch_frame 0 disk exclusive written.pool 0)

abbrev pub let_go : World 0 disk
let_go =
    at_phase 0 disk released 0 (guard exclusive unlatched) unpinned (unpin 0 disk released.pool 0)

abbrev pub settled : World 0 disk
settled = at_phase 0 disk let_go 0 (guard exclusive unpinned) dropped (settle 0 disk let_go.pool 0)

open_step : Step 0 disk start opened
unfolding init fetch take_frame load ids_from read_page resize_to page_at assign Arc.init
    Arc.record_access Arc.make_room Arc.set_evictable
open_step = opens 3 0 exclusive (omega arith) refl

latch_step : Step 0 disk opened locked
unfolding init fetch take_frame load ids_from read_page resize_to page_at assign latch_frame
    Arc.init Arc.record_access Arc.make_room Arc.set_evictable
latch_step = latches 0 (guard exclusive waiting) refl refl refl

unfoldable pub write_step : Step 0 disk locked written
unfolding init fetch take_frame load ids_from read_page resize_to page_at assign latch_frame
    Arc.init Arc.record_access Arc.make_room Arc.set_evictable
write_step = writes 0 (guard exclusive holding) 9 refl refl refl

pub locked_run : Reach 0 disk start locked
locked_run = next (next here open_step) latch_step

pub written_run : Reach 0 disk start written
written_run = next locked_run write_step

pub let_go_run : Reach 0 disk start let_go
let_go_run =
    next (next written_run (unlatches 0 (guard exclusive holding) refl refl))
      (unpins 0 (guard exclusive unlatched) refl refl)

pub settled_run : Reach 0 disk start settled
settled_run = next let_go_run (settles 0 (guard exclusive unpinned) refl refl)

abbrev reader : World 0 disk
reader = open_with shared start

abbrev readers : World 0 disk
readers = open_with shared reader

abbrev first_reads : World 0 disk
first_reads = latch 1 shared readers

abbrev pub both_read : World 0 disk
both_read = latch 0 shared first_reads

reader_step : Step 0 disk start reader
unfolding init fetch take_frame load ids_from read_page resize_to page_at assign Arc.init
    Arc.record_access Arc.make_room Arc.set_evictable
reader_step = opens 3 0 shared (omega arith) refl

readers_step : Step 0 disk reader readers
unfolding init fetch take_frame load hit ids_from read_page resize_to page_at assign Arc.init
    Arc.record_access Arc.make_room Arc.set_evictable Arc.promote
readers_step = opens 3 0 shared (omega arith) refl

first_step : Step 0 disk readers first_reads
unfolding init fetch take_frame load hit ids_from read_page resize_to page_at assign latch_frame
    Arc.init Arc.record_access Arc.make_room Arc.set_evictable Arc.promote
first_step = latches 1 (guard shared waiting) refl refl refl

second_step : Step 0 disk first_reads both_read
unfolding init fetch take_frame load hit ids_from read_page resize_to page_at assign latch_frame
    Arc.init Arc.record_access Arc.make_room Arc.set_evictable Arc.promote
second_step = latches 0 (guard shared waiting) refl refl refl

pub both_read_run : Reach 0 disk start both_read
both_read_run = next (next (next (next here reader_step) readers_step) first_step) second_step

pub locked_run-AllMarked : AllMarked 0 disk locked_run
unfolding locked_run open_step latch_step
locked_run-AllMarked = ((tt, tt), tt)

pub settled_run-AllMarked : AllMarked 0 disk settled_run
unfolding settled_run let_go_run written_run write_step locked_run open_step latch_step init fetch
    take_frame load ids_from read_page resize_to page_at assign latch_frame Arc.init
    Arc.record_access Arc.make_room Arc.set_evictable
settled_run-AllMarked = ((((((tt, tt), tt), refl), tt), tt), tt)

pub written_run-AllMarked : AllMarked 0 disk written_run
unfolding written_run write_step locked_run open_step latch_step init fetch take_frame load ids_from
    read_page resize_to page_at assign latch_frame Arc.init Arc.record_access Arc.make_room
    Arc.set_evictable
written_run-AllMarked = (((tt, tt), tt), refl)
