-- ===== src/Tests/Guard.antt =====
-- The guards' properties in the runs.
use cmu_db_15445_project.Prelude.{◌≡◌, ◌≢◌, some, refl, arith}
use cmu_db_15445_project.Buffer.Pool.Invariant.{memory}
use cmu_db_15445_project.Buffer.Guard.{Guard, shared, exclusive, holding}
use cmu_db_15445_project.Buffer.Guard.Invariant.{Inv}
use cmu_db_15445_project.Buffer.Guard.Steps.{Reach-Inv}
use cmu_db_15445_project.Buffer.Guard.Safety.{bytes_after, deleted, Step-memory, write_guard_alone}
use cmu_db_15445_project.Tests.World.{
  disk, start, start_holds, locked, written, settled, both_read, write_step, locked_run,
  settled_run, settled_run-AllMarked, locked_run-AllMarked, both_read_run,
}

Reach-Inv_example : Inv 0 disk settled
Reach-Inv_example = Reach-Inv 0 disk start settled start_holds settled_run settled_run-AllMarked

abbrev reader : Guard
reader = record { page_id = 3; frame = 0; kind = shared; phase = holding }

abbrev writer : Guard
writer = record { page_id = 3; frame = 0; kind = exclusive; phase = holding }

write_guard_alone_example : (reader.kind ≡ shared) × (reader.kind ≡ shared)
write_guard_alone_example =
    write_guard_alone 0 disk start both_read start_holds both_read_run 0 1 reader reader
      (omega arith) refl refl refl refl refl

unspared : deleted 0 disk locked write_step ≢ some 3
unfolding write_step
unspared e = cc

Step-memory_example : memory 0 disk written.pool 3 ≡ bytes_after 0 disk locked write_step 3
Step-memory_example =
    Step-memory 0 disk locked
      (Reach-Inv 0 disk start locked start_holds locked_run locked_run-AllMarked) written write_step
      3 unspared
