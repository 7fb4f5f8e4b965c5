-- ===== src/Tests/Arc.antt =====
-- The ARC replacer with two frames: page 7 in frame 0, page 8 in frame 1, both evictable.
use cmu_db_15445_project.Prelude.{
  ◌+◌, ◌≡◌, ◌<◌, true, false, none, some, refl, arith, Outcome, ok, crash, Returns, ◌⊎◌, length,
}
use cmu_db_15445_project.Prelude.Words.{word64}
use cmu_db_15445_project.Buffer.Arc.{
  ArcReplacer, FrameStatus, init, record_access, set_evictable, evict, remove, make_room,
  find_evictable, try_evict_from_mru, try_evict_from_mfu, evict_mru,
}
use cmu_db_15445_project.Buffer.Arc.Counts.{evictables}
use cmu_db_15445_project.Buffer.Arc.Invariant.{Inv}
use cmu_db_15445_project.Buffer.Arc.Access.{record_access-Inv}
use cmu_db_15445_project.Buffer.Arc.Removal.{Removed, remove_cases}
use cmu_db_15445_project.Buffer.Arc.Eviction.{Evicted, evict-Evicted}
use cmu_db_15445_project.Buffer.Arc.Bounds.{
  IsSound, Step, Reach, accesses, toggles, here, next, Reach-IsSound,
}

abbrev after : ArcReplacer → Outcome ArcReplacer → ArcReplacer
after a (ok b) = b
after a crash = a

abbrev empty : ArcReplacer
empty = init 2

abbrev one : ArcReplacer
one = after empty (record_access empty 0 7)

abbrev two : ArcReplacer
two = after one (record_access one 1 8)

abbrev both : ArcReplacer
both = set_evictable (set_evictable two 0 true) 1 true

one_step : Step empty one
unfolding init record_access make_room
one_step = accesses 0 7 (λ _. (λ f e. cc, omega arith)) refl

two_step : Step one two
unfolding init record_access make_room
two_step = accesses 1 8 (λ _. (λ f e. ground arith, omega arith)) refl

both_run : Reach empty both
both_run = next (next (next (next here one_step) two_step) (toggles 0 true)) (toggles 1 true)

Reach-IsSound_example : IsSound both
Reach-IsSound_example = Reach-IsSound 2 (omega arith) both_run

both_size : evictables both.alive_map both.mru + evictables both.alive_map both.mfu < word64
unfolding init record_access make_room set_evictable
both_size = omega arith

-- The page that was there first goes.
evict_first : (b : ArcReplacer) × (evict both ≡ ok (b, some 0))
unfolding init record_access make_room set_evictable evict try_evict_from_mru find_evictable
    evict_mru try_evict_from_mfu
evict_first = (_, refl)

evict-Evicted_example : Returns (evict both) (Evicted both)
evict-Evicted_example = evict-Evicted both (Reach-IsSound 2 (omega arith) both_run).0 both_size

record_access-Inv_example : Returns (record_access empty 0 7) Inv
unfolding init
record_access-Inv_example =
    record_access-Inv empty 0 7 (Reach-IsSound 2 (omega arith) here).0 (λ _. λ f e. cc)

one_free : one.alive_map 1 ≡ none → length one.mru + length one.mfu < one.replacer_size
unfolding init record_access make_room
one_free _ = omega arith

remove_cases_example :
    ((both.alive_map 0 ≡ none) × (remove both 0 ≡ ok both))
    ⊎ (((s : FrameStatus) × (both.alive_map 0 ≡ some s)
          × (s.evictable ≡ false)
          × (remove both 0 ≡ crash))
        ⊎ ((s : FrameStatus) × (both.alive_map 0 ≡ some s)
            × (s.evictable ≡ true)
            × Returns (remove both 0) (Removed both 0)))
remove_cases_example = remove_cases both 0 (Reach-IsSound 2 (omega arith) both_run).0
