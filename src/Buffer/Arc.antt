-- ===== src/Buffer/Arc.antt =====
-- bustub-master/src/buffer/arc_replacer.cpp: the ARC replacement policy. Frames in memory stand in
-- `mru` or `mfu`, evicted pages in `mru_ghost` or `mfu_ghost`; the front of a list is its head.
--
-- The two hash maps are functions. A list iterator of `FrameStatus` is what it points at: to erase
-- through it is to erase the first occurrence, since the newest entry of a list is its front.
-- Every method holds the latch throughout, so a call is one step.
pub mod Counts
pub mod Invariant
pub mod Access
pub mod Removal
pub mod Eviction
pub mod Bounds
pub mod Client
use cmu_db_15445_project.Prelude.{
  ℕ, ◌-◌, ◌/◌, min, Bool, true, false, Option, none, some, List, [], ◌∷◌, reverse, length, pop_back,
  back, erase, update, ltb, leb, ◌==◌, if◌then◌else◌, Outcome, ok, crash, ◌>>=◌,
}
use cmu_db_15445_project.Prelude.Words.{add64, sub64, mul64}

-- A tag of `FrameStatus`.
pub data ArcStatus : Type 0 where
  mru_status mfu_status mru_ghost_status mfu_ghost_status : ArcStatus

pub record FrameStatus : Type 0 where
  pub page_id : ℕ
  pub frame_id : ℕ
  pub evictable : Bool
  pub arc_status : ArcStatus

pub record ArcReplacer : Type 0 where
  pub mru : List ℕ
  pub mfu : List ℕ
  pub mru_ghost : List ℕ
  pub mfu_ghost : List ℕ
  pub alive_map : ℕ → Option FrameStatus
  pub ghost_map : ℕ → Option FrameStatus
  pub curr_size : ℕ
  pub mru_target_size : ℕ
  pub replacer_size : ℕ

-- The constructor.
unfoldable pub init : ℕ → ArcReplacer
init num_frames = record {
  mru = [];
  mfu = [];
  mru_ghost = [];
  mfu_ghost = [];
  alive_map = λ _. none;
  ghost_map = λ _. none;
  curr_size = 0;
  mru_target_size = 0;
  replacer_size = num_frames;
}

-- Whether an entry of `alive_map` is there and evictable.
abbrev pub is_evictable : Option FrameStatus → Bool
is_evictable none = false
is_evictable (some s) = s.evictable

-- The backward loop of both lambdas of `Evict`, over the reversed list: the first evictable frame
-- with its status. A frame that `alive_map` lacks is a null pointer, and reading it crashes.
unfoldable pub find_evictable :
    (ℕ → Option FrameStatus) → List ℕ → Outcome (Option (ℕ × FrameStatus))
find_evictable m [] = ok none
find_evictable m (fid ∷ rest) = elim (m fid) [
  | none ↦ crash
  | some s ↦ elim s.evictable [ true ↦ ok (some (fid, s)) | false ↦ find_evictable m rest ]
]

-- The body of the loop of `try_evict_from_mru`, at the frame found.
unfoldable pub evict_mru : ArcReplacer → ℕ → FrameStatus → ArcReplacer
evict_mru a fid s = record a {
  mru_ghost = s.page_id ∷ a.mru_ghost;
  ghost_map = update a.ghost_map s.page_id (
      some (record {
        page_id = s.page_id;
        frame_id = fid;
        evictable = false;
        arc_status = mru_ghost_status;
      }));
  mru = erase fid a.mru;
  alive_map = update a.alive_map fid none;
  curr_size = sub64 a.curr_size 1;
}

-- That of `try_evict_from_mfu`.
unfoldable pub evict_mfu : ArcReplacer → ℕ → FrameStatus → ArcReplacer
evict_mfu a fid s = record a {
  mfu_ghost = s.page_id ∷ a.mfu_ghost;
  ghost_map = update a.ghost_map s.page_id (
      some (record {
        page_id = s.page_id;
        frame_id = fid;
        evictable = false;
        arc_status = mfu_ghost_status;
      }));
  mfu = erase fid a.mfu;
  alive_map = update a.alive_map fid none;
  curr_size = sub64 a.curr_size 1;
}

unfoldable pub try_evict_from_mru : ArcReplacer → Outcome (ArcReplacer × Option ℕ)
try_evict_from_mru a =
    find_evictable a.alive_map (reverse a.mru)
    >>= elim [ none ↦ ok (a, none) | some (fid, s) ↦ ok (evict_mru a fid s, some fid) ]

unfoldable pub try_evict_from_mfu : ArcReplacer → Outcome (ArcReplacer × Option ℕ)
try_evict_from_mfu a =
    find_evictable a.alive_map (reverse a.mfu)
    >>= elim [ none ↦ ok (a, none) | some (fid, s) ↦ ok (evict_mfu a fid s, some fid) ]

-- `if (result) return result; return second();`
abbrev pub or_else :
    Outcome (ArcReplacer × Option ℕ)
    → (ArcReplacer → Outcome (ArcReplacer × Option ℕ))
    → Outcome (ArcReplacer × Option ℕ)
or_else first second = first >>= λ r. elim r.1 [ none ↦ second r.0 | some fid ↦ ok (r.0, some fid) ]

unfoldable pub evict : ArcReplacer → Outcome (ArcReplacer × Option ℕ)
evict a =
    if a.curr_size == 0
    then ok (a, none)
    else if leb a.mru_target_size (length a.mru)
    then or_else (try_evict_from_mru a) try_evict_from_mfu
    else or_else (try_evict_from_mfu a) try_evict_from_mru

-- `RecordAccess`, case 1: the frame is alive, and goes to the front of `mfu`.
unfoldable pub promote : ArcReplacer → ℕ → FrameStatus → ArcReplacer
promote a frame_id s =
    let mfu' : List ℕ = elim s.arc_status [ mru_status ↦ a.mfu | _ ↦ erase frame_id a.mfu ] in
    record a {
      mru = elim s.arc_status [ mru_status ↦ erase frame_id a.mru | _ ↦ a.mru ];
      mfu = frame_id ∷ mfu';
      alive_map = update a.alive_map frame_id (some (record s { arc_status = mfu_status }));
    }

-- Cases 2 and 3: the target after a hit in a ghost list. Dividing by zero crashes.
unfoldable pub adapt_target : ArcReplacer → ArcStatus → Outcome ℕ
adapt_target a mru_ghost_status =
    let p = a.mru_target_size in
    let mru_ghost_size = length a.mru_ghost in
    let mfu_ghost_size = length a.mfu_ghost in
    if leb mfu_ghost_size mru_ghost_size
    then ok (min (add64 p 1) a.replacer_size)
    else if mru_ghost_size == 0
    then crash
    else ok (min (add64 p (mfu_ghost_size / mru_ghost_size)) a.replacer_size)
adapt_target a _ =
    let p = a.mru_target_size in
    if leb (length a.mru_ghost) (length a.mfu_ghost)
    then ok (if ltb 0 p then p - 1 else 0)
    else ok p

abbrev pub fresh_status : ℕ → ℕ → ArcStatus → FrameStatus
fresh_status page_id frame_id st = record {
  page_id = page_id;
  frame_id = frame_id;
  evictable = false;
  arc_status = st;
}

-- Cases 2 and 3: the page is brought back into `mfu`.
unfoldable pub revive : ArcReplacer → ℕ → ℕ → FrameStatus → ℕ → ArcReplacer
revive a frame_id page_id g target = record a {
  mru_target_size = target;
  mru_ghost = elim g.arc_status [ mru_ghost_status ↦ erase page_id a.mru_ghost | _ ↦ a.mru_ghost ];
  mfu_ghost = elim g.arc_status [ mru_ghost_status ↦ a.mfu_ghost | _ ↦ erase page_id a.mfu_ghost ];
  ghost_map = update a.ghost_map page_id none;
  mfu = frame_id ∷ a.mfu;
  alive_map = update a.alive_map frame_id (some (fresh_status page_id frame_id mfu_status));
}

-- `ghost_map_.erase(mru_ghost_.back()); mru_ghost_.pop_back();` if the list is not empty.
unfoldable pub trim_mru_ghost : ArcReplacer → ArcReplacer
trim_mru_ghost a = elim (back a.mru_ghost) [
  | none ↦ a
  | some page_id ↦ record a {
    ghost_map = update a.ghost_map page_id none;
    mru_ghost = pop_back a.mru_ghost;
  }
]

unfoldable pub trim_mfu_ghost : ArcReplacer → ArcReplacer
trim_mfu_ghost a = elim (back a.mfu_ghost) [
  | none ↦ a
  | some page_id ↦ record a {
    ghost_map = update a.ghost_map page_id none;
    mfu_ghost = pop_back a.mfu_ghost;
  }
]

-- Case 4: which ghost list gives way to a page that misses all the lists.
unfoldable pub make_room : ArcReplacer → ArcReplacer
make_room a =
    let mru_total = add64 (length a.mru) (length a.mru_ghost) in
    if mru_total == a.replacer_size
    then trim_mru_ghost a
    else if add64 (add64 mru_total (length a.mfu)) (length a.mfu_ghost) == mul64 2 a.replacer_size
    then trim_mfu_ghost a
    else a

abbrev pub push_mru : ArcReplacer → ℕ → ℕ → ArcReplacer
push_mru a frame_id page_id = record a {
  mru = frame_id ∷ a.mru;
  alive_map = update a.alive_map frame_id (some (fresh_status page_id frame_id mru_status));
}

-- The access type is not read.
unfoldable pub record_access : ArcReplacer → ℕ → ℕ → Outcome ArcReplacer
record_access a frame_id page_id = elim (a.alive_map frame_id) [
  | some s ↦ ok (promote a frame_id s)
  | none ↦ elim (a.ghost_map page_id) [
    | some g ↦ adapt_target a g.arc_status >>= λ target. ok (revive a frame_id page_id g target)
    | none ↦ ok (push_mru (make_room a) frame_id page_id)
  ]
]

abbrev pub same : Bool → Bool → Bool
same true b = b
same false true = false
same false false = true

-- Frame ids are not negative here, so the assertion on them holds.
unfoldable pub set_evictable : ArcReplacer → ℕ → Bool → ArcReplacer
set_evictable a frame_id value = elim (a.alive_map frame_id) [
  | none ↦ a
  | some s ↦ if same s.evictable value then a else record a {
    alive_map = update a.alive_map frame_id (some (record s { evictable = value }));
    curr_size = (if value then add64 a.curr_size 1 else sub64 a.curr_size 1);
  }
]

-- The assertion that the frame is evictable aborts.
unfoldable pub remove : ArcReplacer → ℕ → Outcome ArcReplacer
remove a frame_id = elim (a.alive_map frame_id) [
  | none ↦ ok a
  | some s ↦ elim s.evictable [
    | false ↦ crash
    | true ↦ ok (record a {
      mru = elim s.arc_status [ mru_status ↦ erase frame_id a.mru | _ ↦ a.mru ];
      mfu = elim s.arc_status [ mru_status ↦ a.mfu | _ ↦ erase frame_id a.mfu ];
      alive_map = update a.alive_map frame_id none;
      curr_size = sub64 a.curr_size 1;
    })
  ]
]

unfoldable pub size : ArcReplacer → ℕ
size a = a.curr_size
