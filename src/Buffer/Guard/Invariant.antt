-- ===== src/Buffer/Guard/Invariant.antt =====
-- The counts of guards agree with the frames, and a guarded page stays in its frame.
use cmu_db_15445_project.Prelude.{
  ℕ, ◌≤◌, ◌<◌, ◌≡◌, Bool, true, false, some, length, get_elem?, total, arith, ◌∙◌, inl, inr,
  Bool-cases, if◌then◌else◌, ◌==◌,
}
use cmu_db_15445_project.Prelude.Words.{word64}
use cmu_db_15445_project.Buffer.Disk.{DiskManager}
use cmu_db_15445_project.Buffer.Arc.Invariant.{set_evictable-Inv, set_evictable-page_of}
use cmu_db_15445_project.Buffer.Arc.Bounds.{set_evictable-IsBounded}
use cmu_db_15445_project.Buffer.Arc.Client.{set_evictable-flags, set_evictable-number}
use cmu_db_15445_project.Buffer.Pool.{Pool, FrameHeader}
use cmu_db_15445_project.Buffer.Pool.Invariant
use cmu_db_15445_project.Buffer.Pool.Invariant.{memory}
use cmu_db_15445_project.Buffer.Guard.{
  Guard, Kind, Phase, shared, exclusive, waiting, holding, unlatched, World, settle, put_frame,
}

-- What a guard adds to the pin count of a frame, and to the holders of its latch.
abbrev pub pins_of : ℕ → Guard → ℕ
pins_of f g =
    if g.frame == f then (elim g.phase [ waiting ↦ 1 | holding ↦ 1 | unlatched ↦ 1 | _ ↦ 0 ]) else 0

abbrev pub holds : Kind → Phase → Kind → ℕ
holds shared holding shared = 1
holds exclusive holding exclusive = 1
holds _ _ _ = 0

abbrev pub reads_of : ℕ → Guard → ℕ
reads_of f g = if g.frame == f then holds shared g.phase g.kind else 0

abbrev pub writes_of : ℕ → Guard → ℕ
writes_of f g = if g.frame == f then holds exclusive g.phase g.kind else 0

abbrev pub one_if : Bool → ℕ
one_if true = 1
one_if false = 0

pub pins_of-le : (f : ℕ) (g : Guard) → pins_of f g ≤ 1
pins_of-le f g = ground arith

module _ {Data : Type 0} (zeros : Data) (D : DiskManager Data) where
  pub record Inv (w : World zeros D) : Type 0 where
    pub pool : Invariant.Inv zeros D 0 w.pool
    pub small : length w.guards < word64
    pub pins : (f : ℕ) → (w.pool.frames f).pin_count ≡ total (pins_of f) w.guards
    pub readers : (f : ℕ) → (w.pool.frames f).readers ≡ total (reads_of f) w.guards
    pub writers : (f : ℕ) → one_if (w.pool.frames f).writer ≡ total (writes_of f) w.guards
    pub alone : (f : ℕ) → (w.pool.frames f).writer ≡ true → (w.pool.frames f).readers ≡ 0
    pub resident :
        (i : ℕ) (g : Guard)
        → get_elem? w.guards i ≡ some g
        → pins_of g.frame g ≡ 1
        → w.pool.frame_to_page g.frame ≡ some g.page_id

  module _ (s : Pool zeros D) (f : ℕ) (v : Invariant.Inv zeros D 0 s) where
    -- A frame given anew with the same bytes, no more pins, and marked dirty if it was.
    pub put_frame-Inv :
        (h : FrameHeader Data)
        → ((s.frames f).pin_count ≡ 0 → h.pin_count ≡ 0)
        → (h.is_dirty ≡ false
            → ((s.frames f).is_dirty ≡ false) × (h.page_data ≡ (s.frames f).page_data))
        → Invariant.Inv zeros D 0 (put_frame zeros D s f h)
    put_frame-Inv h pin dirty = record {
      arc = v.arc;
      mapped = v.mapped;
      listed = v.listed;
      pages = v.pages;
      free = λ g k. ground (arith, v.free g);
      free_once = v.free_once;
      unpinned = λ g k. ground (arith, v.unpinned g);
      number = v.number;
      capacity = v.capacity;
      clean = λ q g k j. ground (arith, v.clean q g);
    }

    pub put_frame-memory :
        (h : FrameHeader Data)
        → h.page_data ≡ (s.frames f).page_data
        → (q : ℕ) → memory zeros D (put_frame zeros D s f h) q ≡ memory zeros D s q
    put_frame-memory h e q = ground arith

    pub settle-Inv : Invariant.Inv zeros D 0 (settle zeros D s f)
    unfolding settle
    settle-Inv = elim (Bool-cases ((s.frames f).pin_count == 0)) [
      | inr e ↦ rw e v
      | inl e ↦
          let (i, b) = v.arc in
          let keeps = set_evictable-number s.replacer f true in
          rw e (record {
            arc = (
              set_evictable-Inv s.replacer f true i,
              set_evictable-IsBounded s.replacer f true b,
            );
            mapped = v.mapped;
            listed = v.listed;
            pages = λ g. set_evictable-page_of s.replacer f true g ∙ v.pages g;
            free = v.free;
            free_once = v.free_once;
            unpinned = λ g k. ground (arith, set_evictable-flags s.replacer f true g, v.unpinned g);
            number = omega (arith, keeps.0, v.number);
            capacity = keeps.1 ∙ v.capacity;
            clean = v.clean;
          })
    ]

    -- Everything but the replacer stays.
    pub settle-keeps :
        ((settle zeros D s f).frames ≡ s.frames)
        × ((settle zeros D s f).frame_to_page ≡ s.frame_to_page)
        × ((q : ℕ) → memory zeros D (settle zeros D s f) q ≡ memory zeros D s q)
    unfolding settle
    settle-keeps = (ground arith, ground arith, λ q. ground arith)
