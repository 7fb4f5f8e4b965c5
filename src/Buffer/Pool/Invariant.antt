-- ===== src/Buffer/Pool/Invariant.antt =====
-- What holds of the pool between two steps, and the memory that it stands for.
use cmu_db_15445_project.Prelude.{
  refl, ℕ, ◌+◌, ◌*◌, ◌≤◌, ◌<◌, ◌≡◌, true, false, none, some, length, count, arith,
}
use cmu_db_15445_project.Prelude.Assoc.{lookup}
use cmu_db_15445_project.Prelude.Words.{word64}
use cmu_db_15445_project.Buffer.Arc.{is_evictable}
use cmu_db_15445_project.Buffer.Arc
use cmu_db_15445_project.Buffer.Arc.Bounds.{IsSound, init-IsSound}
use cmu_db_15445_project.Buffer.Arc.Counts.{page_of}
use cmu_db_15445_project.Buffer.Arc.Client.{frames_alive}
use cmu_db_15445_project.Buffer.Disk.{DiskManager}
use cmu_db_15445_project.Buffer.Pool.{Pool, init, ids_from}

module _ {Data : Type 0} (zeros : Data) (D : DiskManager Data) where
  -- The bytes of a page: those in its frame, if it is in the pool, or else those on disk.
  abbrev pub memory : Pool zeros D → ℕ → Data
  memory s p = elim (lookup p s.page_table) [
    | none ↦ D.content s.disk p
    | some f ↦ (s.frames f).page_data
  ]

  -- The page table and the reverse map agree with each other and with the replacer; a free frame
  -- holds no page; a frame that may be evicted is not pinned; every frame is free or in the
  -- replacer, but for `spare` frames in hand; the frame of a page that is not dirty holds what the
  -- disk holds.
  pub record Inv (spare : ℕ) (s : Pool zeros D) : Type 0 where
    pub arc : IsSound s.replacer
    pub mapped : (p f : ℕ) → lookup p s.page_table ≡ some f → s.frame_to_page f ≡ some p
    pub listed : (p f : ℕ) → s.frame_to_page f ≡ some p → lookup p s.page_table ≡ some f
    pub pages : (f : ℕ) → page_of (s.replacer.alive_map f) ≡ s.frame_to_page f
    pub free :
        (f : ℕ)
        → 0 < count f s.free_frames
        → (s.frame_to_page f ≡ none) × ((s.frames f).pin_count ≡ 0)
    pub free_once : (f : ℕ) → count f s.free_frames ≤ 1
    pub unpinned :
        (f : ℕ) → is_evictable (s.replacer.alive_map f) ≡ true → (s.frames f).pin_count ≡ 0
    pub number : frames_alive s.replacer + length s.free_frames + spare ≡ s.num_frames
    pub capacity : s.replacer.replacer_size ≡ s.num_frames
    pub clean :
        (p f : ℕ)
        → lookup p s.page_table ≡ some f
        → (s.frames f).is_dirty ≡ false
        → (s.frames f).page_data ≡ D.content s.disk p

length-ids_from : (i n : ℕ) → length (ids_from i n) ≡ n
unfolding ids_from
length-ids_from i ℕ.zero = omega arith
length-ids_from i (ℕ.suc n) = omega (arith, length-ids_from (i + 1) n)

count-ids_from : (f i n : ℕ) → (count f (ids_from i n) ≤ 1) × (f < i → count f (ids_from i n) ≡ 0)
unfolding ids_from
count-ids_from f i ℕ.zero = (omega arith, λ h. omega arith)
count-ids_from f i (ℕ.suc n) =
    let (a, b) = count-ids_from f (i + 1) n in (ground (arith, b), λ h. ground (arith, b))

-- A new pool of `n` frames, with `2 * n` below 2^64, satisfies the invariant, and stands for what is
-- on disk.
pub init-Inv :
    {Data : Type 0} (zeros : Data) (D : DiskManager Data) (n : ℕ) (d : D.State)
    → 2 * n < word64
    → Inv zeros D 0 (init zeros D n d)
      × ((p : ℕ) → memory zeros D (init zeros D n d) p ≡ D.content d p)
unfolding init
init-Inv zeros D n d small = (
  record {
    arc = init-IsSound n small;
    mapped = λ p f h. cc;
    listed = λ p f h. cc;
    pages = λ f. unfold Arc.init in refl;
    free = λ f h. (refl, refl);
    free_once = λ f. (count-ids_from f 0 n).0;
    unpinned = λ f h. refl;
    number = unfold Arc.init in omega (arith, length-ids_from 0 n);
    capacity = unfold Arc.init in refl;
    clean = λ p f h k. cc;
  },
  λ p. refl,
)
