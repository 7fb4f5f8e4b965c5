-- ===== src/Buffer/Arc/Counts.antt =====
-- How many frames of a list are evictable, and which list a status names.
use cmu_db_15445_project.Prelude.{
  ℕ, ◌+◌, ◌≤◌, ◌<◌, ◌≡◌, Option, none, some, List, [], ◌∷◌, count, count-erase, erase, update,
  if◌then◌else◌, arith,
}
use cmu_db_15445_project.Buffer.Arc.{
  FrameStatus, mru_status, mfu_status, mru_ghost_status, mfu_ghost_status, is_evictable,
}

abbrev pub in_mru : Option FrameStatus → ℕ
in_mru none = 0
in_mru (some s) = elim s.arc_status [ mru_status ↦ 1 | _ ↦ 0 ]

abbrev pub in_mfu : Option FrameStatus → ℕ
in_mfu none = 0
in_mfu (some s) = elim s.arc_status [ mfu_status ↦ 1 | _ ↦ 0 ]

abbrev pub in_mru_ghost : Option FrameStatus → ℕ
in_mru_ghost none = 0
in_mru_ghost (some s) = elim s.arc_status [ mru_ghost_status ↦ 1 | _ ↦ 0 ]

abbrev pub in_mfu_ghost : Option FrameStatus → ℕ
in_mfu_ghost none = 0
in_mfu_ghost (some s) = elim s.arc_status [ mfu_ghost_status ↦ 1 | _ ↦ 0 ]

abbrev pub present {ℓ} : {A : Type ℓ} → Option A → ℕ
present none = 0
present (some a) = 1

-- The page that a frame holds.
abbrev pub page_of : Option FrameStatus → Option ℕ
page_of none = none
page_of (some s) = some s.page_id

abbrev pub weight : Option FrameStatus → ℕ
weight o = if is_evictable o then 1 else 0

-- The number of evictable frames of a list.
abbrev pub evictables : (ℕ → Option FrameStatus) → List ℕ → ℕ
evictables m [] = 0
evictables m (f ∷ l) = weight (m f) + evictables m l

count-erase_self : (f : ℕ) (l : List ℕ) → count f l ≡ 1 → count f (erase f l) ≡ 0
count-erase_self f l h = ground (arith, count-erase f f l)

module _ (m : ℕ → Option FrameStatus) (f : ℕ) where
  pub evictables-update_absent :
      (v : Option FrameStatus) (l : List ℕ)
      → count f l ≡ 0
      → evictables (update m f v) l ≡ evictables m l
  evictables-update_absent v [] h = omega arith
  evictables-update_absent v (g ∷ l) h = ground (arith, evictables-update_absent v l)

  pub evictables-update :
      (v : Option FrameStatus) (l : List ℕ)
      → count f l ≡ 1
      → evictables (update m f v) l + weight (m f) ≡ evictables m l + weight v
  evictables-update v [] h = absurd (omega arith)
  evictables-update v (g ∷ l) h =
      ground (arith, evictables-update v l, evictables-update_absent v l)

  pub evictables-erase :
      (l : List ℕ) → count f l ≡ 1 → evictables m (erase f l) + weight (m f) ≡ evictables m l
  evictables-erase [] h = absurd (omega arith)
  evictables-erase (g ∷ l) h = ground (arith, evictables-erase l)

  pub weight-le-evictables : (l : List ℕ) → 0 < count f l → weight (m f) ≤ evictables m l
  weight-le-evictables [] h = absurd (omega arith)
  weight-le-evictables (g ∷ l) h = ground (arith, weight-le-evictables l)

  -- A frame that leaves one list and the map, and is in no other list.
  pub evictables-gone :
      (l l' : List ℕ)
      → count f l ≡ 1
      → count f l' ≡ 0
      → evictables (update m f none) (erase f l) + evictables (update m f none) l' + weight (m f)
        ≡ evictables m l + evictables m l'
  evictables-gone l l' here there = omega (
    arith,
    evictables-erase l here,
    evictables-update_absent none (erase f l) (omega (arith, count-erase_self f l here)),
    evictables-update_absent none l' there,
  )
