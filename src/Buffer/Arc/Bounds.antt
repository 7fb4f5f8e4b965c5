-- ===== src/Buffer/Arc/Bounds.antt =====
-- How long the four lists grow.
use cmu_db_15445_project.Prelude.{
  ℕ, ◌+◌, ◌*◌, ◌≤◌, ◌<◌, ◌≡◌, Bool, Option, none, some, List, [], ◌∷◌, arith, inl, inr,
  Option-cases, Returns, Returns-bind, Outcome, ok, erase, length, length-erase, length-pop_back,
  back,
}
use cmu_db_15445_project.Prelude.Words.{word64}
use cmu_db_15445_project.Buffer.Arc.{
  ArcReplacer, FrameStatus, init, evict, record_access, set_evictable, remove, promote,
  adapt_target, revive, trim_mru_ghost, trim_mfu_ghost, make_room, push_mru,
}
use cmu_db_15445_project.Buffer.Arc.Invariant.{Inv, init-Inv, set_evictable-Inv}
use cmu_db_15445_project.Buffer.Arc.Counts.{evictables}
use cmu_db_15445_project.Buffer.Arc.Access.{IsAbsent, adapt_target-le, record_access-Inv}
use cmu_db_15445_project.Buffer.Arc.Eviction.{Evicted, evict-Evicted}
use cmu_db_15445_project.Buffer.Arc.Removal.{remove_cases}

-- The cache sizes of the ARC paper: `mru` with its ghosts within `c`, all four lists within `2 * c`.
pub record IsBounded (a : ArcReplacer) : Type 0 where
  pub recent : length a.mru + length a.mru_ghost ≤ a.replacer_size
  pub all :
      length a.mru + length a.mru_ghost + length a.mfu + length a.mfu_ghost ≤ 2 * a.replacer_size
  pub small : 2 * a.replacer_size < word64

promote-IsBounded :
    (a : ArcReplacer) (f : ℕ) (s : FrameStatus)
    → Inv a
    → IsBounded a
    → a.alive_map f ≡ some s
    → IsBounded (promote a f s)
unfolding promote
promote-IsBounded a f s v b e = ground (
  arith,
  v.mru_frames f,
  v.mfu_frames f,
  v.alive_tags f,
  length-erase f a.mru,
  length-erase f a.mfu,
)

revive-IsBounded :
    (a : ArcReplacer) (f p : ℕ) (g : FrameStatus) (t : ℕ)
    → Inv a
    → IsBounded a
    → a.ghost_map p ≡ some g
    → IsBounded (revive a f p g t)
unfolding revive
revive-IsBounded a f p g t v b e = ground (
  arith,
  v.mru_pages p,
  v.mfu_pages p,
  v.ghost_tags p,
  length-erase p a.mru_ghost,
  length-erase p a.mfu_ghost,
)

back-none {ℓ} : {A : Type ℓ} (xs : List A) → back xs ≡ none → length xs ≡ 0
back-none [] h = omega arith
back-none (x ∷ []) h = cc
back-none (x ∷ y ∷ xs) h = absurd (ground (arith, back-none (y ∷ xs)))

push-IsBounded :
    (a : ArcReplacer) (f p : ℕ)
    → IsBounded a
    → length a.mru + length a.mfu < a.replacer_size
    → IsBounded (push_mru (make_room a) f p)
unfolding make_room trim_mru_ghost trim_mfu_ghost
push-IsBounded a f p b free = ground (
  arith,
  length-pop_back a.mru_ghost,
  length-pop_back a.mfu_ghost,
  back-none a.mru_ghost,
  back-none a.mfu_ghost,
)

-- On a valid replacer, `RecordAccess` keeps the sizes within the bounds of the paper, if a frame that is new to the
-- replacer finds fewer frames in memory than the replacer has.
pub record_access-IsBounded :
    (a : ArcReplacer) (f p : ℕ)
    → Inv a
    → IsBounded a
    → (a.alive_map f ≡ none → length a.mru + length a.mfu < a.replacer_size)
    → Returns (record_access a f p) IsBounded
unfolding record_access
record_access-IsBounded a f p v w free = elim (Option-cases (a.alive_map f)) [
  | inr (s, e) ↦ rw (e, record_access) (promote-IsBounded a f s v w e)
  | inl e ↦ elim (Option-cases (a.ghost_map p)) [
    | inr (g, k) ↦
        rw (e, k, record_access)
          (Returns-bind (adapt_target a g.arc_status) _ (λ t. t ≤ a.replacer_size) IsBounded
            (adapt_target-le a p g v k) (λ t _. revive-IsBounded a f p g t v w k))
    | inl k ↦ rw (e, k, record_access) (push-IsBounded a f p w (free e))
  ]
]

pub set_evictable-IsBounded :
    (a : ArcReplacer) (f : ℕ) (b : Bool) → IsBounded a → IsBounded (set_evictable a f b)
unfolding set_evictable
set_evictable-IsBounded a f b w = ground arith

erase-le : (x : ℕ) (ys : List ℕ) → length (erase x ys) ≤ length ys
erase-le x [] = omega arith
erase-le x (y ∷ ys) = ground (arith, erase-le x ys)

pub remove-IsBounded : (a b : ArcReplacer) (f : ℕ) → IsBounded a → remove a f ≡ ok b → IsBounded b
unfolding remove
remove-IsBounded a b f w h = ground (arith, erase-le f a.mru, erase-le f a.mfu)

pub evict-IsBounded :
    (a : ArcReplacer) (b : ArcReplacer) (r : Option ℕ)
    → IsBounded a
    → Evicted a (b, r)
    → IsBounded b
evict-IsBounded a b none w h = rw (h.0) w
evict-IsBounded a b (some f) w h =
    let (_, _, _, recent, other, c) = h.0 in omega (arith, recent, other, c)

-- A call of the replacer by a client that keeps its contract: a frame new to the replacer comes
-- with a page that no frame holds, and there are at most `replacer_size` frames in memory.
pub data Step (a : ArcReplacer) : ArcReplacer → Type 0 where
  accesses :
      {b : ArcReplacer} (f p : ℕ)
      → (a.alive_map f ≡ none → IsAbsent a p × (length a.mru + length a.mfu < a.replacer_size))
      → record_access a f p ≡ ok b
      → Step a b
  evicts : {b : ArcReplacer} (r : Option ℕ) → evict a ≡ ok (b, r) → Step a b
  toggles : (f : ℕ) (v : Bool) → Step a (set_evictable a f v)
  removes : {b : ArcReplacer} (f : ℕ) → remove a f ≡ ok b → Step a b

pub data Reach (a : ArcReplacer) : ArcReplacer → Type 0 where
  here : Reach a a
  next : {b c : ArcReplacer} → Reach a b → Step b c → Reach a c

abbrev pub IsSound : ArcReplacer → Type 0
IsSound a = Inv a × IsBounded a

Returns-at {ℓ} :
    {A : Type ℓ} (m : Outcome A) (P : A → Type 0) {x : A} → Returns m P → m ≡ ok x → P x
Returns-at m P h e = rw e at h

pub evictables-le : (m : ℕ → Option FrameStatus) (l : List ℕ) → evictables m l ≤ length l
evictables-le m [] = omega arith
evictables-le m (f ∷ l) = ground (arith, evictables-le m l)

pub remove-Inv : (a b : ArcReplacer) (f : ℕ) → Inv a → remove a f ≡ ok b → Inv b
remove-Inv a b f v h = elim (remove_cases a f v) [
  | inl (_, q) ↦ let x : a ≡ b = cc in rw (← x) v
  | inr (inl (_, _, _, q)) ↦ cc
  | inr (inr (s, _, _, r)) ↦ (Returns-at _ _ r h).0
]

init-IsBounded : (n : ℕ) → 2 * n < word64 → IsBounded (init n)
unfolding init
init-IsBounded n h = omega arith

Step-IsSound : {a b : ArcReplacer} → Step a b → IsSound a → IsSound b
Step-IsSound {a} (accesses f p c e) (v, w) = (
  Returns-at _ Inv (record_access-Inv a f p v (λ n. (c n).0)) e,
  Returns-at _ IsBounded (record_access-IsBounded a f p v w (λ n. (c n).1)) e,
)
Step-IsSound {a} (evicts {b} r e) (v, w) =
    let h : Evicted a (b, r) =
      Returns-at _ (Evicted a)
        (evict-Evicted a v
          (omega (arith, evictables-le a.alive_map a.mru, evictables-le a.alive_map a.mfu)))
        e in
    (evicted-Inv a b r v h, evict-IsBounded a b r w h)
  where
    evicted-Inv : (a b : ArcReplacer) (r : Option ℕ) → Inv a → Evicted a (b, r) → Inv b
    evicted-Inv a b none v h = rw (h.0) v
    evicted-Inv a b (some f) v h = h.0.0
Step-IsSound {a} (toggles f v) (i, w) = (set_evictable-Inv a f v i, set_evictable-IsBounded a f v w)
Step-IsSound {a} (removes {b} f e) (v, w) = (remove-Inv a b f v e, remove-IsBounded a b f w e)

-- After any sequence of calls that keep the contract, starting from a new replacer of `n` frames
-- with `2 * n` below 2^64, the invariant holds and the lists are within the bounds of the paper.
pub Reach-IsSound : (n : ℕ) {a : ArcReplacer} → 2 * n < word64 → Reach (init n) a → IsSound a
Reach-IsSound n small here = (init-Inv n, init-IsBounded n small)
Reach-IsSound n small (next r s) = Step-IsSound s (Reach-IsSound n small r)

pub init-IsSound : (n : ℕ) → 2 * n < word64 → IsSound (init n)
init-IsSound n small = Reach-IsSound n small here
