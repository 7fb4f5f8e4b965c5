-- ===== src/Buffer/Guard/Phases.antt =====
-- A guard that goes on to its next phase keeps the invariant.
use mathlib.Core.Path.{subst}
use cmu_db_15445_project.Prelude.{
  ℕ, ◌+◌, ◌≤◌, ◌<◌, ◌≡◌, true, false, some, length-set, get_elem?, get_elem?-set, total-set,
  le-total, total-le-length, arith, refl, sym, inl, inr, ◌⊎◌, Bool-cases, ◌||◌, ltb,
}
use cmu_db_15445_project.Prelude.Words.{word64}
use cmu_db_15445_project.Buffer.Disk.{DiskManager}
use cmu_db_15445_project.Buffer.Pool.{Pool}
use cmu_db_15445_project.Buffer.Pool.Invariant
use cmu_db_15445_project.Buffer.Pool.Invariant.{memory}
use cmu_db_15445_project.Buffer.Guard.{
  Guard, Kind, Phase, shared, exclusive, waiting, holding, unlatched, unpinned, dropped, World,
  at_phase, latch_frame, unlatch_frame, unpin, settle, put_frame,
}
use cmu_db_15445_project.Buffer.Guard.Invariant.{
  Inv, pins_of, reads_of, writes_of, one_if, pins_of-le, put_frame-Inv, settle-Inv, settle-keeps,
}

pub kind_cases : (k : Kind) → (k ≡ shared) ⊎ (k ≡ exclusive)
kind_cases shared = inl refl
kind_cases exclusive = inr refl

module _ {Data : Type 0} (zeros : Data) (D : DiskManager Data) (s t : Pool zeros D) (f : ℕ) where
  pub latch_shared-eq :
      latch_frame zeros D shared s f ≡ some t
      → ((s.frames f).writer ≡ false)
        × (t ≡ put_frame zeros D s f (record (s.frames f) { readers = (s.frames f).readers + 1 }))
  unfolding latch_frame
  latch_shared-eq h = elim (Bool-cases (s.frames f).writer) [
    | inl b ↦ absurd (ground arith)
    | inr b ↦ (b, ground arith)
  ]

  pub latch_exclusive-eq :
      latch_frame zeros D exclusive s f ≡ some t
      → ((s.frames f).writer ≡ false)
        × ((s.frames f).readers ≡ 0)
        × (t ≡ put_frame zeros D s f (record (s.frames f) { writer = true; is_dirty = true }))
  unfolding latch_frame
  latch_exclusive-eq h = elim (Bool-cases ((s.frames f).writer || ltb 0 (s.frames f).readers)) [
    | inl b ↦ absurd (ground arith)
    | inr b ↦ (ground arith, ground arith, ground arith)
  ]

module _ {Data : Type 0} (zeros : Data) (D : DiskManager Data) (w : World zeros D)
    (v : Inv zeros D w) where
  -- A guard goes on to another phase, and its frame's counts with it.
  at_phase-Inv :
      (i : ℕ) (g : Guard) (ph : Phase) (s : Pool zeros D)
      → get_elem? w.guards i ≡ some g
      → Invariant.Inv zeros D 0 s
      → ((f : ℕ)
          → (s.frames f).pin_count + pins_of f g
            ≡ (w.pool.frames f).pin_count + pins_of f (record g { phase = ph }))
      → ((f : ℕ)
          → (s.frames f).readers + reads_of f g
            ≡ (w.pool.frames f).readers + reads_of f (record g { phase = ph }))
      → ((f : ℕ)
          → one_if (s.frames f).writer + writes_of f g
            ≡ one_if (w.pool.frames f).writer + writes_of f (record g { phase = ph }))
      → ((f : ℕ) → (s.frames f).writer ≡ true → (s.frames f).readers ≡ 0)
      → s.frame_to_page ≡ w.pool.frame_to_page
      → pins_of g.frame (record g { phase = ph }) ≤ pins_of g.frame g
      → Inv zeros D (at_phase zeros D w i g ph s)
  at_phase-Inv i g ph s e pool pin read write alone maps le =
      let g' : Guard = record g { phase = ph } in
      record {
        pool = pool;
        small = omega (arith, v.small, length-set w.guards i g');
        pins = λ f. omega (arith, pin f, v.pins f, total-set (pins_of f) w.guards i g g' e);
        readers = λ f. omega (arith, read f, v.readers f, total-set (reads_of f) w.guards i g g' e);
        writers =
            λ f. omega (arith, write f, v.writers f, total-set (writes_of f) w.guards i g g' e);
        alone = alone;
        resident = λ j h k c. rw maps (
            ground (
              arith,
              get_elem?-set w.guards i j g g' e,
              v.resident j h,
              v.resident i g,
              pins_of-le g.frame g,
            ));
      }

  module _ (i : ℕ) (g : Guard) (e : get_elem? w.guards i ≡ some g) where
    latches_shared-Inv :
        (s : Pool zeros D)
        → g.phase ≡ waiting
        → g.kind ≡ shared
        → latch_frame zeros D shared w.pool g.frame ≡ some s
        → Inv zeros D (at_phase zeros D w i g holding s)
    latches_shared-Inv s ph k h =
        let (free, same) = latch_shared-eq zeros D w.pool s g.frame h in
        rw same (
          at_phase-Inv i g holding _ e
            (put_frame-Inv zeros D w.pool g.frame v.pool _ (λ z. z) (λ d. (d, refl)))
            (λ f. ground arith) (λ f. ground arith) (λ f. ground arith)
            (λ f. ground (arith, v.alone f)) refl (ground arith))

    latches_exclusive-Inv :
        (s : Pool zeros D)
        → g.phase ≡ waiting
        → g.kind ≡ exclusive
        → latch_frame zeros D exclusive w.pool g.frame ≡ some s
        → Inv zeros D (at_phase zeros D w i g holding s)
    latches_exclusive-Inv s ph k h =
        let (free, none_read, same) = latch_exclusive-eq zeros D w.pool s g.frame h in
        rw same (
          at_phase-Inv i g holding _ e
            (put_frame-Inv zeros D w.pool g.frame v.pool _ (λ z. z) (λ d. cc)) (λ f. ground arith)
            (λ f. ground arith) (λ f. ground arith) (λ f. ground (arith, v.alone f)) refl
            (ground arith))

    pub latches-Inv :
        (s : Pool zeros D)
        → g.phase ≡ waiting
        → latch_frame zeros D g.kind w.pool g.frame ≡ some s
        → Inv zeros D (at_phase zeros D w i g holding s)
    latches-Inv s ph h = elim (kind_cases g.kind) [
      | inl k ↦ latches_shared-Inv s ph k (rw k at h)
      | inr k ↦ latches_exclusive-Inv s ph k (rw k at h)
    ]

    unlatches_shared-Inv :
        g.phase ≡ holding
        → g.kind ≡ shared
        → Inv zeros D
            (at_phase zeros D w i g unlatched (unlatch_frame zeros D shared w.pool g.frame))
    unfolding unlatch_frame
    unlatches_shared-Inv ph k =
        let read : 0 < (w.pool.frames g.frame).readers =
          ground (arith, v.readers g.frame, le-total (reads_of g.frame) w.guards i g e) in
        at_phase-Inv i g unlatched _ e
          (put_frame-Inv zeros D w.pool g.frame v.pool _ (λ z. z) (λ d. (d, refl)))
          (λ f. ground arith) (λ f. ground arith) (λ f. ground arith)
          (λ f. ground (arith, v.alone f)) refl (ground arith)

    unlatches_exclusive-Inv :
        g.phase ≡ holding
        → g.kind ≡ exclusive
        → Inv zeros D
            (at_phase zeros D w i g unlatched (unlatch_frame zeros D exclusive w.pool g.frame))
    unfolding unlatch_frame
    unlatches_exclusive-Inv ph k =
        let write : (w.pool.frames g.frame).writer ≡ true =
          ground (arith, v.writers g.frame, le-total (writes_of g.frame) w.guards i g e) in
        at_phase-Inv i g unlatched _ e
          (put_frame-Inv zeros D w.pool g.frame v.pool _ (λ z. z) (λ d. (d, refl)))
          (λ f. ground arith) (λ f. ground arith) (λ f. ground arith)
          (λ f. ground (arith, v.alone f)) refl (ground arith)

    pub unlatches-Inv :
        g.phase ≡ holding
        → Inv zeros D
            (at_phase zeros D w i g unlatched (unlatch_frame zeros D g.kind w.pool g.frame))
    unlatches-Inv ph = elim (kind_cases g.kind) [
      | inl k ↦
          subst
            (λ c.
              Inv zeros D
                (at_phase zeros D w i g unlatched (unlatch_frame zeros D c w.pool g.frame)))
            (sym k) (unlatches_shared-Inv ph k)
      | inr k ↦
          subst
            (λ c.
              Inv zeros D
                (at_phase zeros D w i g unlatched (unlatch_frame zeros D c w.pool g.frame)))
            (sym k) (unlatches_exclusive-Inv ph k)
    ]

    pub unpins-Inv :
        g.phase ≡ unlatched
        → Inv zeros D (at_phase zeros D w i g unpinned (unpin zeros D w.pool g.frame))
    unfolding unpin
    unpins-Inv ph =
        let one : 0 < (w.pool.frames g.frame).pin_count =
          ground (arith, v.pins g.frame, le-total (pins_of g.frame) w.guards i g e) in
        let few : (w.pool.frames g.frame).pin_count < word64 = omega (
          arith,
          v.pins g.frame,
          v.small,
          total-le-length (pins_of g.frame) w.guards (pins_of-le g.frame),
        ) in
        at_phase-Inv i g unpinned _ e
          (put_frame-Inv zeros D w.pool g.frame v.pool _ (λ z. omega arith) (λ d. (d, refl)))
          (λ f. ground arith) (λ f. ground arith) (λ f. ground arith)
          (λ f. ground (arith, v.alone f)) refl (ground arith)

    pub settles-Inv :
        g.phase ≡ unpinned
        → Inv zeros D (at_phase zeros D w i g dropped (settle zeros D w.pool g.frame))
    settles-Inv ph =
        let (same, maps, _) = settle-keeps zeros D w.pool g.frame v.pool in
        at_phase-Inv i g dropped _ e (settle-Inv zeros D w.pool g.frame v.pool)
          (λ f. rw same (ground arith)) (λ f. rw same (ground arith)) (λ f. rw same (ground arith))
          (λ f. rw same (v.alone f)) maps (ground arith)
