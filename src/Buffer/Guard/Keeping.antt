-- ===== src/Buffer/Guard/Keeping.antt =====
-- What the pool's operations do to the latches of its frames: nothing.
use cmu_db_15445_project.Prelude.{
  ℕ, ◌≡◌, refl, ◌∙◌, Bool, false, none, some, Option, [], ◌∷◌, arith, inl, inr, ◌⊎◌, Bool-cases,
  Option-cases, ltb, Outcome, ok, crash,
}
use cmu_db_15445_project.Prelude.Assoc.{lookup}
use cmu_db_15445_project.Buffer.Disk.{DiskManager}
use cmu_db_15445_project.Buffer.Arc
use cmu_db_15445_project.Buffer.Pool.{Pool, fetch, hit, take_frame, load, unmap, delete_page}

outcome_cases : {A : Type 0} (m : Outcome A) → (m ≡ crash) ⊎ ((a : A) × (m ≡ ok a))
outcome_cases (ok a) = inr (a, refl)
outcome_cases crash = inl refl

module _ {Data : Type 0} (zeros : Data) (D : DiskManager Data) where
  -- The latches of all frames are as before.
  abbrev pub Keeps : Pool zeros D → Pool zeros D → Type 0
  Keeps s t =
      (f : ℕ)
      → ((t.frames f).readers ≡ (s.frames f).readers) × ((t.frames f).writer ≡ (s.frames f).writer)

  hit-Keeps : (s t : Pool zeros D) (fid p : ℕ) → hit zeros D s fid p ≡ ok t → Keeps s t
  unfolding hit
  hit-Keeps s t fid p h f =
      elim (outcome_cases (Arc.record_access (Arc.set_evictable s.replacer fid false) fid p)) [
        | inl c ↦ let z = rw (hit, c) at h in absurd cc
        | inr (r, c) ↦ let z = rw (hit, c) at h in ground arith
      ]

  unmap-Keeps : (s : Pool zeros D) (fid : ℕ) → Keeps s (unmap zeros D s fid)
  unfolding unmap
  unmap-Keeps s fid f = elim (Option-cases (s.frame_to_page fid)) [
    | inl e ↦ rw (e, unmap) (ground arith)
    | inr (p, e) ↦ rw (e, unmap) (ground arith)
  ]

  load-Keeps : (s t : Pool zeros D) (fid p : ℕ) → load zeros D s fid p ≡ ok t → Keeps s t
  unfolding load
  load-Keeps s t fid p h f = elim (outcome_cases (Arc.record_access s.replacer fid p)) [
    | inl c ↦ let z = rw (load, c) at h in absurd cc
    | inr (r, c) ↦ let z = rw (load, c) at h in ground arith
  ]

  take_frame-Keeps :
      (s t : Pool zeros D) (o : Option ℕ) → take_frame zeros D s ≡ ok (t, o) → Keeps s t
  unfolding take_frame
  take_frame-Keeps s t o h f =
      elim (s.free_frames)
          as (λ l.
            s.free_frames ≡ l
            → ((t.frames f).readers ≡ (s.frames f).readers)
              × ((t.frames f).writer ≡ (s.frames f).writer)) [
                | fid ∷ rest ↦ λ e. let z = rw (take_frame, e) at h in ground arith
                | [] ↦ λ e. elim (outcome_cases (Arc.evict s.replacer)) [
                  | inl c ↦ let z = rw (take_frame, e, c) at h in absurd cc
                  | inr (r, c) ↦ elim (Option-cases r.1) [
                    | inl n ↦ let z = rw (take_frame, e, c, n) at h in ground arith
                    | inr (fid, n) ↦
                        let z : ok (unmap zeros D (record s { replacer = r.0 }) fid, some fid)
                            ≡ ok (t, o) =
                          rw (take_frame, e, c, n) at h in
                        let same : unmap zeros D (record s { replacer = r.0 }) fid ≡ t = cc in
                        rw (← same) (unmap-Keeps (record s { replacer = r.0 }) fid f)
                  ]
                ]
              ]
        refl

  pub fetch-Keeps :
      (s t : Pool zeros D) (p : ℕ) (o : Option ℕ) → fetch zeros D s p ≡ ok (t, o) → Keeps s t
  unfolding fetch
  fetch-Keeps s t p o h f = elim (Option-cases (lookup p s.page_table)) [
    | inr (fid, e) ↦ elim (outcome_cases (hit zeros D s fid p)) [
      | inl c ↦ let z = rw (fetch, e, c) at h in absurd cc
      | inr (u, c) ↦
          let z : ok (u, some fid) ≡ ok (t, o) = rw (fetch, e, c) at h in
          let same : u ≡ t = cc in rw (← same) (hit-Keeps s u fid p c f)
    ]
    | inl e ↦ elim (outcome_cases (take_frame zeros D s)) [
      | inl c ↦ let z = rw (fetch, e, c) at h in absurd cc
      | inr (r, c) ↦
          let taken = take_frame-Keeps s r.0 r.1 c f in
          elim (Option-cases r.1) [
            | inl n ↦
                let z : ok (r.0, none) ≡ ok (t, o) = rw (fetch, e, c, n) at h in
                let same : r.0 ≡ t = cc in rw (← same) taken
            | inr (fid, n) ↦ elim (outcome_cases (load zeros D r.0 fid p)) [
              | inl d ↦ let z = rw (fetch, e, c, n, d) at h in absurd cc
              | inr (u, d) ↦
                  let z : ok (u, some fid) ≡ ok (t, o) = rw (fetch, e, c, n, d) at h in
                  let same : u ≡ t = cc in
                  let loaded = load-Keeps r.0 u fid p d f in
                  rw (← same) (loaded.0 ∙ taken.0, loaded.1 ∙ taken.1)
            ]
          ]
    ]
  ]

  pub delete_page-Keeps :
      (s t : Pool zeros D) (p : ℕ) (b : Bool) → delete_page zeros D s p ≡ ok (t, b) → Keeps s t
  unfolding delete_page
  delete_page-Keeps s t p b h f = elim (Option-cases (lookup p s.page_table)) [
    | inl e ↦ let z = rw (delete_page, e) at h in ground arith
    | inr (fid, e) ↦ elim (Bool-cases (ltb 0 (s.frames fid).pin_count)) [
      | inl l ↦ let z = rw (delete_page, e, l) at h in ground arith
      | inr l ↦ elim (outcome_cases (Arc.remove s.replacer fid)) [
        | inl c ↦ let z = rw (delete_page, e, l, c) at h in absurd cc
        | inr (r, c) ↦ let z = rw (delete_page, e, l, c) at h in ground arith
      ]
    ]
  ]
