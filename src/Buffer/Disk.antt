-- ===== src/Buffer/Disk.antt =====
-- What the buffer pool asks of a disk manager, and the in-memory disk manager that provides it:
-- bustub-master/src/storage/disk/disk_manager_memory.cpp, `DiskManagerUnlimitedMemory`.
--
-- The background thread of the disk scheduler takes one request at a time from a queue, and the
-- pool waits for each request that it schedules, so a request is one call here. Page ids are not
-- negative. The simulated latency only delays.
use native.Mathlib.Decide.{ℕ_discrete}
use cmu_db_15445_project.Prelude.{
  ℕ, zero, suc, ◌≡◌, ◌≢◌, refl, ap, ◌∙◌, if◌then◌else◌, ◌==◌, ==_iff, Option, none, some, List, [],
  ◌∷◌, arith,
}

-- `content s p` is what reading page `p` yields.
pub record DiskManager (Data : Type 0) : Type 1 where
  pub State : Type 0
  pub content : State → ℕ → Data
  pub write_page : State → ℕ → Data → State
  pub read_page : State → ℕ → State × Data
  pub delete_page : State → ℕ → State
  pub read_content : (s : State) (p : ℕ) → (read_page s p).1 ≡ content s p
  pub read_keeps : (s : State) (p q : ℕ) → content (read_page s p).0 q ≡ content s q
  pub write_self : (s : State) (p : ℕ) (d : Data) → content (write_page s p d) p ≡ d
  pub write_ne :
      (s : State) (p q : ℕ) (d : Data) → p ≢ q → content (write_page s p d) q ≡ content s q
  pub delete_ne : (s : State) (p q : ℕ) → p ≢ q → content (delete_page s p) q ≡ content s q

module _ {Data : Type 0} (zeros : Data) where
  -- `data_`: a page that was never touched is a null pointer.
  abbrev pub Pages : Type 0
  Pages = List (Option Data)

  -- `if (page_id >= data_.size()) data_.resize(page_id + 1);`
  unfoldable pub resize_to : ℕ → Pages → Pages
  resize_to zero [] = none ∷ []
  resize_to (suc p) [] = none ∷ resize_to p []
  resize_to zero (x ∷ xs) = x ∷ xs
  resize_to (suc p) (x ∷ xs) = x ∷ resize_to p xs

  unfoldable pub assign : ℕ → Data → Pages → Pages
  assign p d [] = []
  assign zero d (x ∷ xs) = some d ∷ xs
  assign (suc p) d (x ∷ xs) = x ∷ assign p d xs

  -- A new `ProtectedPage` holds zeros.
  unfoldable pub page_at : ℕ → Pages → Data
  page_at p [] = zeros
  page_at zero (none ∷ xs) = zeros
  page_at zero (some d ∷ xs) = d
  page_at (suc p) (x ∷ xs) = page_at p xs

  unfoldable pub write_page : Pages → ℕ → Data → Pages
  write_page data_ p d = assign p d (resize_to p data_)

  -- A missing page is created before it is read.
  unfoldable pub read_page : Pages → ℕ → Pages × Data
  read_page data_ p =
      let grown = resize_to p data_ in let d = page_at p grown in (assign p d grown, d)

  -- `DeletePage` does nothing.
  unfoldable pub delete_page : Pages → ℕ → Pages
  delete_page data_ p = data_

  pub page_at-resize_to : (p q : ℕ) (xs : Pages) → page_at q (resize_to p xs) ≡ page_at q xs
  unfolding page_at resize_to
  page_at-resize_to zero zero [] = refl
  page_at-resize_to zero (suc q) [] = refl
  page_at-resize_to (suc p) zero [] = refl
  page_at-resize_to (suc p) (suc q) [] = page_at-resize_to p q []
  page_at-resize_to zero q (x ∷ xs) = refl
  page_at-resize_to (suc p) zero (none ∷ xs) = refl
  page_at-resize_to (suc p) zero (some d ∷ xs) = refl
  page_at-resize_to (suc p) (suc q) (x ∷ xs) = page_at-resize_to p q xs

  pub page_at-assign_self :
      (p : ℕ) (d : Data) (xs : Pages) → page_at p (assign p d (resize_to p xs)) ≡ d
  unfolding page_at assign resize_to
  page_at-assign_self zero d [] = refl
  page_at-assign_self (suc p) d [] = page_at-assign_self p d []
  page_at-assign_self zero d (x ∷ xs) = refl
  page_at-assign_self (suc p) d (x ∷ xs) = page_at-assign_self p d xs

  page_at-assign_ne :
      (p q : ℕ) (d : Data) (xs : Pages) → p ≢ q → page_at q (assign p d xs) ≡ page_at q xs
  unfolding page_at assign
  page_at-assign_ne p q d [] h = refl
  page_at-assign_ne zero zero d (x ∷ xs) h = absurd (h refl)
  page_at-assign_ne zero (suc q) d (x ∷ xs) h = refl
  page_at-assign_ne (suc p) zero d (none ∷ xs) h = refl
  page_at-assign_ne (suc p) zero d (some e ∷ xs) h = refl
  page_at-assign_ne (suc p) (suc q) d (x ∷ xs) h = page_at-assign_ne p q d xs (λ e. h (ap suc e))

  pub write_ne-page_at :
      (xs : Pages) (p q : ℕ) (d : Data) → p ≢ q → page_at q (write_page xs p d) ≡ page_at q xs
  unfolding write_page
  write_ne-page_at xs p q d h = page_at-assign_ne p q d _ h ∙ page_at-resize_to p q xs

  pub read_keeps-page_at : (xs : Pages) (p q : ℕ) → page_at q (read_page xs p).0 ≡ page_at q xs
  unfolding read_page
  read_keeps-page_at xs p q = elim (ℕ_discrete p q) [
    | yes e ↦ rw e (page_at-assign_self q _ xs ∙ page_at-resize_to q q xs)
    | no h ↦ page_at-assign_ne p q _ _ h ∙ page_at-resize_to p q xs
  ]

  pub read_content-page_at : (xs : Pages) (p : ℕ) → (read_page xs p).1 ≡ page_at p xs
  unfolding read_page
  read_content-page_at xs p = page_at-resize_to p p xs

  pub write_self-page_at : (xs : Pages) (p : ℕ) (d : Data) → page_at p (write_page xs p d) ≡ d
  unfolding write_page
  write_self-page_at xs p d = page_at-assign_self p d xs

  pub delete_keeps-page_at : (xs : Pages) (p q : ℕ) → page_at q (delete_page xs p) ≡ page_at q xs
  unfolding delete_page
  delete_keeps-page_at xs p q = refl

  -- The in-memory disk manager as the buffer pool's disk.
  abbrev pub unlimited_memory : DiskManager Data
  unlimited_memory = record {
    State = Pages;
    content = λ xs p. page_at p xs;
    write_page = write_page;
    read_page = read_page;
    delete_page = delete_page;
    read_content = read_content-page_at;
    read_keeps = read_keeps-page_at;
    write_self = write_self-page_at;
    write_ne = write_ne-page_at;
    delete_ne = λ xs p q h. delete_keeps-page_at xs p q;
  }

module _ {Data : Type 0} (D : DiskManager Data) where
  pub write_content :
      (s : D.State) (p q : ℕ) (d : Data)
      → D.content (D.write_page s p d) q ≡ (if p == q then d else D.content s q)
  write_content s p q d = elim (ℕ_discrete p q) [
    | yes e ↦ rw (e, (==_iff q q).1 refl) (D.write_self s q d)
    | no h ↦ D.write_ne s p q d h ∙ ground arith
  ]
