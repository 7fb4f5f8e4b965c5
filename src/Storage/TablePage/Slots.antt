-- ===== src/Storage/TablePage/Slots.antt =====
-- The slots of a table page do not overlap, and a tuple that is inserted is read again.
use cmu_db_15445_project.Prelude.{
  ℕ, ◌+◌, ◌-◌, ◌*◌, ◌%◌, ◌<◌, ◌≤◌, ◌≡◌, refl, ap, ◌∙◌, true, false, none, some, List, [], ◌∷◌, ◌⊎◌,
  inl, inr, ltb, leb, length, arith, Bool-cases, ok, crash,
}
use cmu_db_15445_project.Prelude.Words.{sub64, word32}
use cmu_db_15445_project.Index.Arrays.{assign, listed, listed-ext}
use cmu_db_15445_project.Storage.TablePage.{
  page_size, word16, TupleMeta, TablePage, write_at, slot_end_offset, get_next_tuple_offset,
  insert_tuple, get_tuple,
}

sub64-le : (a b : ℕ) → b ≤ a → a ≤ page_size → sub64 a b ≡ a - b
sub64-le a b h l = omega arith

word16-small : (a : ℕ) → a ≤ page_size → a % word16 ≡ a
word16-small a l = omega arith

far_offset :
    (end len n : ℕ)
    → end < len
    → len < word32
    → n < word16
    → ltb (sub64 end len) (8 + 24 * (n + 1)) ≡ false
far_offset end len n h l b =
    let e : sub64 end len ≡ end + 18446744073709551616 - len = omega arith in
    let wide : 8 + 24 * (n + 1) ≤ sub64 end len = omega arith in ground arith

past_page :
    (end len : ℕ)
    → end < len
    → len < word32
    → end ≤ page_size
    → ltb page_size (sub64 end len % word16 + len) ≡ true
past_page end len h l b =
    let e : sub64 end len ≡ end + 18446744073709551616 - len = omega arith in
    let far : page_size < sub64 end len % word16 + len = omega (arith, e, h, l, b) in ground arith

module _ {Byte : Type 0} where
  write_at-outside :
      (a : ℕ → Byte) (i j : ℕ) (xs : List Byte)
      → (j < i) ⊎ (i + length xs ≤ j)
      → write_at a i xs j ≡ a j
  write_at-outside a i j [] h = refl
  write_at-outside a i j (x ∷ xs) (inl h) =
      write_at-outside (assign a i x) (i + 1) j xs (inl (omega (arith, h))) ∙ ground arith
  write_at-outside a i j (x ∷ xs) (inr h) =
      write_at-outside (assign a i x) (i + 1) j xs (inr (omega (arith, h))) ∙ ground arith

  listed-write_at :
      (a : ℕ → Byte) (i : ℕ) (xs : List Byte) → listed (write_at a i xs) i (length xs) ≡ xs
  listed-write_at a i [] = refl
  listed-write_at a i (x ∷ xs) =
      let head : write_at (assign a i x) (i + 1) xs i ≡ x =
        write_at-outside (assign a i x) (i + 1) i xs (inl (omega arith)) ∙ ground arith in
      rw (head, listed-write_at (assign a i x) (i + 1) xs) refl

  -- The slots lie between the header and the end of the page, a later one before an earlier one.
  pub record IsSlotted (p : TablePage Byte) : Type 0 where
    pub header : 8 + 24 * p.num_tuples ≤ slot_end_offset p
    pub inside :
        (i : ℕ) → i < p.num_tuples → (p.tuple_info i).offset + (p.tuple_info i).size ≤ page_size
    pub above : (i : ℕ) → i < p.num_tuples → slot_end_offset p ≤ (p.tuple_info i).offset
    pub apart :
        (i j : ℕ)
        → i < j
        → j < p.num_tuples
        → (p.tuple_info j).offset + (p.tuple_info j).size ≤ (p.tuple_info i).offset

  module _ (p : TablePage Byte) (v : IsSlotted p) where
    end_bound : slot_end_offset p ≤ page_size
    end_bound = ground (arith, v.inside (p.num_tuples - 1))

    offset_cases :
        (len : ℕ)
        → len ≤ slot_end_offset p
        → ((get_next_tuple_offset p len ≡ none)
            × (slot_end_offset p < len + (8 + 24 * (p.num_tuples + 1))))
          ⊎ ((get_next_tuple_offset p len ≡ some (slot_end_offset p - len))
              × (8 + 24 * (p.num_tuples + 1) ≤ slot_end_offset p - len))
    unfolding get_next_tuple_offset
    offset_cases len h =
        let b = end_bound in
        let e : sub64 (slot_end_offset p) len ≡ slot_end_offset p - len =
          sub64-le (slot_end_offset p) len h b in
        let s : (slot_end_offset p - len) % word16 ≡ slot_end_offset p - len =
          word16-small (slot_end_offset p - len) (omega (arith, b)) in
        elim (Bool-cases (ltb (slot_end_offset p - len) (8 + 24 * (p.num_tuples + 1)))) [
          | inl less ↦ inl (rw (get_next_tuple_offset, e, less) refl, ground arith)
          | inr more ↦ inr (rw (get_next_tuple_offset, e, more, s) refl, ground arith)
        ]

    module _ (meta : TupleMeta) (tuple : List Byte) (fits : length tuple ≤ slot_end_offset p) where
      abbrev p' : TablePage Byte
      p' = record p {
        tuple_info = assign p.tuple_info p.num_tuples (record {
          offset = slot_end_offset p - length tuple;
          size = length tuple;
          meta = meta;
        });
        num_tuples = p.num_tuples + 1;
        page_start = write_at p.page_start (slot_end_offset p - length tuple) tuple;
      }

      inserted :
          get_next_tuple_offset p (length tuple) ≡ some (slot_end_offset p - length tuple)
          → 8 + 24 * (p.num_tuples + 1) ≤ slot_end_offset p - length tuple
          → insert_tuple p meta tuple ≡ ok (p', some p.num_tuples)
      unfolding insert_tuple
      inserted e l =
          let b = end_bound in
          let few : (p.num_tuples + 1) % word16 ≡ p.num_tuples + 1 = omega (arith, l, b) in
          let size = word16-small (length tuple) (omega (arith, fits, b)) in
          let inside : ltb page_size (slot_end_offset p - length tuple + length tuple) ≡ false =
            ground (arith, b, fits) in
          rw (insert_tuple, e, inside, few, size) refl

      last_slot :
          p'.tuple_info p.num_tuples
          ≡ record { offset = slot_end_offset p - length tuple; size = length tuple; meta = meta }
      last_slot = ground arith

      old_slot : (i : ℕ) → i < p.num_tuples → p'.tuple_info i ≡ p.tuple_info i
      old_slot i l = ground arith

      new_end : slot_end_offset p' ≡ slot_end_offset p - length tuple
      new_end =
          let back : p.num_tuples + 1 - 1 ≡ p.num_tuples = omega arith in
          let more : ltb 0 (p.num_tuples + 1) ≡ true = ground arith in
          rw (more, back) (ap (λ x. x.offset) last_slot)

      inserted-IsSlotted :
          8 + 24 * (p.num_tuples + 1) ≤ slot_end_offset p - length tuple → IsSlotted p'
      inserted-IsSlotted l =
          let b = end_bound in
          record {
            header = omega (arith, new_end, l);
            inside = λ i k. elim (Bool-cases (ltb i p.num_tuples)) [
              | inl y ↦ rw (old_slot i (ground arith)) (v.inside i (ground arith))
              | inr y ↦
                  let z : i ≡ p.num_tuples = ground arith in
                  rw (z, last_slot) (omega (arith, fits, b))
            ];
            above = λ i k. elim (Bool-cases (ltb i p.num_tuples)) [
              | inl y ↦
                  rw (old_slot i (ground arith)) (omega (arith, new_end, v.above i (ground arith)))
              | inr y ↦
                  let z : i ≡ p.num_tuples = ground arith in
                  rw (z, last_slot) (omega (arith, new_end))
            ];
            apart = λ i j k m. elim (Bool-cases (ltb j p.num_tuples)) [
              | inl y ↦
                  rw (old_slot i (ground arith), old_slot j (ground arith))
                    (v.apart i j k (ground arith))
              | inr y ↦
                  let z : j ≡ p.num_tuples = ground arith in
                  let k' : i < p.num_tuples = omega (arith, z, k) in
                  rw (z, last_slot, old_slot i k') (omega (arith, fits, v.above i k'))
            ];
          }

      read_new : get_tuple p' p.num_tuples ≡ some (meta, tuple)
      unfolding get_tuple
      read_new =
          let there : leb (p.num_tuples + 1) p.num_tuples ≡ false = ground arith in
          rw
            (
              get_tuple,
              there,
              last_slot,
              listed-write_at p.page_start (slot_end_offset p - length tuple) tuple,
            )
            refl

      read_old : (i : ℕ) → i < p.num_tuples → get_tuple p' i ≡ get_tuple p i
      unfolding get_tuple
      read_old i l =
          let there : leb (p.num_tuples + 1) i ≡ false = ground arith in
          let there' : leb p.num_tuples i ≡ false = ground arith in
          let bytes =
            listed-ext (write_at p.page_start (slot_end_offset p - length tuple) tuple) p.page_start
              (p.tuple_info i).offset (p.tuple_info i).offset (p.tuple_info i).size
              (λ k m.
                write_at-outside p.page_start (slot_end_offset p - length tuple)
                  ((p.tuple_info i).offset + k) tuple (inr (omega (arith, fits, v.above i l)))) in
          rw (get_tuple, there, there', old_slot i l, bytes) refl

      -- In a page whose slots do not overlap, a tuple that is not longer than what is before the last
      -- one is refused, with the page as it was, when it does not fit behind the slots and one more;
      -- otherwise it gets the next id, the slots of the page do not overlap again, `GetTuple` reads the
      -- tuple and its meta data at that id, and the other tuples as before.
      pub insert_tuple_cases :
          ((insert_tuple p meta tuple ≡ ok (p, none))
            × (slot_end_offset p < length tuple + (8 + 24 * (p.num_tuples + 1))))
          ⊎ ((q : TablePage Byte) × (insert_tuple p meta tuple ≡ ok (q, some p.num_tuples))
              × IsSlotted q
              × (get_tuple q p.num_tuples ≡ some (meta, tuple))
              × ((i : ℕ) → i < p.num_tuples → get_tuple q i ≡ get_tuple p i))
      unfolding insert_tuple
      insert_tuple_cases = elim (offset_cases (length tuple) fits) [
        | inl (e, l) ↦ inl (rw (insert_tuple, e) refl, l)
        | inr (e, l) ↦ inr (p', inserted e l, inserted-IsSlotted l, read_new, read_old)
      ]

  -- In a page with less than 2^16 tuples whose last slot starts inside the page, a tuple that is longer
  -- than what is before that slot, and shorter than 2^32 bytes, is never refused: the subtraction wraps
  -- around, the offset passes the check, and the copy of the tuple leaves the page.
  pub insert_tuple-wraps :
      (p : TablePage Byte) (meta : TupleMeta) (tuple : List Byte)
      → slot_end_offset p < length tuple
      → length tuple < word32
      → p.num_tuples < word16
      → slot_end_offset p ≤ page_size
      → insert_tuple p meta tuple ≡ crash
  unfolding insert_tuple get_next_tuple_offset
  insert_tuple-wraps p meta tuple h l n b =
      let far : ltb (sub64 (slot_end_offset p) (length tuple)) (8 + 24 * (p.num_tuples + 1))
          ≡ false =
        far_offset (slot_end_offset p) (length tuple) p.num_tuples h l n in
      let past : ltb page_size (sub64 (slot_end_offset p) (length tuple) % word16 + length tuple)
          ≡ true =
        past_page (slot_end_offset p) (length tuple) h l b in
      rw (insert_tuple, get_next_tuple_offset, far, past) refl
