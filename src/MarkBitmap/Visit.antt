-- ===== src/MarkBitmap/Visit.antt =====
-- The loop of the iterator's `next`, and all offsets that an iteration visits.
use motoko.Prelude.{
  ℕ, zero, suc, ◌+◌, ◌-◌, ◌*◌, ◌≤◌, ◌<◌, ◌≡◌, inl, inr, refl, sym, ap, ◌∙◌, subst, true, false, ltb,
  ◌==◌, if◌then◌else◌, Bool-cases, dec_lt, ==→eq, ==→ne, ge→ltb, lt→ltb, if_true_eq, if_false_eq,
  arith,
}
use motoko.StableMem.{Bytes}
use motoko.MarkBitmap.Iterate.{BitmapIterator, bitmap_iteration_end, bit_index_end, next_loop}
use motoko.MarkBitmap.Zeros.{zero-HasWidth, test_bit_zero}
use motoko.MarkBitmap.WordBits.{AreBytes}
use motoko.MarkBitmap.Advance.{
  mark_bit, IsIterating, Advanced, shifted, shifted-Found, loaded, loaded-IsIterating,
}

-- The rounds of the loop.
loop_ends :
    (memory : Bytes) (fuel : ℕ) (it : BitmapIterator)
    → bit_index_end ≤ it.next_bit_index
    → next_loop memory fuel it ≡ record it { next_bit_index = bitmap_iteration_end }
unfolding next_loop
loop_ends memory zero it h = refl
loop_ends memory (suc n) it h = rw (ge→ltb it.next_bit_index bit_index_end h, next_loop) refl

module _ (memory : Bytes) (p : ℕ) (are : AreBytes memory) where
  loop_shifts :
      (fuel : ℕ) (it : BitmapIterator)
      → it.next_bit_index < bit_index_end
      → (it.current_word == 0) ≡ false
      → next_loop memory (suc fuel) it ≡ shifted memory p are it
  unfolding next_loop
  loop_shifts fuel it h e = rw (lt→ltb it.next_bit_index bit_index_end h, e, next_loop) refl

  abbrev skipped : BitmapIterator → BitmapIterator
  skipped it =
      let index = it.next_bit_index + it.leading_zeros in
      if ltb index bit_index_end
      then loaded memory p are it
      else record it { next_bit_index = index }

  loop_skips :
      (fuel : ℕ) (it : BitmapIterator)
      → it.next_bit_index < bit_index_end
      → (it.current_word == 0) ≡ true
      → next_loop memory (suc fuel) it ≡ next_loop memory fuel (skipped it)
  unfolding next_loop
  loop_skips fuel it h e = rw (lt→ltb it.next_bit_index bit_index_end h, e, next_loop) refl

  -- Bits without a mark before the place where the search goes on.
  later :
      (from to : ℕ) (it : BitmapIterator)
      → from ≤ to
      → ((j : ℕ) → from ≤ j → j < to → mark_bit memory p are j ≡ 0)
      → Advanced memory p are to it
      → Advanced memory p are from it
  later from to it le none (inl (at, found)) = inl (
    at,
    record {
      from_le = omega (arith, found.from_le);
      at_lt = found.at_lt;
      marked = found.marked;
      skipped = λ j l u. elim (dec_lt j to) [
        | yes b ↦ none j l b
        | no a ↦ found.skipped j (omega arith) u
      ];
      next_bit_index = found.next_bit_index;
      rest = found.rest;
    },
  )
  later from to it le none (inr ended) = inr (record {
    unmarked = λ j l u. elim (dec_lt j to) [
      | yes b ↦ none j l b
      | no a ↦ ended.unmarked j (omega arith) u
    ];
    next_bit_index = ended.next_bit_index;
  })

  pub next_loop-Advanced :
      (fuel : ℕ) (it : BitmapIterator) (rest : ℕ)
      → IsIterating memory p are it rest
      → bit_index_end + 128 ≤ it.next_bit_index + rest + 64 * fuel
      → Advanced memory p are it.next_bit_index (next_loop memory fuel it)
  next_loop-Advanced zero it rest is enough = absurd (omega (arith, is.within))
  next_loop-Advanced (suc fuel) it rest is enough = elim (dec_lt it.next_bit_index bit_index_end) [
    | no end ↦
        subst (Advanced memory p are it.next_bit_index)
          (sym (loop_ends memory (suc fuel) it (omega arith)))
          (inr (record { unmarked = λ j l u. absurd (omega arith); next_bit_index = refl }))
    | yes lt ↦ elim (Bool-cases (it.current_word == 0)) [
      | inr some_bit ↦
          subst (Advanced memory p are it.next_bit_index) (sym (loop_shifts fuel it lt some_bit)) (
            inl (
              _,
              shifted-Found memory p are it rest is
                  (ground (arith, ==→ne it.current_word 0 some_bit)),
            ))
      | inl none ↦
          let empty = ==→eq it.current_word 0 none in
          let index = it.next_bit_index + it.leading_zeros in
          let all : rest ≡ it.leading_zeros = omega (
            arith,
            is.zeros_le,
            zero-HasWidth it.current_word (rest - it.leading_zeros) empty is.width,
          ) in
          let unmarked : (j : ℕ) → it.next_bit_index ≤ j → j < index → mark_bit memory p are j ≡ 0 =
            λ j l u.
              ap (mark_bit memory p are)
                (let e : j ≡ it.next_bit_index + (j - it.next_bit_index) = omega arith in e)
              ∙ sym (is.bits (j - it.next_bit_index) (omega arith))
              ∙ test_bit_zero it.current_word (j - it.next_bit_index) empty in
          subst (Advanced memory p are it.next_bit_index) (sym (loop_skips fuel it lt none)) (
            later it.next_bit_index index _ (omega arith) unmarked
              (elim (dec_lt index bit_index_end) [
                | yes more ↦
                    subst (λ k. Advanced memory p are index (next_loop memory fuel k))
                      (sym (
                        if_true_eq (ltb index bit_index_end) (loaded memory p are it)
                          (record it { next_bit_index = index }) (lt→ltb index bit_index_end more)))
                      (next_loop-Advanced fuel (loaded memory p are it) 64
                        (loaded-IsIterating memory p are it is.pointer
                          (omega (arith, is.aligned, all)) more)
                        (omega (arith, all)))
                | no end ↦
                    subst (λ k. Advanced memory p are index (next_loop memory fuel k))
                      (sym (
                        if_false_eq (ltb index bit_index_end) (loaded memory p are it)
                          (record it { next_bit_index = index })
                          (ge→ltb index bit_index_end (omega arith))))
                      (subst (Advanced memory p are index)
                        (sym (
                          loop_ends memory fuel (record it { next_bit_index = index })
                            (omega arith)))
                        (inr (record {
                          unmarked = λ j l u. absurd (omega arith);
                          next_bit_index = refl;
                        })))
              ]))
    ]
  ]
