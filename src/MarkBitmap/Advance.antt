-- ===== src/MarkBitmap/Advance.antt =====
-- One call of the iterator's `next`: it goes to the next marked bit, or ends.
use motoko.Prelude.{
  ℕ, suc, ◌+◌, ◌-◌, ◌/◌, ◌%◌, ◌^◌, ◌≤◌, ◌<◌, ◌≡◌, ◌⊎◌, sym, ap, ap₂, ◌∙◌, subst, arith,
}
use motoko.Prelude.Bits.{test_bit}
use native.Mathlib.Nat.{pow-suc, div-div-eq-div-mul}
use motoko.StableMem.{Bytes, read_word}
use motoko.MarkBitmap.Iterate.{
  BitmapIterator, bitmap_iteration_end, bit_index_end, trailing_zeros, leading_zeros_of,
}
use motoko.MarkBitmap.Zeros.{
  HasWidth, leading_zeros-HasWidth, trailing_zeros-LowestBit, shift-HasWidth, test_bit-shift,
}
use motoko.MarkBitmap.WordBits.{AreBytes, read_word-bit, read_word-lt}

module _ (memory : Bytes) (p : ℕ) (are : AreBytes memory) where
  -- The mark bit of a word of the partition.
  abbrev pub mark_bit : ℕ → ℕ
  mark_bit i = test_bit (memory (p + i / 8)) (i % 8)

  -- `rest` bits of the iterator's word are not visited yet; above them are `leading_zeros` zeros.
  pub record IsIterating (it : BitmapIterator) (rest : ℕ) : Type 0 where
    pub pointer : it.bitmap_pointer ≡ p
    pub aligned : (it.next_bit_index + rest) % 64 ≡ 0
    pub within : it.next_bit_index + rest ≤ bit_index_end
    pub rest_le : rest ≤ 64
    pub zeros_le : it.leading_zeros ≤ rest
    pub width : HasWidth it.current_word (rest - it.leading_zeros)
    pub bits : (j : ℕ) → j < rest → test_bit it.current_word j ≡ mark_bit (it.next_bit_index + j)

  -- From bit `from` on there is no mark, or the first one is at `at`.
  pub record Found (from at : ℕ) (it : BitmapIterator) : Type 0 where
    pub from_le : from ≤ at
    pub at_lt : at < bit_index_end
    pub marked : mark_bit at ≡ 1
    pub skipped : (j : ℕ) → from ≤ j → j < at → mark_bit j ≡ 0
    pub next_bit_index : it.next_bit_index ≡ at + 1
    pub rest : (r : ℕ) × IsIterating it r

  pub record Ended (from : ℕ) (it : BitmapIterator) : Type 0 where
    pub unmarked : (j : ℕ) → from ≤ j → j < bit_index_end → mark_bit j ≡ 0
    pub next_bit_index : it.next_bit_index ≡ bitmap_iteration_end

  abbrev pub Advanced : ℕ → BitmapIterator → Type 0
  Advanced from it = ((at : ℕ) × Found from at it) ⊎ Ended from it

  -- A bit in the current word.
  abbrev pub shifted : BitmapIterator → BitmapIterator
  shifted it =
      let shift = trailing_zeros 64 it.current_word in
      record it {
        current_word = it.current_word / 2 ^ shift / 2;
        next_bit_index = it.next_bit_index + (shift + 1);
      }

  halved : (c s : ℕ) → c / 2 ^ s / 2 ≡ c / 2 ^ suc s
  halved c s = div-div-eq-div-mul c (2 ^ s) 2 ∙ ap (λ k. c / k) (omega (arith, pow-suc 2 s))

  pub shifted-Found :
      (it : BitmapIterator) (rest : ℕ)
      → IsIterating it rest
      → 0 < it.current_word
      → Found it.next_bit_index (it.next_bit_index + trailing_zeros 64 it.current_word) (shifted it)
  shifted-Found it rest is pos =
      let c = it.current_word in
      let s = trailing_zeros 64 c in
      let low =
        trailing_zeros-LowestBit 64 (rest - it.leading_zeros) c is.width (omega (arith, is.rest_le))
          pos in
      let s_lt : s < rest = omega (arith, low.lt) in
      let r = rest - suc s in
      record {
        from_le = omega arith;
        at_lt = omega (arith, is.within);
        marked = sym (is.bits s s_lt) ∙ low.at;
        skipped = λ j l u.
            let e : it.next_bit_index + (j - it.next_bit_index) ≡ j = omega arith in
            ap mark_bit (sym e)
            ∙ sym (is.bits (j - it.next_bit_index) (omega arith))
            ∙ low.below (j - it.next_bit_index) (omega arith);
        next_bit_index = omega arith;
        rest = (
          r,
          record {
            pointer = is.pointer;
            aligned =
                ap (λ k. k % 64)
                  (let e : it.next_bit_index + (s + 1) + r ≡ it.next_bit_index + rest =
                      omega arith in
                    e)
                ∙ is.aligned;
            within = omega (arith, is.within);
            rest_le = omega (arith, is.rest_le);
            zeros_le = omega (arith, low.lt, is.zeros_le);
            width =
                subst (λ k. HasWidth k (r - it.leading_zeros)) (sym (halved c s))
                  (shift-HasWidth (suc s) c (r - it.leading_zeros) (
                    subst (HasWidth c)
                      (let e : rest - it.leading_zeros ≡ suc s + (r - it.leading_zeros) =
                          omega (arith, low.lt, is.zeros_le) in
                        e)
                      is.width));
            bits = λ j l.
                ap (λ k. test_bit k j) (halved c s)
                ∙ test_bit-shift (suc s) c j
                ∙ is.bits (suc s + j) (omega arith)
                ∙ ap mark_bit (omega arith);
          },
        );
      }

  -- The next word of the bitmap.
  abbrev pub loaded : BitmapIterator → BitmapIterator
  loaded it =
      let index = it.next_bit_index + it.leading_zeros in
      let word = read_word 8 (it.bitmap_pointer + index / 8) memory in
      record it {
        next_bit_index = index;
        current_word = word;
        leading_zeros = leading_zeros_of 64 word;
      }

  pub loaded-IsIterating :
      (it : BitmapIterator)
      → it.bitmap_pointer ≡ p
      → (it.next_bit_index + it.leading_zeros) % 64 ≡ 0
      → it.next_bit_index + it.leading_zeros < bit_index_end
      → IsIterating (loaded it) 64
  loaded-IsIterating it pointer aligned lt =
      let index = it.next_bit_index + it.leading_zeros in
      let word = read_word 8 (it.bitmap_pointer + index / 8) memory in
      let (le, width) =
        leading_zeros-HasWidth 64 word
          (read_word-lt memory 8 (it.bitmap_pointer + index / 8) are) in
      record {
        pointer = pointer;
        aligned = omega (arith, aligned);
        within = omega (arith, aligned, lt);
        rest_le = omega arith;
        zeros_le = le;
        width = width;
        bits = λ j l.
            read_word-bit memory 8 (it.bitmap_pointer + index / 8) j are l
            ∙ ap₂ (λ a i. test_bit (memory a) i) (omega (arith, pointer, aligned))
                (omega (arith, aligned));
      }
