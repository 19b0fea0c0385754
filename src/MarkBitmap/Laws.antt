-- ===== src/MarkBitmap/Laws.antt =====
-- Marking marks one object, and an assigned bitmap has no mark.
use motoko.Prelude.{
  ℕ, ◌+◌, ◌/◌, ◌%◌, ◌^◌, ◌<◌, ◌≡◌, refl, ◌≢◌, sym, ap, ◌∙◌, true, false, not, ◌==◌, bit_and, arith,
  eq→==, ne→==, ==-refl, lt→ltb, le→leb, ℕ_discrete,
}
use motoko.Prelude.Bits.{bit_and_mask, test_bit, shifted_bit, test_bit-or_self, test_bit-or_ne}
use native.Mathlib.Nat.{zero-div}
use motoko.MarkBitmap.{
  MarkBitmap, partition_size, bitmap_size, word_size, bits_per_byte, word_index, assign, mark,
  is_marked,
}

-- The bit of a word of the partition.
abbrev pub bit_of : MarkBitmap → ℕ → ℕ
bit_of m w = test_bit (m.memory (m.pointer + w / bits_per_byte)) (w % bits_per_byte)

pub is_marked-eq :
    (offset : ℕ) (m : MarkBitmap) → is_marked offset m ≡ not (bit_of m (word_index offset) == 0)
unfolding is_marked
is_marked-eq offset m =
    ap (λ t. not (t == 0))
      (bit_and_mask 1 (
          m.memory (m.pointer + word_index offset / bits_per_byte)
          / 2 ^ (word_index offset % bits_per_byte))
        ∙ shifted_bit (m.memory (m.pointer + word_index offset / bits_per_byte))
            (word_index offset % bits_per_byte))

bit_of-mark_self : (offset : ℕ) (m : MarkBitmap) → bit_of (mark offset m) (word_index offset) ≡ 1
unfolding mark
bit_of-mark_self offset m = rw (==-refl (m.pointer + word_index offset / bits_per_byte)) (
    test_bit-or_self (m.memory (m.pointer + word_index offset / bits_per_byte))
      (word_index offset % bits_per_byte))

bit_of-mark_ne :
    (offset w : ℕ) (m : MarkBitmap) → word_index offset ≢ w → bit_of (mark offset m) w ≡ bit_of m w
unfolding mark
bit_of-mark_ne offset w m ne =
    elim (ℕ_discrete (w / bits_per_byte) (word_index offset / bits_per_byte)) [
      | yes e ↦
          rw
            (eq→== (m.pointer + w / bits_per_byte) (m.pointer + word_index offset / bits_per_byte)
              (omega (arith, e)))
            (test_bit-or_ne (m.memory (m.pointer + w / bits_per_byte))
              (word_index offset % bits_per_byte) (w % bits_per_byte)
              (λ f. ne (omega (arith, e, f))))
      | no n ↦ rw (
          ne→== (m.pointer + w / bits_per_byte) (m.pointer + word_index offset / bits_per_byte)
            (λ e. n (omega (arith, e))))
    ]

pub pointer-mark : (offset : ℕ) (m : MarkBitmap) → (mark offset m).pointer ≡ m.pointer
unfolding mark
pointer-mark offset m = refl

-- Marking the object at an offset marks it, and leaves the object at any other offset of a whole word
-- marked or not marked as it was.
pub mark_effect :
    (offset other : ℕ) (m : MarkBitmap)
    → offset % word_size ≡ 0
    → other % word_size ≡ 0
    → other ≢ offset
    → (is_marked offset (mark offset m) ≡ true)
      × (is_marked other (mark offset m) ≡ is_marked other m)
mark_effect offset other m whole whole' ne = (
  is_marked-eq offset (mark offset m) ∙ ap (λ t. not (t == 0)) (bit_of-mark_self offset m),
  is_marked-eq other (mark offset m)
      ∙ ap (λ t. not (t == 0))
          (bit_of-mark_ne offset (word_index other) m (λ e. ne (omega (arith, e, whole, whole'))))
      ∙ sym (is_marked-eq other m),
)

-- In a bitmap that has just been assigned no object of the partition is marked, whatever the memory
-- held before.
pub assign-unmarked :
    (address offset : ℕ) (m : MarkBitmap)
    → offset < partition_size
    → is_marked offset (assign address m) ≡ false
unfolding is_marked assign
assign-unmarked address offset m inside =
    let at = address + offset / 8 / 8 in
    rw (le→leb address at (omega arith), lt→ltb at (address + bitmap_size) (omega arith))
      (ap (λ t. not (bit_and t 1 == 0)) (zero-div (2 ^ (offset / 8 % 8))))
