-- ===== src/MarkBitmap/Iterate.antt =====
-- rts/motoko-rts/src/gc/incremental/mark_bitmap.rs: the iterator over the marked offsets of a
-- partition, which reads the bitmap in words of 64 bits.
use motoko.Prelude.{
  ℕ, zero, suc, ◌+◌, ◌-◌, ◌*◌, ◌/◌, ◌%◌, ◌^◌, true, false, ltb, ◌==◌, if◌then◌else◌,
}
use motoko.StableMem.{Bytes, read_word}
use motoko.MarkBitmap.{MarkBitmap, word_size, bits_per_byte, bitmap_size}

pub record BitmapIterator : Type 0 where
  pub bitmap_pointer : ℕ
  pub next_bit_index : ℕ
  pub current_word : ℕ
  pub leading_zeros : ℕ

abbrev pub bitmap_iteration_end : ℕ
bitmap_iteration_end = 2 ^ 64 - 1

abbrev pub bit_index_end : ℕ
bit_index_end = bitmap_size * bits_per_byte

-- `usize::trailing_zeros` and `usize::leading_zeros`, with the width.
unfoldable pub trailing_zeros : ℕ → ℕ → ℕ
trailing_zeros zero word = 0
trailing_zeros (suc width) word =
    let rest = suc (trailing_zeros width (word / 2)) in if word % 2 == 0 then rest else 0

unfoldable pub leading_zeros_of : ℕ → ℕ → ℕ
leading_zeros_of zero word = 0
leading_zeros_of (suc width) word =
    let rest = suc (leading_zeros_of width word) in if ltb word (2 ^ width) then rest else 0

-- The loop of `next` in the memory. A round without a return goes on to another word.
unfoldable pub next_loop : Bytes → ℕ → BitmapIterator → BitmapIterator
unfolding trailing_zeros leading_zeros_of
next_loop memory zero it = record it { next_bit_index = bitmap_iteration_end }
next_loop memory (suc fuel) it = elim (ltb it.next_bit_index bit_index_end) [
  | false ↦ record it { next_bit_index = bitmap_iteration_end }
  | true ↦ elim (it.current_word == 0) [
    | false ↦
        let shift = trailing_zeros 64 it.current_word in
        record it {
          current_word = it.current_word / 2 ^ shift / 2;
          next_bit_index = it.next_bit_index + (shift + 1);
        }
    | true ↦
        let index = it.next_bit_index + it.leading_zeros in
        let word = read_word 8 (it.bitmap_pointer + index / bits_per_byte) memory in
        next_loop memory fuel (
          if ltb index bit_index_end
          then record it {
            next_bit_index = index;
            current_word = word;
            leading_zeros = leading_zeros_of 64 word;
          }
          else record it { next_bit_index = index })
  ]
]

-- Enough rounds to read every word of the bitmap.
abbrev pub words_of_bitmap : ℕ
words_of_bitmap = bitmap_size / word_size

unfoldable pub next_marked : Bytes → BitmapIterator → BitmapIterator
unfolding next_loop
next_marked memory it = next_loop memory (words_of_bitmap + 2) it

-- `BitmapIterator::new`
unfoldable pub new_iterator : Bytes → ℕ → BitmapIterator
unfolding next_marked
new_iterator memory bitmap_pointer = next_marked memory (record {
  bitmap_pointer = bitmap_pointer;
  next_bit_index = 0;
  current_word = 0;
  leading_zeros = 0;
})

unfoldable pub iterate : MarkBitmap → BitmapIterator
unfolding new_iterator
iterate m = new_iterator m.memory m.pointer

unfoldable pub current_marked_offset : BitmapIterator → ℕ
current_marked_offset it =
    if it.next_bit_index == bitmap_iteration_end
    then bitmap_iteration_end
    else (it.next_bit_index - 1) * word_size
