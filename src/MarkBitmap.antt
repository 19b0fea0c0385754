-- ===== src/MarkBitmap.antt =====
-- rts/motoko-rts/src/gc/incremental/mark_bitmap.rs: the mark bits of a partition, a bit for each word.
pub mod Laws
pub mod Iterate
pub mod Zeros
pub mod WordBits
pub mod Advance
pub mod Visit
pub mod Order
mod Runs
use motoko.Prelude.{
  ℕ, ◌+◌, ◌*◌, ◌/◌, ◌%◌, ◌^◌, Option, none, some, Bool, not, ltb, leb, ◌&&◌, ◌==◌, if◌then◌else◌,
  bit_and, bit_or,
}
use motoko.StableMem.{Bytes}

abbrev pub word_size : ℕ
word_size = 8

abbrev pub bits_per_byte : ℕ
bits_per_byte = 8

-- partitioned_heap::PARTITION_SIZE, 64 MiB
abbrev pub partition_size : ℕ
partition_size = 64 * 1024 * 1024

abbrev pub bitmap_size : ℕ
bitmap_size = partition_size / (word_size * bits_per_byte)

-- The heap's bytes, and the bitmap's address in them; 0 is null.
pub record MarkBitmap : Type 0 where
  pub memory : Bytes
  pub pointer : ℕ

-- `memzero` of the bitmap memory, which has the size of a number of words.
unfoldable pub assign : ℕ → MarkBitmap → MarkBitmap
assign bitmap_address m = record {
  memory =
      λ a. if leb bitmap_address a && ltb a (bitmap_address + bitmap_size) then 0 else m.memory a;
  pointer = bitmap_address;
}

abbrev pub release : MarkBitmap → MarkBitmap
release m = record m { pointer = 0 }

abbrev pub word_index : ℕ → ℕ
word_index offset_in_partition = offset_in_partition / word_size

pub is_marked : ℕ → MarkBitmap → Bool
is_marked offset_in_partition m =
    let byte_index = word_index offset_in_partition / bits_per_byte in
    let bit_index = word_index offset_in_partition % bits_per_byte in
    let byte = m.pointer + byte_index in not (bit_and (m.memory byte / 2 ^ bit_index) 1 == 0)

unfoldable pub mark : ℕ → MarkBitmap → MarkBitmap
mark offset_in_partition m =
    let byte_index = word_index offset_in_partition / bits_per_byte in
    let bit_index = word_index offset_in_partition % bits_per_byte in
    let byte = m.pointer + byte_index in
    record m { memory = λ a. if a == byte then bit_or (m.memory a) (2 ^ bit_index) else m.memory a }
