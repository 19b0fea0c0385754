-- ===== src/PartitionedHeap.antt =====
-- rts/motoko-rts/src/gc/incremental/partitioned_heap.rs: a partition of the incremental collector's heap.
-- The children model the tables of partitions, allocation, large objects and the collector's phases.
-- Addresses and sizes are not cut off: a heap has fewer than 2 ^ 38 partitions of 2 ^ 26 bytes.
pub mod Memory
pub mod BlockSize
pub mod Tables
pub mod Invariant
pub mod Grown
pub mod Granted
pub mod Found
pub mod Taken
pub mod Fresh
pub mod Placed
pub mod Space
pub mod Range
pub mod Objects
pub mod Safety
pub mod Allocation
pub mod Changed
pub mod Completion
pub mod Cycle
pub mod Plan
pub mod Progress
pub mod Succeeds
pub mod Live
pub mod Sweep
pub mod Layout
pub mod Swept
pub mod Marked
pub mod Iterate
pub mod Start
mod Runs
mod MarkRuns
mod SweepRuns
pub mod Allocate
pub mod Large
pub mod Marking
pub mod Collect
use motoko.Prelude.{ℕ, ◌+◌, ◌-◌, ◌*◌, ◌%◌, ◌^◌, Bool, true, false, not, ◌&&◌, ltb, leb, ◌==◌}
use motoko.MarkBitmap.{partition_size}

abbrev pub partitions_per_table : ℕ
partitions_per_table = 128

-- The size of 128 entries of 56 bytes and of a pointer.
abbrev pub partition_table_size : ℕ
partition_table_size = 128 * 56 + 8

-- The wrapping subtraction of `usize`.
unfoldable pub minus : ℕ → ℕ → ℕ
minus a b = (a + 2 ^ 64 - b) % 2 ^ 64

-- `bitmap` is the address of the mark bitmap, 0 if there is none.
pub record Partition : Type 0 where
  pub index : ℕ
  pub free : Bool
  pub large_content : Bool
  pub marked_size : ℕ
  pub static_size : ℕ
  pub dynamic_size : ℕ
  pub bitmap : ℕ
  pub temporary : Bool
  pub evacuate : Bool
  pub update : Bool

abbrev pub start_address : Partition → ℕ
start_address p = p.index * partition_size

abbrev pub end_address : Partition → ℕ
end_address p = start_address p + partition_size

abbrev pub dynamic_space_start : Partition → ℕ
dynamic_space_start p = start_address p + p.static_size

abbrev pub dynamic_space_end : Partition → ℕ
dynamic_space_end p = dynamic_space_start p + p.dynamic_size

abbrev pub occuped_size : Partition → ℕ
occuped_size p = p.dynamic_size + p.static_size

unfoldable pub free_size : Partition → ℕ
unfolding minus
free_size p = minus (end_address p) (dynamic_space_end p)

unfoldable pub garbage_amount : Partition → ℕ
unfolding minus
garbage_amount p = minus p.dynamic_size p.marked_size

-- `survival_rate() <= SURVIVAL_RATE_THRESHOLD`, which is 0.85: the quotient of two numbers up to
-- 2 ^ 26, rounded to a float, is above the float 0.85 exactly if it is above 17 / 20. A quotient by
-- zero is not a number.
abbrev pub survival_rate_le_threshold : Partition → Bool
survival_rate_le_threshold p =
    ltb 0 (partition_size - p.static_size)
    && leb (20 * p.marked_size) (17 * (partition_size - p.static_size))

unfoldable pub is_evacuation_candidate : Partition → Bool
is_evacuation_candidate p =
    not p.free && not p.large_content && ltb 0 p.dynamic_size && survival_rate_le_threshold p

abbrev pub has_dynamic_space : Partition → Bool
has_dynamic_space p = not p.free && not p.temporary && not (p.static_size == partition_size)

-- `Partition::free`
abbrev pub freed : Partition → Partition
freed p = record p {
  free = true;
  dynamic_size = 0;
  evacuate = false;
  large_content = false;
  temporary = false;
}

unfoldable pub is_completely_free : Partition → Bool
unfolding free_size
is_completely_free p = p.free && free_size p == partition_size
