-- ===== src/PartitionedHeap/Iterate.antt =====
-- rts/motoko-rts/src/gc/incremental/partitioned_heap.rs: the iterator over the partitions of a heap and
-- their marked objects.
use motoko.Prelude.{
  ℕ, zero, suc, ◌+◌, ◌-◌, ◌*◌, Option, none, some, Bool, false, not, ltb, ◌==◌, if◌then◌else◌,
}
use motoko.Prelude.Result.{Result, ok, ◌>>=◌}
use motoko.StableMem.{Bytes}
use motoko.MarkBitmap.{partition_size}
use motoko.MarkBitmap.Iterate.{
  BitmapIterator, bitmap_iteration_end, iterate, next_marked, current_marked_offset,
}
use motoko.PartitionedHeap.{has_dynamic_space, dynamic_space_start}
use motoko.PartitionedHeap.Tables.{PartitionedHeap, get_partition}
use motoko.PartitionedHeap.Large.{partitions_length}
use motoko.PartitionedHeap.Marking.{bitmap_of}

pub record PartitionedHeapIterator : Type 0 where
  pub partition_index : ℕ
  pub number_of_partitions : ℕ
  pub bitmap_iterator : Option BitmapIterator
  pub visit_large_object : Bool

-- The first partition with dynamic space from `index` on, of `n` partitions.
unfoldable pub skip_empty : ℕ → ℕ → PartitionedHeap → ℕ
skip_empty zero index heap = index
skip_empty (suc n) index heap =
    let rest = skip_empty n (index + 1) heap in
    if has_dynamic_space (get_partition index heap) then index else rest

unfoldable pub skip_empty_partitions :
    PartitionedHeap → PartitionedHeapIterator → PartitionedHeapIterator
unfolding skip_empty
skip_empty_partitions heap it = record it {
  partition_index =
      skip_empty (it.number_of_partitions - it.partition_index) it.partition_index heap;
}

unfoldable pub start_object_iteration :
    PartitionedHeap → PartitionedHeapIterator → PartitionedHeapIterator
start_object_iteration heap it =
    let p = get_partition it.partition_index heap in
    if it.partition_index == it.number_of_partitions
    then record it { bitmap_iterator = none; visit_large_object = false }
    else if p.large_content
    then record it { bitmap_iterator = none; visit_large_object = ltb 0 p.marked_size }
    else record it {
      bitmap_iterator = some (iterate (bitmap_of it.partition_index heap));
      visit_large_object = false;
    }

unfoldable pub new_heap_iterator : PartitionedHeap → PartitionedHeapIterator
unfolding skip_empty_partitions start_object_iteration
new_heap_iterator heap = start_object_iteration heap (
    skip_empty_partitions heap (record {
      partition_index = 0;
      number_of_partitions = heap.number_of_partitions;
      bitmap_iterator = none;
      visit_large_object = false;
    }))

abbrev pub has_partition : PartitionedHeapIterator → Bool
has_partition it = ltb it.partition_index it.number_of_partitions

unfoldable pub next_partition :
    PartitionedHeap → PartitionedHeapIterator → Result PartitionedHeapIterator
unfolding skip_empty_partitions start_object_iteration
next_partition heap it =
    let p = get_partition it.partition_index heap in
    do
      number_of_partitions ←
          if p.large_content then partitions_length heap.memory (dynamic_space_start p) else ok 1
      ok (
          start_object_iteration heap (
            skip_empty_partitions heap
              (record it { partition_index = it.partition_index + number_of_partitions })))

unfoldable pub has_object : PartitionedHeapIterator → Bool
has_object it = elim it.bitmap_iterator [
  | some iterator ↦ not (current_marked_offset iterator == bitmap_iteration_end)
  | none ↦ it.visit_large_object
]

unfoldable pub current_object : PartitionedHeapIterator → ℕ
current_object it =
    let partition_start = it.partition_index * partition_size in
    elim it.bitmap_iterator [
      | some iterator ↦ partition_start + current_marked_offset iterator
      | none ↦ partition_start
    ]

unfoldable pub next_object : Bytes → PartitionedHeapIterator → PartitionedHeapIterator
next_object memory it = elim it.bitmap_iterator [
  | some iterator ↦ record it { bitmap_iterator = some (next_marked memory iterator) }
  | none ↦ record it { visit_large_object = false }
]
