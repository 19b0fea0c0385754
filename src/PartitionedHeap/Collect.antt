-- ===== src/PartitionedHeap/Collect.antt =====
-- rts/motoko-rts/src/gc/incremental/partitioned_heap.rs: the start of a collection, the choice of
-- the partitions that are evacuated and updated, and the end of a collection.
use Prim.Native.Nat.{Ordering, compare}
use motoko.Prelude.{
  ℕ, zero, suc, ◌+◌, ◌-◌, ◌*◌, ◌/◌, ◌%◌, ◌^◌, List, [], ◌∷◌, true, false, not, ◌&&◌, ◌||◌, ltb,
  ◌==◌, if◌then◌else◌,
}
use motoko.Prelude.Result.{Result, ok, ◌>>=◌}
use motoko.Sort.{sort}
use motoko.Slices.{BoundedTime, advance_time}
use motoko.MarkBitmap.{partition_size, bitmap_size}
use motoko.PartitionedHeap.{
  minus, Partition, garbage_amount, is_evacuation_candidate, has_dynamic_space, freed,
}
use motoko.PartitionedHeap.Memory.{Platform}
use motoko.PartitionedHeap.Tables.{
  PartitionedHeap, from_fn, get_partition, change_partition, partition_count,
}
use motoko.PartitionedHeap.Allocate.{allocate_bitmap, assign_bitmap, allocate}

unfoldable pub maximum_mark_bitmap_size : PartitionedHeap → ℕ
maximum_mark_bitmap_size heap = minus heap.number_of_partitions heap.free_partitions * bitmap_size

-- The number of partitions is read once, before the loop.
unfoldable pub start_loop :
    Platform → ℕ → ℕ → PartitionedHeap → BoundedTime → Result (PartitionedHeap × BoundedTime)
start_loop platform zero index heap time = ok (heap, time)
start_loop platform (suc n) index heap time =
    elim (has_dynamic_space (get_partition index heap)
      && not (get_partition index heap).large_content) [
        | false ↦ start_loop platform n (index + 1) heap time
        | true ↦ allocate_bitmap platform heap >>= λ r.
            start_loop platform n (index + 1) (assign_bitmap index r.0 r.1)
              (advance_time (bitmap_size / 8) time)
      ]

unfoldable pub start_collection :
    Platform → PartitionedHeap → BoundedTime → Result (PartitionedHeap × BoundedTime)
unfolding start_loop
start_collection platform heap time =
    start_loop platform heap.number_of_partitions 0 (record heap { gc_running = true }) time

-- The blob has a header of three words. Its payload is the list of `rank_partitions_by_garbage`.
unfoldable pub temporary_array : Platform → ℕ → PartitionedHeap → Result PartitionedHeap
unfolding allocate
temporary_array platform length heap = do
  (blob, heap) ← allocate platform (3 + length) heap
  ok heap

abbrev pub reverse_ordering : Ordering → Ordering
reverse_ordering Ordering.lt = Ordering.gt
reverse_ordering Ordering.eq = Ordering.eq
reverse_ordering Ordering.gt = Ordering.lt

unfoldable pub compare_garbage : PartitionedHeap → ℕ → ℕ → Ordering
compare_garbage heap left right =
    reverse_ordering (
      compare (garbage_amount (get_partition left heap))
        (garbage_amount (get_partition right heap)))

unfoldable pub ranked_partitions : PartitionedHeap → List ℕ
unfolding compare_garbage
ranked_partitions heap = sort (compare_garbage heap) (from_fn (λ i. i) 0 heap.number_of_partitions)

unfoldable pub rank_partitions_by_garbage :
    Platform → PartitionedHeap → Result (List ℕ × PartitionedHeap)
unfolding temporary_array ranked_partitions
rank_partitions_by_garbage platform heap = do
  heap ← temporary_array platform heap.number_of_partitions heap
  ok (ranked_partitions heap, heap)

abbrev pub set_evacuate : Partition → Partition
set_evacuate p = record p { evacuate = true }

-- The loop over the ranks, with the space that is left.
unfoldable pub plan_loop : List ℕ → ℕ → PartitionedHeap → PartitionedHeap
plan_loop [] evacuation_space heap = heap
plan_loop (index ∷ ranked) evacuation_space heap =
    let marked = (get_partition index heap).marked_size in
    elim (not (index == heap.allocation_index)
      && is_evacuation_candidate (get_partition index heap)) [
        | false ↦ plan_loop ranked evacuation_space heap
        | true ↦ elim (ltb evacuation_space marked) [
          | true ↦ heap
          | false ↦
              plan_loop ranked (evacuation_space - marked)
                (record (change_partition index set_evacuate heap) { evacuating = true })
        ]
      ]

abbrev pub evacuation_fraction : ℕ
evacuation_fraction = 2

abbrev pub reserved_partitions : PartitionedHeap → ℕ
reserved_partitions heap = (heap.free_partitions + evacuation_fraction - 1) / evacuation_fraction

unfoldable pub plan_evacuations : Platform → PartitionedHeap → Result PartitionedHeap
unfolding rank_partitions_by_garbage plan_loop
plan_evacuations platform heap =
    let evacuation_space = reserved_partitions heap * partition_size in
    do
      (ranked, heap) ← rank_partitions_by_garbage platform heap
      ok (plan_loop ranked evacuation_space heap)

abbrev pub plan_update : Partition → Partition
plan_update p = record p { update = not p.free && not p.evacuate }

unfoldable pub plan_updates_loop : ℕ → ℕ → PartitionedHeap → PartitionedHeap
plan_updates_loop zero index heap = heap
plan_updates_loop (suc n) index heap =
    plan_updates_loop n (index + 1) (change_partition index plan_update heap)

unfoldable pub plan_updates : PartitionedHeap → PartitionedHeap
unfolding plan_updates_loop
plan_updates heap = plan_updates_loop (partition_count heap) 0 heap

abbrev pub reset_marks : Partition → Partition
reset_marks p = record p { update = false; marked_size = 0; bitmap = 0 }

-- One partition at the end of a collection.
unfoldable pub complete_partition : ℕ → PartitionedHeap → PartitionedHeap
complete_partition index heap =
    let p = get_partition index heap in
    let heap1 = change_partition index reset_marks heap in
    let heap2 = record heap1 {
      reclaimed =
          if p.evacuate
          then (heap1.reclaimed + minus p.dynamic_size p.marked_size) % 2 ^ 64
          else heap1.reclaimed;
    } in
    if p.evacuate || p.temporary
    then record (change_partition index freed heap2) {
      precomputed_heap_size = minus heap2.precomputed_heap_size p.dynamic_size;
      free_partitions = heap2.free_partitions + 1;
    }
    else heap2

unfoldable pub complete_loop : ℕ → ℕ → PartitionedHeap → PartitionedHeap
unfolding complete_partition
complete_loop zero index heap = heap
complete_loop (suc n) index heap = complete_loop n (index + 1) (complete_partition index heap)

unfoldable pub complete_collection : PartitionedHeap → PartitionedHeap
unfolding complete_loop
complete_collection heap = record (complete_loop (partition_count heap) 0 heap) {
  evacuating = false;
  evacuated_size = 0;
  bitmap_allocation_pointer = 0;
  gc_running = false;
}

abbrev pub total_allocated_size : PartitionedHeap → ℕ
total_allocated_size heap =
    (minus (heap.precomputed_heap_size + (get_partition heap.allocation_index heap).dynamic_size)
        heap.evacuated_size
      + heap.reclaimed)
    % 2 ^ 64

abbrev pub increase_evacuated_size : ℕ → PartitionedHeap → PartitionedHeap
increase_evacuated_size words heap = record heap {
  evacuated_size = (heap.evacuated_size + words * 8 % 2 ^ 64) % 2 ^ 64;
}
