-- ===== src/PartitionedHeap/Marking.antt =====
-- rts/motoko-rts/src/gc/incremental/partitioned_heap.rs: marking the objects of the heap.
use motoko.Prelude.{ℕ, ◌+◌, ◌/◌, ◌%◌, ◌^◌, Bool, true, false, if◌then◌else◌}
use motoko.Prelude.Result.{Result, ok, ◌>>=◌}
use motoko.MarkBitmap.{MarkBitmap, partition_size, mark, is_marked}
use motoko.PartitionedHeap.Tables.{PartitionedHeap, get_partition, change_partition}
use motoko.PartitionedHeap.Large.{byte_size, is_large_object_marked, mark_large_object}

-- A partition's mark bitmap in the memory of the heap.
abbrev pub bitmap_of : ℕ → PartitionedHeap → MarkBitmap
bitmap_of index heap = record { memory = heap.memory; pointer = (get_partition index heap).bitmap }

-- True if the object was not marked before.
unfoldable pub mark_object : ℕ → PartitionedHeap → Result (Bool × PartitionedHeap)
unfolding mark_large_object
mark_object object heap =
    let index = object / partition_size in
    let offset = object % partition_size in
    if (get_partition index heap).large_content
    then mark_large_object object heap
    else if is_marked offset (bitmap_of index heap)
    then ok (false, heap)
    else let memory = (mark offset (bitmap_of index heap)).memory in
      do
        size ← byte_size memory object
        ok (
          true,
          change_partition index (λ p. record p { marked_size = (p.marked_size + size) % 2 ^ 64 })
              (record heap { memory = memory }),
        )

unfoldable pub is_object_marked : ℕ → PartitionedHeap → Bool
unfolding is_large_object_marked
is_object_marked object heap =
    let index = object / partition_size in
    if (get_partition index heap).large_content
    then is_large_object_marked object heap
    else is_marked (object % partition_size) (bitmap_of index heap)
