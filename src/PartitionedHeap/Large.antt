-- ===== src/PartitionedHeap/Large.antt =====
-- rts/motoko-rts/src/gc/incremental/partitioned_heap.rs: marking and collecting the objects of more
-- than one partition.
use motoko.Prelude.{
  ℕ, zero, suc, ◌+◌, ◌-◌, ◌*◌, ◌/◌, ◌%◌, ◌^◌, Bool, true, false, ltb, ◌==◌, if◌then◌else◌,
}
use motoko.Prelude.Result.{Result, ok, ◌>>=◌}
use motoko.StableMem.{Bytes}
use motoko.MarkBitmap.{partition_size}
use motoko.PartitionedHeap.{minus, Partition, dynamic_space_start, freed}
use motoko.PartitionedHeap.BlockSize.{block_size}
use motoko.PartitionedHeap.Tables.{PartitionedHeap, get_partition, change_partition}

-- `block_size(address).to_bytes()`
unfoldable pub byte_size : Bytes → ℕ → Result ℕ
byte_size memory address = do words ← block_size memory address; ok (words * 8 % 2 ^ 64)

unfoldable pub is_large_object_marked : ℕ → PartitionedHeap → Bool
is_large_object_marked large_object heap =
    ltb 0 (get_partition (large_object / partition_size) heap).marked_size

unfoldable pub partitions_length : Bytes → ℕ → Result ℕ
unfolding byte_size
partitions_length memory large_object = do
  size ← byte_size memory large_object
  ok ((size + partition_size - 1) % 2 ^ 64 / partition_size)

-- The first partition of the object and the number of them.
unfoldable pub occupied_partition_range : ℕ → PartitionedHeap → Result (ℕ × ℕ)
unfolding partitions_length
occupied_partition_range large_object heap = do
  number_of_partitions ← partitions_length heap.memory large_object
  ok (large_object / partition_size, number_of_partitions)

abbrev pub set_marked_size : ℕ → Partition → Partition
set_marked_size size p = record p { marked_size = size }

unfoldable pub mark_range : ℕ → ℕ → PartitionedHeap → PartitionedHeap
mark_range zero index heap = heap
mark_range (suc n) index heap =
    mark_range n (index + 1) (change_partition index (set_marked_size partition_size) heap)

unfoldable pub mark_large_object : ℕ → PartitionedHeap → Result (Bool × PartitionedHeap)
unfolding is_large_object_marked occupied_partition_range mark_range byte_size
mark_large_object object heap = if is_large_object_marked object heap then ok (false, heap) else do
  (start, number_of_partitions) ← occupied_partition_range object heap
  let heap = mark_range (number_of_partitions - 1) start heap
  object_size ← byte_size heap.memory object
  ok (
    true,
    change_partition (start + number_of_partitions - 1)
        (set_marked_size (object_size % partition_size)) heap,
  )

abbrev pub free_updated : Partition → Partition
free_updated p = freed (record p { update = false })

-- The partitions of an object, `n` from `index` on.
unfoldable pub free_range : ℕ → ℕ → PartitionedHeap → PartitionedHeap
free_range zero index heap = heap
free_range (suc n) index heap =
    let size = (get_partition index heap).dynamic_size in
    free_range n (index + 1) (record (change_partition index free_updated heap) {
      reclaimed = (heap.reclaimed + size) % 2 ^ 64;
      precomputed_heap_size = minus heap.precomputed_heap_size size;
    })

unfoldable pub free_large_object : ℕ → PartitionedHeap → Result PartitionedHeap
unfolding occupied_partition_range free_range
free_large_object object heap = do
  (start, number_of_partitions) ← occupied_partition_range object heap
  ok (
      free_range number_of_partitions start
        (record heap { free_partitions = heap.free_partitions + number_of_partitions }))

-- The loop from a partition on. A large object has a partition at least, so that every round goes on.
unfoldable pub collect_large : ℕ → ℕ → PartitionedHeap → Result PartitionedHeap
unfolding free_large_object partitions_length
collect_large zero index heap = ok heap
collect_large (suc fuel) index heap = elim (ltb index heap.number_of_partitions) [
  | false ↦ ok heap
  | true ↦ elim (get_partition index heap).large_content [
    | false ↦ collect_large fuel (index + 1) heap
    | true ↦
        let object = dynamic_space_start (get_partition index heap) in
        partitions_length heap.memory object >>= λ number_of_partitions.
        (if (get_partition index heap).marked_size == 0
          then free_large_object object heap
          else ok heap)
        >>= λ heap'. collect_large fuel (index + number_of_partitions) heap'
  ]
]

unfoldable pub collect_large_objects : PartitionedHeap → Result PartitionedHeap
unfolding collect_large
collect_large_objects heap = collect_large heap.number_of_partitions 0 heap
