-- ===== src/PartitionedHeap/Allocate.antt =====
-- rts/motoko-rts/src/gc/incremental/partitioned_heap.rs: the allocation of partitions, bitmaps and
-- objects. An allocation gives the address of the object.
use motoko.Prelude.{
  ℕ, zero, suc, ◌+◌, ◌-◌, ◌*◌, ◌/◌, ◌%◌, ◌^◌, Option, none, some, Bool, true, false, ◌&&◌, ltb, leb,
  ◌==◌, if◌then◌else◌,
}
use motoko.Prelude.Result.{Result, ok, trap, ◌>>=◌}
use motoko.MarkBitmap.{assign, partition_size, bitmap_size}
use motoko.PartitionedHeap.{
  minus, Partition, start_address, end_address, dynamic_space_start, dynamic_space_end, free_size,
  is_completely_free,
}
use motoko.PartitionedHeap.Memory.{Platform, allocate_wasm_memory}
use motoko.PartitionedHeap.Tables.{
  PartitionedHeap, get_partition, change_partition, grow_memory, add_partition_table,
  allocation_partition, partition_count,
}

-- The partition that was found, or what is done where none was.
abbrev pub found_or :
    Option ℕ → PartitionedHeap → Result (ℕ × PartitionedHeap) → Result (ℕ × PartitionedHeap)
found_or (some index) heap other = ok (index, heap)
found_or none heap other = other

unfoldable pub allocate_partition :
    Platform → (PartitionedHeap → Option ℕ) → PartitionedHeap → Result (ℕ × PartitionedHeap)
allocate_partition platform find_partition heap = found_or (find_partition heap) heap (
    add_partition_table platform heap >>= λ heap'.
    found_or (find_partition heap') heap' (trap "Cannot grow memory"))

-- The loop over the partitions that looks for the first that passes a test.
unfoldable pub first_partition : (Partition → Bool) → PartitionedHeap → ℕ → ℕ → Option ℕ
first_partition test heap zero i = none
first_partition test heap (suc n) i =
    let rest = first_partition test heap n (i + 1) in
    if test (get_partition i heap) then some (get_partition i heap).index else rest

unfoldable pub scan_for_temporary_partition : PartitionedHeap → Option ℕ
unfolding first_partition
scan_for_temporary_partition heap = first_partition is_completely_free heap (partition_count heap) 0

unfoldable pub scan_for_free_partition : ℕ → PartitionedHeap → Option ℕ
unfolding first_partition
scan_for_free_partition requested_space heap =
    first_partition (λ p. p.free && leb requested_space (free_size p)) heap (partition_count heap) 0

abbrev pub take_temporary : Partition → Partition
take_temporary p = record p { free = false; temporary = true }

unfoldable pub allocate_temporary_partition :
    Platform → PartitionedHeap → Result (ℕ × PartitionedHeap)
unfolding allocate_partition
allocate_temporary_partition platform heap = do
  (index, heap) ← allocate_partition platform scan_for_temporary_partition heap
  ok (
    index,
    change_partition index take_temporary
        (record heap { free_partitions = minus heap.free_partitions 1 }),
  )

-- A new temporary partition, where the last one is used up.
unfoldable pub with_bitmap_space : Platform → PartitionedHeap → Result PartitionedHeap
unfolding allocate_temporary_partition
with_bitmap_space platform heap =
    if heap.bitmap_allocation_pointer % partition_size == 0
    then (do
      (index, heap) ← allocate_temporary_partition platform heap
      heap ← grow_memory platform (end_address (get_partition index heap)) heap
      ok (record heap { bitmap_allocation_pointer = start_address (get_partition index heap) }))
    else ok heap

unfoldable pub allocate_bitmap : Platform → PartitionedHeap → Result (ℕ × PartitionedHeap)
unfolding with_bitmap_space
allocate_bitmap platform heap = do
  heap ← with_bitmap_space platform heap
  ok (
    heap.bitmap_allocation_pointer,
    record heap { bitmap_allocation_pointer = heap.bitmap_allocation_pointer + bitmap_size },
  )

-- `bitmap.assign` for a partition's bitmap.
unfoldable pub assign_bitmap : ℕ → ℕ → PartitionedHeap → PartitionedHeap
assign_bitmap index bitmap_address heap =
    let bitmap =
      assign bitmap_address
        (record { memory = heap.memory; pointer = (get_partition index heap).bitmap }) in
    change_partition index (λ p. record p { bitmap = bitmap.pointer })
      (record heap { memory = bitmap.memory })

abbrev pub take_free : Partition → Partition
take_free p = record p { free = false }

unfoldable pub allocate_free_partition :
    Platform → ℕ → PartitionedHeap → Result (ℕ × PartitionedHeap)
unfolding allocate_bitmap allocate_partition assign_bitmap
allocate_free_partition platform requested_space heap = do
  (bitmap_address, heap) ← if heap.gc_running then allocate_bitmap platform heap else ok (0, heap)
  (index, heap) ← allocate_partition platform (scan_for_free_partition requested_space) heap
  let heap =
      change_partition index take_free
        (record heap { free_partitions = minus heap.free_partitions 1 })
  ok (index, if bitmap_address == 0 then heap else assign_bitmap index bitmap_address heap)

abbrev pub fill : ℕ → Partition → Partition
fill size p = record p { dynamic_size = p.dynamic_size + size }

unfoldable pub allocate_in_new_partition :
    Platform → ℕ → PartitionedHeap → Result (ℕ × PartitionedHeap)
unfolding allocate_free_partition
allocate_in_new_partition platform size heap = do
  (index, heap) ← allocate_free_partition platform size (record heap {
    precomputed_heap_size = heap.precomputed_heap_size + (allocation_partition heap).dynamic_size;
  })
  let heap_pointer = dynamic_space_end (get_partition index heap)
  heap ← grow_memory platform (heap_pointer + size) heap
  ok (
    heap_pointer,
    record (change_partition index (fill size) heap) {
      allocation_index = (get_partition index heap).index;
    },
  )

-- Without the usual reserve.
unfoldable pub intra_partition_memory_grow : Platform → ℕ → PartitionedHeap → Result PartitionedHeap
unfolding allocate_wasm_memory
intra_partition_memory_grow platform address heap = do
  pages ← allocate_wasm_memory platform address heap.pages
  ok (record heap { pages = pages })

unfoldable pub allocate_normal_object :
    Platform → ℕ → PartitionedHeap → Result (ℕ × PartitionedHeap)
unfolding intra_partition_memory_grow allocate_in_new_partition
allocate_normal_object platform size heap =
    let heap_pointer = dynamic_space_end (allocation_partition heap) in
    if leb heap_pointer (minus (end_address (allocation_partition heap)) size)
    then (do
      heap ← intra_partition_memory_grow platform (heap_pointer + size) heap
      ok (heap_pointer, change_partition heap.allocation_index (fill size) heap))
    else allocate_in_new_partition platform size heap

-- From `index` on, in the range of free partitions that starts at `start_of_free_range`.
unfoldable pub scan_large : ℕ → ℕ → ℕ → ℕ → PartitionedHeap → Option ℕ
scan_large zero index start_of_free_range number_of_partitions heap = none
scan_large (suc n) index start_of_free_range number_of_partitions heap =
    let found =
      is_completely_free (get_partition index heap)
      && leb number_of_partitions (minus (index + 1) start_of_free_range) in
    let start =
      if is_completely_free (get_partition index heap) then start_of_free_range else index + 1 in
    let rest = scan_large n (index + 1) start number_of_partitions heap in
    if found then some start_of_free_range else rest

unfoldable pub scan_for_large_space : ℕ → PartitionedHeap → Option ℕ
unfolding scan_large
scan_for_large_space number_of_partitions heap =
    scan_large heap.number_of_partitions 0 0 number_of_partitions heap

abbrev pub take_large : ℕ → Partition → Partition
take_large size p = record p { free = false; large_content = true; dynamic_size = size }

-- The partitions from `index` to the last one, `n` of them.
unfoldable pub take_range : ℕ → ℕ → ℕ → ℕ → ℕ → PartitionedHeap → PartitionedHeap
take_range zero index last_index number_of_partitions size heap = heap
take_range (suc n) index last_index number_of_partitions size heap =
    let dynamic_size =
      if index == last_index
      then minus size ((number_of_partitions - 1) * partition_size)
      else partition_size in
    take_range n (index + 1) last_index number_of_partitions size
      (record (change_partition index (take_large dynamic_size) heap) {
        precomputed_heap_size = heap.precomputed_heap_size + dynamic_size;
      })

unfoldable pub allocate_large_object : Platform → ℕ → PartitionedHeap → Result (ℕ × PartitionedHeap)
unfolding allocate_partition take_range
allocate_large_object platform size heap =
    let number_of_partitions = (size + partition_size - 1) / partition_size in
    if ltb (2 ^ 64 - 1 - partition_size) size then trap "Too large allocation" else do
      (first_index, heap) ←
          allocate_partition platform (scan_for_large_space number_of_partitions) heap
      let last_index = first_index + number_of_partitions - 1
      heap ←
          grow_memory platform (end_address (get_partition last_index heap))
            (record heap { free_partitions = minus heap.free_partitions number_of_partitions })
      let heap =
          take_range number_of_partitions first_index last_index number_of_partitions size heap
      ok (dynamic_space_start (get_partition first_index heap), heap)

unfoldable pub allocate : Platform → ℕ → PartitionedHeap → Result (ℕ × PartitionedHeap)
unfolding allocate_normal_object allocate_large_object
allocate platform words heap =
    let size = words * 8 % 2 ^ 64 in
    if leb size partition_size
    then allocate_normal_object platform size heap
    else allocate_large_object platform size heap
