-- ===== src/PartitionedHeap/SweepRuns.antt =====
-- The large objects of the heap of the runs: a blob of three partitions without a mark.
use motoko.Prelude.{
  none, some, ◌⊎◌, ◌||◌, not, ltb, ℕ, zero, suc, ◌+◌, ◌≤◌, ◌<◌, ◌≡◌, refl, Bool, true, false, ◌&&◌,
  leb, arith,
}
use motoko.Prelude.Result.{ok}
use motoko.PartitionedHeap.{Partition, free_size, is_completely_free}
use motoko.PartitionedHeap.Tables.{
  PartitionedHeap, entry, change_entry, get_partition, new_heap, partition_count, grow_memory,
}
use motoko.PartitionedHeap.Allocate.{allocate, scan_for_large_space, scan_for_free_partition}
use motoko.PartitionedHeap.Invariant.{IsHeap}
use motoko.PartitionedHeap.BlockSize.{block_size}
use motoko.PartitionedHeap.Large.{partitions_length, collect_large_objects}
use motoko.PartitionedHeap.Layout.{IsLarge, Layout, Swept}
use motoko.PartitionedHeap.Swept.{collect_large_objects-Swept}
use motoko.StableMem.{read_word, from_le_bytes, read}
use motoko.PartitionedHeap.Space.{FreeRange, scan_for_large_space_first}
use motoko.PartitionedHeap.Runs.{
  large, large-Allocated, whole, whole-Allocated, all_below, all_below_sound, large_number,
}

-- The blob's partitions, and the others.
abbrev blob_partition : Partition → Bool
blob_partition q = q.large_content && not q.free

in_blob : all_below 128 (λ j. ltb j 2 || leb 5 j || blob_partition (get_partition j large.1)) ≡ true
unfolding all_below allocate new_heap entry change_entry scan_for_large_space
    scan_for_free_partition partition_count free_size grow_memory is_completely_free
in_blob = refl

out_of_blob :
    all_below 128 (λ j. leb 2 j && ltb j 5 || not (get_partition j large.1).large_content) ≡ true
unfolding all_below allocate new_heap entry change_entry scan_for_large_space
    scan_for_free_partition partition_count free_size grow_memory is_completely_free
out_of_blob = refl

large_allocation : large.1.allocation_index ≡ 1
unfolding allocate new_heap entry change_entry scan_for_large_space scan_for_free_partition
    partition_count free_size grow_memory is_completely_free
large_allocation = refl

blob_taken : (j : ℕ) → 2 ≤ j → j < 5 → (get_partition j large.1).free ≡ false
blob_taken j l u = let p = all_below_sound 128 _ j in_blob (omega arith) in ground (arith, p)

none_large :
    (j : ℕ)
    → 5 ≤ j
    → j < large.1.number_of_partitions
    → (get_partition j large.1).large_content ≡ false
none_large j l u =
    let p = all_below_sound 128 _ j out_of_blob (omega (arith, large_number)) in ground (arith, p)

smalls : (n i : ℕ) → i + n ≡ large.1.number_of_partitions → 5 ≤ i → Layout large.1 i
smalls zero i e l = Layout.done i (omega arith)
smalls (suc n) i e l =
    Layout.small i (omega arith) (none_large i l (omega arith))
      (smalls n (i + 1) (omega arith) (omega arith))

blob-IsLarge : IsLarge large.1 2 3
unfolding allocate new_heap entry change_entry scan_for_large_space scan_for_free_partition
    partition_count free_size grow_memory is_completely_free partitions_length block_size read_word
    from_le_bytes read
blob-IsLarge = record {
  start = refl;
  address = refl;
  length = refl;
  some_partition = omega arith;
  range = record {
    within = omega (arith, large_number);
    taken = blob_taken;
    other = λ j l u e. absurd (omega (arith, e, large_allocation));
  };
}

layout : Layout large.1 0
unfolding allocate new_heap entry change_entry scan_for_large_space scan_for_free_partition
    partition_count free_size grow_memory is_completely_free
layout = Layout.small 0 (omega arith) refl (
    Layout.small 1 (omega arith) refl
      (Layout.large 2 3 blob-IsLarge (smalls 123 5 refl (omega arith))))

collect_large_objects-Swept_example :
    (k : PartitionedHeap) × (collect_large_objects large.1 ≡ ok k)
    × IsHeap k
    × Swept large.1 k 0 layout
collect_large_objects-Swept_example =
    collect_large_objects-Swept large.1 layout large-Allocated.heap

-- The first three free partitions in a row.
scan_for_large_space_first_example :
    ((s : ℕ) × (scan_for_large_space 3 whole.1 ≡ some s)
      × FreeRange whole.1 3 s
      × ((b : ℕ) → FreeRange whole.1 3 b → s ≤ b))
    ⊎ ((scan_for_large_space 3 whole.1 ≡ none) × ((b : ℕ) → ¬ FreeRange whole.1 3 b))
scan_for_large_space_first_example =
    scan_for_large_space_first whole.1 3 (omega arith)
      (omega (arith, whole-Allocated.heap.partitions.limit))
