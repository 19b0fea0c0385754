-- ===== src/PartitionedHeap/Changed.antt =====
-- A change of one partition with the counters, and the invariant.
use motoko.Prelude.Sums.{le-sum, sum_bound}
use motoko.Prelude.{◌≤◌, ◌≢◌, ℕ, ◌+◌, ◌<◌, ◌≡◌, ap, ◌∙◌, false, arith}
use motoko.MarkBitmap.{partition_size}
use motoko.PartitionedHeap.{Partition, minus, occuped_size}
use motoko.PartitionedHeap.Tables.Entries.{entry-change_ne}
use motoko.PartitionedHeap.Grown.{minus-eq}
use motoko.PartitionedHeap.Tables.{PartitionedHeap, entry, change_entry, get_partition}
use motoko.PartitionedHeap.Invariant.{
  bit, IsPartition, IsHeap, occupied_sum, change-ArePartitions, change_sum,
}

-- A change of one partition that is counted.
pub change-IsHeap :
    (h k : PartitionedHeap) (i : ℕ) (f : Partition → Partition)
    → IsHeap h
    → i < h.number_of_partitions
    → k.tables ≡ change_entry i f h.tables
    → k.number_of_partitions ≡ h.number_of_partitions
    → k.allocation_index ≡ h.allocation_index
    → k.pages ≡ h.pages
    → (f (get_partition i h)).index ≡ (get_partition i h).index
    → IsPartition (f (get_partition i h))
    → (get_partition h.allocation_index k).free ≡ false
    → (get_partition h.allocation_index k).temporary ≡ false
    → k.free_partitions + bit (get_partition i h).free
      ≡ h.free_partitions + bit (f (get_partition i h)).free
    → k.precomputed_heap_size
        + (get_partition h.allocation_index k).dynamic_size
        + occuped_size (get_partition i h)
      ≡ h.precomputed_heap_size
        + (get_partition h.allocation_index h).dynamic_size
        + occuped_size (f (get_partition i h))
    → IsHeap k
change-IsHeap h k i f is lt t n a g index is_p free temporary count size =
    let p = is.partitions in
    let number = h.number_of_partitions in
    record {
      pages = omega (arith, is.pages, g);
      partitions =
          rw (t, n) (change-ArePartitions h.tables number p i lt f (index ∙ p.index i lt) is_p);
      free_count =
          rw (t, n)
            (omega
              (arith, count, is.free_count, change_sum h.tables number p i lt f (λ q. bit q.free)));
      allocation_lt = omega (arith, a, n, is.allocation_lt);
      allocation_taken = ap (λ m. (get_partition m k).free) a ∙ free;
      allocation_objects = ap (λ m. (get_partition m k).temporary) a ∙ temporary;
      size = omega (
        arith,
        ap (λ m. (get_partition m k).dynamic_size) a,
        ap (λ ts. occupied_sum ts k.number_of_partitions) t,
        ap (occupied_sum (change_entry i f h.tables)) n,
        size,
        is.size,
        change_sum h.tables number p i lt f occuped_size,
      );
    }

-- The space of a partition and of the one for allocation are different, so that the space of objects
-- elsewhere is at least that of the partition.
pub minus_exact :
    (h : PartitionedHeap) (i : ℕ)
    → IsHeap h
    → i < h.number_of_partitions
    → i ≢ h.allocation_index
    → minus h.precomputed_heap_size (get_partition i h).dynamic_size
        + (get_partition i h).dynamic_size
      ≡ h.precomputed_heap_size
minus_exact h i is lt other =
    let emptied : Partition → Partition = λ q. record q { dynamic_size = 0 } in
    let n = h.number_of_partitions in
    let p = is.partitions in
    let change = change_sum h.tables n p i lt emptied occuped_size in
    let at_allocation =
      le-sum (λ j. occuped_size (entry j (change_entry i emptied h.tables))) 0 n h.allocation_index
        (omega arith) (omega (arith, is.allocation_lt)) in
    let same = entry-change_ne h.tables n p.are i lt emptied h.allocation_index other in
    let most =
      sum_bound (λ j. occuped_size (get_partition j h)) partition_size 0 n
        (λ j _ l. omega (arith, (p.each j (omega arith)).room)) in
    let le : (get_partition i h).dynamic_size ≤ h.precomputed_heap_size =
      omega (arith, at_allocation, change, ap (λ q. q.dynamic_size) same, is.size) in
    omega (
      arith,
      le,
      minus-eq h.precomputed_heap_size (get_partition i h).dynamic_size le
          (omega (arith, is.size, most, p.limit)),
    )
