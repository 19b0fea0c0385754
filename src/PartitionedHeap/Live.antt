-- ===== src/PartitionedHeap/Live.antt =====
-- On a platform that gives memory, `allocate` gives an address.
use motoko.Prelude.{
  if_true_eq, if_false_eq, ℕ, ◌+◌, ◌-◌, ◌*◌, ◌/◌, ◌%◌, ◌^◌, ◌≤◌, ◌<◌, ◌≡◌, ◌⊎◌, inl, inr, refl, ◌∙◌,
  Bool, true, false, leb, if◌then◌else◌, Bool-cases, leb→le, leb→gt, ge→ltb, arith,
}
use motoko.Prelude.Result.{Result, ok, Returns, >>=-Returns}
use motoko.MarkBitmap.{partition_size}
use motoko.PartitionedHeap.{minus, end_address, dynamic_space_end}
use motoko.PartitionedHeap.Memory.{Platform}
use motoko.PartitionedHeap.Tables.{PartitionedHeap, get_partition, allocation_partition}
use motoko.PartitionedHeap.Allocate.{
  allocate, scan_for_large_space, allocate_in_new_partition, allocate_normal_object,
  allocate_large_object,
}
use motoko.PartitionedHeap.Invariant.{IsHeap}
use motoko.PartitionedHeap.Grown.{IsCounted}
use motoko.PartitionedHeap.Found.{allocate_partition-Found}
use motoko.PartitionedHeap.Fresh.{allocate_free_partition-IsFresh}
use motoko.PartitionedHeap.Placed.{Allocated, IsHeap-IsCounted}
use motoko.PartitionedHeap.Space.{scan_for_large_space-FreeRange}
use motoko.PartitionedHeap.Allocation.{allocate-Allocated}
use motoko.PartitionedHeap.Progress.{
  IsGenerous, MorePages, MorePartitions, grow_memory-Returns, intra_partition_memory_grow-Returns,
  allocate_partition-Returns,
}
use motoko.PartitionedHeap.Succeeds.{large-Complete, allocate_free_partition-Returns}

Returns-if_true :
    {A : Type 0} {P : A → Type 0} {b : Bool} (m n : Result A)
    → b ≡ true
    → Returns P m
    → Returns P (if b then m else n)
Returns-if_true m n e (a, got, holds) = (a, if_true_eq _ m n e ∙ got, holds)

Returns-if_false :
    {A : Type 0} {P : A → Type 0} {b : Bool} (m n : Result A)
    → b ≡ false
    → Returns P n
    → Returns P (if b then m else n)
Returns-if_false m n e (a, got, holds) = (a, if_false_eq _ m n e ∙ got, holds)

module _ (p : Platform) (g : IsGenerous p) (h : PartitionedHeap) (is : IsHeap h)
    (few : h.number_of_partitions < 2 ^ 33) where
  abbrev Success : ℕ × PartitionedHeap → Type 0
  Success _ = Unit

  allocate_in_new_partition-Returns :
      (size : ℕ) → size ≤ partition_size → Returns Success (allocate_in_new_partition p size h)
  unfolding allocate_in_new_partition
  allocate_in_new_partition-Returns size le =
      let h' : PartitionedHeap = record h {
        precomputed_heap_size = h.precomputed_heap_size + (allocation_partition h).dynamic_size;
      } in
      let c : IsCounted h' = record {
        pages = is.pages;
        partitions = is.partitions;
        free_count = is.free_count;
      } in
      >>=-Returns (λ r. r.1.number_of_partitions ≤ h.number_of_partitions + 256) Success _ _
        (allocate_free_partition-Returns p g size h' le c few)
        (λ s got more.
          let fresh = allocate_free_partition-IsFresh p h' size s g.limited c got in
          >>=-Returns (MorePages s.1) Success _ _
            (grow_memory-Returns p g (dynamic_space_end (get_partition s.0 s.1) + size) s.1
              (omega (
                arith,
                more,
                fresh.lt,
                fresh.room,
                fresh.no_objects,
                fresh.grown.counted.partitions.index s.0 fresh.lt,
              ))
              fresh.grown.counted.pages)
            (λ k _ _. (_, refl, tt)))

  allocate_normal_object-Returns :
      (size : ℕ) → size ≤ partition_size → Returns Success (allocate_normal_object p size h)
  unfolding allocate_normal_object minus
  allocate_normal_object-Returns size le =
      let q = allocation_partition h in
      let i = is.partitions.index h.allocation_index is.allocation_lt in
      let r = (is.partitions.each h.allocation_index is.allocation_lt).room in
      elim (Bool-cases (leb (dynamic_space_end q) (minus (end_address q) size))) [
        | inr full ↦ Returns-if_false _ _ full (allocate_in_new_partition-Returns size le)
        | inl fits ↦ Returns-if_true _ _ fits (
            >>=-Returns (MorePages h) Success _ _
              (intra_partition_memory_grow-Returns p g (dynamic_space_end q + size) h
                (omega (arith, i, r, is.allocation_lt)) is.pages)
              (λ k _ _. (_, refl, tt)))
      ]

  allocate_large_object-Returns :
      (size : ℕ)
      → partition_size < size
      → size ≤ 127 * partition_size
      → Returns Success (allocate_large_object p size h)
  unfolding allocate_large_object
  allocate_large_object-Returns size lt le =
      let n = (size + partition_size - 1) / partition_size in
      let pos : 0 < n = omega arith in
      let c = IsHeap-IsCounted h is in
      Returns-if_false _ _ (ge→ltb (2 ^ 64 - 1 - partition_size) size (omega arith)) (
        >>=-Returns (MorePartitions p g h) Success _ _
          (allocate_partition-Returns p g (scan_for_large_space n) h
            (large-Complete p g n pos (omega arith)) c (omega arith))
          (λ s got more.
            let found = allocate_partition-Found p g.limited (scan_for_large_space n) h s c got in
            let partitions = found.grown.counted.partitions in
            let range =
              scan_for_large_space-FreeRange s.1 n s.0 pos (omega (arith, partitions.limit))
                found.found in
            let last = s.0 + n - 1 in
            let last_lt : last < s.1.number_of_partitions = omega (arith, range.within) in
            let g' : PartitionedHeap = record s.1 {
              free_partitions = minus s.1.free_partitions n;
            } in
            >>=-Returns (MorePages g') Success _ _
              (grow_memory-Returns p g (end_address (get_partition last s.1)) g'
                (omega (arith, more, last_lt, partitions.index last last_lt))
                found.grown.counted.pages)
              (λ k _ _. (_, refl, tt))))

  -- On a platform that never gives more than 2 ^ 63 bytes, that gives what is asked for up to that, and
  -- whose reserve is at most 4 GiB: an allocation of up to 127 partitions, from a heap of fewer than
  -- 2 ^ 33 partitions that satisfies its invariant, does not trap, gives granted memory that was not in
  -- use, and keeps the invariant and what was in use.
  pub allocate-Returns :
      (words : ℕ)
      → words * 8 % 2 ^ 64 ≤ 127 * partition_size
      → (r : ℕ × PartitionedHeap) × (allocate p words h ≡ ok r)
        × Allocated h (words * 8 % 2 ^ 64) r.0 r.1
  unfolding allocate
  allocate-Returns words le =
      let (r, e, _) = by_size (Bool-cases (leb (words * 8 % 2 ^ 64) partition_size)) in
      (r, e, allocate-Allocated p h g.limited is words r e)
    where
      by_size :
          (leb (words * 8 % 2 ^ 64) partition_size ≡ true)
            ⊎ (leb (words * 8 % 2 ^ 64) partition_size ≡ false)
          → Returns Success (allocate p words h)
      by_size (inl small) = Returns-if_true _ _ small (
          allocate_normal_object-Returns (words * 8 % 2 ^ 64)
            (leb→le (words * 8 % 2 ^ 64) partition_size small))
      by_size (inr large) = Returns-if_false _ _ large (
          allocate_large_object-Returns (words * 8 % 2 ^ 64)
            (leb→gt (words * 8 % 2 ^ 64) partition_size large) le)
