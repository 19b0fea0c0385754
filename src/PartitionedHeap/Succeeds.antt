-- ===== src/PartitionedHeap/Succeeds.antt =====
-- On a platform that gives memory, no allocation of up to 127 partitions traps.
use motoko.Prelude.{
  if_true_eq, if_false_eq, ℕ, zero, suc, ◌+◌, ◌*◌, ◌%◌, ◌^◌, ◌≤◌, ◌<◌, ◌≡◌, inl, inr, refl, sym,
  ap₂, ◌∙◌, subst, some, Bool, true, false, ◌&&◌, leb, ◌==◌, if◌then◌else◌, Bool-cases, le→leb,
  ℕ_discrete, arith,
}
use motoko.Prelude.Result.{ok, Returns, >>=-Returns}
use motoko.MarkBitmap.{partition_size, bitmap_size}
use motoko.PartitionedHeap.{Partition, free_size, is_completely_free, start_address, end_address}
use motoko.PartitionedHeap.Memory.{Platform}
use motoko.PartitionedHeap.Tables.{PartitionedHeap, get_partition, partition_count}
use motoko.PartitionedHeap.Allocate.{
  first_partition, scan_for_temporary_partition, scan_for_free_partition, scan_for_large_space,
  take_temporary, allocate_temporary_partition, with_bitmap_space, allocate_bitmap, assign_bitmap,
  allocate_free_partition,
}
use motoko.PartitionedHeap.Invariant.{partition_count-eq}
use motoko.PartitionedHeap.Grown.{IsCounted}
use motoko.PartitionedHeap.Found.{allocate_partition-Found, scan_for_temporary_partition-some}
use motoko.PartitionedHeap.Taken.{free_size-eq, take, take-Grown}
use motoko.PartitionedHeap.Space.{FreeRange, scan_for_large_space_first}
use motoko.PartitionedHeap.Range.{CompletelyFree-empty}
use motoko.PartitionedHeap.Progress.{
  IsGenerous, grow_memory-Returns, Complete, MorePartitions, allocate_partition-Returns,
}

first_partition-finds :
    (test : Partition → Bool) (h : PartitionedHeap) (n i j : ℕ)
    → i ≤ j
    → j < i + n
    → test (get_partition j h) ≡ true
    → (k : ℕ) × (first_partition test h n i ≡ some k)
unfolding first_partition
first_partition-finds test h zero i j l u e = absurd (omega arith)
first_partition-finds test h (suc n) i j l u e = elim (Bool-cases (test (get_partition i h))) [
  | inl here ↦ ((get_partition i h).index, if_true_eq _ _ _ here)
  | inr other ↦ elim (ℕ_discrete i j) [
    | yes same ↦ absurd (cc (e, other, same))
    | no ne ↦
        let (k, found) =
          first_partition-finds test h n (i + 1) j (ground (arith, ne)) (omega arith) e in
        (k, if_false_eq _ _ _ other ∙ found)
  ]
]

-- The first partition of a free range.
range_first :
    (k : PartitionedHeap) (b : ℕ)
    → IsCounted k
    → FreeRange k 127 b
    → (b < partition_count k)
      × (is_completely_free (get_partition b k) ≡ true)
      × ((get_partition b k).free ≡ true)
      × (free_size (get_partition b k) ≡ partition_size)
range_first k b c range =
    let lt : b < k.number_of_partitions = omega (arith, range.within) in
    let here = range.free b (omega arith) (omega arith) in
    let small : (get_partition b k).index < 2 ^ 37 + 127 =
      omega (arith, c.partitions.index b lt, c.partitions.limit) in
    let (f, s, d) = CompletelyFree-empty (get_partition b k) (c.partitions.each b lt) small here in
    (
      omega (arith, partition_count-eq k c.partitions),
      here,
      f,
      omega (arith, s, d, free_size-eq (get_partition b k) (c.partitions.each b lt) small),
    )

module _ (p : Platform) (g : IsGenerous p) where
  temporary-Complete : Complete p g scan_for_temporary_partition
  unfolding scan_for_temporary_partition
  temporary-Complete k b c range =
      let (lt, here, _, _) = range_first k b c range in
      first_partition-finds is_completely_free k (partition_count k) 0 b (omega arith) (omega arith)
        here

  free-Complete : (size : ℕ) → size ≤ partition_size → Complete p g (scan_for_free_partition size)
  unfolding scan_for_free_partition
  free-Complete size le k b c range =
      let (lt, _, f, s) = range_first k b c range in
      first_partition-finds (λ q. q.free && leb size (free_size q)) k (partition_count k) 0 b
        (omega arith) (omega arith)
        (ap₂ ◌&&◌ f (le→leb size (free_size (get_partition b k)) (omega (arith, s))))

  pub large-Complete : (n : ℕ) → 0 < n → n ≤ 127 → Complete p g (scan_for_large_space n)
  large-Complete n pos le k b c range =
      elim (scan_for_large_space_first k n pos (omega (arith, c.partitions.limit))) [
        | inl (s, e, _, _) ↦ (s, e)
        | inr (_, never) ↦ absurd (
            never b (record {
              within = omega (arith, range.within);
              free = λ i l u. range.free i l (omega arith);
            }))
      ]

  abbrev Few : ℕ → PartitionedHeap → Type 0
  Few n k = IsCounted k × (k.number_of_partitions ≤ n)

  allocate_temporary-Returns :
      (h : PartitionedHeap)
      → IsCounted h
      → h.number_of_partitions < 2 ^ 34
      → Returns
          (λ r. MorePartitions p g h r × IsCounted r.1 × (r.0 < r.1.number_of_partitions))
          (allocate_temporary_partition p h)
  unfolding allocate_temporary_partition
  allocate_temporary-Returns h c lt =
      let (s, e, more) =
        allocate_partition-Returns p g scan_for_temporary_partition h temporary-Complete c lt in
      let found = allocate_partition-Found p g.limited scan_for_temporary_partition h s c e in
      let (l, f) = scan_for_temporary_partition-some s.1 s.0 found.grown.counted found.found in
      let taken =
        take-Grown s.1 s.0 found.grown.counted l f take_temporary refl refl refl refl refl in
      (
        (s.0, take s.1 s.0 found.grown.counted l f take_temporary refl refl refl refl refl),
        rw e refl,
        (more, taken.counted, l),
      )

  index_end :
      (h : PartitionedHeap) (i : ℕ)
      → IsCounted h
      → i < h.number_of_partitions
      → end_address (get_partition i h) ≤ h.number_of_partitions * partition_size
  index_end h i c lt = omega (arith, c.partitions.index i lt)

  -- Counted, with at most so many partitions.
  with_bitmap_space-Returns :
      (h : PartitionedHeap)
      → IsCounted h
      → h.number_of_partitions < 2 ^ 34
      → Returns (Few (h.number_of_partitions + 128)) (with_bitmap_space p h)
  unfolding with_bitmap_space
  with_bitmap_space-Returns h c lt =
      elim (Bool-cases (h.bitmap_allocation_pointer % partition_size == 0)) [
        | inr room ↦ (h, if_false_eq _ _ _ room, (c, omega arith))
        | inl none_left ↦
            let (s, e, (more, counted, l)) = allocate_temporary-Returns h c lt in
            let (k, grew, (n, same, most)) =
              grow_memory-Returns p g (end_address (get_partition s.0 s.1)) s.1
                (omega (arith, index_end s.1 s.0 counted l, more)) counted.pages in
            let k' : PartitionedHeap = record s.1 {
              pages = n;
              bitmap_allocation_pointer = start_address (get_partition s.0 s.1);
            } in
            (
              k',
              if_true_eq _ _ _ none_left ∙ rw (e, grew, same) refl,
              (
                record {
                  pages = most;
                  partitions = counted.partitions;
                  free_count = counted.free_count;
                },
                more,
              ),
            )
      ]

  allocate_bitmap-Returns :
      (h : PartitionedHeap)
      → IsCounted h
      → h.number_of_partitions < 2 ^ 34
      → Returns (λ r. Few (h.number_of_partitions + 128) r.1) (allocate_bitmap p h)
  unfolding allocate_bitmap
  allocate_bitmap-Returns h c lt =
      let (k, e, (counted, more)) = with_bitmap_space-Returns h c lt in
      (
        (
          k.bitmap_allocation_pointer,
          record k { bitmap_allocation_pointer = k.bitmap_allocation_pointer + bitmap_size },
        ),
        rw e refl,
        (
          record {
            pages = counted.pages;
            partitions = counted.partitions;
            free_count = counted.free_count;
          },
          more,
        ),
      )

  bitmap_or_none :
      (h : PartitionedHeap) (running : Bool)
      → IsCounted h
      → h.number_of_partitions < 2 ^ 34
      → Returns
          (λ r. Few (h.number_of_partitions + 128) r.1)
          (if running then allocate_bitmap p h else ok (0, h))
  bitmap_or_none h true c lt = allocate_bitmap-Returns h c lt
  bitmap_or_none h false c lt = ((0, h), refl, (c, omega arith))

  assigned_number :
      (i b n : ℕ) (k : PartitionedHeap)
      → k.number_of_partitions ≤ n
      → (if b == 0 then k else assign_bitmap i b k).number_of_partitions ≤ n
  unfolding assign_bitmap
  assigned_number i b n k le = elim (Bool-cases (b == 0)) [
    | inl e ↦
        subst (λ x. x.number_of_partitions ≤ n) (sym (if_true_eq _ k (assign_bitmap i b k) e)) le
    | inr e ↦
        subst (λ x. x.number_of_partitions ≤ n) (sym (if_false_eq _ k (assign_bitmap i b k) e)) le
  ]

  pub allocate_free_partition-Returns :
      (size : ℕ) (h : PartitionedHeap)
      → size ≤ partition_size
      → IsCounted h
      → h.number_of_partitions < 2 ^ 33
      → Returns
          (λ r. r.1.number_of_partitions ≤ h.number_of_partitions + 256)
          (allocate_free_partition p size h)
  unfolding allocate_free_partition
  allocate_free_partition-Returns size h le c lt =
      >>=-Returns (λ r. Few (h.number_of_partitions + 128) r.1) _ _ _
        (bitmap_or_none h h.gc_running c (omega arith))
        (λ b _ (counted, few).
          >>=-Returns (MorePartitions p g b.1) _ _ _
            (allocate_partition-Returns p g (scan_for_free_partition size) b.1
              (free-Complete size le) counted (omega arith))
            (λ s _ more.
              (_, refl, assigned_number s.0 b.0 (h.number_of_partitions + 256) _ (omega arith))))
