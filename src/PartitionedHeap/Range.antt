-- ===== src/PartitionedHeap/Range.antt =====
-- The partitions that a large object takes.
use motoko.Prelude.{
  ℕ, zero, suc, ◌+◌, ◌-◌, ◌*◌, ◌≤◌, ◌<◌, ◌≡◌, ◌≢◌, ◌⊎◌, inl, inr, refl, sym, ap, ◌∙◌, subst, true,
  ◌==◌, if◌then◌else◌, ℕ_discrete, arith,
}
use motoko.MarkBitmap.{partition_size}
use motoko.PartitionedHeap.{Partition, minus, is_completely_free, free_size, occuped_size}
use motoko.PartitionedHeap.Tables.{PartitionedHeap, get_partition, change_partition}
use motoko.PartitionedHeap.Tables.Entries.{entry-change_self, entry-change_ne}
use motoko.PartitionedHeap.Allocate.{take_large, take_range}
use motoko.PartitionedHeap.Invariant.{
  bit, IsPartition, ArePartitions, free_sum, occupied_sum, most_partitions, change-ArePartitions,
  change_sum,
}
use motoko.PartitionedHeap.Taken.{free_size-eq}
use motoko.PartitionedHeap.Space.{CompletelyFree}

-- A completely free partition has no space in use.
pub CompletelyFree-empty :
    (q : Partition)
    → IsPartition q
    → q.index < most_partitions
    → is_completely_free q ≡ true
    → (q.free ≡ true) × (q.static_size ≡ 0) × (q.dynamic_size ≡ 0)
unfolding is_completely_free
CompletelyFree-empty q is lt e =
    let size = free_size-eq q is lt in
    let free : q.free ≡ true = ground arith in
    let all : free_size q ≡ partition_size = ground (arith, free) in
    (free, omega (arith, is.room, size), omega (arith, is.room, size))

-- The size of the object's part in partition `j`.
abbrev pub part_size : ℕ → ℕ → ℕ → ℕ → ℕ
part_size last number size j =
    if j == last then minus size ((number - 1) * partition_size) else partition_size

module _ (last number size : ℕ)
    (part_le : (j : ℕ) → part_size last number size j ≤ partition_size) where
  abbrev part : ℕ → Partition → Partition
  part j = take_large (part_size last number size j)

  pub record Ranged (h : PartitionedHeap) (b n : ℕ) (k : PartitionedHeap) : Type 0 where
    pub total : k.number_of_partitions ≡ h.number_of_partitions
    pub allocation : k.allocation_index ≡ h.allocation_index
    pub pages : k.pages ≡ h.pages
    pub free_partitions : k.free_partitions ≡ h.free_partitions
    pub partitions : ArePartitions k.tables h.number_of_partitions
    pub outside : (j : ℕ) → (j < b) ⊎ (b + n ≤ j) → get_partition j k ≡ get_partition j h
    pub inside : (j : ℕ) → b ≤ j → j < b + n → get_partition j k ≡ part j (get_partition j h)
    pub balance :
        k.precomputed_heap_size + occupied_sum h.tables h.number_of_partitions
        ≡ h.precomputed_heap_size + occupied_sum k.tables h.number_of_partitions
    pub frees :
        free_sum k.tables h.number_of_partitions + n ≡ free_sum h.tables h.number_of_partitions

  -- One more partition, before the range.
  module _ (h : PartitionedHeap) (b n : ℕ) (p : ArePartitions h.tables h.number_of_partitions)
      (lt : b < h.number_of_partitions) (free : CompletelyFree h b) where
    abbrev one_taken : PartitionedHeap
    one_taken = record (change_partition b (part b) h) {
      precomputed_heap_size = h.precomputed_heap_size + part_size last number size b;
    }

    empty :
        ((get_partition b h).free ≡ true)
        × ((get_partition b h).static_size ≡ 0)
        × ((get_partition b h).dynamic_size ≡ 0)
    empty =
        CompletelyFree-empty (get_partition b h) (p.each b lt)
          (omega (arith, p.limit, p.index b lt)) free

    one_taken-ArePartitions : ArePartitions one_taken.tables h.number_of_partitions
    one_taken-ArePartitions =
        change-ArePartitions h.tables h.number_of_partitions p b lt (part b) (p.index b lt)
          (record {
            room = omega (arith, part_le b, empty.1);
            no_objects = λ e. absurd (cc e);
            no_large = λ e. absurd (cc e);
            no_bitmaps = λ e. absurd (cc e);
            not_evacuated = λ e. absurd (cc e);
          })

    one_before : (k : PartitionedHeap) → Ranged one_taken (b + 1) n k → Ranged h b (suc n) k
    one_before k r = record {
      total = r.total;
      allocation = r.allocation;
      pages = r.pages;
      free_partitions = r.free_partitions;
      partitions = r.partitions;
      outside = λ j out.
          r.outside j (before j out)
          ∙ entry-change_ne h.tables h.number_of_partitions p.are b lt (part b) j
              (λ e. apart j out e);
      inside = λ j l u. elim (ℕ_discrete b j) [
        | yes e ↦
            subst (λ m. get_partition m k ≡ part m (get_partition m h)) e
              (r.outside b (inl (omega arith))
                ∙ entry-change_self h.tables h.number_of_partitions p.are b lt (part b))
        | no ne ↦
            r.inside j (ground (arith, ne)) (omega arith)
            ∙ ap (part j) (entry-change_ne h.tables h.number_of_partitions p.are b lt (part b) j ne)
      ];
      balance = omega (
        arith,
        r.balance,
        empty.1,
        empty.2,
        change_sum h.tables h.number_of_partitions p b lt (part b) occuped_size,
      );
      frees = omega (
        arith,
        r.frees,
        ap bit empty.0,
        change_sum h.tables h.number_of_partitions p b lt (part b) (λ q. bit q.free),
      );
    }
      where
        before : (j : ℕ) → (j < b) ⊎ (b + suc n ≤ j) → (j < b + 1) ⊎ (b + 1 + n ≤ j)
        before j (inl l) = inl (omega arith)
        before j (inr l) = inr (omega arith)

        apart : (j : ℕ) → (j < b) ⊎ (b + suc n ≤ j) → b ≢ j
        apart j (inl l) e = absurd (omega arith)
        apart j (inr l) e = absurd (omega arith)

  pub take_range-Ranged :
      (n b : ℕ) (h : PartitionedHeap)
      → ArePartitions h.tables h.number_of_partitions
      → b + n ≤ h.number_of_partitions
      → ((i : ℕ) → b ≤ i → i < b + n → CompletelyFree h i)
      → Ranged h b n (take_range n b last number size h)
  unfolding take_range
  take_range-Ranged zero b h p within free = record {
    total = refl;
    allocation = refl;
    pages = refl;
    free_partitions = refl;
    partitions = p;
    outside = λ j _. refl;
    inside = λ j l u. absurd (omega arith);
    balance = refl;
    frees = omega arith;
  }
  take_range-Ranged (suc n) b h p within free =
      let lt : b < h.number_of_partitions = omega arith in
      let here = free b (omega arith) (omega arith) in
      one_before h b n p lt here (take_range n (b + 1) last number size (one_taken h b n p lt here))
        (take_range-Ranged n (b + 1) (one_taken h b n p lt here)
          (one_taken-ArePartitions h b n p lt here) (omega arith)
          (λ i l u.
            subst (λ q. is_completely_free q ≡ true)
              (sym (
                entry-change_ne h.tables h.number_of_partitions p.are b lt (part b) i
                  (λ e. absurd (omega arith))))
              (free i (omega arith) (omega arith))))
