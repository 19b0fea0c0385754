-- ===== src/PartitionedHeap/Invariant.antt =====
-- The invariant of the partitioned heap, and how a change of one partition and a new table keep it.
use motoko.Prelude.{
  ℕ, ◌+◌, ◌-◌, ◌^◌, ◌≤◌, ◌<◌, ◌≡◌, refl, sym, ap, ap₂, ◌∙◌, subst, List, [], ◌∷◌, ◌++◌, Bool, true,
  false, ℕ_discrete, dec_lt, arith,
}
use motoko.Prelude.Sums.{sum, sum_agree, sum_const, sum_append, sum_change, sum_shift}
use motoko.MarkBitmap.{partition_size}
use motoko.PartitionedHeap.{Partition, partition_table_size, occuped_size}
use motoko.PartitionedHeap.Tables.{
  PartitionTable, PartitionedHeap, static_space_at, new_partition, new_partition_table, entry,
  change_entry, get_partition, partition_count,
}
use motoko.PartitionedHeap.Tables.Entries.{
  AreTables, entry-change_self, entry-change_ne, change-AreTables, append-AreTables,
  entry-append_left, entry-append_right,
}

abbrev pub bit : Bool → ℕ
bit true = 1
bit false = 0

-- The sizes fit, and a free partition has no objects and no other use.
pub record IsPartition (p : Partition) : Type 0 where
  pub room : p.static_size + p.dynamic_size ≤ partition_size
  pub no_objects : p.free ≡ true → p.dynamic_size ≡ 0
  pub no_large : p.free ≡ true → p.large_content ≡ false
  pub no_bitmaps : p.free ≡ true → p.temporary ≡ false
  pub not_evacuated : p.free ≡ true → p.evacuate ≡ false

abbrev pub free_sum : List PartitionTable → ℕ → ℕ
free_sum tables n = sum (λ i. bit (entry i tables).free) 0 n

abbrev pub occupied_sum : List PartitionTable → ℕ → ℕ
occupied_sum tables n = sum (λ i. occuped_size (entry i tables)) 0 n

-- Fewer than 2 ^ 38 partitions, so that no address and no size is cut off.
abbrev pub most_partitions : ℕ
most_partitions = 2 ^ 37 + 127

-- 2 ^ 63 bytes.
abbrev pub most_pages : ℕ
most_pages = 2 ^ 47

-- The `n` partitions in the tables.
pub record ArePartitions (tables : List PartitionTable) (n : ℕ) : Type 0 where
  pub are : AreTables tables n
  pub limit : n ≤ most_partitions
  pub index : (i : ℕ) → i < n → (entry i tables).index ≡ i
  pub each : (i : ℕ) → i < n → IsPartition (entry i tables)

-- Of a heap between its operations: the counter of the free partitions counts them, the partition for
-- allocation is in use for it, and the size of the heap is that of the occupied spaces.
pub record IsHeap (heap : PartitionedHeap) : Type 0 where
  pub pages : heap.pages ≤ most_pages
  pub partitions : ArePartitions heap.tables heap.number_of_partitions
  pub free_count : heap.free_partitions ≡ free_sum heap.tables heap.number_of_partitions
  pub allocation_lt : heap.allocation_index < heap.number_of_partitions
  pub allocation_taken : (get_partition heap.allocation_index heap).free ≡ false
  pub allocation_objects : (get_partition heap.allocation_index heap).temporary ≡ false
  pub size :
      heap.precomputed_heap_size + (get_partition heap.allocation_index heap).dynamic_size
      ≡ occupied_sum heap.tables heap.number_of_partitions

pub partition_count-eq :
    (heap : PartitionedHeap)
    → ArePartitions heap.tables heap.number_of_partitions
    → partition_count heap ≡ heap.number_of_partitions
unfolding partition_count
partition_count-eq heap p = omega (arith, p.are.count, p.limit)

-- A change of partition `i` that keeps its index.
module _ (tables : List PartitionTable) (n : ℕ) (p : ArePartitions tables n) (i : ℕ) (i_lt : i < n)
    (f : Partition → Partition) where
  change_at :
      (P : Partition → Type 0)
      → P (f (entry i tables))
      → ((j : ℕ) → j < n → P (entry j tables))
      → (j : ℕ) → j < n
      → P (entry j (change_entry i f tables))
  change_at P here others j j_lt = elim (ℕ_discrete i j) [
    | yes e ↦
        subst (λ k. P (entry k (change_entry i f tables))) e
          (subst P (sym (entry-change_self tables n p.are i i_lt f)) here)
    | no ne ↦ subst P (sym (entry-change_ne tables n p.are i i_lt f j ne)) (others j j_lt)
  ]

  pub change-ArePartitions :
      (f (entry i tables)).index ≡ i
      → IsPartition (f (entry i tables))
      → ArePartitions (change_entry i f tables) n
  change-ArePartitions e is = record {
    are = change-AreTables tables n p.are i i_lt f;
    limit = p.limit;
    index = λ j j_lt. elim (ℕ_discrete i j) [
      | yes same ↦
          subst (λ k. (entry k (change_entry i f tables)).index ≡ k) same
            (ap (λ q. q.index) (entry-change_self tables n p.are i i_lt f) ∙ e)
      | no ne ↦ ap (λ q. q.index) (entry-change_ne tables n p.are i i_lt f j ne) ∙ p.index j j_lt
    ];
    each = change_at IsPartition is p.each;
  }

  -- A sum over the partitions changes by the term of this one.
  pub change_sum :
      (g : Partition → ℕ)
      → sum (λ j. g (entry j (change_entry i f tables))) 0 n + g (entry i tables)
        ≡ sum (λ j. g (entry j tables)) 0 n + g (f (entry i tables))
  change_sum g =
      ap (λ t. sum (λ j. g (entry j (change_entry i f tables))) 0 n + t) refl
      ∙ sum_change (λ j. g (entry j tables)) (λ j. g (entry j (change_entry i f tables))) i 0 n
          (omega arith) (omega arith) (λ j ne. ap g (entry-change_ne tables n p.are i i_lt f j ne))
      ∙ ap (λ t. sum (λ j. g (entry j tables)) 0 n + g t)
          (entry-change_self tables n p.are i i_lt f)

-- The partitions of a new table are free; the table stands at the start of the first one.
new-IsPartition : (n k : ℕ) → IsPartition (new_partition n partition_table_size k)
unfolding new_partition static_space_at
new-IsPartition n k = record {
  room = ground arith;
  no_objects = λ _. refl;
  no_large = λ _. refl;
  no_bitmaps = λ _. refl;
  not_evacuated = λ _. refl;
}

new_index : (n k : ℕ) → k < 128 → (new_partition n partition_table_size k).index ≡ n + k
unfolding new_partition
new_index n k h = refl

added_size :
    (n : ℕ)
    → sum (λ j. occuped_size (new_partition n partition_table_size j)) 0 128 ≡ partition_table_size
unfolding new_partition static_space_at sum
added_size n =
    ap (λ t. partition_table_size + t)
      (sum_const (λ j. occuped_size (new_partition n partition_table_size j)) 0 1 127
        (λ i l m. ground arith))

module _ (tables : List PartitionTable) (n : ℕ) (p : ArePartitions tables n) (lt : n < 2 ^ 37) where
  abbrev pub with_table : List PartitionTable
  with_table = tables ++ new_partition_table n partition_table_size ∷ []

  added_at :
      (P : ℕ → Partition → Type 0)
      → ((j : ℕ) → j < n → P j (entry j tables))
      → ((k : ℕ) → k < 128 → P (n + k) (new_partition n partition_table_size k))
      → (j : ℕ) → j < n + 128
      → P j (entry j with_table)
  added_at P before added j j_lt = elim (dec_lt j n) [
    | yes l ↦
        subst (P j) (sym (entry-append_left tables n p.are partition_table_size j l)) (before j l)
    | no ge ↦
        let e : n + (j - n) ≡ j = omega arith in
        subst (λ k. P k (entry k with_table)) e
          (subst (P (n + (j - n)))
            (sym (entry-append_right tables n p.are partition_table_size (j - n) (omega arith)))
            (added (j - n) (omega arith)))
  ]

  pub append-ArePartitions : ArePartitions with_table (n + 128)
  append-ArePartitions = record {
    are = append-AreTables tables n p.are partition_table_size;
    limit = omega (arith, lt);
    index = added_at (λ j q. q.index ≡ j) p.index (new_index n);
    each = added_at (λ j q. IsPartition q) p.each (λ k _. new-IsPartition n k);
  }

  append_sum :
      (g : Partition → ℕ)
      → sum (λ j. g (entry j with_table)) 0 (n + 128)
        ≡ sum (λ j. g (entry j tables)) 0 n
          + sum (λ j. g (new_partition n partition_table_size j)) 0 128
  append_sum g =
      sum_append (λ j. g (entry j with_table)) 0 n 128
      ∙ ap₂ ◌+◌
          (sum_agree (λ j. g (entry j with_table)) (λ j. g (entry j tables)) 0 n
            (λ j _ l. ap g (entry-append_left tables n p.are partition_table_size j (omega arith))))
          (ap (λ k. sum (λ j. g (entry j with_table)) k 128)
              (let e : 0 + n ≡ n + 0 = omega arith in e)
            ∙ sum_shift (λ j. g (entry j with_table))
                (λ j. g (new_partition n partition_table_size j)) n 0 128
                (λ j l.
                  ap g (entry-append_right tables n p.are partition_table_size j (omega arith))))

  pub append_free : free_sum with_table (n + 128) ≡ free_sum tables n + 128
  unfolding new_partition
  append_free =
      append_sum (λ q. bit q.free)
      ∙ ap (λ t. free_sum tables n + t) (sum_const (λ _. 1) 1 0 128 (λ i _ _. refl))

  pub append_occupied :
      occupied_sum with_table (n + 128) ≡ occupied_sum tables n + partition_table_size
  append_occupied = append_sum occuped_size ∙ ap (λ t. occupied_sum tables n + t) (added_size n)
