-- ===== src/PartitionedHeap/Start.antt =====
-- A new heap.
use motoko.Prelude.{
  ℕ, zero, suc, ◌+◌, ◌-◌, ◌*◌, ◌/◌, ◌%◌, ◌≤◌, ◌<◌, ◌≡◌, refl, sym, ap, ◌∙◌, subst, [], ◌∷◌, false,
  length, get_or, ltb, if◌then◌else◌, arith,
}
use motoko.Prelude.Sums.{sum, sum_agree, sum_const, sum_append, sum_snoc}
use motoko.StableMem.{Bytes}
use motoko.MarkBitmap.{partition_size}
use motoko.PartitionedHeap.{Partition, occuped_size}
use motoko.PartitionedHeap.Tables.{
  PartitionTable, PartitionedHeap, uninitialized_partition, static_space_at, new_partition,
  new_partition_table, take_partitions, get_partition, new_heap,
}
use motoko.PartitionedHeap.Tables.Entries.{entry-get_or, length-from_fn, get_or-from_fn}
use motoko.PartitionedHeap.Invariant.{bit, IsPartition, IsHeap, most_pages}
use motoko.PartitionedHeap.Grown.{minus-eq}

length-take_partitions : (n : ℕ) (t : PartitionTable) → length (take_partitions n t) ≡ length t
unfolding take_partitions
length-take_partitions zero t = refl
length-take_partitions (suc n) [] = refl
length-take_partitions (suc n) (q ∷ t) = ap suc (length-take_partitions n t)

get_or-take_partitions :
    (n : ℕ) (t : PartitionTable) (k : ℕ) (d : Partition)
    → k < length t
    → get_or (take_partitions n t) k d
      ≡ (if ltb k n then record (get_or t k d) { free = false } else get_or t k d)
unfolding take_partitions
get_or-take_partitions zero t k d h = ground arith
get_or-take_partitions (suc n) [] k d h = absurd (omega arith)
get_or-take_partitions (suc n) (q ∷ t) zero d h = ground arith
get_or-take_partitions (suc n) (q ∷ t) (suc k) d h =
    get_or-take_partitions n t k d (omega arith)
    ∙ ap (λ b. if b then record (get_or t k d) { free = false } else get_or t k d)
        (let e : ltb k n ≡ ltb (suc k) (suc n) = ground arith in e)

module _ (heap_base : ℕ) (memory : Bytes) (pages : ℕ)
    (fits : heap_base < 127 * partition_size) where
  abbrev heap : PartitionedHeap
  heap = new_heap heap_base memory pages

  abbrev at : ℕ
  at = heap_base / partition_size

  abbrev initial : ℕ → Partition
  initial i =
      if ltb i (at + 1)
      then record (new_partition 0 heap_base i) { free = false }
      else new_partition 0 heap_base i

  entry_at : (i : ℕ) → i < 128 → get_partition i heap ≡ initial i
  unfolding new_heap new_partition_table
  entry_at i h =
      let q : i / 128 ≡ 0 = omega arith in
      let r : i % 128 ≡ i = omega arith in
      let table = new_partition_table 0 heap_base in
      entry-get_or i heap.tables
      ∙ ap (λ k. get_or (get_or heap.tables k []) (i % 128) uninitialized_partition) q
      ∙ ap (λ k. get_or (take_partitions (at + 1) table) k uninitialized_partition) r
      ∙ get_or-take_partitions (at + 1) table i uninitialized_partition
          (omega (arith, length-from_fn (new_partition 0 heap_base) 0 128))
      ∙ ap (λ p. if ltb i (at + 1) then record p { free = false } else p)
          (get_or-from_fn (new_partition 0 heap_base) 0 128 i uninitialized_partition h
            ∙ ap (new_partition 0 heap_base) (omega arith))

  initial-IsPartition : (i : ℕ) → IsPartition (initial i)
  unfolding new_partition static_space_at
  initial-IsPartition i = record {
    room = ground arith;
    no_objects = λ _. ground arith;
    no_large = λ _. ground arith;
    no_bitmaps = λ _. ground arith;
    not_evacuated = λ _. ground arith;
  }

  sum-initial :
      (g : Partition → ℕ)
      → sum (λ i. g (get_partition i heap)) 0 128 ≡ sum (λ i. g (initial i)) 0 128
  sum-initial g =
      sum_agree (λ i. g (get_partition i heap)) (λ i. g (initial i)) 0 128
        (λ i l u. ap g (entry_at i (omega arith)))

  -- Up to the heap's base the partitions are taken, and the others are free.
  initial_free : sum (λ i. bit (initial i).free) 0 128 ≡ 127 - at
  unfolding new_partition
  initial_free =
      let f : ℕ → ℕ = λ i. bit (initial i).free in
      ap (sum f 0) (let e : 128 ≡ at + 1 + (127 - at) = omega arith in e)
      ∙ sum_append f 0 (at + 1) (127 - at)
      ∙ omega (
        arith,
        sum_const f 0 0 (at + 1) (λ i l u. ground arith),
        sum_const f 1 (0 + (at + 1)) (127 - at) (λ i l u. ground arith),
      )

  initial_occupied : sum (λ i. occuped_size (initial i)) 0 128 ≡ heap_base
  unfolding new_partition static_space_at
  initial_occupied =
      let f : ℕ → ℕ = λ i. occuped_size (initial i) in
      ap (sum f 0) (let e : 128 ≡ at + 1 + (127 - at) = omega arith in e)
      ∙ sum_append f 0 (at + 1) (127 - at)
      ∙ omega (
        arith,
        ap (sum f 0) (let e : at + 1 ≡ suc at = omega arith in e),
        sum_snoc f 0 at,
        sum_const f partition_size 0 at (λ i l u. ground arith),
        (let e : f (0 + at) ≡ heap_base % partition_size = ground arith in e),
        sum_const f 0 (0 + (at + 1)) (127 - at) (λ i l u. ground arith),
      )

  -- A new heap satisfies its invariant, where its base lies in the first 127 partitions and the memory
  -- has at most 2 ^ 63 bytes.
  pub new_heap-IsHeap : pages ≤ most_pages → IsHeap (new_heap heap_base memory pages)
  unfolding new_heap new_partition
  new_heap-IsHeap most =
      let at_entry = entry_at at (omega arith) in
      record {
        pages = most;
        partitions = record {
          are = record { count = refl; full = λ t h. only t h };
          limit = omega arith;
          index = λ i l. ap (λ q. q.index) (entry_at i l) ∙ ground arith;
          each = λ i l. subst IsPartition (sym (entry_at i l)) (initial-IsPartition i);
        };
        free_count = omega (
          arith,
          sum-initial (λ q. bit q.free),
          initial_free,
          minus-eq 128 at (omega arith) (omega arith),
          minus-eq (128 - at) 1 (omega arith) (omega arith),
        );
        allocation_lt = omega arith;
        allocation_taken = ap (λ q. q.free) at_entry ∙ ground arith;
        allocation_objects = ap (λ q. q.temporary) at_entry ∙ ground arith;
        size = omega (
          arith,
          sum-initial occuped_size,
          initial_occupied,
          (let e : (initial at).dynamic_size ≡ 0 = ground arith in e),
          ap (λ q. q.dynamic_size) at_entry,
        );
      }
    where
      only : (t : ℕ) → t < 1 → length (get_or heap.tables t []) ≡ 128
      only zero h =
          length-take_partitions (at + 1) (new_partition_table 0 heap_base)
          ∙ length-from_fn (new_partition 0 heap_base) 0 128
      only (suc t) h = absurd (omega arith)

  -- Nothing is evacuated in a new heap.
  pub new_heap_idle :
      (j : ℕ) → j < heap.number_of_partitions → (get_partition j heap).evacuate ≡ false
  unfolding new_heap new_partition
  new_heap_idle j l = ap (λ q. q.evacuate) (entry_at j l) ∙ ground arith
