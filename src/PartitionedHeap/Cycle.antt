-- ===== src/PartitionedHeap/Cycle.antt =====
-- The whole loop at the end of a collection.
use motoko.Prelude.{
  ℕ, zero, suc, ◌+◌, ◌%◌, ◌^◌, ◌≤◌, ◌<◌, ◌≡◌, inl, inr, refl, sym, ap, ◌∙◌, subst, false,
  Bool-cases, ℕ_discrete, arith,
}
use motoko.Prelude.Sums.{sum, sum_agree}
use motoko.PartitionedHeap.{Partition}
use motoko.PartitionedHeap.Tables.{PartitionedHeap, get_partition, partition_count}
use motoko.PartitionedHeap.Collect.{complete_partition, complete_loop, complete_collection}
use motoko.PartitionedHeap.Invariant.{IsHeap, partition_count-eq}
use motoko.PartitionedHeap.Completion.{completed, garbage, MarkedWithin, complete_partition-Step}

record Cycle (h : PartitionedHeap) (b n : ℕ) (k : PartitionedHeap) : Type 0 where
  heap : IsHeap k
  number : k.number_of_partitions ≡ h.number_of_partitions
  ended : (j : ℕ) → b ≤ j → j < b + n → get_partition j k ≡ completed (get_partition j h)
  before : (j : ℕ) → j < b → get_partition j k ≡ get_partition j h
  reclaimed : k.reclaimed ≡ (h.reclaimed + sum (λ j. garbage (get_partition j h)) b n) % 2 ^ 64

completed_kept : (q : Partition) → q.evacuate ≡ false → (completed q).evacuate ≡ false
completed_kept q e = elim (Bool-cases q.temporary) [
  | inl t ↦ rw (e, t) refl
  | inr t ↦ rw (e, t) refl
]

complete_loop-Cycle :
    (n b : ℕ) (h : PartitionedHeap)
    → IsHeap h
    → b + n ≤ h.number_of_partitions
    → ((j : ℕ) → b ≤ j → j < b + n → MarkedWithin (get_partition j h))
    → (get_partition h.allocation_index h).evacuate ≡ false
    → h.reclaimed < 2 ^ 64
    → Cycle h b n (complete_loop n b h)
unfolding complete_loop sum
complete_loop-Cycle zero b h is within marked kept bound = record {
  heap = is;
  number = refl;
  ended = λ j l u. absurd (omega arith);
  before = λ j l. refl;
  reclaimed = omega arith;
}
complete_loop-Cycle (suc n) b h is within marked kept bound =
    let k = complete_partition b h in
    let step =
      complete_partition-Step h b is (omega arith) (marked b (omega arith) (omega arith)) kept
        bound in
    let still_kept : (get_partition h.allocation_index k).evacuate ≡ false =
      elim (ℕ_discrete b h.allocation_index) [
        | no ne ↦ ap (λ q. q.evacuate) (step.others h.allocation_index ne) ∙ kept
        | yes e ↦
            ap (λ m. (get_partition m k).evacuate) (sym e)
            ∙ ap (λ q. q.evacuate) step.here
            ∙ completed_kept (get_partition b h) (ap (λ m. (get_partition m h).evacuate) e ∙ kept)
      ] in
    let later =
      complete_loop-Cycle n (b + 1) k step.heap (omega (arith, step.number))
        (λ j l u.
          subst MarkedWithin (sym (step.others j (λ e. absurd (omega arith))))
            (marked j (omega arith) (omega arith)))
        (ap (λ m. (get_partition m k).evacuate) step.allocation ∙ still_kept)
        (omega (arith, step.reclaimed)) in
    record {
      heap = later.heap;
      number = later.number ∙ step.number;
      ended = λ j l u. elim (ℕ_discrete b j) [
        | yes e ↦
            subst (λ m. get_partition m (complete_loop n (b + 1) k) ≡ completed (get_partition m h))
              e (later.before b (omega arith) ∙ step.here)
        | no ne ↦ later.ended j (ground (arith, ne)) (omega arith) ∙ ap completed (step.others j ne)
      ];
      before = λ j l. later.before j (omega arith) ∙ step.others j (λ e. absurd (omega arith));
      reclaimed =
          let same =
            sum_agree (λ j. garbage (get_partition j k)) (λ j. garbage (get_partition j h)) (b + 1)
              n (λ j l u. ap garbage (step.others j (λ e. absurd (omega arith)))) in
          omega (arith, later.reclaimed, step.reclaimed, same);
    }

-- The end of a collection keeps the invariant of the heap, where the partition for allocation is not
-- evacuated and no evacuated partition has more marked space than dynamic space: every partition is
-- free again if it was evacuated or held bitmaps, and only loses its marks otherwise; what is reclaimed
-- is the unmarked space of the evacuated partitions; and no bitmap space is left.
pub complete_collection-IsHeap :
    (h : PartitionedHeap)
    → IsHeap h
    → ((j : ℕ) → j < h.number_of_partitions → MarkedWithin (get_partition j h))
    → (get_partition h.allocation_index h).evacuate ≡ false
    → h.reclaimed < 2 ^ 64
    → IsHeap (complete_collection h)
      × ((j : ℕ)
          → j < h.number_of_partitions
          → get_partition j (complete_collection h) ≡ completed (get_partition j h))
      × ((complete_collection h).reclaimed
          ≡ (h.reclaimed + sum (λ j. garbage (get_partition j h)) 0 h.number_of_partitions)
            % 2 ^ 64)
      × ((complete_collection h).bitmap_allocation_pointer ≡ 0)
unfolding complete_collection
complete_collection-IsHeap h is marked kept bound =
    let all = partition_count-eq h is.partitions in
    let cycle =
      complete_loop-Cycle (partition_count h) 0 h is (omega (arith, all))
        (λ j l u. marked j (omega (arith, all))) kept bound in
    let k = cycle.heap in
    (
      record {
        pages = k.pages;
        partitions = k.partitions;
        free_count = k.free_count;
        allocation_lt = k.allocation_lt;
        allocation_taken = k.allocation_taken;
        allocation_objects = k.allocation_objects;
        size = k.size;
      },
      λ j l. cycle.ended j (omega arith) (omega (arith, all)),
      cycle.reclaimed
          ∙ ap (λ m. (h.reclaimed + sum (λ j. garbage (get_partition j h)) 0 m) % 2 ^ 64) all,
      refl,
    )
