-- ===== src/PartitionedHeap/Runs.antt =====
-- A heap with its base at 4 MiB, on a platform that gives all memory up to 2 ^ 63 bytes: a small object,
-- one of a whole partition, and one of three partitions; then a collection that evacuates the first.
use motoko.Prelude.{
  if◌then◌else◌, ◌||◌, ◌==◌, not, ℕ, zero, suc, ◌+◌, ◌*◌, ◌/◌, ◌%◌, ◌^◌, ◌≤◌, ◌<◌, ◌≡◌, refl, subst,
  sym, ℕ_discrete, Bool, true, false, leb, leb→le, le→leb, Bool-cases, inl, inr, arith,
}
use motoko.Prelude.Result.{Result, ok, trap}
use motoko.Prelude.Sums.{sum}
use motoko.MarkBitmap.{partition_size}
use motoko.Sort.{sort}
use motoko.PartitionedHeap.{
  Partition, free_size, is_completely_free, is_evacuation_candidate, garbage_amount,
}
use motoko.PartitionedHeap.Memory.{Platform}
use motoko.PartitionedHeap.Tables.{
  PartitionedHeap, entry, change_entry, get_partition, new_heap, partition_count, grow_memory,
}
use motoko.PartitionedHeap.Allocate.{allocate, scan_for_large_space, scan_for_free_partition}
use motoko.PartitionedHeap.Collect.{plan_evacuations, complete_collection}
use motoko.PartitionedHeap.Invariant.{IsHeap}
use motoko.PartitionedHeap.Granted.{Limited}
use motoko.PartitionedHeap.Placed.{Allocated}
use motoko.PartitionedHeap.Start.{new_heap-IsHeap, new_heap_idle}
use motoko.PartitionedHeap.Allocation.{allocate-Allocated}
use motoko.PartitionedHeap.Progress.{IsGenerous}
use motoko.PartitionedHeap.Live.{allocate-Returns}
use motoko.PartitionedHeap.Completion.{completed, garbage}
use motoko.PartitionedHeap.Cycle.{complete_collection-IsHeap}
use motoko.PartitionedHeap.Plan.{evacuation_sum, Evacuable, plan_evacuations_bound}

abbrev platform : Platform
platform = record {
  keep_memory_reserve = true;
  memory_reserve = 65536;
  grants = λ present more. leb (present + more) (2 ^ 47);
}

platform-Limited : Limited platform
platform-Limited present more e = leb→le (present + more) (2 ^ 47) e

-- A blob with a header at the start of the third partition.
abbrev memory : ℕ → ℕ
memory a =
    if a == 2 * partition_size
    then 25
    else if a == 2 * partition_size + 16
    then 0xe8
    else if a == 2 * partition_size + 17
    then 0xff
    else if a == 2 * partition_size + 18
    then 0xff
    else if a == 2 * partition_size + 19
    then 0x0b
    else 0

abbrev start : PartitionedHeap
start = new_heap (4 * 1024 * 1024) memory 100

abbrev value_of : Result (ℕ × PartitionedHeap) → ℕ × PartitionedHeap
value_of (ok r) = r
value_of (trap e) = (0, start)

abbrev heap_of : Result PartitionedHeap → PartitionedHeap
heap_of (ok h) = h
heap_of (trap e) = start

start-IsHeap : IsHeap start
start-IsHeap = new_heap-IsHeap (4 * 1024 * 1024) memory 100 (omega arith) (omega arith)

new_heap-IsHeap_example : IsHeap start
new_heap-IsHeap_example = new_heap-IsHeap (4 * 1024 * 1024) memory 100 (omega arith) (omega arith)

abbrev small : ℕ × PartitionedHeap
small = value_of (allocate platform 10 start)

small_ok : allocate platform 10 start ≡ ok small
unfolding allocate new_heap entry change_entry scan_for_large_space scan_for_free_partition
    partition_count free_size grow_memory is_completely_free
small_ok = refl

small-Allocated : Allocated start 80 small.0 small.1
small-Allocated = allocate-Allocated platform start platform-Limited start-IsHeap 10 small small_ok

abbrev pub whole : ℕ × PartitionedHeap
whole = value_of (allocate platform (2 ^ 23) small.1)

whole_ok : allocate platform (2 ^ 23) small.1 ≡ ok whole
unfolding allocate new_heap entry change_entry scan_for_large_space scan_for_free_partition
    partition_count free_size grow_memory is_completely_free
whole_ok = refl

pub whole-Allocated : Allocated small.1 partition_size whole.0 whole.1
whole-Allocated =
    allocate-Allocated platform small.1 platform-Limited small-Allocated.heap (2 ^ 23) whole
      whole_ok

abbrev pub large : ℕ × PartitionedHeap
large = value_of (allocate platform (3 * 2 ^ 23) whole.1)

large_ok : allocate platform (3 * 2 ^ 23) whole.1 ≡ ok large
unfolding allocate new_heap entry change_entry scan_for_large_space scan_for_free_partition
    partition_count free_size grow_memory is_completely_free
large_ok = refl

-- The three partitions after the one for allocation.
large_at : large.0 ≡ 2 * partition_size
unfolding allocate new_heap entry change_entry scan_for_large_space scan_for_free_partition
    partition_count free_size grow_memory is_completely_free
large_at = refl

pub large-Allocated : Allocated whole.1 (3 * partition_size) large.0 large.1
large-Allocated =
    allocate-Allocated platform whole.1 platform-Limited whole-Allocated.heap (3 * 2 ^ 23) large
      large_ok

allocate-Allocated_example : Allocated whole.1 (3 * partition_size) large.0 large.1
allocate-Allocated_example =
    allocate-Allocated platform whole.1 platform-Limited whole-Allocated.heap (3 * 2 ^ 23) large
      large_ok

-- The first partition has garbage only, and is chosen.
abbrev planned : PartitionedHeap
planned = heap_of (plan_evacuations platform large.1)

planned_ok : plan_evacuations platform large.1 ≡ ok planned
unfolding allocate new_heap entry change_entry scan_for_large_space scan_for_free_partition
    partition_count free_size grow_memory is_completely_free plan_evacuations
    is_evacuation_candidate garbage_amount
planned_ok = refl

whole_idle : (j : ℕ) → j < large.1.number_of_partitions → (get_partition j large.1).evacuate ≡ false
whole_idle j l = elim (Bool-cases (get_partition j large.1).evacuate) [
  | inr f ↦ f
  | inl t ↦
      let (l_whole, in_whole) = large-Allocated.evacuated j l t in
      let (l_small, in_small) = whole-Allocated.evacuated j l_whole in_whole in
      let (l_start, at_start) = small-Allocated.evacuated j l_small in_small in
      absurd (cc (at_start, new_heap_idle (4 * 1024 * 1024) memory 100 (omega arith) j l_start))
]

planned_bound :
    IsHeap planned
    × (evacuation_sum planned ≤ (large.1.free_partitions + 1) / 2 * partition_size)
    × ((j : ℕ)
        → j < planned.number_of_partitions
        → (get_partition j planned).evacuate ≡ true
        → Evacuable planned j)
planned_bound =
    plan_evacuations_bound platform large.1 planned platform-Limited (large-Allocated.heap)
      whole_idle planned_ok

plan_evacuations_bound_example :
    IsHeap planned
    × (evacuation_sum planned ≤ (large.1.free_partitions + 1) / 2 * partition_size)
    × ((j : ℕ)
        → j < planned.number_of_partitions
        → (get_partition j planned).evacuate ≡ true
        → Evacuable planned j)
plan_evacuations_bound_example =
    plan_evacuations_bound platform large.1 planned platform-Limited (large-Allocated.heap)
      whole_idle planned_ok

-- A test of all numbers below a bound.
unfoldable pub all_below : ℕ → (ℕ → Bool) → Bool
all_below bound passes = not (fails bound)
  where
    fails : ℕ → Bool
    fails zero = false
    fails (suc last) = fails last || not (passes last)

pub all_below_sound :
    (bound : ℕ) (passes : ℕ → Bool) (i : ℕ)
    → all_below bound passes ≡ true
    → i < bound
    → passes i ≡ true
unfolding all_below
all_below_sound (suc last) passes i every below = elim (ℕ_discrete i last) [
  | yes same ↦ subst (λ j. passes j ≡ true) (sym same) (ground (arith, every))
  | no other ↦ all_below_sound last passes i (ground (arith, every)) (ground (arith, other))
]
all_below_sound zero passes i every below = absurd (omega arith)

abbrev marked_within : Partition → Bool
marked_within q = leb q.marked_size q.dynamic_size

planned_marked :
    all_below planned.number_of_partitions (λ j. marked_within (get_partition j planned)) ≡ true
unfolding all_below allocate new_heap entry change_entry scan_for_large_space
    scan_for_free_partition partition_count free_size grow_memory is_completely_free
    plan_evacuations is_evacuation_candidate garbage_amount sort
planned_marked = refl

-- The first partition is evacuated.
planned_first : (get_partition 0 planned).evacuate ≡ true
unfolding allocate new_heap entry change_entry scan_for_large_space scan_for_free_partition
    partition_count free_size grow_memory is_completely_free plan_evacuations
    is_evacuation_candidate garbage_amount sort
planned_first = refl

planned_reclaimed : planned.reclaimed ≡ 0
unfolding allocate new_heap entry change_entry scan_for_large_space scan_for_free_partition
    partition_count free_size grow_memory is_completely_free plan_evacuations
    is_evacuation_candidate garbage_amount sort
planned_reclaimed = refl

planned_kept : (get_partition planned.allocation_index planned).evacuate ≡ false
planned_kept =
    let (is, _, chosen) = planned_bound in
    elim (Bool-cases (get_partition planned.allocation_index planned).evacuate) [
      | inr f ↦ f
      | inl t ↦ absurd ((chosen planned.allocation_index is.allocation_lt t).other refl)
    ]

complete_collection-IsHeap_example :
    IsHeap (complete_collection planned)
    × ((j : ℕ)
        → j < planned.number_of_partitions
        → get_partition j (complete_collection planned) ≡ completed (get_partition j planned))
    × ((complete_collection planned).reclaimed
        ≡ (planned.reclaimed
            + sum (λ j. garbage (get_partition j planned)) 0 planned.number_of_partitions)
          % 2 ^ 64)
    × ((complete_collection planned).bitmap_allocation_pointer ≡ 0)
complete_collection-IsHeap_example =
    complete_collection-IsHeap planned (planned_bound.0)
      (λ j l _.
        leb→le (get_partition j planned).marked_size (get_partition j planned).dynamic_size (
          all_below_sound planned.number_of_partitions
            (λ j. marked_within (get_partition j planned)) j planned_marked l))
      planned_kept (omega (arith, planned_reclaimed))

pub large_number : large.1.number_of_partitions ≡ 128
unfolding allocate new_heap entry change_entry scan_for_large_space scan_for_free_partition
    partition_count free_size grow_memory is_completely_free
large_number = refl

platform-IsGenerous : IsGenerous platform
platform-IsGenerous = record {
  limited = platform-Limited;
  gives = λ present more le. le→leb (present + more) (2 ^ 47) le;
  reserve = omega arith;
}

-- An object of five partitions and one word.
allocate-Returns_example :
    (r : ℕ × PartitionedHeap) × (allocate platform (5 * 2 ^ 23 + 1) large.1 ≡ ok r)
    × Allocated large.1 (5 * partition_size + 8) r.0 r.1
allocate-Returns_example =
    allocate-Returns platform platform-IsGenerous large.1 large-Allocated.heap
      (omega (arith, large_number)) (5 * 2 ^ 23 + 1) (omega arith)
