-- ===== src/PartitionedHeap/Completion.antt =====
-- The end of a collection: every partition is visited once, and the heap keeps its invariant.
use motoko.Prelude.{
  if_true_eq, if_false_eq, ℕ, ◌+◌, ◌-◌, ◌%◌, ◌^◌, ◌≤◌, ◌<◌, ◌≡◌, ◌≢◌, inl, inr, refl, sym, ap, ◌∙◌,
  subst, true, false, ◌||◌, if◌then◌else◌, Bool-cases, arith,
}
use motoko.PartitionedHeap.{Partition, minus, freed}
use motoko.PartitionedHeap.Tables.{PartitionedHeap, get_partition, change_partition}
use motoko.PartitionedHeap.Tables.Entries.{entry-change_self, entry-change_ne, change_field}
use motoko.PartitionedHeap.Collect.{reset_marks, complete_partition}
use motoko.PartitionedHeap.Invariant.{bit, IsPartition, IsHeap}
use motoko.PartitionedHeap.Grown.{minus-eq}
use motoko.PartitionedHeap.Changed.{change-IsHeap, minus_exact}

-- What becomes of a partition that is evacuated or holds bitmaps, and of another: where it lies and its
-- static objects stay.
abbrev pub free_again : Partition → Partition
free_again q = record {
  index = q.index;
  free = true;
  large_content = false;
  marked_size = 0;
  static_size = q.static_size;
  dynamic_size = 0;
  bitmap = 0;
  temporary = false;
  evacuate = false;
  update = false;
}

abbrev pub without_marks : Partition → Partition
without_marks q = record {
  index = q.index;
  free = q.free;
  large_content = q.large_content;
  marked_size = 0;
  static_size = q.static_size;
  dynamic_size = q.dynamic_size;
  bitmap = 0;
  temporary = q.temporary;
  evacuate = q.evacuate;
  update = false;
}

abbrev pub completed : Partition → Partition
completed q = if q.evacuate || q.temporary then free_again q else without_marks q

-- The garbage of an evacuated partition.
abbrev pub garbage : Partition → ℕ
garbage q = if q.evacuate then q.dynamic_size - q.marked_size else 0

-- Not more is marked than there is, where it counts.
abbrev pub MarkedWithin : Partition → Type 0
MarkedWithin q = q.evacuate ≡ true → q.marked_size ≤ q.dynamic_size

completed-IsPartition : (q : Partition) → IsPartition q → IsPartition (completed q)
completed-IsPartition q is = elim (Bool-cases (q.evacuate || q.temporary)) [
  | inl ends ↦ rw ends (record {
    room = omega (arith, is.room);
    no_objects = λ _. refl;
    no_large = λ _. refl;
    no_bitmaps = λ _. refl;
    not_evacuated = λ _. refl;
  })
  | inr stays ↦ rw stays (record {
    room = is.room;
    no_objects = is.no_objects;
    no_large = is.no_large;
    no_bitmaps = is.no_bitmaps;
    not_evacuated = is.not_evacuated;
  })
]

-- One partition.
pub record Step (h : PartitionedHeap) (i : ℕ) (k : PartitionedHeap) : Type 0 where
  pub heap : IsHeap k
  pub number : k.number_of_partitions ≡ h.number_of_partitions
  pub allocation : k.allocation_index ≡ h.allocation_index
  pub here : get_partition i k ≡ completed (get_partition i h)
  pub others : (j : ℕ) → i ≢ j → get_partition j k ≡ get_partition j h
  pub reclaimed : k.reclaimed ≡ (h.reclaimed + garbage (get_partition i h)) % 2 ^ 64

module _ (h : PartitionedHeap) (i : ℕ) (is : IsHeap h) (lt : i < h.number_of_partitions)
    (marked : MarkedWithin (get_partition i h)) where
  abbrev q : Partition
  q = get_partition i h

  abbrev amount : ℕ
  amount =
      if q.evacuate
      then (h.reclaimed + minus q.dynamic_size q.marked_size) % 2 ^ 64
      else h.reclaimed

  -- The marks are gone.
  abbrev reset : PartitionedHeap
  reset = record (change_partition i reset_marks h) { reclaimed = amount }

  amount-eq : h.reclaimed < 2 ^ 64 → amount ≡ (h.reclaimed + garbage q) % 2 ^ 64
  amount-eq bound = elim (Bool-cases q.evacuate) [
    | inr stays ↦ rw stays (omega arith)
    | inl ends ↦ rw ends (
        ap (λ (t : ℕ). (h.reclaimed + t) % 2 ^ 64)
          (minus-eq q.dynamic_size q.marked_size (marked ends)
            (omega (arith, (is.partitions.each i lt).room))))
  ]

  reset_field {ℓ} :
      {B : Type ℓ} (g : Partition → B)
      → g (reset_marks q) ≡ g q
      → (j : ℕ) → g (get_partition j reset) ≡ g (get_partition j h)
  reset_field g same j =
      change_field h.tables h.number_of_partitions is.partitions.are i lt reset_marks g same j

  reset-IsHeap : IsHeap reset
  reset-IsHeap =
      let p = is.partitions.each i lt in
      change-IsHeap h reset i reset_marks is lt refl refl refl refl refl
        (record {
          room = p.room;
          no_objects = p.no_objects;
          no_large = p.no_large;
          no_bitmaps = p.no_bitmaps;
          not_evacuated = p.not_evacuated;
        })
        (reset_field (λ r. r.free) refl h.allocation_index ∙ is.allocation_taken)
        (reset_field (λ r. r.temporary) refl h.allocation_index ∙ is.allocation_objects) refl
        (omega (arith, reset_field (λ r. r.dynamic_size) refl h.allocation_index))

  reset_here : get_partition i reset ≡ reset_marks q
  reset_here = entry-change_self h.tables h.number_of_partitions is.partitions.are i lt reset_marks

  -- And the partition is free again.
  abbrev ended : PartitionedHeap
  ended = record (change_partition i freed reset) {
    precomputed_heap_size = minus h.precomputed_heap_size q.dynamic_size;
    free_partitions = h.free_partitions + 1;
  }

  module _ (ends : q.evacuate || q.temporary ≡ true) (other : i ≢ h.allocation_index) where
    was_taken : q.free ≡ false
    was_taken = elim (Bool-cases q.free) [
      | inr taken ↦ taken
      | inl free ↦
          let p = is.partitions.each i lt in
          absurd (ground (arith, p.no_bitmaps free, p.not_evacuated free))
    ]

    allocation_same :
        get_partition h.allocation_index ended ≡ get_partition h.allocation_index reset
    allocation_same =
        entry-change_ne reset.tables h.number_of_partitions reset-IsHeap.partitions.are i lt freed
          h.allocation_index other

    exact : minus h.precomputed_heap_size q.dynamic_size + q.dynamic_size ≡ h.precomputed_heap_size
    exact = minus_exact h i is lt other

    ended-IsHeap : IsHeap ended
    ended-IsHeap =
        let r = reset-IsHeap in
        let p = r.partitions.each i lt in
        change-IsHeap reset ended i freed r lt refl refl refl refl refl
          (record {
            room = omega (arith, p.room);
            no_objects = λ _. refl;
            no_large = λ _. refl;
            no_bitmaps = λ _. refl;
            not_evacuated = λ _. refl;
          })
          (ap (λ x. x.free) allocation_same ∙ r.allocation_taken)
          (ap (λ x. x.temporary) allocation_same ∙ r.allocation_objects)
          (omega (arith, ap (λ x. bit x.free) reset_here, ap bit was_taken))
          (omega (
            arith,
            exact,
            ap (λ x. x.dynamic_size) reset_here,
            ap (λ x. x.static_size) reset_here,
            ap (λ x. x.dynamic_size) allocation_same,
          ))

  module _ (kept : (get_partition h.allocation_index h).evacuate ≡ false)
      (bound : h.reclaimed < 2 ^ 64) where
    other : q.evacuate || q.temporary ≡ true → i ≢ h.allocation_index
    other ends e =
        let ev : q.evacuate ≡ false = ap (λ m. (get_partition m h).evacuate) e ∙ kept in
        let tp : q.temporary ≡ false =
          ap (λ m. (get_partition m h).temporary) e ∙ is.allocation_objects in
        ground (arith, ev, tp)

    pub complete_partition-Step : Step h i (complete_partition i h)
    unfolding complete_partition
    complete_partition-Step = elim (Bool-cases (q.evacuate || q.temporary)) [
      | inl ends ↦
          subst (Step h i)
            (let e : ended ≡ complete_partition i h = sym (if_true_eq _ ended reset ends) in e)
            (record {
              heap = ended-IsHeap ends (other ends);
              number = refl;
              allocation = refl;
              here =
                  entry-change_self reset.tables h.number_of_partitions reset-IsHeap.partitions.are
                    i lt freed
                  ∙ ap freed reset_here
                  ∙ sym (if_true_eq _ (free_again q) (without_marks q) ends);
              others = λ j ne.
                  entry-change_ne reset.tables h.number_of_partitions reset-IsHeap.partitions.are i
                    lt freed j ne
                  ∙ entry-change_ne h.tables h.number_of_partitions is.partitions.are i lt
                      reset_marks j ne;
              reclaimed = amount-eq bound;
            })
      | inr stays ↦
          subst (Step h i)
            (let e : reset ≡ complete_partition i h = sym (if_false_eq _ ended reset stays) in e)
            (record {
              heap = reset-IsHeap;
              number = refl;
              allocation = refl;
              here = reset_here ∙ sym (if_false_eq _ (free_again q) (without_marks q) stays);
              others = λ j ne.
                  entry-change_ne h.tables h.number_of_partitions is.partitions.are i lt reset_marks
                    j ne;
              reclaimed = amount-eq bound;
            })
    ]
