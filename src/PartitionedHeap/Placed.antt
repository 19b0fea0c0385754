-- ===== src/PartitionedHeap/Placed.antt =====
-- An object at the end of a partition's dynamic space: no address that was in use, and the invariant.
use motoko.Prelude.{
  ℕ, ◌+◌, ◌*◌, ◌/◌, ◌≤◌, ◌<◌, ◌≡◌, ◌⊎◌, inl, inr, refl, sym, ap, ◌∙◌, subst, true, false,
  Bool-cases, ℕ_discrete, arith,
}
use motoko.StableMem.{page_size}
use motoko.MarkBitmap.{partition_size}
use motoko.PartitionedHeap.{Partition, start_address, end_address, dynamic_space_end, occuped_size}
use motoko.PartitionedHeap.Tables.{PartitionedHeap, get_partition, change_partition}
use motoko.PartitionedHeap.Tables.Entries.{entry-change_self, entry-change_ne, change_field}
use motoko.PartitionedHeap.Allocate.{fill}
use motoko.PartitionedHeap.Invariant.{
  bit, IsPartition, IsHeap, occupied_sum, change-ArePartitions, change_sum,
}
use motoko.PartitionedHeap.Grown.{IsCounted, Grown}

-- An address of a partition's static or dynamic space, or of a partition with bitmaps.
abbrev pub Used : Partition → ℕ → Type 0
Used q a =
    (start_address q ≤ a)
    × ((a < dynamic_space_end q) ⊎ ((q.temporary ≡ true) × (a < end_address q)))

abbrev pub InUse : PartitionedHeap → ℕ → Type 0
InUse h a = (j : ℕ) × (j < h.number_of_partitions) × Used (get_partition j h) a

-- The `size` bytes at `address` were not in use and are now, in memory that has been granted, and
-- all that was in use still is. No more partitions are evacuated.
pub record Allocated (h : PartitionedHeap) (size address : ℕ) (k : PartitionedHeap) : Type 0 where
  pub heap : IsHeap k
  pub unused : (a : ℕ) → address ≤ a → a < address + size → ¬ InUse h a
  pub used : (a : ℕ) → address ≤ a → a < address + size → InUse k a
  pub keeps : (a : ℕ) → InUse h a → InUse k a
  pub evacuated :
      (j : ℕ)
      → j < k.number_of_partitions
      → (get_partition j k).evacuate ≡ true
      → (j < h.number_of_partitions) × ((get_partition j h).evacuate ≡ true)
  pub granted : address + size ≤ k.pages * page_size

pub IsHeap-IsCounted : (h : PartitionedHeap) → IsHeap h → IsCounted h
IsHeap-IsCounted h is = record {
  pages = is.pages;
  partitions = is.partitions;
  free_count = is.free_count;
}

Used-same :
    (q r : Partition) (a : ℕ)
    → r.index ≡ q.index
    → r.static_size ≡ q.static_size
    → r.dynamic_size ≡ q.dynamic_size
    → r.temporary ≡ q.temporary
    → Used q a
    → Used r a
Used-same q r a i s d t (at_least, inl l) = (omega (arith, i), inl (omega (arith, i, s, d)))
Used-same q r a i s d t (at_least, inr (b, l)) = (omega (arith, i), inr (t ∙ b, omega (arith, i)))

-- While the heap grows, nothing goes out of use.
pub InUse-Grown : (h k : PartitionedHeap) (a : ℕ) → IsCounted h → Grown h k → InUse h a → InUse k a
InUse-Grown h k a c grown (j, lt, used) =
    let lt' : j < k.number_of_partitions = omega (arith, grown.number_le) in
    let i = grown.counted.partitions.index j lt' ∙ sym (c.partitions.index j lt) in
    (
      j,
      lt',
      elim (Bool-cases (get_partition j h).free) [
        | inr taken ↦
            let same = grown.taken j lt taken in
            Used-same (get_partition j h) (get_partition j k) a i (grown.static j lt)
              same.dynamic_size same.temporary used
        | inl f ↦ free_used j lt i f used
      ],
    )
  where
    free_used :
        (j : ℕ) (lt : j < h.number_of_partitions)
        → (get_partition j k).index ≡ (get_partition j h).index
        → (get_partition j h).free ≡ true
        → Used (get_partition j h) a
        → Used (get_partition j k) a
    free_used j lt i f (at_least, inl l) = (
      omega (arith, i),
      inl (omega (arith, i, grown.static j lt, (c.partitions.each j lt).no_objects f)),
    )
    free_used j lt i f (at_least, inr (b, l)) =
        absurd (cc (b, (c.partitions.each j lt).no_bitmaps f))

-- An address in use lies in its partition.
pub Used-within :
    (h : PartitionedHeap) (a j : ℕ)
    → IsCounted h
    → j < h.number_of_partitions
    → Used (get_partition j h) a
    → j ≡ a / partition_size
Used-within h a j c lt (at_least, inl l) =
    omega (arith, c.partitions.index j lt, (c.partitions.each j lt).room)
Used-within h a j c lt (at_least, inr (b, l)) = omega (arith, c.partitions.index j lt)

not-Used : (q : Partition) (a : ℕ) → dynamic_space_end q ≤ a → q.temporary ≡ false → ¬ Used q a
not-Used q a le t (at_least, inl l) = absurd (omega arith)
not-Used q a le t (at_least, inr (b, l)) = absurd (cc (t, b))

abbrev pub filled : PartitionedHeap → ℕ → ℕ → PartitionedHeap
filled k size i = record (change_partition i (fill size) k) {
  allocation_index = (get_partition i k).index;
}

module _ (h k : PartitionedHeap) (size i : ℕ) (c : IsCounted h) (grown : Grown h k)
    (lt : i < k.number_of_partitions)
    (idle : (l : i < h.number_of_partitions)
      → ((get_partition i h).temporary ≡ false)
        × ((get_partition i h).dynamic_size ≡ (get_partition i k).dynamic_size))
    (taken : (get_partition i k).free ≡ false) (objects : (get_partition i k).temporary ≡ false)
    (room : (get_partition i k).static_size + (get_partition i k).dynamic_size + size
      ≤ partition_size)
    (counts : k.precomputed_heap_size + (get_partition i k).dynamic_size
      ≡ occupied_sum k.tables k.number_of_partitions)
    (granted : dynamic_space_end (get_partition i k) + size ≤ k.pages * page_size) where
  abbrev kc : IsCounted k
  kc = grown.counted

  abbrev now : PartitionedHeap
  now = filled k size i

  filled_entry : get_partition i now ≡ fill size (get_partition i k)
  filled_entry =
      entry-change_self k.tables k.number_of_partitions kc.partitions.are i lt (fill size)

  at_i : (get_partition i k).index ≡ i
  at_i = kc.partitions.index i lt

  fill-IsPartition : IsPartition (fill size (get_partition i k))
  fill-IsPartition = record {
    room = omega (arith, room);
    no_objects = λ e. absurd (cc (e, taken));
    no_large = λ e. absurd (cc (e, taken));
    no_bitmaps = λ e. absurd (cc (e, taken));
    not_evacuated = λ e. absurd (cc (e, taken));
  }

  abbrev at_allocation : Partition
  at_allocation = get_partition (get_partition i k).index now

  allocation_entry : at_allocation ≡ fill size (get_partition i k)
  allocation_entry = ap (λ j. get_partition j now) at_i ∙ filled_entry

  filled-IsHeap : IsHeap now
  filled-IsHeap = record {
    pages = kc.pages;
    partitions =
        change-ArePartitions k.tables k.number_of_partitions kc.partitions i lt (fill size) at_i
          fill-IsPartition;
    free_count = omega (
      arith,
      kc.free_count,
      change_sum k.tables k.number_of_partitions kc.partitions i lt (fill size) (λ q. bit q.free),
    );
    allocation_lt = omega (arith, at_i, lt);
    allocation_taken = ap (λ q. q.free) allocation_entry ∙ taken;
    allocation_objects = ap (λ q. q.temporary) allocation_entry ∙ objects;
    size = omega (
      arith,
      ap (λ q. q.dynamic_size) allocation_entry,
      counts,
      change_sum k.tables k.number_of_partitions kc.partitions i lt (fill size) occuped_size,
    );
  }

  still_used : (a : ℕ) → InUse k a → InUse now a
  still_used a (j, l, used) = elim (ℕ_discrete i j) [
    | no ne ↦ (
      j,
      l,
      subst (λ q. Used q a)
          (sym (
            entry-change_ne k.tables k.number_of_partitions kc.partitions.are i lt (fill size) j
              ne))
          used,
    )
    | yes e ↦ (
      i,
      lt,
      subst (λ q. Used q a) (sym filled_entry)
          (more (subst (λ m. Used (get_partition m k) a) (sym e) used)),
    )
  ]
    where
      more : Used (get_partition i k) a → Used (fill size (get_partition i k)) a
      more (at_least, inl l) = (at_least, inl (omega arith))
      more (at_least, inr (b, l)) = (at_least, inr (b, l))

  unused_before :
      (a : ℕ)
      → dynamic_space_end (get_partition i k) ≤ a
      → a < dynamic_space_end (get_partition i k) + size
      → ¬ InUse h a
  unused_before a from to (j, l, used) =
      let at_j : j ≡ i = omega (arith, Used-within h a j c l used, at_i, room) in
      let l' : i < h.number_of_partitions = omega (arith, at_j) in
      let (no_bitmap, same) = idle l' in
      not-Used (get_partition i h) a
        (omega (arith, same, grown.static i l', at_i, c.partitions.index i l')) no_bitmap
        (subst (λ m. Used (get_partition m h) a) at_j used)

  pub filled-Allocated : Allocated h size (dynamic_space_end (get_partition i k)) now
  filled-Allocated = record {
    heap = filled-IsHeap;
    unused = unused_before;
    used = λ a from to.
        (i, lt, subst (λ q. Used q a) (sym filled_entry) (omega arith, inl (omega arith)));
    keeps = λ a used. still_used a (InUse-Grown h k a c grown used);
    evacuated = λ j l e. grown.evacuated j l (
        sym (
          change_field k.tables k.number_of_partitions kc.partitions.are i lt (fill size)
            (λ q. q.evacuate) refl j)
        ∙ e);
    granted = granted;
  }
