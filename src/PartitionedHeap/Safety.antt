-- ===== src/PartitionedHeap/Safety.antt =====
-- Objects of more than one partition: no address that was in use.
use motoko.Prelude.{
  ℕ, ◌+◌, ◌-◌, ◌*◌, ◌/◌, ◌%◌, ◌^◌, ◌≤◌, ◌<◌, ◌≡◌, ◌⊎◌, inl, inr, refl, sym, ap, ◌∙◌, subst, true,
  dec_lt, arith, ℕ_discrete, eq→==, ne→==,
}
use motoko.StableMem.{page_size}
use motoko.MarkBitmap.{partition_size}
use motoko.PartitionedHeap.{Partition, minus, end_address}
use motoko.PartitionedHeap.Tables.{PartitionedHeap, entry, get_partition}
use motoko.PartitionedHeap.Allocate.{take_large}
use motoko.PartitionedHeap.Invariant.{IsPartition, ArePartitions, IsHeap, free_sum, occupied_sum}
use motoko.PartitionedHeap.Grown.{IsCounted, Grown, minus-eq}
use motoko.PartitionedHeap.Taken.{free_partitions_le}
use motoko.PartitionedHeap.Placed.{
  Used, InUse, Allocated, IsHeap-IsCounted, InUse-Grown, Used-within,
}
use motoko.PartitionedHeap.Space.{FreeRange}
use motoko.PartitionedHeap.Range.{CompletelyFree-empty, part_size, Ranged}

-- The number of partitions of an object.
abbrev pub number_for : ℕ → ℕ
number_for size = (size + partition_size - 1) / partition_size

-- The sizes of an object's parts.
module _ (size first : ℕ) (large : partition_size < size) (bound : size < 2 ^ 64) where
  abbrev pub count : ℕ
  count = number_for size

  abbrev pub last : ℕ
  last = first + count - 1

  pub last_part : minus size ((count - 1) * partition_size) ≡ size - (count - 1) * partition_size
  last_part = minus-eq size ((count - 1) * partition_size) (omega arith) bound

  pub part_le : (j : ℕ) → part_size last count size j ≤ partition_size
  part_le j = elim (ℕ_discrete j last) [
    | yes e ↦ rw (eq→== j last e) (omega (arith, last_part))
    | no ne ↦ rw (ne→== j last ne) (omega arith)
  ]

  -- The part of partition `j` has the object's addresses of that partition.
  pub part_covers :
      (a : ℕ)
      → first * partition_size ≤ a
      → a < first * partition_size + size
      → (first ≤ a / partition_size)
        × (a / partition_size < first + count)
        × (a % partition_size < part_size last count size (a / partition_size))
  part_covers a from to = (
    omega arith,
    omega arith,
    elim (ℕ_discrete (a / partition_size) last) [
      | yes e ↦ rw (eq→== (a / partition_size) last e) (omega (arith, last_part, e))
      | no ne ↦ rw (ne→== (a / partition_size) last ne) (omega arith)
    ],
  )

unused_free :
    (q : Partition) (a : ℕ)
    → IsPartition q
    → (q.free ≡ true) × (q.static_size ≡ 0) × (q.dynamic_size ≡ 0)
    → ¬ Used q a
unused_free q a is (f, s, d) (at_least, inl l) = absurd (omega arith)
unused_free q a is (f, s, d) (at_least, inr (b, l)) = absurd (cc (b, is.no_bitmaps f))

-- The heap `h` has grown to `g`, which has a range of free partitions; `k` is `g` with more memory and
-- the counter lowered, and `t` has the object.
module _ (h g k t : PartitionedHeap) (size first : ℕ) (is : IsHeap h)
    (large : partition_size < size) (bound : size < 2 ^ 64) (grown : Grown h g)
    (range : FreeRange g (number_for size) first) (pages : ℕ)
    (at_k : k
      ≡ record g { free_partitions = minus g.free_partitions (number_for size); pages = pages })
    (limit : pages ≤ 2 ^ 47)
    (held : end_address (get_partition (first + number_for size - 1) g) ≤ pages * page_size)
    (r : Ranged
      (first + number_for size - 1)
      (number_for size)
      size
      (part_le size first large bound)
      k
      first
      (number_for size)
      t) where
  abbrev gc : IsCounted g
  gc = grown.counted

  abbrev hc : IsCounted h
  hc = IsHeap-IsCounted h is

  k_tables : k.tables ≡ g.tables
  k_tables = ap (λ x. x.tables) at_k

  k_number : k.number_of_partitions ≡ g.number_of_partitions
  k_number = ap (λ x. x.number_of_partitions) at_k

  -- What the partitions of the range were.
  pub in_range :
      (j : ℕ)
      → first ≤ j
      → j < first + number_for size
      → ((get_partition j g).free ≡ true)
        × ((get_partition j g).static_size ≡ 0)
        × ((get_partition j g).dynamic_size ≡ 0)
  in_range j l u =
      let lt : j < g.number_of_partitions = omega (arith, range.within) in
      CompletelyFree-empty (get_partition j g) (gc.partitions.each j lt)
        (omega (arith, gc.partitions.index j lt, gc.partitions.limit)) (range.free j l u)

  outside_same :
      (j : ℕ) → (j < first) ⊎ (first + number_for size ≤ j) → get_partition j t ≡ get_partition j g
  outside_same j out = r.outside j out ∙ ap (entry j) k_tables

  pub inside_part :
      (j : ℕ)
      → first ≤ j
      → j < first + number_for size
      → get_partition j t
        ≡ take_large
            (part_size (first + number_for size - 1) (number_for size) size j)
            (get_partition j g)
  inside_part j l u =
      r.inside j l u
      ∙ ap
          (λ ts.
            take_large (part_size (first + number_for size - 1) (number_for size) size j)
              (entry j ts))
          k_tables

  split :
      (j : ℕ)
      → ((first ≤ j) × (j < first + number_for size))
        ⊎ ((j < first) ⊎ (first + number_for size ≤ j))
  split j = elim (dec_lt j first) [
    | yes l ↦ inr (inl l)
    | no ge ↦ elim (dec_lt j (first + number_for size)) [
      | yes u ↦ inl (omega arith, u)
      | no o ↦ inr (inr (omega arith))
    ]
  ]

  -- The partition for allocation is in use, so that it is not in the range.
  allocation_same : get_partition t.allocation_index t ≡ get_partition h.allocation_index g
  allocation_same =
      let same : t.allocation_index ≡ h.allocation_index =
        r.allocation ∙ ap (λ x. x.allocation_index) at_k ∙ grown.allocation in
      ap (λ j. get_partition j t) same
      ∙ outside_same h.allocation_index (elim (split h.allocation_index) [
        | inr out ↦ out
        | inl (l, u) ↦ absurd (
            cc (
              (in_range h.allocation_index l u).0,
              (grown.taken h.allocation_index is.allocation_lt is.allocation_taken).free,
              is.allocation_taken,
            ))
      ])

  large-IsHeap : IsHeap t
  large-IsHeap =
      let use_same = grown.taken h.allocation_index is.allocation_lt is.allocation_taken in
      let k_free = ap (λ x. x.free_partitions) at_k in
      let number = r.total ∙ k_number in
      let f_k : free_sum k.tables k.number_of_partitions
          ≡ free_sum g.tables g.number_of_partitions =
        rw (k_tables, k_number) refl in
      let o_k : occupied_sum k.tables k.number_of_partitions
          ≡ occupied_sum g.tables g.number_of_partitions =
        rw (k_tables, k_number) refl in
      record {
        pages = omega (arith, r.pages, ap (λ x. x.pages) at_k);
        partitions = subst (ArePartitions t.tables) (sym r.total) r.partitions;
        free_count = omega (
          arith,
          r.free_partitions,
          k_free,
          f_k,
          r.frees,
          ap (free_sum t.tables) r.total,
          gc.free_count,
          free_partitions_le g gc,
          gc.partitions.limit,
          minus-eq g.free_partitions (number_for size) (omega (arith, r.frees, f_k, gc.free_count))
              (omega (arith, free_partitions_le g gc, gc.partitions.limit)),
        );
        allocation_lt = omega (
          arith,
          r.allocation,
          ap (λ x. x.allocation_index) at_k,
          grown.allocation,
          grown.number_le,
          number,
          is.allocation_lt,
        );
        allocation_taken = ap (λ q. q.free) allocation_same ∙ use_same.free ∙ is.allocation_taken;
        allocation_objects =
            ap (λ q. q.temporary) allocation_same ∙ use_same.temporary ∙ is.allocation_objects;
        size = omega (
          arith,
          ap (λ q. q.dynamic_size) allocation_same,
          use_same.dynamic_size,
          r.balance,
          o_k,
          ap (λ x. x.precomputed_heap_size) at_k,
          grown.balance,
          ap (occupied_sum t.tables) r.total,
          is.size,
        );
      }

  keeps_g : (a : ℕ) → InUse g a → InUse t a
  keeps_g a (j, lt, u) = elim (split j) [
    | inl (l, v) ↦
        absurd (unused_free (get_partition j g) a (gc.partitions.each j lt) (in_range j l v) u)
    | inr out ↦
        (j, omega (arith, r.total, k_number), subst (λ q. Used q a) (sym (outside_same j out)) u)
  ]

  pub large-Allocated : Allocated h size (first * partition_size) t
  large-Allocated = record {
    heap = large-IsHeap;
    unused = λ a from to u.
        let (j, lt, used) = InUse-Grown h g a hc grown u in
        let at_j = Used-within g a j gc lt used in
        let (l, v, _) = part_covers size first large bound a from to in
        unused_free (get_partition j g) a (gc.partitions.each j lt)
          (in_range j (omega (arith, at_j)) (omega (arith, at_j))) used;
    used = λ a from to.
        let (l, v, w) = part_covers size first large bound a from to in
        let j = a / partition_size in
        let lt : j < g.number_of_partitions = omega (arith, range.within) in
        (
          j,
          omega (arith, r.total, k_number),
          subst (λ q. Used q a) (sym (inside_part j l v))
              (
                omega (arith, gc.partitions.index j lt),
                inl (omega (arith, w, gc.partitions.index j lt, (in_range j l v).1)),
              ),
        );
    keeps = λ a u. keeps_g a (InUse-Grown h g a hc grown u);
    evacuated = λ j l e.
        let lt : j < g.number_of_partitions = omega (arith, r.total, k_number) in
        grown.evacuated j lt (elim (split j) [
          | inr out ↦ ap (λ q. q.evacuate) (sym (outside_same j out)) ∙ e
          | inl (a, b) ↦ ap (λ q. q.evacuate) (sym (inside_part j a b)) ∙ e
        ]);
    granted =
        let last_lt : first + number_for size - 1 < g.number_of_partitions =
          omega (arith, range.within) in
        omega (
          arith,
          r.pages,
          ap (λ x. x.pages) at_k,
          held,
          gc.partitions.index (first + number_for size - 1) last_lt,
        );
  }
