-- ===== src/PartitionedHeap/Taken.antt =====
-- Taking a free partition for bitmaps or for objects.
use motoko.Prelude.{
  ℕ, ◌+◌, ◌-◌, ◌%◌, ◌≤◌, ◌<◌, ◌≡◌, inl, inr, refl, ap, subst, Bool, true, false, ◌==◌, Bool-cases,
  arith,
}
use motoko.Prelude.Sums.{le-sum, sum_bound}
use motoko.Prelude.Result.{ok, >>=-eq-ok}
use motoko.MarkBitmap.{assign, partition_size, bitmap_size}
use motoko.PartitionedHeap.{Partition, free_size, start_address, end_address, minus}
use motoko.PartitionedHeap.Memory.{Platform}
use motoko.PartitionedHeap.Tables.{PartitionedHeap, get_partition, change_partition, grow_memory}
use motoko.PartitionedHeap.Allocate.{
  allocate_partition, scan_for_temporary_partition, take_temporary, allocate_temporary_partition,
  with_bitmap_space, allocate_bitmap, assign_bitmap,
}
use motoko.PartitionedHeap.Invariant.{bit, IsPartition, most_partitions}
use motoko.PartitionedHeap.Grown.{IsCounted, Grown, Grown-trans, Grown-fields, Grown-change}
use motoko.PartitionedHeap.Granted.{Limited, grow_memory-Grown}
use motoko.PartitionedHeap.Found.{allocate_partition-Found, scan_for_temporary_partition-some}

pub free_size-eq :
    (q : Partition)
    → IsPartition q
    → q.index < most_partitions
    → free_size q ≡ partition_size - (q.static_size + q.dynamic_size)
unfolding free_size
free_size-eq q is lt = omega (arith, is.room)

bit_le : (b : Bool) → bit b ≤ 1
bit_le true = omega arith
bit_le false = omega arith

pub free_partitions_le :
    (h : PartitionedHeap) → IsCounted h → h.free_partitions ≤ h.number_of_partitions
free_partitions_le h c = omega (
  arith,
  c.free_count,
  sum_bound (λ j. bit (get_partition j h).free) 1 0 h.number_of_partitions
      (λ j _ _. bit_le (get_partition j h).free),
)

-- Where a partition is free, the counter is not zero, and it is below the number of partitions.
pub free_partitions_pos :
    (h : PartitionedHeap) (i : ℕ)
    → IsCounted h
    → i < h.number_of_partitions
    → (get_partition i h).free ≡ true
    → minus h.free_partitions 1 + 1 ≡ h.free_partitions
unfolding minus
free_partitions_pos h i c lt f =
    let f_bit : bit (get_partition i h).free ≡ 1 = ap bit f in
    omega (
      arith,
      c.free_count,
      f_bit,
      c.partitions.limit,
      le-sum (λ j. bit (get_partition j h).free) 0 h.number_of_partitions i (omega arith)
          (omega arith),
      free_partitions_le h c,
    )

-- A free partition that is taken, for whatever use, leaves the others as they are.
module _ (h : PartitionedHeap) (i : ℕ) (c : IsCounted h) (lt : i < h.number_of_partitions)
    (f : (get_partition i h).free ≡ true) (change : Partition → Partition)
    (index : (change (get_partition i h)).index ≡ (get_partition i h).index)
    (static : (change (get_partition i h)).static_size ≡ (get_partition i h).static_size)
    (dynamic : (change (get_partition i h)).dynamic_size ≡ (get_partition i h).dynamic_size)
    (evacuate : (change (get_partition i h)).evacuate ≡ (get_partition i h).evacuate)
    (taken : (change (get_partition i h)).free ≡ false) where
  abbrev pub take : PartitionedHeap
  take = change_partition i change (record h { free_partitions = minus h.free_partitions 1 })

  taken-IsPartition : IsPartition (change (get_partition i h))
  taken-IsPartition = record {
    room = omega (arith, (c.partitions.each i lt).room, static, dynamic);
    no_objects = λ e. absurd (cc (e, taken));
    no_large = λ e. absurd (cc (e, taken));
    no_bitmaps = λ e. absurd (cc (e, taken));
    not_evacuated = λ e. absurd (cc (e, taken));
  }

  pub take-Grown : Grown h take
  take-Grown =
      let before : bit (get_partition i h).free ≡ 1 = ap bit f in
      let then_bit : bit (change (get_partition i h)).free ≡ 0 = ap bit taken in
      Grown-change h take i change c lt refl refl refl refl refl
        (omega (arith, before, then_bit, free_partitions_pos h i c lt f)) index static dynamic
        evacuate taken-IsPartition (λ e. absurd (cc (e, f)))

module _ (p : Platform) (lim : Limited p) (h : PartitionedHeap) where
  pub allocate_temporary_partition-Grown :
      (r : ℕ × PartitionedHeap)
      → IsCounted h
      → allocate_temporary_partition p h ≡ ok r
      → Grown h r.1
  unfolding allocate_temporary_partition
  allocate_temporary_partition-Grown r c e =
      let (s, got, same) =
        >>=-eq-ok (allocate_partition p scan_for_temporary_partition h)
          (λ s. ok (
            s.0,
            change_partition s.0 take_temporary
                (record s.1 { free_partitions = minus s.1.free_partitions 1 }),
          ))
          e in
      let found = allocate_partition-Found p lim scan_for_temporary_partition h s c got in
      let (lt, f) = scan_for_temporary_partition-some s.1 s.0 found.grown.counted found.found in
      let taken =
        take-Grown s.1 s.0 found.grown.counted lt f take_temporary refl refl refl refl refl in
      Grown-trans found.grown (subst (Grown s.1) (let e : _ ≡ r.1 = cc same in e) taken)

  pub with_bitmap_space-Grown :
      (k : PartitionedHeap) → IsCounted h → with_bitmap_space p h ≡ ok k → Grown h k
  unfolding with_bitmap_space
  with_bitmap_space-Grown k c e =
      elim (Bool-cases (h.bitmap_allocation_pointer % partition_size == 0)) [
        | inr no_need ↦
            subst (Grown h) (let same : h ≡ k = ground (arith, no_need) in same)
              (Grown-fields h h c refl refl refl refl refl (omega arith) c.pages)
        | inl need ↦
            let (r, got, rest) = >>=-eq-ok (allocate_temporary_partition p h) _ (rw need at e) in
            let grown = allocate_temporary_partition-Grown r c got in
            let (g, grew, same) =
              >>=-eq-ok (grow_memory p (end_address (get_partition r.0 r.1)) r.1) _ rest in
            let (more, tables, number, held) =
              grow_memory-Grown p lim (end_address (get_partition r.0 r.1)) r.1 g grown.counted
                grew in
            Grown-trans (Grown-trans grown more) (
              subst (Grown g) (let q : _ ≡ k = cc same in q) (
                Grown-fields g
                  (record g { bitmap_allocation_pointer = start_address (get_partition r.0 g) })
                  more.counted refl refl refl refl refl (omega arith) more.counted.pages))
      ]

  pub allocate_bitmap-Grown :
      (r : ℕ × PartitionedHeap) → IsCounted h → allocate_bitmap p h ≡ ok r → Grown h r.1
  unfolding allocate_bitmap
  allocate_bitmap-Grown r c e =
      let (g, got, same) = >>=-eq-ok (with_bitmap_space p h) _ e in
      let grown = with_bitmap_space-Grown g c got in
      Grown-trans grown (
        subst (Grown g) (let q : _ ≡ r.1 = cc same in q) (
          Grown-fields g
            (record g { bitmap_allocation_pointer = g.bitmap_allocation_pointer + bitmap_size })
            grown.counted refl refl refl refl refl (omega arith) grown.counted.pages))

-- A new bitmap for a partition in use.
pub assign_bitmap-Grown :
    (h : PartitionedHeap) (i address : ℕ)
    → IsCounted h
    → i < h.number_of_partitions
    → Grown h (assign_bitmap i address h)
unfolding assign_bitmap assign
assign_bitmap-Grown h i address c lt =
    let is = c.partitions.each i lt in
    Grown-change h (assign_bitmap i address h) i (λ q. record q { bitmap = address }) c lt refl refl
      refl refl refl refl refl refl refl refl
      (record {
        room = is.room;
        no_objects = is.no_objects;
        no_large = is.no_large;
        no_bitmaps = is.no_bitmaps;
        not_evacuated = is.not_evacuated;
      })
      (λ _. record { free = refl; large_content = refl; dynamic_size = refl; temporary = refl })
