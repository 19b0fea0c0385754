-- ===== src/PartitionedHeap/Allocation.antt =====
-- Every allocation of the partitioned heap, whatever its size.
use motoko.Prelude.{
  if_true, if_false, ℕ, ◌+◌, ◌-◌, ◌*◌, ◌%◌, ◌^◌, ◌<◌, ◌≡◌, sym, ap, subst, Bool-cases, inl, inr,
  arith, leb, ltb, leb→le, leb→gt,
}
use motoko.Prelude.Result.{ok, >>=-eq-ok}
use motoko.MarkBitmap.{partition_size}
use motoko.PartitionedHeap.{minus, end_address, dynamic_space_start}
use motoko.PartitionedHeap.Memory.{Platform}
use motoko.PartitionedHeap.Tables.{PartitionedHeap, get_partition, grow_memory}
use motoko.PartitionedHeap.Allocate.{
  allocate, allocate_partition, allocate_large_object, scan_for_large_space, take_range,
}
use motoko.PartitionedHeap.Invariant.{IsHeap}
use motoko.PartitionedHeap.Granted.{Limited, Holds, grow_memory-Holds}
use motoko.PartitionedHeap.Grown.{Grown}
use motoko.PartitionedHeap.Found.{allocate_partition-Found}
use motoko.PartitionedHeap.Placed.{Allocated, IsHeap-IsCounted}
use motoko.PartitionedHeap.Space.{CompletelyFree, FreeRange, scan_for_large_space-FreeRange}
use motoko.PartitionedHeap.Range.{take_range-Ranged}
use motoko.PartitionedHeap.Objects.{allocate_normal_object-Allocated}
use motoko.PartitionedHeap.Safety.{number_for, part_le, in_range, inside_part, large-Allocated}

-- The heap after a large object has taken a range of free partitions, which starts at `first`.
abbrev taken_for : ℕ → ℕ → PartitionedHeap → PartitionedHeap
taken_for size first k =
    take_range (number_for size) first (first + number_for size - 1) (number_for size) size k

large_taken :
    (h g k : PartitionedHeap) (size first pages : ℕ)
    → IsHeap h
    → partition_size < size
    → size < 2 ^ 64
    → Grown h g
    → FreeRange g (number_for size) first
    → k ≡ record g { free_partitions = minus g.free_partitions (number_for size); pages = pages }
    → Holds (end_address (get_partition (first + number_for size - 1) g)) g.pages pages
    → Allocated h size
        (dynamic_space_start (get_partition first (taken_for size first k)))
        (taken_for size first k)
large_taken h g k size first pages is large bound grown range at_k holds =
    let gc = grown.counted in
    let n = number_for size in
    let kt = ap (λ x. x.tables) at_k in
    let kn = ap (λ x. x.number_of_partitions) at_k in
    let ranged =
      take_range-Ranged (first + n - 1) n size (part_le size first large bound) n first k
        (rw (kt, kn) gc.partitions) (omega (arith, kn, range.within))
        (λ i l u. subst (λ x. CompletelyFree x i) (sym at_k) (range.free i l u)) in
    let t = taken_for size first k in
    let at_first =
      inside_part h g k t size first is large bound grown range pages at_k holds.limit holds.enough
        ranged first (omega arith) (omega arith) in
    let empty =
      in_range h g k t size first is large bound grown range pages at_k holds.limit holds.enough
        ranged first (omega arith) (omega arith) in
    let start : first * partition_size ≡ dynamic_space_start (get_partition first t) = omega (
      arith,
      ap (λ q. q.index) at_first,
      ap (λ q. q.static_size) at_first,
      gc.partitions.index first (omega (arith, range.within)),
      empty.1,
    ) in
    subst (λ a. Allocated h size a t) start
      (large-Allocated h g k t size first is large bound grown range pages at_k holds.limit
        holds.enough ranged)

module _ (p : Platform) (h : PartitionedHeap) (lim : Limited p) (is : IsHeap h) where
  allocate_large_object-Allocated :
      (size : ℕ) (r : ℕ × PartitionedHeap)
      → partition_size < size
      → size < 2 ^ 64
      → allocate_large_object p size h ≡ ok r
      → Allocated h size r.0 r.1
  unfolding allocate_large_object
  allocate_large_object-Allocated size r large bound e =
      elim (Bool-cases (ltb (2 ^ 64 - 1 - partition_size) size)) [
        | inl too_large ↦ absurd (cc (if_true _ _ _ too_large e))
        | inr possible ↦
            let n = number_for size in
            let (s, got, rest) =
              >>=-eq-ok (allocate_partition p (scan_for_large_space n) h) _
                (if_false _ _ _ possible e) in
            let first = s.0 in
            let found =
              allocate_partition-Found p lim (scan_for_large_space n) h s (IsHeap-IsCounted h is)
                got in
            let g : PartitionedHeap = record s.1 {
              free_partitions = minus s.1.free_partitions n;
            } in
            let end = end_address (get_partition (first + n - 1) s.1) in
            let (k, grew, same) = >>=-eq-ok (grow_memory p end g) _ rest in
            let (pages, at_k, holds) =
              grow_memory-Holds p end g k lim found.grown.counted.pages grew in
            subst (λ (x : ℕ × PartitionedHeap). Allocated h size x.0 x.1)
              (let q : (
                dynamic_space_start (get_partition first (taken_for size first k)),
                taken_for size first k,
              )
                    ≡ r =
                  cc same in
                q)
              (large_taken h s.1 k size first pages is large bound found.grown
                (scan_for_large_space-FreeRange s.1 n first (omega arith)
                  (omega (arith, found.grown.counted.partitions.limit)) found.found)
                at_k holds)
      ]

  -- On a platform that never gives more than 2 ^ 63 bytes, and from a heap that satisfies its
  -- invariant, an allocation of any number of words that does not trap keeps the invariant; no byte of
  -- the object was in use, each is now, the memory is granted, what was in use still is, and no more
  -- partitions are evacuated.
  pub allocate-Allocated :
      (words : ℕ) (r : ℕ × PartitionedHeap)
      → allocate p words h ≡ ok r
      → Allocated h (words * 8 % 2 ^ 64) r.0 r.1
  unfolding allocate
  allocate-Allocated words r e = elim (Bool-cases (leb (words * 8 % 2 ^ 64) partition_size)) [
    | inl small ↦
        allocate_normal_object-Allocated p lim h is (words * 8 % 2 ^ 64) r
          (leb→le (words * 8 % 2 ^ 64) partition_size small) (if_true _ _ _ small e)
    | inr large ↦
        allocate_large_object-Allocated (words * 8 % 2 ^ 64) r
          (leb→gt (words * 8 % 2 ^ 64) partition_size large) (omega arith) (if_false _ _ _ large e)
  ]
