-- ===== src/PartitionedHeap/Swept.antt =====
-- The collection of the large objects.
use motoko.Prelude.{
  if_true_eq, if_false_eq, ℕ, zero, suc, ◌+◌, ◌≤◌, ◌≡◌, inl, inr, refl, sym, ap, ◌∙◌, Bool-cases,
  ◌==◌, arith,
}
use motoko.Prelude.Result.{ok, ◌>>=◌}
use motoko.PartitionedHeap.{dynamic_space_start}
use motoko.PartitionedHeap.Tables.{PartitionedHeap, get_partition}
use motoko.PartitionedHeap.Large.{
  free_updated, free_large_object, partitions_length, collect_large, collect_large_objects,
}
use motoko.PartitionedHeap.Invariant.{IsHeap}
use motoko.PartitionedHeap.Layout.{
  done, small, large, Layout, Swept, Agree, Collected, round_ends, round_small, round_large,
  freed_object, free_large_object-eq, freed_object-FreedRange, freed_object-IsHeap, agree_range,
}

collect_large-Collected :
    (h g : PartitionedHeap) (i fuel : ℕ) (l : Layout h i)
    → Agree h g i
    → IsHeap g
    → h.number_of_partitions ≤ i + fuel
    → Collected h g i l (collect_large fuel i g)
collect_large-Collected h g _ fuel (done i e) agree is enough = record {
  heap = g;
  returns = round_ends g fuel i (omega (arith, e, agree.number));
  is = is;
  swept = tt;
  before = λ j u. refl;
}
collect_large-Collected h g _ zero (small i lt none_large l) agree is enough = absurd (omega arith)
collect_large-Collected h g _ (suc fuel) (small i lt none_large l) agree is enough =
    let rest =
      collect_large-Collected h g (i + 1) fuel l
        (record {
          entries = λ j l. agree.entries j (omega arith);
          memory = agree.memory;
          number = agree.number;
          allocation = agree.allocation;
        })
        is (omega arith) in
    record {
      heap = rest.heap;
      returns =
          round_small g fuel i (omega (arith, lt, agree.number))
            (ap (λ q. q.large_content) (agree.entries i (omega arith)) ∙ none_large)
          ∙ rest.returns;
      is = rest.is;
      swept = (rest.before i (omega arith) ∙ agree.entries i (omega arith), rest.swept);
      before = λ j u. rest.before j (omega arith);
    }
collect_large-Collected h g _ zero (large i n is_large l) agree is enough =
    absurd (omega (arith, is_large.range.within, is_large.some_partition))
collect_large-Collected h g _ (suc fuel) (large i n is_large l) agree is enough =
    let here = agree.entries i (omega arith) in
    let start_same = ap (λ q. dynamic_space_start q) here in
    let length : partitions_length g.memory (dynamic_space_start (get_partition i g)) ≡ ok n =
      ap (λ m. partitions_length m (dynamic_space_start (get_partition i g))) agree.memory
      ∙ ap (partitions_length h.memory) start_same
      ∙ is_large.length in
    let round =
      round_large g fuel i n
        (omega (arith, is_large.range.within, is_large.some_partition, agree.number))
        (ap (λ q. q.large_content) here ∙ is_large.start) length in
    let marked_same = ap (λ q. q.marked_size) here in
    elim (Bool-cases ((get_partition i g).marked_size == 0)) [
      | inl unmarked ↦
          let range = agree_range h g i n agree is_large.range in
          let k = freed_object g i n in
          let freed = freed_object-FreedRange g i n is range in
          let rest =
            collect_large-Collected h k (i + n) fuel l
              (record {
                entries = λ j l. freed.outside j (inr l) ∙ agree.entries j (omega arith);
                memory = freed.memory ∙ agree.memory;
                number = freed.number ∙ agree.number;
                allocation = freed.allocation ∙ agree.allocation;
              })
              (freed_object-IsHeap g i n is range) (omega (arith, is_large.some_partition)) in
          record {
            heap = rest.heap;
            returns =
                round
                ∙ ap (λ r. r >>= λ k. collect_large fuel (i + n) k)
                    (if_true_eq ((get_partition i g).marked_size == 0) _ (ok g) unmarked
                      ∙ free_large_object-eq g i n (dynamic_space_start (get_partition i g))
                          (start_same ∙ is_large.address) length)
                ∙ rest.returns;
            is = rest.is;
            swept = (
              λ j a b.
                  rest.before j b
                  ∙ freed.inside j a b
                  ∙ ap free_updated (agree.entries j a)
                  ∙ sym (
                      if_true_eq ((get_partition i h).marked_size == 0)
                        (free_updated (get_partition j h)) (get_partition j h)
                        (ap (λ m. m == 0) (sym marked_same) ∙ unmarked)),
              rest.swept,
            );
            before = λ j u. rest.before j (omega arith) ∙ freed.outside j (inl u);
          }
      | inr marked ↦
          let rest =
            collect_large-Collected h g (i + n) fuel l
              (record {
                entries = λ j l. agree.entries j (omega arith);
                memory = agree.memory;
                number = agree.number;
                allocation = agree.allocation;
              })
              is (omega (arith, is_large.some_partition)) in
          record {
            heap = rest.heap;
            returns =
                round
                ∙ ap (λ r. r >>= λ k. collect_large fuel (i + n) k)
                    (if_false_eq ((get_partition i g).marked_size == 0)
                      (free_large_object (dynamic_space_start (get_partition i g)) g) (ok g) marked)
                ∙ rest.returns;
            is = rest.is;
            swept = (
              λ j a b.
                  rest.before j b
                  ∙ agree.entries j a
                  ∙ sym (
                      if_false_eq ((get_partition i h).marked_size == 0)
                        (free_updated (get_partition j h)) (get_partition j h)
                        (ap (λ m. m == 0) (sym marked_same) ∙ marked)),
              rest.swept,
            );
            before = λ j u. rest.before j (omega arith);
          }
    ]

-- In a heap that satisfies its invariant and is laid out in large objects, whose sizes are those of
-- their headers, and in partitions without one, the collection of large objects ends without a trap and
-- keeps the invariant: the partitions of exactly the objects without a mark are free again, and all
-- others are as they were.
pub collect_large_objects-Swept :
    (h : PartitionedHeap) (l : Layout h 0)
    → IsHeap h
    → (k : PartitionedHeap) × (collect_large_objects h ≡ ok k) × IsHeap k × Swept h k 0 l
unfolding collect_large_objects
collect_large_objects-Swept h l is =
    let r =
      collect_large-Collected h h 0 h.number_of_partitions l
        (record { entries = λ j l. refl; memory = refl; number = refl; allocation = refl }) is
        (omega arith) in
    (r.heap, r.returns, r.is, r.swept)
