-- ===== src/PartitionedHeap/Sweep.antt =====
-- The partitions of a large object that is not marked are free again.
use motoko.Prelude.{
  ℕ, zero, suc, ◌+◌, ◌%◌, ◌^◌, ◌≤◌, ◌<◌, ◌≡◌, ◌≢◌, ◌⊎◌, inl, inr, refl, ap, ◌∙◌, subst, false,
  ℕ_discrete, arith,
}
use motoko.PartitionedHeap.{minus}
use motoko.PartitionedHeap.Tables.{PartitionedHeap, get_partition, change_partition}
use motoko.PartitionedHeap.Tables.Entries.{entry-change_self, entry-change_ne}
use motoko.PartitionedHeap.Large.{free_updated, free_range}
use motoko.PartitionedHeap.Invariant.{bit, IsHeap}
use motoko.PartitionedHeap.Changed.{change-IsHeap, minus_exact}

-- A heap with the counter of its free partitions set.
abbrev pub counting : ℕ → PartitionedHeap → PartitionedHeap
counting f h = record h { free_partitions = f }

-- The partitions from `b` on, `n` of them, are in use, and none is the one for allocation.
pub record TakenRange (h : PartitionedHeap) (b n : ℕ) : Type 0 where
  pub within : b + n ≤ h.number_of_partitions
  pub taken : (j : ℕ) → b ≤ j → j < b + n → (get_partition j h).free ≡ false
  pub other : (j : ℕ) → b ≤ j → j < b + n → j ≢ h.allocation_index

pub record FreedRange (h : PartitionedHeap) (f b n : ℕ) (k : PartitionedHeap) : Type 0 where
  pub heap : IsHeap (counting (f + n) k)
  pub number : k.number_of_partitions ≡ h.number_of_partitions
  pub allocation : k.allocation_index ≡ h.allocation_index
  pub memory : k.memory ≡ h.memory
  pub free_partitions : k.free_partitions ≡ h.free_partitions
  pub outside : (j : ℕ) → (j < b) ⊎ (b + n ≤ j) → get_partition j k ≡ get_partition j h
  pub inside : (j : ℕ) → b ≤ j → j < b + n → get_partition j k ≡ free_updated (get_partition j h)

module _ (h : PartitionedHeap) (f b n : ℕ) (is : IsHeap (counting f h))
    (lt : b < h.number_of_partitions) (taken : (get_partition b h).free ≡ false)
    (other : b ≢ h.allocation_index) where
  abbrev size : ℕ
  size = (get_partition b h).dynamic_size

  abbrev one_freed : PartitionedHeap
  one_freed = record (change_partition b free_updated h) {
    reclaimed = (h.reclaimed + size) % 2 ^ 64;
    precomputed_heap_size = minus h.precomputed_heap_size size;
  }

  one_ne : (j : ℕ) → b ≢ j → get_partition j one_freed ≡ get_partition j h
  one_ne j ne =
      entry-change_ne h.tables h.number_of_partitions is.partitions.are b lt free_updated j ne

  one_self : get_partition b one_freed ≡ free_updated (get_partition b h)
  one_self = entry-change_self h.tables h.number_of_partitions is.partitions.are b lt free_updated

  one_freed-IsHeap : IsHeap (counting (f + 1) one_freed)
  one_freed-IsHeap =
      let room = (is.partitions.each b lt).room in
      change-IsHeap (counting f h) (counting (f + 1) one_freed) b free_updated is lt refl refl refl
        refl refl
        (record {
          room = omega (arith, room);
          no_objects = λ _. refl;
          no_large = λ _. refl;
          no_bitmaps = λ _. refl;
          not_evacuated = λ _. refl;
        })
        (ap (λ q. q.free) (one_ne h.allocation_index other) ∙ is.allocation_taken)
        (ap (λ q. q.temporary) (one_ne h.allocation_index other) ∙ is.allocation_objects)
        (omega (arith, ap bit taken))
        (omega (
          arith,
          ap (λ q. q.dynamic_size) (one_ne h.allocation_index other),
          minus_exact (counting f h) b is lt other,
        ))

  one_before :
      (k : PartitionedHeap) → FreedRange one_freed (f + 1) (b + 1) n k → FreedRange h f b (suc n) k
  one_before k r = record {
    heap =
        subst (λ c. IsHeap (counting c k)) (let e : f + 1 + n ≡ f + suc n = omega arith in e)
          r.heap;
    number = r.number;
    allocation = r.allocation;
    memory = r.memory;
    free_partitions = r.free_partitions;
    outside = λ j out. r.outside j (before j out) ∙ one_ne j (apart j out);
    inside = λ j l u. elim (ℕ_discrete b j) [
      | yes e ↦
          subst (λ m. get_partition m k ≡ free_updated (get_partition m h)) e
            (r.outside b (inl (omega arith)) ∙ one_self)
      | no ne ↦ r.inside j (ground (arith, ne)) (omega arith) ∙ ap free_updated (one_ne j ne)
    ];
  }
    where
      before : (j : ℕ) → (j < b) ⊎ (b + suc n ≤ j) → (j < b + 1) ⊎ (b + 1 + n ≤ j)
      before j (inl l) = inl (omega arith)
      before j (inr l) = inr (omega arith)

      apart : (j : ℕ) → (j < b) ⊎ (b + suc n ≤ j) → b ≢ j
      apart j (inl l) e = absurd (omega arith)
      apart j (inr l) e = absurd (omega arith)

pub free_range-FreedRange :
    (n b f : ℕ) (h : PartitionedHeap)
    → IsHeap (counting f h)
    → TakenRange h b n
    → FreedRange h f b n (free_range n b h)
unfolding free_range
free_range-FreedRange zero b f h is range = record {
  heap = subst (λ c. IsHeap (counting c h)) (let e : f ≡ f + 0 = omega arith in e) is;
  number = refl;
  allocation = refl;
  memory = refl;
  free_partitions = refl;
  outside = λ j _. refl;
  inside = λ j l u. absurd (omega arith);
}
free_range-FreedRange (suc n) b f h is range =
    let lt : b < h.number_of_partitions = omega (arith, range.within) in
    let taken = range.taken b (omega arith) (omega arith) in
    let other = range.other b (omega arith) (omega arith) in
    let k = one_freed h f b n is lt taken other in
    one_before h f b n is lt taken other (free_range n (b + 1) k) (
      free_range-FreedRange n (b + 1) (f + 1) k (one_freed-IsHeap h f b n is lt taken other)
        (record {
          within = omega (arith, range.within);
          taken = λ j l u.
              ap (λ q. q.free) (one_ne h f b n is lt taken other j (λ e. absurd (omega arith)))
              ∙ range.taken j (omega arith) (omega arith);
          other = λ j l u. range.other j (omega arith) (omega arith);
        }))
