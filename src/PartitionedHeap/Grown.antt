-- ===== src/PartitionedHeap/Grown.antt =====
-- How the heap may change while it looks for space: partitions in use stay as they are, and what it
-- counts as its size changes with the occupied spaces.
use motoko.Prelude.{
  ℕ, ◌+◌, ◌-◌, ◌^◌, ◌≤◌, ◌<◌, ◌≡◌, refl, sym, ◌∙◌, subst, true, false, ℕ_discrete, arith,
}
use motoko.PartitionedHeap.{Partition, minus, occuped_size}
use motoko.PartitionedHeap.Tables.{PartitionedHeap, entry, change_entry, get_partition}
use motoko.PartitionedHeap.Tables.Entries.{entry-change_self, entry-change_ne}
use motoko.PartitionedHeap.Invariant.{
  bit, IsPartition, ArePartitions, free_sum, occupied_sum, most_pages, change-ArePartitions,
  change_sum,
}

pub minus-eq : (a b : ℕ) → b ≤ a → a < 2 ^ 64 → minus a b ≡ a - b
unfolding minus
minus-eq a b h k = omega arith

-- The counter of the free partitions is right.
pub record IsCounted (heap : PartitionedHeap) : Type 0 where
  pub pages : heap.pages ≤ most_pages
  pub partitions : ArePartitions heap.tables heap.number_of_partitions
  pub free_count : heap.free_partitions ≡ free_sum heap.tables heap.number_of_partitions

-- The same use of a partition, whatever the collector notes in it.
pub record SameUse (p q : Partition) : Type 0 where
  pub free : q.free ≡ p.free
  pub large_content : q.large_content ≡ p.large_content
  pub dynamic_size : q.dynamic_size ≡ p.dynamic_size
  pub temporary : q.temporary ≡ p.temporary

pub record Grown (h k : PartitionedHeap) : Type 0 where
  pub counted : IsCounted k
  pub number_le : h.number_of_partitions ≤ k.number_of_partitions
  pub pages_le : h.pages ≤ k.pages
  pub allocation : k.allocation_index ≡ h.allocation_index
  pub static :
      (j : ℕ)
      → j < h.number_of_partitions
      → (get_partition j k).static_size ≡ (get_partition j h).static_size
  pub taken :
      (j : ℕ)
      → j < h.number_of_partitions
      → (get_partition j h).free ≡ false
      → SameUse (get_partition j h) (get_partition j k)
  pub evacuated :
      (j : ℕ)
      → j < k.number_of_partitions
      → (get_partition j k).evacuate ≡ true
      → (j < h.number_of_partitions) × ((get_partition j h).evacuate ≡ true)
  pub balance :
      k.precomputed_heap_size + occupied_sum h.tables h.number_of_partitions
      ≡ h.precomputed_heap_size + occupied_sum k.tables k.number_of_partitions

pub SameUse-refl : (p : Partition) → SameUse p p
SameUse-refl p = record { free = refl; large_content = refl; dynamic_size = refl; temporary = refl }

pub SameUse-trans : {p q r : Partition} → SameUse p q → SameUse q r → SameUse p r
SameUse-trans a b = record {
  free = b.free ∙ a.free;
  large_content = b.large_content ∙ a.large_content;
  dynamic_size = b.dynamic_size ∙ a.dynamic_size;
  temporary = b.temporary ∙ a.temporary;
}

pub Grown-trans : {h k l : PartitionedHeap} → Grown h k → Grown k l → Grown h l
Grown-trans {h} {k} {l} a b = record {
  counted = b.counted;
  number_le = omega (arith, a.number_le, b.number_le);
  pages_le = omega (arith, a.pages_le, b.pages_le);
  allocation = b.allocation ∙ a.allocation;
  static = λ j lt. b.static j (omega (arith, a.number_le)) ∙ a.static j lt;
  taken = λ j lt t.
      SameUse-trans (a.taken j lt t)
        (b.taken j (omega (arith, a.number_le)) ((a.taken j lt t).free ∙ t));
  evacuated = λ j lt e. let (lt', e') = b.evacuated j lt e in a.evacuated j lt' e';
  balance = omega (arith, a.balance, b.balance);
}

-- More pages, other bitmaps: nothing that counts changes.
pub Grown-fields :
    (h k : PartitionedHeap)
    → IsCounted h
    → k.tables ≡ h.tables
    → k.number_of_partitions ≡ h.number_of_partitions
    → k.free_partitions ≡ h.free_partitions
    → k.allocation_index ≡ h.allocation_index
    → k.precomputed_heap_size ≡ h.precomputed_heap_size
    → h.pages ≤ k.pages
    → k.pages ≤ most_pages
    → Grown h k
Grown-fields h k c t n f a p more most = record {
  counted = record {
    pages = most;
    partitions = rw (t, n) c.partitions;
    free_count = f ∙ c.free_count ∙ rw (t, n) refl;
  };
  number_le = omega (arith, n);
  pages_le = more;
  allocation = a;
  static = λ j lt. rw t refl;
  taken = λ j lt e. rw t (SameUse-refl (entry j h.tables));
  evacuated = λ j lt e. (omega (arith, n), subst (λ ts. (entry j ts).evacuate ≡ true) t e);
  balance = rw (t, n, p) refl;
}

-- A change of one partition that keeps its sizes and, where it is in use, its use.
pub Grown-change :
    (h k : PartitionedHeap) (i : ℕ) (f : Partition → Partition)
    → IsCounted h
    → i < h.number_of_partitions
    → k.tables ≡ change_entry i f h.tables
    → k.number_of_partitions ≡ h.number_of_partitions
    → k.allocation_index ≡ h.allocation_index
    → k.precomputed_heap_size ≡ h.precomputed_heap_size
    → k.pages ≡ h.pages
    → k.free_partitions + bit (get_partition i h).free
      ≡ h.free_partitions + bit (f (get_partition i h)).free
    → (f (get_partition i h)).index ≡ (get_partition i h).index
    → (f (get_partition i h)).static_size ≡ (get_partition i h).static_size
    → (f (get_partition i h)).dynamic_size ≡ (get_partition i h).dynamic_size
    → (f (get_partition i h)).evacuate ≡ (get_partition i h).evacuate
    → IsPartition (f (get_partition i h))
    → ((get_partition i h).free ≡ false → SameUse (get_partition i h) (f (get_partition i h)))
    → Grown h k
Grown-change h k i f c lt t n a p g count index static dynamic evacuate is same = record {
  counted = record {
    pages = omega (arith, c.pages, g);
    partitions =
        rw (t, n)
          (change-ArePartitions h.tables h.number_of_partitions c.partitions i lt f
            (index ∙ c.partitions.index i lt) is);
    free_count =
        rw (t, n)
          (omega (
            arith,
            count,
            c.free_count,
            change_sum h.tables h.number_of_partitions c.partitions i lt f (λ q. bit q.free),
          ));
  };
  number_le = omega (arith, n);
  pages_le = omega (arith, g);
  allocation = a;
  static = λ j j_lt. rw t (at_j (λ q r. r.static_size ≡ q.static_size) static (λ q. refl) j);
  taken =
      λ j j_lt. rw t (at_j (λ q r. q.free ≡ false → SameUse q r) same (λ q _. SameUse-refl q) j);
  evacuated = λ j j_lt e. (
    omega (arith, n),
    sym (at_j (λ q r. r.evacuate ≡ q.evacuate) evacuate (λ q. refl) j)
        ∙ subst (λ ts. (entry j ts).evacuate ≡ true) t e,
  );
  balance =
      rw (t, n, p)
        (omega (
          arith,
          static,
          dynamic,
          change_sum h.tables h.number_of_partitions c.partitions i lt f occuped_size,
        ));
}
  where
    at_j :
        (P : Partition → Partition → Type 0)
        → P (entry i h.tables) (f (entry i h.tables))
        → ((q : Partition) → P q q)
        → (j : ℕ) → P (entry j h.tables) (entry j (change_entry i f h.tables))
    at_j P here other j = elim (ℕ_discrete i j) [
      | yes e ↦
          subst (λ m. P (entry m h.tables) (entry m (change_entry i f h.tables))) e
            (subst (P (entry i h.tables))
              (sym (entry-change_self h.tables h.number_of_partitions c.partitions.are i lt f))
              here)
      | no ne ↦
          subst (P (entry j h.tables))
            (sym (entry-change_ne h.tables h.number_of_partitions c.partitions.are i lt f j ne))
            (other (entry j h.tables))
    ]
