-- ===== src/PartitionedHeap/Found.antt =====
-- The search for a partition, with one more table where there is none.
use motoko.Prelude.{
  ℕ, zero, suc, ◌+◌, ◌-◌, ◌*◌, ◌^◌, ◌≤◌, ◌<◌, ◌≡◌, ◌⊎◌, inl, inr, refl, sym, ap, ◌∙◌, subst, [],
  ◌∷◌, ◌++◌, Option, none, some, Bool, true, false, ◌&&◌, leb, Bool-cases, leb→le, dec_lt, arith,
}
use motoko.Prelude.Result.{Result, ok, trap, >>=-eq-ok}
use motoko.MarkBitmap.{partition_size}
use motoko.PartitionedHeap.{Partition, partition_table_size, free_size, is_completely_free}
use motoko.PartitionedHeap.Memory.{Platform}
use motoko.PartitionedHeap.Tables.{
  PartitionedHeap, entry, new_partition, new_partition_table, get_partition, grow_memory,
  add_partition_table, partition_count,
}
use motoko.PartitionedHeap.Tables.Entries.{entry-append_left, entry-append_right}
use motoko.PartitionedHeap.Allocate.{
  found_or, allocate_partition, first_partition, scan_for_temporary_partition,
  scan_for_free_partition,
}
use motoko.PartitionedHeap.Invariant.{
  append-ArePartitions, append_free, append_occupied, partition_count-eq,
}
use motoko.PartitionedHeap.Grown.{
  IsCounted, Grown, Grown-trans, Grown-fields, SameUse, SameUse-refl,
}
use motoko.PartitionedHeap.Granted.{Limited, grow_memory-Grown}

found_or-eq-ok :
    (o : Option ℕ) (h : PartitionedHeap) (other : Result (ℕ × PartitionedHeap))
    (r : ℕ × PartitionedHeap)
    → found_or o h other ≡ ok r
    → ((o ≡ some r.0) × (h ≡ r.1)) ⊎ (other ≡ ok r)
found_or-eq-ok (some i) h other r e = inl (cc, cc)
found_or-eq-ok none h other r e = inr e

abbrev pub with_new_table : PartitionedHeap → PartitionedHeap
with_new_table h = record h {
  tables = h.tables ++ new_partition_table h.number_of_partitions partition_table_size ∷ [];
  free_partitions = h.free_partitions + 128;
  number_of_partitions = h.number_of_partitions + 128;
  precomputed_heap_size = h.precomputed_heap_size + partition_table_size;
}

added_evacuate :
    (h : PartitionedHeap)
    → IsCounted h
    → h.number_of_partitions < 2 ^ 37
    → (j : ℕ) → h.number_of_partitions ≤ j
    → j < h.number_of_partitions + 128
    → (get_partition j (with_new_table h)).evacuate ≡ false
unfolding new_partition
added_evacuate h c lt j from to =
    let n = h.number_of_partitions in
    let e : n + (j - n) ≡ j = omega arith in
    ap (λ m. (get_partition m (with_new_table h)).evacuate) (sym e)
    ∙ ap (λ q. q.evacuate)
        (entry-append_right h.tables n c.partitions.are partition_table_size (j - n) (omega arith))

with_new_table-Grown :
    (h : PartitionedHeap)
    → IsCounted h
    → h.number_of_partitions < 2 ^ 37
    → Grown h (with_new_table h)
with_new_table-Grown h c lt =
    let n = h.number_of_partitions in
    record {
      counted = record {
        pages = c.pages;
        partitions = append-ArePartitions h.tables n c.partitions lt;
        free_count = omega (arith, c.free_count, append_free h.tables n c.partitions lt);
      };
      number_le = omega arith;
      pages_le = omega arith;
      allocation = refl;
      static = λ j l.
          ap (λ q. q.static_size)
            (entry-append_left h.tables n c.partitions.are partition_table_size j l);
      taken = λ j l _.
          subst (SameUse (entry j h.tables))
            (sym (entry-append_left h.tables n c.partitions.are partition_table_size j l))
            (SameUse-refl (entry j h.tables));
      evacuated = λ j l e. elim (dec_lt j n) [
        | yes before ↦ (
          before,
          ap (λ q. q.evacuate)
                (sym (entry-append_left h.tables n c.partitions.are partition_table_size j before))
              ∙ e,
        )
        | no new ↦ absurd (cc (e, added_evacuate h c lt j (omega arith) l))
      ];
      balance = omega (arith, append_occupied h.tables n c.partitions lt);
    }

module _ (p : Platform) (lim : Limited p) where
  pub add_partition_table-Grown :
      (h k : PartitionedHeap) → IsCounted h → add_partition_table p h ≡ ok k → Grown h k
  unfolding add_partition_table
  add_partition_table-Grown h k c e =
      let ptr = h.number_of_partitions * partition_size + partition_size in
      let (g, got, same) = >>=-eq-ok (grow_memory p ptr h) (λ g. ok (with_new_table g)) e in
      let (grown, tables, number, held) = grow_memory-Grown p lim ptr h g c got in
      let same_ok : k ≡ with_new_table g = cc in
      rw same_ok (
        Grown-trans grown
          (with_new_table-Grown g grown.counted (omega (arith, grown.counted.pages, held, number))))

  -- The partition was found in a heap that has grown.
  pub record Found (find : PartitionedHeap → Option ℕ) (h : PartitionedHeap)
      (r : ℕ × PartitionedHeap) : Type 0 where
    pub grown : Grown h r.1
    pub found : find r.1 ≡ some r.0

  Found-here :
      (find : PartitionedHeap → Option ℕ) (h k : PartitionedHeap) (r : ℕ × PartitionedHeap)
      → Grown h k
      → (find k ≡ some r.0) × (k ≡ r.1)
      → Found find h r
  Found-here find h k r grown (f, same) = record {
    grown = subst (Grown h) same grown;
    found = ap find (sym same) ∙ f;
  }

  pub allocate_partition-Found :
      (find : PartitionedHeap → Option ℕ) (h : PartitionedHeap) (r : ℕ × PartitionedHeap)
      → IsCounted h
      → allocate_partition p find h ≡ ok r
      → Found find h r
  unfolding allocate_partition
  allocate_partition-Found find h r c e = elim (found_or-eq-ok (find h) h _ r e) [
    | inl here ↦
        Found-here find h h r (Grown-fields h h c refl refl refl refl refl (omega arith) c.pages)
          here
    | inr later ↦
        let (k, got, then_found) =
          >>=-eq-ok (add_partition_table p h) (λ k. found_or (find k) k (trap "Cannot grow memory"))
            later in
        elim (found_or-eq-ok (find k) k (trap "Cannot grow memory") r then_found) [
          | inl here ↦ Found-here find h k r (add_partition_table-Grown h k c got) here
          | inr never ↦ absurd (cc never)
        ]
  ]

-- The search of the loop, and what it found.
first_partition-some :
    (test : Partition → Bool) (h : PartitionedHeap) (n i k : ℕ)
    → first_partition test h n i ≡ some k
    → (j : ℕ) × (j < i + n) × (k ≡ (get_partition j h).index) × (test (get_partition j h) ≡ true)
unfolding first_partition
first_partition-some test h zero i k e = absurd (cc e)
first_partition-some test h (suc n) i k e = elim (Bool-cases (test (get_partition i h))) [
  | inl t ↦ (i, omega arith, ground (arith, t), t)
  | inr f ↦
      let (j, lt, at_j, passed) = first_partition-some test h n (i + 1) k (ground (arith, f)) in
      (j, omega arith, at_j, passed)
]

-- The index that a search gives is that of a partition that passes the test.
found_passes :
    (test : Partition → Bool) (h : PartitionedHeap) (k : ℕ)
    → IsCounted h
    → first_partition test h (partition_count h) 0 ≡ some k
    → (k < h.number_of_partitions) × (test (get_partition k h) ≡ true)
found_passes test h k c e =
    let (j, lt, at_j, passed) = first_partition-some test h (partition_count h) 0 k e in
    let j_lt : j < h.number_of_partitions = omega (arith, partition_count-eq h c.partitions) in
    let same : j ≡ k = sym (at_j ∙ c.partitions.index j j_lt) in
    (omega (arith, same), subst (λ i. test (get_partition i h) ≡ true) same passed)

&&-true : (a b : Bool) → a && b ≡ true → (a ≡ true) × (b ≡ true)
&&-true a b e = ground arith

pub scan_for_free_partition-some :
    (size : ℕ) (h : PartitionedHeap) (k : ℕ)
    → IsCounted h
    → scan_for_free_partition size h ≡ some k
    → (k < h.number_of_partitions)
      × ((get_partition k h).free ≡ true)
      × (size ≤ free_size (get_partition k h))
unfolding scan_for_free_partition
scan_for_free_partition-some size h k c e =
    let (lt, passed) = found_passes (λ q. q.free && leb size (free_size q)) h k c e in
    let (a, b) =
      &&-true (get_partition k h).free (leb size (free_size (get_partition k h))) passed in
    (lt, a, leb→le size (free_size (get_partition k h)) b)

pub scan_for_temporary_partition-some :
    (h : PartitionedHeap) (k : ℕ)
    → IsCounted h
    → scan_for_temporary_partition h ≡ some k
    → (k < h.number_of_partitions) × ((get_partition k h).free ≡ true)
unfolding scan_for_temporary_partition is_completely_free
scan_for_temporary_partition-some h k c e =
    let (lt, passed) = found_passes is_completely_free h k c e in (lt, ground (arith, passed))
