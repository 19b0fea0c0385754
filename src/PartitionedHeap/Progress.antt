-- ===== src/PartitionedHeap/Progress.antt =====
-- On a platform that gives memory, the searches and the growth of the memory do not trap.
use motoko.Prelude.{
  ge→ltb, if_true_eq, if_false_eq, ℕ, ◌+◌, ◌-◌, ◌*◌, ◌%◌, ◌^◌, ◌≤◌, ◌<◌, ◌≡◌, inl, inr, refl, ap,
  ◌∙◌, subst, Option, none, some, true, ◌&&◌, ltb, Bool-cases, Option-cases, dec_lt, arith,
}
use motoko.Prelude.Result.{ok, Returns}
use motoko.MarkBitmap.{partition_size}
use motoko.PartitionedHeap.{partition_table_size, free_size, is_completely_free}
use motoko.PartitionedHeap.Memory.{
  guaranteed_memory_capacity, Platform, grow_pages, allocate_wasm_memory, total_pages_needed,
}
use motoko.PartitionedHeap.Tables.{
  PartitionedHeap, new_partition, static_space_at, grow_memory, add_partition_table,
}
use motoko.PartitionedHeap.Tables.Entries.{entry-append_right}
use motoko.PartitionedHeap.Allocate.{allocate_partition, intra_partition_memory_grow}
use motoko.PartitionedHeap.Invariant.{most_pages}
use motoko.PartitionedHeap.Grown.{IsCounted}
use motoko.PartitionedHeap.Granted.{Limited, grow_pages-Holds, allocate_wasm_memory-Holds}
use motoko.PartitionedHeap.Found.{with_new_table, add_partition_table-Grown}
use motoko.PartitionedHeap.Space.{CompletelyFree, FreeRange}

-- The platform gives what is asked for, up to 2 ^ 63 bytes, and the reserve is not more than 4 GB.
pub record IsGenerous (p : Platform) : Type 0 where
  pub limited : Limited p
  pub gives : (present more : ℕ) → present + more ≤ most_pages → p.grants present more ≡ true
  pub reserve : p.memory_reserve ≤ 2 ^ 32

allocate_wasm_memory-Returns :
    (p : Platform) (size pages : ℕ)
    → IsGenerous p
    → size ≤ 2 ^ 62
    → pages ≤ most_pages
    → Returns (λ _. Unit {0}) (allocate_wasm_memory p size pages)
unfolding allocate_wasm_memory
allocate_wasm_memory-Returns p size pages g le most =
    let given = g.gives pages (total_pages_needed size - pages) in
    elim (dec_lt pages (total_pages_needed size)) [
      | yes more ↦ (total_pages_needed size, ground (arith, given (omega arith), more, le), tt)
      | no enough ↦ (pages, ground (arith, enough, le), tt)
    ]

grow_pages-Returns :
    (p : Platform) (ptr pages : ℕ)
    → IsGenerous p
    → ptr ≤ 2 ^ 61
    → pages ≤ most_pages
    → Returns (λ _. Unit {0}) (grow_pages p ptr pages)
unfolding grow_pages
grow_pages-Returns p ptr pages g le most =
    let (n, e, _) = allocate_wasm_memory-Returns p ptr pages g (omega arith) most in
    let (m, f, _) =
      allocate_wasm_memory-Returns p (ptr + p.memory_reserve) pages g (omega (arith, g.reserve))
        most in
    elim (Bool-cases (
      p.keep_memory_reserve
      && ltb ((guaranteed_memory_capacity + 2 ^ 64 - p.memory_reserve) % 2 ^ 64) ptr)) [
        | inr without ↦ (n, if_false_eq _ _ _ without ∙ e, tt)
        | inl keeps ↦ (
          m,
          if_true_eq _ _ _ keeps
              ∙ if_false_eq _ _ _
                  (ge→ltb (2 ^ 64 - 1 - p.memory_reserve) ptr (omega (arith, g.reserve)))
              ∙ f,
          tt,
        )
      ]

-- More memory, and nothing else.
abbrev pub MorePages : PartitionedHeap → PartitionedHeap → Type 0
MorePages h k = (n : ℕ) × (k ≡ record h { pages = n }) × (n ≤ most_pages)

module _ (p : Platform) (g : IsGenerous p) where
  pub grow_memory-Returns :
      (ptr : ℕ) (h : PartitionedHeap)
      → ptr ≤ 2 ^ 61
      → h.pages ≤ most_pages
      → Returns (MorePages h) (grow_memory p ptr h)
  unfolding grow_memory
  grow_memory-Returns ptr h le most =
      let (n, e, _) = grow_pages-Returns p ptr h.pages g le most in
      let holds = grow_pages-Holds p ptr h.pages n g.limited most e in
      (record h { pages = n }, rw e refl, (n, refl, holds.limit))

  pub intra_partition_memory_grow-Returns :
      (ptr : ℕ) (h : PartitionedHeap)
      → ptr ≤ 2 ^ 61
      → h.pages ≤ most_pages
      → Returns (MorePages h) (intra_partition_memory_grow p ptr h)
  unfolding intra_partition_memory_grow
  intra_partition_memory_grow-Returns ptr h le most =
      let (n, e, _) = allocate_wasm_memory-Returns p ptr h.pages g (omega arith) most in
      let holds = allocate_wasm_memory-Holds p ptr h.pages n g.limited most e in
      (record h { pages = n }, rw e refl, (n, refl, holds.limit))

  -- All but the first partition of a new table are completely free.
  new_table-FreeRange :
      (h : PartitionedHeap)
      → IsCounted h
      → h.number_of_partitions < 2 ^ 37
      → FreeRange (with_new_table h) 127 (h.number_of_partitions + 1)
  unfolding is_completely_free free_size new_partition static_space_at
  new_table-FreeRange h c lt = record {
    within = omega arith;
    free = λ i l u.
        let n = h.number_of_partitions in
        let e : n + (i - n) ≡ i = omega arith in
        subst (CompletelyFree (with_new_table h)) e (
          ap is_completely_free (
            entry-append_right h.tables n c.partitions.are partition_table_size (i - n)
              (omega arith))
          ∙ ground arith);
  }

  -- The heap with one more table, which has 127 free partitions in a row.
  record Extended (h k : PartitionedHeap) : Type 0 where
    counted : IsCounted k
    number : k.number_of_partitions ≡ h.number_of_partitions + 128
    range : FreeRange k 127 (h.number_of_partitions + 1)

  add_partition_table-Returns :
      (h : PartitionedHeap)
      → IsCounted h
      → h.number_of_partitions < 2 ^ 34
      → Returns (Extended h) (add_partition_table p h)
  unfolding add_partition_table
  add_partition_table-Returns h c lt =
      let ptr = h.number_of_partitions * partition_size + partition_size in
      let (k, grew, (n, same, most)) = grow_memory-Returns ptr h (omega arith) c.pages in
      let k' = record h { pages = n } in
      let c' : IsCounted k' = record {
        pages = most;
        partitions = c.partitions;
        free_count = c.free_count;
      } in
      let got : add_partition_table p h ≡ ok (with_new_table k') =
        rw grew (ap (λ x. ok (with_new_table x)) same) in
      (
        with_new_table k',
        got,
        record {
          counted = (add_partition_table-Grown p g.limited h (with_new_table k') c got).counted;
          number = refl;
          range = new_table-FreeRange k' c' (omega arith);
        },
      )

  -- A search that succeeds where there are 127 free partitions in a row.
  abbrev pub Complete : (PartitionedHeap → Option ℕ) → Type 0
  Complete find =
      (k : PartitionedHeap) (b : ℕ) → IsCounted k → FreeRange k 127 b → (i : ℕ) × (find k ≡ some i)

  abbrev pub MorePartitions : PartitionedHeap → ℕ × PartitionedHeap → Type 0
  MorePartitions h r = r.1.number_of_partitions ≤ h.number_of_partitions + 128

  pub allocate_partition-Returns :
      (find : PartitionedHeap → Option ℕ) (h : PartitionedHeap)
      → Complete find
      → IsCounted h
      → h.number_of_partitions < 2 ^ 34
      → Returns (MorePartitions h) (allocate_partition p find h)
  unfolding allocate_partition
  allocate_partition-Returns find h complete c lt = elim (Option-cases (find h)) [
    | inr (i, e) ↦ ((i, h), rw e refl, omega arith)
    | inl e ↦ extended e (add_partition_table-Returns h c lt)
  ]
    where
      extended :
          find h ≡ none
          → Returns (Extended h) (add_partition_table p h)
          → Returns (MorePartitions h) (allocate_partition p find h)
      extended e (k, got, x) =
          let (i, found) = complete k (h.number_of_partitions + 1) x.counted x.range in
          ((i, k), rw (e, got, found) refl, omega (arith, x.number))
