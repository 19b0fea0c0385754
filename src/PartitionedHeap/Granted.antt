-- ===== src/PartitionedHeap/Granted.antt =====
-- What a growth of the memory gives.
use motoko.Prelude.{ℕ, ◌+◌, ◌-◌, ◌*◌, ◌≤◌, ◌≡◌, refl, true, arith}
use motoko.Prelude.Result.{ok, >>=-eq-ok}
use motoko.StableMem.{page_size}
use motoko.PartitionedHeap.Memory.{Platform, grow_pages, allocate_wasm_memory, total_pages_needed}
use motoko.PartitionedHeap.Tables.{PartitionedHeap, grow_memory}
use motoko.PartitionedHeap.Allocate.{intra_partition_memory_grow}
use motoko.PartitionedHeap.Invariant.{most_pages}
use motoko.PartitionedHeap.Grown.{IsCounted, Grown, Grown-fields}

-- The platform never gives more than 2 ^ 63 bytes.
abbrev pub Limited : Platform → Type 0
Limited p = (present more : ℕ) → p.grants present more ≡ true → present + more ≤ most_pages

-- The memory that was asked for is there, and no less than before.
pub record Holds (size pages pages' : ℕ) : Type 0 where
  pub enough : size ≤ pages' * page_size
  pub pages_le : pages ≤ pages'
  pub limit : pages' ≤ most_pages

pub allocate_wasm_memory-Holds :
    (p : Platform) (size pages pages' : ℕ)
    → Limited p
    → pages ≤ most_pages
    → allocate_wasm_memory p size pages ≡ ok pages'
    → Holds size pages pages'
unfolding allocate_wasm_memory
allocate_wasm_memory-Holds p size pages pages' lim most h =
    ground (arith, lim pages (total_pages_needed size - pages))

pub grow_pages-Holds :
    (p : Platform) (ptr pages pages' : ℕ)
    → Limited p
    → pages ≤ most_pages
    → grow_pages p ptr pages ≡ ok pages'
    → Holds ptr pages pages'
unfolding grow_pages
grow_pages-Holds p ptr pages pages' lim most h = ground (
  arith,
  allocate_wasm_memory-Holds p ptr pages pages' lim,
  allocate_wasm_memory-Holds p (ptr + p.memory_reserve) pages pages' lim,
)

pub grow_memory-Holds :
    (p : Platform) (ptr : ℕ) (h k : PartitionedHeap)
    → Limited p
    → h.pages ≤ most_pages
    → grow_memory p ptr h ≡ ok k
    → (n : ℕ) × (k ≡ record h { pages = n }) × Holds ptr h.pages n
unfolding grow_memory
grow_memory-Holds p ptr h k lim most e =
    let (pages, got, same) =
      >>=-eq-ok (grow_pages p ptr h.pages) (λ n. ok (record h { pages = n })) e in
    (pages, cc, grow_pages-Holds p ptr h.pages pages lim most got)

pub intra_partition_memory_grow-Holds :
    (p : Platform) (ptr : ℕ) (h k : PartitionedHeap)
    → Limited p
    → h.pages ≤ most_pages
    → intra_partition_memory_grow p ptr h ≡ ok k
    → (n : ℕ) × (k ≡ record h { pages = n }) × Holds ptr h.pages n
unfolding intra_partition_memory_grow
intra_partition_memory_grow-Holds p ptr h k lim most e =
    let (pages, got, same) =
      >>=-eq-ok (allocate_wasm_memory p ptr h.pages) (λ n. ok (record h { pages = n })) e in
    (pages, cc, allocate_wasm_memory-Holds p ptr h.pages pages lim most got)

module _ (p : Platform) (lim : Limited p) (ptr : ℕ) (h k : PartitionedHeap) (c : IsCounted h) where
  pub grow_memory-Grown :
      grow_memory p ptr h ≡ ok k
      → Grown h k
        × (k.tables ≡ h.tables)
        × (k.number_of_partitions ≡ h.number_of_partitions)
        × (ptr ≤ k.pages * page_size)
  grow_memory-Grown e =
      let (pages, same, holds) = grow_memory-Holds p ptr h k lim c.pages e in
      rw same (
        Grown-fields h (record h { pages = pages }) c refl refl refl refl refl holds.pages_le
            holds.limit,
        refl,
        refl,
        holds.enough,
      )
