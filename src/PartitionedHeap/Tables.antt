-- ===== src/PartitionedHeap/Tables.antt =====
-- rts/motoko-rts/src/gc/incremental/partitioned_heap.rs: the heap's record, and the linked tables that
-- its partitions stand in.
pub mod Entries
use motoko.Prelude.{
  ℕ, zero, suc, ◌+◌, ◌-◌, ◌*◌, ◌/◌, ◌%◌, ◌^◌, Bool, true, false, List, [], ◌∷◌, ◌++◌, length,
  get_or, set, ltb, leb, ◌==◌, if◌then◌else◌, min,
}
use motoko.Prelude.Result.{Result, ok, trap, ◌>>=◌}
use motoko.StableMem.{Bytes}
use motoko.MarkBitmap.{partition_size}
use motoko.PartitionedHeap.{
  partitions_per_table, partition_table_size, minus, Partition, start_address,
}
use motoko.PartitionedHeap.Memory.{Platform, grow_pages}

-- The entries of a partition table; `extension` is the next table of the list.
abbrev pub PartitionTable : Type 0
PartitionTable = List Partition

abbrev pub uninitialized_partition : Partition
uninitialized_partition = record {
  index = 2 ^ 64 - 1;
  free = false;
  large_content = false;
  marked_size = 0;
  static_size = 0;
  dynamic_size = 0;
  bitmap = 0;
  temporary = false;
  evacuate = false;
  update = false;
}

unfoldable pub static_space_at : ℕ → ℕ → ℕ
static_space_at offset static_space =
    if ltb offset (static_space / partition_size)
    then partition_size
    else if offset == static_space / partition_size
    then static_space % partition_size
    else 0

unfoldable pub new_partition : ℕ → ℕ → ℕ → Partition
unfolding static_space_at
new_partition start_index static_space offset = record {
  index = start_index + offset;
  free = true;
  large_content = false;
  marked_size = 0;
  static_size = static_space_at offset static_space;
  dynamic_size = 0;
  bitmap = 0;
  temporary = false;
  evacuate = false;
  update = false;
}

-- `n` entries by their offset, from `offset` on.
unfoldable pub from_fn {ℓ} : {A : Type ℓ} → (ℕ → A) → ℕ → ℕ → List A
from_fn f offset zero = []
from_fn f offset (suc n) = f offset ∷ from_fn f (offset + 1) n

-- `PartitionTable::new`
unfoldable pub new_partition_table : ℕ → ℕ → PartitionTable
unfolding new_partition from_fn
new_partition_table start_index static_space =
    from_fn (new_partition start_index static_space) 0 partitions_per_table

-- With the memory of the heap and its pages. The first table stands in the record, the others in
-- static space; no other part of the heap reads them there.
pub record PartitionedHeap : Type 0 where
  pub tables : List PartitionTable
  pub number_of_partitions : ℕ
  pub heap_base : ℕ
  pub allocation_index : ℕ
  pub free_partitions : ℕ
  pub evacuating : Bool
  pub reclaimed : ℕ
  pub bitmap_allocation_pointer : ℕ
  pub gc_running : Bool
  pub precomputed_heap_size : ℕ
  pub evacuated_size : ℕ
  pub memory : Bytes
  pub pages : ℕ

-- The number of the table in the list, one step for each table that is passed.
unfoldable pub get_extension_table : ℕ → ℕ → ℕ
get_extension_table zero index = 1
get_extension_table (suc fuel) index =
    if leb partitions_per_table index
    then 1 + get_extension_table fuel (index - partitions_per_table)
    else 1

unfoldable pub get_partition_table : ℕ → ℕ
unfolding get_extension_table
get_partition_table partition_index =
    if ltb partition_index partitions_per_table
    then 0
    else get_extension_table partition_index (partition_index - partitions_per_table)

-- The entry of a partition in the tables, and the tables after a change of it.
unfoldable pub entry : ℕ → List PartitionTable → Partition
unfolding get_partition_table
entry index tables =
    get_or (get_or tables (get_partition_table index) []) (index % partitions_per_table)
      uninitialized_partition

unfoldable pub change_entry :
    ℕ → (Partition → Partition) → List PartitionTable → List PartitionTable
unfolding get_partition_table entry
change_entry index change tables = set tables (get_partition_table index) (
    set (get_or tables (get_partition_table index) []) (index % partitions_per_table)
      (change (entry index tables)))

abbrev pub get_partition : ℕ → PartitionedHeap → Partition
get_partition index heap = entry index heap.tables

-- `mutable_partition`, with the change of the partition.
abbrev pub change_partition : ℕ → (Partition → Partition) → PartitionedHeap → PartitionedHeap
change_partition index change heap = record heap { tables = change_entry index change heap.tables }

unfoldable pub grow_memory : Platform → ℕ → PartitionedHeap → Result PartitionedHeap
unfolding grow_pages
grow_memory platform ptr heap = do
  pages ← grow_pages platform ptr heap.pages
  ok (record heap { pages = pages })

-- The partitions up to the heap's base are taken.
unfoldable pub take_partitions : ℕ → PartitionTable → PartitionTable
take_partitions zero table = table
take_partitions (suc n) [] = []
take_partitions (suc n) (p ∷ table) = record p { free = false } ∷ take_partitions n table

-- `PartitionedHeap::new`, in a memory.
unfoldable pub new_heap : ℕ → Bytes → ℕ → PartitionedHeap
unfolding take_partitions new_partition_table minus
new_heap heap_base memory pages =
    let allocation_index = heap_base / partition_size in
    record {
      tables = take_partitions (allocation_index + 1) (new_partition_table 0 heap_base) ∷ [];
      number_of_partitions = partitions_per_table;
      heap_base = heap_base;
      allocation_index = allocation_index;
      free_partitions = minus (minus partitions_per_table allocation_index) 1;
      evacuating = false;
      reclaimed = 0;
      bitmap_allocation_pointer = 0;
      gc_running = false;
      precomputed_heap_size = heap_base;
      evacuated_size = 0;
      memory = memory;
      pages = pages;
    }

unfoldable pub add_partition_table : Platform → PartitionedHeap → Result PartitionedHeap
unfolding grow_memory new_partition_table
add_partition_table platform heap =
    let table_address = heap.number_of_partitions * partition_size in
    do
      heap ← grow_memory platform (table_address + partition_size) heap
      ok (record heap {
        tables =
            heap.tables ++ new_partition_table heap.number_of_partitions partition_table_size ∷ [];
        free_partitions = heap.free_partitions + partitions_per_table;
        number_of_partitions = heap.number_of_partitions + partitions_per_table;
        precomputed_heap_size = heap.precomputed_heap_size + partition_table_size;
      })

abbrev pub allocation_partition : PartitionedHeap → Partition
allocation_partition heap = get_partition heap.allocation_index heap

abbrev pub occupied_size : PartitionedHeap → ℕ
occupied_size heap = heap.precomputed_heap_size + (allocation_partition heap).dynamic_size

-- The partitions that `partitions()` visits: those of the tables, up to MAX_PARTITIONS.
abbrev pub last_partition : ℕ
last_partition = (2 ^ 64 - 1) / partition_size

unfoldable pub partition_count : PartitionedHeap → ℕ
partition_count heap = min (partitions_per_table * length heap.tables) (last_partition + 1)
