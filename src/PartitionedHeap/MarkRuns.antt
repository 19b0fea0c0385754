-- ===== src/PartitionedHeap/MarkRuns.antt =====
-- A blob of 16 bytes at the base of a heap, in a partition whose bitmap lies in the fourth partition.
use motoko.Prelude.{ℕ, ◌+◌, ◌*◌, ◌<◌, ◌≡◌, refl, ◌∙◌, false, ◌==◌, if◌then◌else◌, arith, not}
use motoko.Prelude.Result.{Returns}
use motoko.StableMem.{read_word, from_le_bytes, read}
use motoko.MarkBitmap.{assign, mark, partition_size}
use motoko.PartitionedHeap.{Partition}
use motoko.PartitionedHeap.Tables.{PartitionedHeap, entry, change_entry, get_partition, new_heap}
use motoko.PartitionedHeap.Tables.Entries.{change_field}
use motoko.PartitionedHeap.BlockSize.{block_size}
use motoko.PartitionedHeap.Allocate.{assign_bitmap}
use motoko.PartitionedHeap.Large.{byte_size}
use motoko.PartitionedHeap.Marking.{mark_object, is_object_marked}
use motoko.PartitionedHeap.Invariant.{IsHeap}
use motoko.PartitionedHeap.Changed.{change-IsHeap}
use motoko.PartitionedHeap.Start.{new_heap-IsHeap}
use motoko.PartitionedHeap.Marked.{IsMarked, mark_object-IsMarked}

abbrev base : ℕ
base = 4 * 1024 * 1024

abbrev memory : ℕ → ℕ
memory a = if a == base then 25 else if a == base + 16 then 16 else 0

abbrev start : PartitionedHeap
start = new_heap base memory 4096

start-IsHeap : IsHeap start
start-IsHeap = new_heap-IsHeap base memory 4096 (omega arith) (omega arith)

abbrev heap : PartitionedHeap
heap = assign_bitmap 0 (3 * partition_size) start

start_allocation : start.allocation_index ≡ 0
unfolding new_heap
start_allocation = refl

abbrev set_bitmap : Partition → Partition
set_bitmap q = record q { bitmap = 3 * partition_size }

start_lt : 0 < start.number_of_partitions
start_lt = omega (arith, start-IsHeap.allocation_lt)

kept :
    {B : Type 0} (g : Partition → B)
    → g (set_bitmap (get_partition 0 start)) ≡ g (get_partition 0 start)
    → (j : ℕ) → g (entry j (change_entry 0 set_bitmap start.tables)) ≡ g (get_partition j start)
kept =
    change_field start.tables start.number_of_partitions start-IsHeap.partitions.are 0 start_lt
      set_bitmap

heap-IsHeap : IsHeap heap
unfolding assign_bitmap assign
heap-IsHeap =
    let is = start-IsHeap in
    let p = is.partitions.each 0 start_lt in
    change-IsHeap start heap 0 set_bitmap is start_lt refl refl refl refl refl
      (record {
        room = p.room;
        no_objects = p.no_objects;
        no_large = p.no_large;
        no_bitmaps = p.no_bitmaps;
        not_evacuated = p.not_evacuated;
      })
      (kept (λ q. q.free) refl start.allocation_index ∙ is.allocation_taken)
      (kept (λ q. q.temporary) refl start.allocation_index ∙ is.allocation_objects) refl
      (omega (arith, kept (λ q. q.dynamic_size) refl start.allocation_index))

normal : (get_partition 0 heap).large_content ≡ false
unfolding assign_bitmap assign new_heap entry change_entry
normal = refl

mark_object-IsMarked_example :
    Returns
      (λ r. (r.0 ≡ not (is_object_marked base heap)) × IsMarked heap base 40 r.1)
      (mark_object base heap)
unfolding assign_bitmap assign mark new_heap entry change_entry byte_size block_size read_word
    from_le_bytes read
mark_object-IsMarked_example =
    mark_object-IsMarked heap base 40 heap-IsHeap (omega (arith, heap-IsHeap.allocation_lt)) normal
      (omega arith) refl
