-- ===== src/PartitionedHeap/Marked.antt =====
-- Marking an object of a partition with a mark bitmap.
use motoko.Prelude.{
  if_true_eq, if_false_eq, ℕ, ◌+◌, ◌/◌, ◌%◌, ◌^◌, ◌<◌, ◌≡◌, ◌≢◌, inl, inr, refl, sym, ap, ◌∙◌, true,
  false, not, if◌then◌else◌, Bool-cases, arith,
}
use motoko.Prelude.Result.{ok, Returns}
use motoko.StableMem.{Bytes}
use motoko.MarkBitmap.{MarkBitmap, word_size, partition_size, mark, is_marked}
use motoko.MarkBitmap.Laws.{mark_effect, pointer-mark}
use motoko.PartitionedHeap.{Partition}
use motoko.PartitionedHeap.Tables.{PartitionedHeap, get_partition, change_partition}
use motoko.PartitionedHeap.Tables.Entries.{entry-change_self, entry-change_ne, change_field}
use motoko.PartitionedHeap.Large.{byte_size}
use motoko.PartitionedHeap.Marking.{bitmap_of, mark_object, is_object_marked}
use motoko.PartitionedHeap.Invariant.{IsHeap}
use motoko.PartitionedHeap.Changed.{change-IsHeap}

-- The object is marked in `k`, which comes from `h`: no other mark of its partition has changed, no
-- other partition, and the partition's live size counts the object once.
pub record IsMarked (h : PartitionedHeap) (object size : ℕ) (k : PartitionedHeap) : Type 0 where
  pub heap : IsHeap k
  pub marked : is_object_marked object k ≡ true
  pub others :
      (other : ℕ)
      → other / partition_size ≡ object / partition_size
      → other % word_size ≡ 0
      → other ≢ object
      → is_object_marked other k ≡ is_object_marked other h
  pub elsewhere : (j : ℕ) → object / partition_size ≢ j → get_partition j k ≡ get_partition j h
  pub live_size : (get_partition (object / partition_size) k).marked_size ≡ (
      if is_object_marked object h
      then (get_partition (object / partition_size) h).marked_size
      else ((get_partition (object / partition_size) h).marked_size + size) % 2 ^ 64)
  pub again : mark_object object k ≡ ok (false, k)

module _ (h : PartitionedHeap) (object size : ℕ) (is : IsHeap h)
    (lt : object / partition_size < h.number_of_partitions)
    (normal : (get_partition (object / partition_size) h).large_content ≡ false)
    (whole : object % word_size ≡ 0) where
  abbrev i : ℕ
  i = object / partition_size

  abbrev offset : ℕ
  offset = object % partition_size

  -- In a partition with a bitmap, the mark is the bit.
  mark_bit :
      (k : PartitionedHeap) (other : ℕ)
      → other / partition_size ≡ i
      → (get_partition i k).large_content ≡ false
      → is_object_marked other k ≡ is_marked (other % partition_size) (bitmap_of i k)
  unfolding is_object_marked
  mark_bit k other at n =
      if_false_eq _ _ _ (ap (λ j. (get_partition j k).large_content) at ∙ n)
      ∙ ap (λ j. is_marked (other % partition_size) (bitmap_of j k)) at

  mark_again :
      (k : PartitionedHeap)
      → (get_partition i k).large_content ≡ false
      → is_marked offset (bitmap_of i k) ≡ true
      → mark_object object k ≡ ok (false, k)
  unfolding mark_object
  mark_again k n e = if_false_eq _ _ _ n ∙ if_true_eq _ _ _ e

  abbrev add_size : Partition → Partition
  add_size p = record p { marked_size = (p.marked_size + size) % 2 ^ 64 }

  abbrev bits : Bytes
  bits = (mark offset (bitmap_of i h)).memory

  abbrev marked_heap : PartitionedHeap
  marked_heap = change_partition i add_size (record h { memory = bits })

  field_same :
      {B : Type 0} (g : Partition → B)
      → g (add_size (get_partition i h)) ≡ g (get_partition i h)
      → (j : ℕ) → g (get_partition j marked_heap) ≡ g (get_partition j h)
  field_same = change_field h.tables h.number_of_partitions is.partitions.are i lt add_size

  marked_heap-IsHeap : IsHeap marked_heap
  marked_heap-IsHeap =
      let p = is.partitions.each i lt in
      change-IsHeap h marked_heap i add_size is lt refl refl refl refl refl
        (record {
          room = p.room;
          no_objects = p.no_objects;
          no_large = p.no_large;
          no_bitmaps = p.no_bitmaps;
          not_evacuated = p.not_evacuated;
        })
        (field_same (λ q. q.free) refl h.allocation_index ∙ is.allocation_taken)
        (field_same (λ q. q.temporary) refl h.allocation_index ∙ is.allocation_objects) refl
        (omega (arith, field_same (λ q. q.dynamic_size) refl h.allocation_index))

  abbrev bitmap_at : Bytes → ℕ → MarkBitmap
  bitmap_at memory pointer = record { memory = memory; pointer = pointer }

  -- The bitmap of the marked heap is that of the heap with the mark.
  marked_bitmap : bitmap_of i marked_heap ≡ mark offset (bitmap_of i h)
  marked_bitmap =
      ap (bitmap_at bits)
        (field_same (λ q. q.bitmap) refl i ∙ sym (pointer-mark offset (bitmap_of i h)))

  was_unmarked : is_marked offset (bitmap_of i h) ≡ false → IsMarked h object size marked_heap
  was_unmarked e =
      let n = field_same (λ q. q.large_content) refl i ∙ normal in
      let bit : is_marked offset (bitmap_of i marked_heap) ≡ true =
        ap (is_marked offset) marked_bitmap
        ∙ (mark_effect offset (offset + word_size) (bitmap_of i h) (omega (arith, whole))
            (omega (arith, whole)) (λ same. absurd (omega (arith, same)))).0 in
      record {
        heap = marked_heap-IsHeap;
        marked = mark_bit marked_heap object refl n ∙ bit;
        others = λ other at w ne.
            mark_bit marked_heap other at n
            ∙ ap (is_marked (other % partition_size)) marked_bitmap
            ∙ (mark_effect offset (other % partition_size) (bitmap_of i h) (omega (arith, whole))
                (omega arith) (λ same. ne (omega (arith, same)))).1
            ∙ sym (mark_bit h other at normal);
        elsewhere = entry-change_ne h.tables h.number_of_partitions is.partitions.are i lt add_size;
        live_size =
            ap (λ q. q.marked_size)
              (entry-change_self h.tables h.number_of_partitions is.partitions.are i lt add_size)
            ∙ sym (
                if_false_eq _ (get_partition i h).marked_size
                  (((get_partition i h).marked_size + size) % 2 ^ 64)
                  (mark_bit h object refl normal ∙ e));
        again = mark_again marked_heap n bit;
      }

  -- Marking an object whose partition holds no large object and whose size is `size`, in a heap that
  -- satisfies its invariant, ends without a trap and says whether the object was not marked before.
  -- Then it is marked, no other mark of the partition and no other partition has changed, the live size
  -- counts the object once, as a word of 64 bits, the invariant holds, and marking the object again
  -- changes nothing.
  pub mark_object-IsMarked :
      byte_size bits object ≡ ok size
      → Returns
          (λ r. (r.0 ≡ not (is_object_marked object h)) × IsMarked h object size r.1)
          (mark_object object h)
  unfolding mark_object
  mark_object-IsMarked sized = elim (Bool-cases (is_marked offset (bitmap_of i h))) [
    | inl marked ↦
        let was = mark_bit h object refl normal ∙ marked in
        (
          (false, h),
          mark_again h normal marked,
          (
            ap not (sym was),
            record {
              heap = is;
              marked = was;
              others = λ other at w ne. refl;
              elsewhere = λ j ne. refl;
              live_size = rw was refl;
              again = mark_again h normal marked;
            },
          ),
        )
    | inr unmarked ↦ (
      (true, marked_heap),
      if_false_eq _ _ _ normal ∙ if_false_eq _ _ _ unmarked ∙ rw sized refl,
      (ap not (sym (mark_bit h object refl normal ∙ unmarked)), was_unmarked unmarked),
    )
  ]
