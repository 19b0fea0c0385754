-- ===== src/PartitionedHeap/Objects.antt =====
-- An allocated object gets space that was not in use, and the heap keeps its invariant.
use motoko.Prelude.{
  if_true, if_false, ℕ, ◌+◌, ◌*◌, ◌≤◌, ◌≡◌, inl, inr, refl, sym, ap, ◌∙◌, subst, true, leb,
  Bool-cases, arith, leb→le,
}
use motoko.Prelude.Result.{ok, >>=-eq-ok}
use motoko.StableMem.{page_size}
use motoko.MarkBitmap.{partition_size}
use motoko.PartitionedHeap.{minus, end_address, dynamic_space_end}
use motoko.PartitionedHeap.Memory.{Platform}
use motoko.PartitionedHeap.Tables.{
  PartitionedHeap, entry, get_partition, change_partition, grow_memory, allocation_partition,
}
use motoko.PartitionedHeap.Allocate.{
  allocate_normal_object, allocate_in_new_partition, allocate_free_partition,
  intra_partition_memory_grow, fill,
}
use motoko.PartitionedHeap.Invariant.{IsHeap, occupied_sum}
use motoko.PartitionedHeap.Grown.{IsCounted, Grown, Grown-trans, Grown-fields, minus-eq}
use motoko.PartitionedHeap.Granted.{
  Limited, Holds, grow_memory-Holds, intra_partition_memory_grow-Holds,
}
use motoko.PartitionedHeap.Fresh.{IsFresh, allocate_free_partition-IsFresh}
use motoko.PartitionedHeap.Placed.{
  Used, InUse, Allocated, IsHeap-IsCounted, filled, filled-Allocated,
}

-- Only the tables count for what is in use.
rw_use :
    (h h' : PartitionedHeap)
    → h'.tables ≡ h.tables
    → h'.number_of_partitions ≡ h.number_of_partitions
    → (a : ℕ) → ¬ InUse h' a
    → ¬ InUse h a
rw_use h h' t n a not (j, l, u) =
    not (j, omega (arith, n), subst (λ ts. Used (entry j ts) a) (sym t) u)

use_rw :
    (h h' : PartitionedHeap)
    → h'.tables ≡ h.tables
    → h'.number_of_partitions ≡ h.number_of_partitions
    → (a : ℕ) → InUse h a
    → InUse h' a
use_rw h h' t n a (j, l, u) = (j, omega (arith, n), subst (λ ts. Used (entry j ts) a) (sym t) u)

occupied_same :
    (h h' : PartitionedHeap)
    → h'.tables ≡ h.tables
    → h'.number_of_partitions ≡ h.number_of_partitions
    → occupied_sum h'.tables h'.number_of_partitions ≡ occupied_sum h.tables h.number_of_partitions
occupied_same h h' t n = rw (t, n) refl

-- More pages of memory.
more_pages-Grown :
    (k : PartitionedHeap) (n : ℕ) {size : ℕ}
    → IsCounted k
    → Holds size k.pages n
    → Grown k (record k { pages = n })
more_pages-Grown k n c holds =
    Grown-fields k (record k { pages = n }) c refl refl refl refl refl holds.pages_le holds.limit

more_pages-IsFresh :
    (h : PartitionedHeap) (size i : ℕ) (k : PartitionedHeap) (n : ℕ) {bytes : ℕ}
    → IsFresh h size i k
    → Holds bytes k.pages n
    → IsFresh h size i (record k { pages = n })
more_pages-IsFresh h size i k n fresh holds = record {
  grown = Grown-trans fresh.grown (more_pages-Grown k n fresh.grown.counted holds);
  lt = fresh.lt;
  before = fresh.before;
  taken = fresh.taken;
  no_objects = fresh.no_objects;
  no_bitmaps = fresh.no_bitmaps;
  room = fresh.room;
}

-- The object in a partition that is new for objects. `h'` has the size of the heap without one.
new_placed :
    (h h' k : PartitionedHeap) (size i address : ℕ)
    → IsHeap h
    → (h'.tables ≡ h.tables)
    → (h'.number_of_partitions ≡ h.number_of_partitions)
    → (h'.precomputed_heap_size
        ≡ h.precomputed_heap_size + (get_partition h.allocation_index h).dynamic_size)
    → IsCounted h'
    → IsFresh h' size i k
    → address ≡ dynamic_space_end (get_partition i k)
    → address + size ≤ k.pages * page_size
    → Allocated h size address (filled k size i)
new_placed h h' k size i address is t n p c fresh e held =
    let grown = fresh.grown in
    let placed =
      filled-Allocated h' k size i c grown fresh.lt
        (λ l. (
          (c.partitions.each i l).no_bitmaps (fresh.before l),
          (c.partitions.each i l).no_objects (fresh.before l) ∙ sym fresh.no_objects,
        ))
        fresh.taken fresh.no_bitmaps (omega (arith, fresh.room, fresh.no_objects))
        (omega (arith, grown.balance, fresh.no_objects, p, is.size, occupied_same h h' t n))
        (omega (arith, held, e)) in
    subst (λ a. Allocated h size a (filled k size i)) (sym e)
      (record {
        heap = placed.heap;
        unused = λ a from to. rw_use h h' t n a (placed.unused a from to);
        used = placed.used;
        keeps = λ a u. placed.keeps a (use_rw h h' t n a u);
        evacuated = λ j l ev.
            let (l', ev') = placed.evacuated j l ev in
            (omega (arith, n), subst (λ ts. (entry j ts).evacuate ≡ true) t ev');
        granted = placed.granted;
      })

module _ (p : Platform) (lim : Limited p) (h : PartitionedHeap) (is : IsHeap h) where
  abbrev c : IsCounted h
  c = IsHeap-IsCounted h is

  abbrev emptied : PartitionedHeap
  emptied = record h {
    precomputed_heap_size = h.precomputed_heap_size + (allocation_partition h).dynamic_size;
  }

  emptied-IsCounted : IsCounted emptied
  emptied-IsCounted = record {
    pages = is.pages;
    partitions = is.partitions;
    free_count = is.free_count;
  }

  allocate_in_new_partition-Allocated :
      (size : ℕ) (r : ℕ × PartitionedHeap)
      → allocate_in_new_partition p size h ≡ ok r
      → Allocated h size r.0 r.1
  unfolding allocate_in_new_partition
  allocate_in_new_partition-Allocated size r e =
      let (s, got, rest) = >>=-eq-ok (allocate_free_partition p size emptied) _ e in
      let fresh = allocate_free_partition-IsFresh p emptied size s lim emptied-IsCounted got in
      let end = dynamic_space_end (get_partition s.0 s.1) in
      let (k, grew, same) = >>=-eq-ok (grow_memory p (end + size) s.1) _ rest in
      let (n, at_k, holds) =
        grow_memory-Holds p (end + size) s.1 k lim fresh.grown.counted.pages grew in
      let g : PartitionedHeap = record s.1 { pages = n } in
      subst (λ (t : ℕ × PartitionedHeap). Allocated h size t.0 t.1)
        (ap (λ (k : PartitionedHeap). (end, filled k size s.0)) (sym at_k) ∙ cc same)
        (new_placed h emptied g size s.0 end is refl refl refl emptied-IsCounted
          (more_pages-IsFresh emptied size s.0 s.1 n fresh holds) refl holds.enough)

  pub allocate_normal_object-Allocated :
      (size : ℕ) (r : ℕ × PartitionedHeap)
      → size ≤ partition_size
      → allocate_normal_object p size h ≡ ok r
      → Allocated h size r.0 r.1
  unfolding allocate_normal_object
  allocate_normal_object-Allocated size r small e =
      let q = allocation_partition h in
      let pointer = dynamic_space_end q in
      let at_q = is.partitions.index h.allocation_index is.allocation_lt in
      elim (Bool-cases (leb pointer (minus (end_address q) size))) [
        | inr full ↦ allocate_in_new_partition-Allocated size r (if_false _ _ _ full e)
        | inl fits ↦
            let (k, got, same) =
              >>=-eq-ok (intra_partition_memory_grow p (pointer + size) h) _
                (if_true _ _ _ fits e) in
            let (n, at_k, holds) =
              intra_partition_memory_grow-Holds p (pointer + size) h k lim is.pages got in
            let g : PartitionedHeap = record h { pages = n } in
            let grown = more_pages-Grown h n c holds in
            let le = leb→le pointer (minus (end_address q) size) fits in
            let exact =
              minus-eq (end_address q) size (omega arith)
                (omega (arith, at_q, is.partitions.limit, is.allocation_lt)) in
            subst (λ (t : ℕ × PartitionedHeap). Allocated h size t.0 t.1)
              (ap
                  (λ m. (
                    pointer,
                    record (change_partition h.allocation_index (fill size) g) {
                      allocation_index = m;
                    },
                  ))
                  at_q
                ∙ ap
                    (λ (k : PartitionedHeap).
                      (pointer, change_partition k.allocation_index (fill size) k))
                    (sym at_k)
                ∙ cc same)
              (filled-Allocated h g size h.allocation_index c grown is.allocation_lt
                (λ _. (is.allocation_objects, refl)) is.allocation_taken is.allocation_objects
                (omega (arith, le, exact)) is.size holds.enough)
      ]
