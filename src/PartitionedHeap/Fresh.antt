-- ===== src/PartitionedHeap/Fresh.antt =====
-- The free partition that a new object gets.
use motoko.Prelude.{
  ℕ, ◌+◌, ◌≤◌, ◌<◌, ◌≡◌, inl, inr, refl, ap, ◌∙◌, subst, Bool, true, false, ◌==◌, if◌then◌else◌,
  Bool-cases, arith,
}
use motoko.Prelude.Result.{ok, >>=-eq-ok}
use motoko.MarkBitmap.{partition_size}
use motoko.PartitionedHeap.{free_size, minus}
use motoko.PartitionedHeap.Memory.{Platform}
use motoko.PartitionedHeap.Tables.{PartitionedHeap, get_partition, change_partition}
use motoko.PartitionedHeap.Tables.Entries.{entry-change_self}
use motoko.PartitionedHeap.Allocate.{
  allocate_partition, scan_for_free_partition, take_free, allocate_bitmap, assign_bitmap,
  allocate_free_partition,
}
use motoko.PartitionedHeap.Grown.{IsCounted, Grown, Grown-trans, Grown-fields}
use motoko.PartitionedHeap.Granted.{Limited}
use motoko.PartitionedHeap.Found.{allocate_partition-Found, scan_for_free_partition-some}
use motoko.PartitionedHeap.Taken.{
  free_size-eq, take-Grown, allocate_bitmap-Grown, assign_bitmap-Grown,
}

-- Partition `i` of the heap `k` that has grown from `h` has room for an object, and it was free.
pub record IsFresh (h : PartitionedHeap) (size i : ℕ) (k : PartitionedHeap) : Type 0 where
  pub grown : Grown h k
  pub lt : i < k.number_of_partitions
  pub before : i < h.number_of_partitions → (get_partition i h).free ≡ true
  pub taken : (get_partition i k).free ≡ false
  pub no_objects : (get_partition i k).dynamic_size ≡ 0
  pub no_bitmaps : (get_partition i k).temporary ≡ false
  pub room : (get_partition i k).static_size + size ≤ partition_size

-- Whatever was free later was free before.
pub free_before :
    (h k : PartitionedHeap) (i : ℕ)
    → Grown h k
    → (get_partition i k).free ≡ true
    → i < h.number_of_partitions
    → (get_partition i h).free ≡ true
free_before h k i grown f lt = elim (Bool-cases (get_partition i h).free) [
  | inl yes_free ↦ yes_free
  | inr in_use ↦ absurd (cc ((grown.taken i lt in_use).free, in_use, f))
]

take_free-IsFresh :
    (h : PartitionedHeap) (size i : ℕ) (k : PartitionedHeap)
    → Grown h k
    → (i < k.number_of_partitions)
      × ((get_partition i k).free ≡ true)
      × (size ≤ free_size (get_partition i k))
    → IsFresh h size i
        (change_partition i take_free (record k { free_partitions = minus k.free_partitions 1 }))
take_free-IsFresh h size i k grown (lt, f, fits) =
    let c = grown.counted in
    let is = c.partitions.each i lt in
    let now = entry-change_self k.tables k.number_of_partitions c.partitions.are i lt take_free in
    record {
      grown = Grown-trans grown (take-Grown k i c lt f take_free refl refl refl refl refl);
      lt = lt;
      before = free_before h k i grown f;
      taken = ap (λ q. q.free) now;
      no_objects = ap (λ q. q.dynamic_size) now ∙ is.no_objects f;
      no_bitmaps = ap (λ q. q.temporary) now ∙ is.no_bitmaps f;
      room = omega (
        arith,
        ap (λ q. q.static_size) now,
        free_size-eq (get_partition i k) is
            (omega (arith, c.partitions.limit, c.partitions.index i lt)),
        is.room,
        fits,
      );
    }

assign_bitmap-IsFresh :
    (h : PartitionedHeap) (size i : ℕ) (k : PartitionedHeap) (address : ℕ)
    → IsFresh h size i k
    → IsFresh h size i (if address == 0 then k else assign_bitmap i address k)
assign_bitmap-IsFresh h size i k address fresh = elim (Bool-cases (address == 0)) [
  | inl null ↦ rw null fresh
  | inr some_bitmap ↦ rw some_bitmap (
      let more = assign_bitmap-Grown k i address fresh.grown.counted fresh.lt in
      let same = more.taken i fresh.lt fresh.taken in
      record {
        grown = Grown-trans fresh.grown more;
        lt = omega (arith, fresh.lt, more.number_le);
        before = fresh.before;
        taken = same.free ∙ fresh.taken;
        no_objects = same.dynamic_size ∙ fresh.no_objects;
        no_bitmaps = same.temporary ∙ fresh.no_bitmaps;
        room = omega (arith, fresh.room, more.static i fresh.lt);
      })
]

-- The bitmap comes first, where a collection runs.
bitmap-Grown :
    (p : Platform) (h : PartitionedHeap) (running : Bool) (r : ℕ × PartitionedHeap)
    → Limited p
    → IsCounted h
    → (if running then allocate_bitmap p h else ok (0, h)) ≡ ok r
    → Grown h r.1
bitmap-Grown p h true r lim c e = allocate_bitmap-Grown p lim h r c e
bitmap-Grown p h false r lim c e =
    subst (λ s. Grown h s.1) (let same : (0, h) ≡ r = cc e in same)
      (Grown-fields h h c refl refl refl refl refl (omega arith) c.pages)

pub allocate_free_partition-IsFresh :
    (p : Platform) (h : PartitionedHeap) (size : ℕ) (r : ℕ × PartitionedHeap)
    → Limited p
    → IsCounted h
    → allocate_free_partition p size h ≡ ok r
    → IsFresh h size r.0 r.1
unfolding allocate_free_partition
allocate_free_partition-IsFresh p h size r lim c e =
    let (b, got, rest) = >>=-eq-ok (if h.gc_running then allocate_bitmap p h else ok (0, h)) _ e in
    let grown = bitmap-Grown p h h.gc_running b lim c got in
    let (s, got_free, same) =
      >>=-eq-ok (allocate_partition p (scan_for_free_partition size) b.1) _ rest in
    let found =
      allocate_partition-Found p lim (scan_for_free_partition size) b.1 s grown.counted got_free in
    let some_free = scan_for_free_partition-some size s.1 s.0 found.grown.counted found.found in
    subst (λ (t : ℕ × PartitionedHeap). IsFresh h size t.0 t.1) (let q : _ ≡ r = cc same in q)
      (assign_bitmap-IsFresh h size s.0 _ b.0
        (take_free-IsFresh h size s.0 s.1 (Grown-trans grown found.grown) some_free))
