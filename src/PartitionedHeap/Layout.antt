-- ===== src/PartitionedHeap/Layout.antt =====
-- Large objects in the heap, and a round of the loop that collects them.
use motoko.Prelude.{
  ℕ, zero, suc, ◌+◌, ◌*◌, ◌/◌, ◌≤◌, ◌<◌, ◌≡◌, refl, sym, ap, ◌∙◌, subst, true, false, ltb, ◌==◌,
  if◌then◌else◌, lt→ltb, ge→ltb, arith,
}
use motoko.Prelude.Result.{Result, ok, ◌>>=◌}
use motoko.MarkBitmap.{partition_size}
use motoko.PartitionedHeap.{dynamic_space_start}
use motoko.PartitionedHeap.Tables.{PartitionedHeap, get_partition}
use motoko.PartitionedHeap.Large.{
  free_updated, free_range, free_large_object, occupied_partition_range, partitions_length,
  collect_large,
}
use motoko.PartitionedHeap.Invariant.{IsHeap}
use motoko.PartitionedHeap.Sweep.{counting, TakenRange, FreedRange, free_range-FreedRange}

-- The large object at partition `i` takes `n` partitions of its own.
pub record IsLarge (h : PartitionedHeap) (i n : ℕ) : Type 0 where
  pub start : (get_partition i h).large_content ≡ true
  pub address : dynamic_space_start (get_partition i h) ≡ i * partition_size
  pub length : partitions_length h.memory (dynamic_space_start (get_partition i h)) ≡ ok n
  pub some_partition : 0 < n
  pub range : TakenRange h i n

-- From partition `i` to the end there are large objects and partitions without one.
pub data Layout (h : PartitionedHeap) : ℕ → Type 0 where
  done : (i : ℕ) → i ≡ h.number_of_partitions → Layout h i
  small :
      (i : ℕ)
      → i < h.number_of_partitions
      → (get_partition i h).large_content ≡ false
      → Layout h (i + 1)
      → Layout h i
  large : (i n : ℕ) → IsLarge h i n → Layout h (i + n) → Layout h i

-- An object without a mark is gone: its partitions are free. All others are as they were.
abbrev pub Swept : (h k : PartitionedHeap) (i : ℕ) → Layout h i → Type 0
Swept h k _ (done i e) = Unit {0}
Swept h k _ (small i lt none_large l) =
    (get_partition i k ≡ get_partition i h) × Swept h k (i + 1) l
Swept h k _ (large i n is l) =
    ((j : ℕ)
      → i ≤ j
      → j < i + n
      → get_partition j k ≡ (
          if (get_partition i h).marked_size == 0
          then free_updated (get_partition j h)
          else get_partition j h))
    × Swept h k (i + n) l

-- The heap `g` is as `h` from partition `i` on.
pub record Agree (h g : PartitionedHeap) (i : ℕ) : Type 0 where
  pub entries : (j : ℕ) → i ≤ j → get_partition j g ≡ get_partition j h
  pub memory : g.memory ≡ h.memory
  pub number : g.number_of_partitions ≡ h.number_of_partitions
  pub allocation : g.allocation_index ≡ h.allocation_index

-- The loop has come to its end from partition `i` on.
pub record Collected (h g : PartitionedHeap) (i : ℕ) (l : Layout h i) (r : Result PartitionedHeap)
    : Type 0 where
  pub heap : PartitionedHeap
  pub returns : r ≡ ok heap
  pub is : IsHeap heap
  pub swept : Swept h heap i l
  pub before : (j : ℕ) → j < i → get_partition j heap ≡ get_partition j g

module _ (g : PartitionedHeap) (fuel i : ℕ) where
  pub round_ends : g.number_of_partitions ≤ i → collect_large fuel i g ≡ ok g
  unfolding collect_large
  round_ends le = ends fuel (ge→ltb i g.number_of_partitions le)
    where
      ends : (n : ℕ) → ltb i g.number_of_partitions ≡ false → collect_large n i g ≡ ok g
      ends zero e = refl
      ends (suc n) e = rw (e, collect_large) refl

  pub round_small :
      i < g.number_of_partitions
      → (get_partition i g).large_content ≡ false
      → collect_large (suc fuel) i g ≡ collect_large fuel (i + 1) g
  unfolding collect_large
  round_small lt e = rw (lt→ltb i g.number_of_partitions lt, e, collect_large) refl

  pub round_large :
      (n : ℕ)
      → i < g.number_of_partitions
      → (get_partition i g).large_content ≡ true
      → partitions_length g.memory (dynamic_space_start (get_partition i g)) ≡ ok n
      → collect_large (suc fuel) i g ≡ (
          (if (get_partition i g).marked_size == 0
            then free_large_object (dynamic_space_start (get_partition i g)) g
            else ok g)
          >>= λ k. collect_large fuel (i + n) k)
  unfolding collect_large
  round_large n lt e length = rw (lt→ltb i g.number_of_partitions lt, e, length, collect_large) refl

-- Freeing the object at partition `i`.
abbrev pub freed_object : PartitionedHeap → ℕ → ℕ → PartitionedHeap
freed_object g i n = free_range n i (record g { free_partitions = g.free_partitions + n })

pub free_large_object-eq :
    (g : PartitionedHeap) (i n object : ℕ)
    → object ≡ i * partition_size
    → partitions_length g.memory object ≡ ok n
    → free_large_object object g ≡ ok (freed_object g i n)
unfolding free_large_object occupied_partition_range
free_large_object-eq g i n object at length = rw length (
    ap (λ s. ok (freed_object g s n))
      (let e : object / partition_size ≡ i = omega (arith, at) in e))

module _ (g : PartitionedHeap) (i n : ℕ) (is : IsHeap g) (range : TakenRange g i n) where
  pub freed_object-FreedRange :
      FreedRange
        (record g { free_partitions = g.free_partitions + n })
        g.free_partitions
        i
        n
        (freed_object g i n)
  freed_object-FreedRange =
      free_range-FreedRange n i g.free_partitions
        (record g { free_partitions = g.free_partitions + n }) is
        (record { within = range.within; taken = range.taken; other = range.other })

  pub freed_object-IsHeap : IsHeap (freed_object g i n)
  freed_object-IsHeap =
      let r = freed_object-FreedRange in
      subst (λ f. IsHeap (counting f (freed_object g i n))) (sym r.free_partitions) r.heap

pub agree_range :
    (h g : PartitionedHeap) (i n : ℕ) → Agree h g i → TakenRange h i n → TakenRange g i n
agree_range h g i n agree range = record {
  within = omega (arith, range.within, agree.number);
  taken = λ j l u. ap (λ q. q.free) (agree.entries j l) ∙ range.taken j l u;
  other = λ j l u e. range.other j l u (e ∙ agree.allocation);
}
