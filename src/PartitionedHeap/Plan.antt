-- ===== src/PartitionedHeap/Plan.antt =====
-- The partitions that are chosen for evacuation.
use motoko.Prelude.{
  if_false_eq, ℕ, zero, suc, ◌+◌, ◌-◌, ◌*◌, ◌/◌, ◌≤◌, ◌<◌, ◌≡◌, ◌≢◌, ◌⊎◌, inl, inr, refl, sym, ap,
  ◌∙◌, subst, List, [], ◌∷◌, All, Bool, true, false, not, ◌&&◌, ltb, ◌==◌, if◌then◌else◌,
  Bool-cases, ℕ_discrete, ltb→ge, ==→ne, arith,
}
use motoko.Prelude.Result.{ok, >>=-eq-ok}
use motoko.Prelude.Sums.{sum, sum_const}
use motoko.MarkBitmap.{partition_size}
use motoko.Sort.Members.{All-sort}
use motoko.PartitionedHeap.{Partition, is_evacuation_candidate}
use motoko.PartitionedHeap.Memory.{Platform}
use motoko.PartitionedHeap.Tables.{PartitionedHeap, from_fn, get_partition, change_partition}
use motoko.PartitionedHeap.Tables.Entries.{entry-change_ne, change_field}
use motoko.PartitionedHeap.Allocate.{allocate}
use motoko.PartitionedHeap.Collect.{
  set_evacuate, plan_loop, plan_evacuations, rank_partitions_by_garbage, ranked_partitions,
  temporary_array, reserved_partitions, compare_garbage,
}
use motoko.PartitionedHeap.Invariant.{IsHeap, change_sum}
use motoko.PartitionedHeap.Changed.{change-IsHeap}
use motoko.PartitionedHeap.Granted.{Limited}
use motoko.PartitionedHeap.Allocation.{allocate-Allocated}

-- The space that the evacuation of a partition takes, which is that of its marked objects.
abbrev pub evacuation : Partition → ℕ
evacuation q = if q.evacuate then q.marked_size else 0

abbrev pub evacuation_sum : PartitionedHeap → ℕ
evacuation_sum h = sum (λ j. evacuation (get_partition j h)) 0 h.number_of_partitions

-- What may be evacuated: objects of at most a partition, in a partition that is not for allocation.
pub record Evacuable (h : PartitionedHeap) (j : ℕ) : Type 0 where
  pub taken : (get_partition j h).free ≡ false
  pub small : (get_partition j h).large_content ≡ false
  pub other : j ≢ h.allocation_index

pub record Planned (h : PartitionedHeap) (space : ℕ) (k : PartitionedHeap) : Type 0 where
  pub heap : IsHeap k
  pub number : k.number_of_partitions ≡ h.number_of_partitions
  pub within : evacuation_sum k ≤ evacuation_sum h + space
  pub chosen :
      (j : ℕ)
      → j < k.number_of_partitions
      → (get_partition j k).evacuate ≡ true
      → ((get_partition j h).evacuate ≡ true) ⊎ Evacuable k j

candidate :
    (q : Partition)
    → is_evacuation_candidate q ≡ true
    → (q.free ≡ false) × (q.large_content ≡ false)
unfolding is_evacuation_candidate
candidate q e = ground arith

and_true : (a b : Bool) → a && b ≡ true → (a ≡ true) × (b ≡ true)
and_true a b e = ground arith

module _ (h : PartitionedHeap) (i space : ℕ) (is : IsHeap h) (lt : i < h.number_of_partitions)
    (taken : (get_partition i h).free ≡ false) (small : (get_partition i h).large_content ≡ false)
    (other : i ≢ h.allocation_index) (fits : (get_partition i h).marked_size ≤ space) where
  abbrev chosen_one : PartitionedHeap
  chosen_one = record (change_partition i set_evacuate h) { evacuating = true }

  same_field {ℓ} :
      {B : Type ℓ} (g : Partition → B)
      → g (set_evacuate (get_partition i h)) ≡ g (get_partition i h)
      → (j : ℕ) → g (get_partition j chosen_one) ≡ g (get_partition j h)
  same_field g same j =
      change_field h.tables h.number_of_partitions is.partitions.are i lt set_evacuate g same j

  chosen_one-IsHeap : IsHeap chosen_one
  chosen_one-IsHeap =
      let p = is.partitions.each i lt in
      change-IsHeap h chosen_one i set_evacuate is lt refl refl refl refl refl
        (record {
          room = p.room;
          no_objects = p.no_objects;
          no_large = p.no_large;
          no_bitmaps = p.no_bitmaps;
          not_evacuated = λ e. absurd (cc (e, taken));
        })
        (same_field (λ q. q.free) refl h.allocation_index ∙ is.allocation_taken)
        (same_field (λ q. q.temporary) refl h.allocation_index ∙ is.allocation_objects) refl
        (omega (arith, same_field (λ q. q.dynamic_size) refl h.allocation_index))

  one_more :
      (k : PartitionedHeap)
      → Planned chosen_one (space - (get_partition i h).marked_size) k
      → ((j : ℕ) → (get_partition j k).free ≡ (get_partition j chosen_one).free)
      → ((j : ℕ) → (get_partition j k).large_content ≡ (get_partition j chosen_one).large_content)
      → k.allocation_index ≡ h.allocation_index
      → Planned h space k
  one_more k rest free large allocation = record {
    heap = rest.heap;
    number = rest.number;
    within = omega (
      arith,
      fits,
      rest.within,
      change_sum h.tables h.number_of_partitions is.partitions i lt set_evacuate evacuation,
    );
    chosen = λ j l e. elim (rest.chosen j l e) [
      | inr evacuable ↦ inr evacuable
      | inl before ↦ elim (ℕ_discrete i j) [
        | no ne ↦ inl (
            ap (λ q. q.evacuate)
              (sym (
                entry-change_ne h.tables h.number_of_partitions is.partitions.are i lt set_evacuate
                  j ne))
            ∙ before)
        | yes same ↦ inr (
            subst (Evacuable k) same (record {
              taken = free i ∙ same_field (λ q. q.free) refl i ∙ taken;
              small = large i ∙ same_field (λ q. q.large_content) refl i ∙ small;
              other = λ e. other (e ∙ allocation);
            }))
      ]
    ];
  }

-- What the loop leaves as it is.
record Kept (h k : PartitionedHeap) : Type 0 where
  free : (j : ℕ) → (get_partition j k).free ≡ (get_partition j h).free
  large : (j : ℕ) → (get_partition j k).large_content ≡ (get_partition j h).large_content
  allocation : k.allocation_index ≡ h.allocation_index

abbrev wanted : ℕ → PartitionedHeap → Bool
wanted i h = not (i == h.allocation_index) && is_evacuation_candidate (get_partition i h)

-- The loop's rounds.
module _ (i : ℕ) (ranked : List ℕ) (space : ℕ) (h : PartitionedHeap) where
  round_skips : wanted i h ≡ false → plan_loop (i ∷ ranked) space h ≡ plan_loop ranked space h
  unfolding plan_loop
  round_skips e = rw (e, plan_loop) refl

  round_ends :
      wanted i h ≡ true
      → ltb space (get_partition i h).marked_size ≡ true
      → plan_loop (i ∷ ranked) space h ≡ h
  unfolding plan_loop
  round_ends e f = rw (e, f, plan_loop) refl

  round_takes :
      wanted i h ≡ true
      → ltb space (get_partition i h).marked_size ≡ false
      → plan_loop (i ∷ ranked) space h
        ≡ plan_loop ranked
            (space - (get_partition i h).marked_size)
            (record (change_partition i set_evacuate h) { evacuating = true })
  unfolding plan_loop
  round_takes e f = rw (e, f, plan_loop) refl

abbrev PlannedKept : PartitionedHeap → ℕ → PartitionedHeap → Type 0
PlannedKept h space k = Planned h space k × Kept h k

nothing-Planned : (space : ℕ) (h : PartitionedHeap) → IsHeap h → PlannedKept h space h
nothing-Planned space h is = (
  record { heap = is; number = refl; within = omega arith; chosen = λ j l e. inl e },
  record { free = λ j. refl; large = λ j. refl; allocation = refl },
)

not-true : (b : Bool) → not b ≡ true → b ≡ false
not-true true e = cc e
not-true false e = refl

plan_loop-Planned :
    (ranked : List ℕ) (space : ℕ) (h : PartitionedHeap)
    → IsHeap h
    → All (λ i. i < h.number_of_partitions) ranked
    → PlannedKept h space (plan_loop ranked space h)
unfolding plan_loop
plan_loop-Planned [] space h is all = nothing-Planned space h is
plan_loop-Planned (i ∷ ranked) space h is (lt, all) = elim (Bool-cases (wanted i h)) [
  | inr skipped ↦
      subst (PlannedKept h space) (sym (round_skips i ranked space h skipped))
        (plan_loop-Planned ranked space h is all)
  | inl wants ↦ elim (Bool-cases (ltb space (get_partition i h).marked_size)) [
    | inl full ↦
        subst (PlannedKept h space) (sym (round_ends i ranked space h wants full))
          (nothing-Planned space h is)
    | inr fits ↦
        let (not_allocation, is_candidate) =
          and_true (not (i == h.allocation_index)) (is_evacuation_candidate (get_partition i h))
            wants in
        let (taken, small) = candidate (get_partition i h) is_candidate in
        let other : i ≢ h.allocation_index =
          ==→ne i h.allocation_index (not-true (i == h.allocation_index) not_allocation) in
        let le = ltb→ge space (get_partition i h).marked_size fits in
        let k = chosen_one h i space is lt taken small other le in
        let (planned, kept) =
          plan_loop-Planned ranked (space - (get_partition i h).marked_size) k
            (chosen_one-IsHeap h i space is lt taken small other le) all in
        subst (PlannedKept h space) (sym (round_takes i ranked space h wants fits)) (
          one_more h i space is lt taken small other le
              (plan_loop ranked (space - (get_partition i h).marked_size) k) planned kept.free
              kept.large kept.allocation,
          record {
            free = λ j.
                kept.free j ∙ same_field h i space is lt taken small other le (λ q. q.free) refl j;
            large = λ j.
                kept.large j
                ∙ same_field h i space is lt taken small other le (λ q. q.large_content) refl j;
            allocation = kept.allocation;
          },
        )
  ]
]

All-from_fn : (n b c : ℕ) → b + n ≤ c → All (λ i. i < c) (from_fn (λ i. i) b n)
unfolding from_fn
All-from_fn zero b c h = tt
All-from_fn (suc n) b c h = (omega arith, All-from_fn n (b + 1) c (omega arith))

-- On a platform that never gives more than 2 ^ 63 bytes, in a heap that satisfies its invariant and in
-- which nothing is evacuated: where the plan of the evacuations does not trap, the heap keeps its
-- invariant, the marked objects of all chosen partitions fit the space of half of the free partitions,
-- rounded up, and every chosen partition is in use, has no large object and is not the one for
-- allocation.
pub plan_evacuations_bound :
    (p : Platform) (h k : PartitionedHeap)
    → Limited p
    → IsHeap h
    → ((j : ℕ) → j < h.number_of_partitions → (get_partition j h).evacuate ≡ false)
    → plan_evacuations p h ≡ ok k
    → IsHeap k
      × (evacuation_sum k ≤ (h.free_partitions + 1) / 2 * partition_size)
      × ((j : ℕ) → j < k.number_of_partitions → (get_partition j k).evacuate ≡ true → Evacuable k j)
unfolding plan_evacuations rank_partitions_by_garbage temporary_array ranked_partitions
plan_evacuations_bound p h k lim is idle e =
    let (s, got, same) = >>=-eq-ok (rank_partitions_by_garbage p h) _ e in
    let (h1, array, ranked) = >>=-eq-ok (temporary_array p h.number_of_partitions h) _ got in
    let (r, allocated, blob) = >>=-eq-ok (allocate p (3 + h.number_of_partitions) h) _ array in
    let a = allocate-Allocated p h lim is (3 + h.number_of_partitions) r allocated in
    let at_h1 : r.1 ≡ h1 = cc blob in
    let is1 : IsHeap h1 = subst IsHeap at_h1 a.heap in
    let idle1 : (j : ℕ) → j < h1.number_of_partitions → (get_partition j h1).evacuate ≡ false =
      λ j l. elim (Bool-cases (get_partition j h1).evacuate) [
        | inr f ↦ f
        | inl t ↦
            let (l', t') =
              a.evacuated j (omega (arith, ap (λ x. x.number_of_partitions) at_h1))
                (ap (λ x. (get_partition j x).evacuate) at_h1 ∙ t) in
            absurd (cc (t', idle j l'))
      ] in
    let space = (h.free_partitions + 1) / 2 * partition_size in
    let ranks = ranked_partitions h1 in
    let (planned, kept) = plan_loop-Planned ranks space h1 is1 (
      All-sort (λ i. i < h1.number_of_partitions) (omega (arith, is1.allocation_lt))
        (compare_garbage h1) (from_fn (λ i. i) 0 h1.number_of_partitions)
        (All-from_fn h1.number_of_partitions 0 h1.number_of_partitions (omega arith))) in
    let at_s : (ranks, h1) ≡ s = cc ranked in
    let at_k : plan_loop ranks space h1 ≡ k =
      ap (λ (x : List ℕ × PartitionedHeap). plan_loop x.0 space x.1) at_s ∙ planned_eq h s k same in
    let none : evacuation_sum h1 ≡ 0 =
      sum_const (λ j. evacuation (get_partition j h1)) 0 0 h1.number_of_partitions
        (λ j _ l.
          if_false_eq (get_partition j h1).evacuate (get_partition j h1).marked_size 0
            (idle1 j (omega arith)))
      ∙ omega arith in
    subst
      (λ x.
        IsHeap x
        × (evacuation_sum x ≤ space)
        × ((j : ℕ)
            → j < x.number_of_partitions
            → (get_partition j x).evacuate ≡ true
            → Evacuable x j))
      at_k
      (
        planned.heap,
        omega (arith, planned.within, none),
        λ j l ev. elim (planned.chosen j l ev) [
          | inr evacuable ↦ evacuable
          | inl before ↦ absurd (cc (before, idle1 j (omega (arith, planned.number))))
        ],
      )
  where
    planned_eq :
        (h : PartitionedHeap) (s : List ℕ × PartitionedHeap) (k : PartitionedHeap)
        → ok (plan_loop s.0 (reserved_partitions h * partition_size) s.1) ≡ ok k
        → plan_loop s.0 ((h.free_partitions + 1) / 2 * partition_size) s.1 ≡ k
    planned_eq h s k e =
        ap (λ (n : ℕ). plan_loop s.0 (n / 2 * partition_size) s.1)
          (let q : h.free_partitions + 1 ≡ h.free_partitions + 2 - 1 = omega arith in q)
        ∙ cc e
