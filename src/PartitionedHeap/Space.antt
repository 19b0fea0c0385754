-- ===== src/PartitionedHeap/Space.antt =====
-- The search for contiguous free partitions, and taking them for a large object.
use motoko.Prelude.{
  ℕ, zero, suc, ◌+◌, ◌-◌, ◌^◌, ◌≤◌, ◌<◌, ◌≡◌, ◌⊎◌, inl, inr, sym, ◌∙◌, subst, none, some, true, leb,
  Bool-cases, Option-cases, ℕ_discrete, dec_lt, arith, leb→le,
}
use motoko.PartitionedHeap.{minus, is_completely_free}
use motoko.PartitionedHeap.Tables.{PartitionedHeap, get_partition}
use motoko.PartitionedHeap.Allocate.{scan_large, scan_for_large_space}
use motoko.PartitionedHeap.Grown.{minus-eq}

abbrev pub CompletelyFree : PartitionedHeap → ℕ → Type 0
CompletelyFree h i = is_completely_free (get_partition i h) ≡ true

-- The partitions from `b` on, `n` of them, are completely free partitions of the heap.
pub record FreeRange (h : PartitionedHeap) (n b : ℕ) : Type 0 where
  pub within : b + n ≤ h.number_of_partitions
  pub free : (i : ℕ) → b ≤ i → i < b + n → CompletelyFree h i

module _ (h : PartitionedHeap) (n : ℕ) where
  found_sound :
      (rounds index start s : ℕ)
      → start ≤ index
      → index + rounds < 2 ^ 64
      → ((i : ℕ) → start ≤ i → i < index → CompletelyFree h i)
      → scan_large rounds index start n h ≡ some s
      → (s + n ≤ index + rounds) × ((i : ℕ) → s ≤ i → i < s + n → CompletelyFree h i)
  unfolding scan_large
  found_sound zero index start s le bound free e = absurd (cc e)
  found_sound (suc rounds) index start s le bound free e =
      elim (Bool-cases (is_completely_free (get_partition index h))) [
        | inl here ↦
            let more : (i : ℕ) → start ≤ i → i < index + 1 → CompletelyFree h i = λ i l u.
              elim (ℕ_discrete index i) [
                | yes same ↦ subst (CompletelyFree h) same here
                | no ne ↦ free i l (ground (arith, ne))
              ] in
            elim (Bool-cases (leb n (minus (index + 1) start))) [
              | inl enough ↦
                  let at_start : start ≡ s = ground (arith, here, enough) in
                  let len = minus-eq (index + 1) start (omega arith) (omega arith) in
                  let n_le : n ≤ index + 1 - start =
                    omega (arith, leb→le n (minus (index + 1) start) enough, len) in
                  (
                    omega (arith, at_start),
                    λ i l u. more i (omega (arith, at_start)) (omega (arith, at_start)),
                  )
              | inr few ↦
                  let (a, b) =
                    found_sound rounds (index + 1) start s (omega arith) (omega arith) more
                      (ground (arith, here, few)) in
                  (omega arith, b)
            ]
        | inr taken ↦
            let (a, b) =
              found_sound rounds (index + 1) (index + 1) s (omega arith) (omega arith)
                (λ i l u. absurd (omega arith)) (ground (arith, taken)) in
            (omega arith, b)
      ]

  -- Where there is a range from `b` on, the search finds one that does not start later.
  found_complete :
      (rounds index start b : ℕ)
      → start ≤ b
      → start ≤ index
      → index < start + n
      → index + rounds < 2 ^ 64
      → b + n ≤ index + rounds
      → ((i : ℕ) → b ≤ i → i < b + n → CompletelyFree h i)
      → (s : ℕ) × (scan_large rounds index start n h ≡ some s) × (s ≤ b)
  unfolding scan_large
  found_complete zero index start b le from short bound to free = absurd (omega arith)
  found_complete (suc rounds) index start b le from short bound to free =
      elim (Bool-cases (is_completely_free (get_partition index h))) [
        | inl here ↦ elim (Bool-cases (leb n (minus (index + 1) start))) [
          | inl enough ↦ (start, ground (arith, here, enough), le)
          | inr few ↦
              let len = minus-eq (index + 1) start (omega arith) (omega arith) in
              let (s, e, l) =
                found_complete rounds (index + 1) start b le (omega arith)
                  (ground (arith, few, len)) (omega arith) (omega arith) free in
              (s, ground (arith, here, few, e), l)
        ]
        | inr taken ↦ elim (dec_lt index b) [
          | no at_least ↦ absurd (cc (taken, free index (omega arith) (omega arith)))
          | yes later ↦
              let (s, e, l) =
                found_complete rounds (index + 1) (index + 1) b (omega arith) (omega arith)
                  (omega arith) (omega arith) (omega arith) free in
              (s, ground (arith, taken, e), l)
        ]
      ]

  -- In a heap of fewer than 2 ^ 64 partitions, the search for one or more contiguous completely free
  -- partitions finds the first such range, and it finds none only where there is none.
  pub scan_for_large_space_first :
      0 < n
      → h.number_of_partitions < 2 ^ 64
      → ((s : ℕ) × (scan_for_large_space n h ≡ some s)
          × FreeRange h n s
          × ((b : ℕ) → FreeRange h n b → s ≤ b))
        ⊎ ((scan_for_large_space n h ≡ none) × ((b : ℕ) → ¬ FreeRange h n b))
  unfolding scan_for_large_space
  scan_for_large_space_first pos bound = elim (Option-cases (scan_for_large_space n h)) [
    | inr (s, e) ↦
        let (within, free) =
          found_sound h.number_of_partitions 0 0 s (omega arith) (omega arith)
            (λ i l u. absurd (omega arith)) e in
        inl (
          s,
          e,
          record { within = omega arith; free = free },
          λ b range.
              let (s', e', l) = complete b range in omega (arith, same_some s s' (sym e ∙ e')),
        )
    | inl e ↦ inr (e, λ b range. let (s, e', l) = complete b range in absurd (cc (e, e')))
  ]
    where
      complete : (b : ℕ) → FreeRange h n b → (s : ℕ) × (scan_for_large_space n h ≡ some s) × (s ≤ b)
      complete b range =
          found_complete h.number_of_partitions 0 0 b (omega arith) (omega arith) (omega arith)
            (omega arith) (omega (arith, range.within)) range.free

      same_some : (s s' : ℕ) → some s ≡ some s' → s ≡ s'
      same_some s s' e = cc e

pub scan_for_large_space-FreeRange :
    (h : PartitionedHeap) (n s : ℕ)
    → 0 < n
    → h.number_of_partitions < 2 ^ 64
    → scan_for_large_space n h ≡ some s
    → FreeRange h n s
scan_for_large_space-FreeRange h n s pos bound e = elim (scan_for_large_space_first h n pos bound) [
  | inl (s', e', range, _) ↦ subst (FreeRange h n) (let q : s' ≡ s = cc (e, e') in q) range
  | inr (none_found, _) ↦ absurd (cc (e, none_found))
]
