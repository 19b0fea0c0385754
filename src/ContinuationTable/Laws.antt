-- ===== src/ContinuationTable/Laws.antt =====
-- Remembering and recalling continuations.
use motoko.Prelude.{
  ℕ, ◌+◌, ◌-◌, ◌%◌, ◌^◌, ◌<◌, ◌≡◌, refl, sym, ap, ◌∙◌, subst, ◌⊎◌, inl, inr, List, ◌∷◌, Option,
  none, some, true, false, length, get_or, set, length-set, get_or-set_self, get_or-set_ne, arith,
  ℕ_discrete, dec_lt, lt→ltb, ge→ltb, ◌≤◌, Bool-cases,
}
use motoko.Prelude.Result.{ok, trap}
use motoko.ContinuationTable.{
  Value, scalar, pointer, is_scalar, get_scalar, Continuations, slots, table_initialized,
  remember_continuation, recall_continuation,
}
use motoko.ContinuationTable.Free.{Chain, Chain-set, pointer_outside}
use motoko.ContinuationTable.Room.{
  pointer_of, live, weight, pointers-set, IsTable, get_or-past, state, room,
}

-- In a table with a sound free list and fewer than 2 ^ 64 - 1 continuations, remembering a pointer does
-- not trap, creates or doubles the table where it has to, keeps the free list sound, gives an index
-- that was not in use and that the pointer is under afterwards, leaves what is under any other index,
-- and counts one more.
pub remember_continuation_effect :
    (s : Continuations) (p j : ℕ)
    → IsTable s
    → s.n_continuations + 1 < 2 ^ 64
    → (idx : ℕ) × (s' : Continuations) × (remember_continuation (pointer p) s ≡ ok (idx, s'))
      × IsTable s'
      × (live s idx ≡ none)
      × (live s' idx ≡ some p)
      × ((j ≡ idx) ⊎ (live s' j ≡ live s j))
      × (s'.n_continuations ≡ s.n_continuations + 1)
unfolding remember_continuation
remember_continuation_effect s p j is few =
    let (s1, r) = room s is in
    let (e, lt, once, (next, here, c)) = r.chain in
    let t = slots s1 in
    let idx = s1.free_slot in
    let s' =
      state (some (set t idx (pointer p))) ((s1.n_continuations + 1) % 2 ^ 64)
        (get_scalar (get_or t idx (scalar 0))) in
    (
      idx,
      s',
      rw r.result refl,
      record {
        free = r.rest;
        chain =
            subst (λ f. Chain (set t idx (pointer p)) f r.rest) (sym (ap get_scalar here))
              (Chain-set t idx (pointer p) next r.rest once c);
        count = omega (arith, r.count, r.number, pointers-set t idx (pointer p) lt, ap weight here);
        size = λ _. omega (arith, lt, length-set t idx (pointer p));
      },
      sym (r.same idx) ∙ ap pointer_of here,
      ap pointer_of (get_or-set_self t idx (pointer p) (scalar 0) lt),
      elim (ℕ_discrete j idx) [
        | yes h ↦ inl h
        | no h ↦ inr (
            ap pointer_of (get_or-set_ne t idx j (pointer p) (scalar 0) (λ k. h (sym k)))
            ∙ r.same j)
      ],
      omega (arith, r.number),
    )

is_pointer : (v : Value) (p : ℕ) → pointer_of v ≡ some p → v ≡ pointer p
is_pointer (scalar n) p h = absurd (cc h)
is_pointer (pointer q) p h = ap pointer (some-injective h)
  where
    or_zero : Option ℕ → ℕ
    or_zero none = 0
    or_zero (some a) = a

    some-injective : {a b : ℕ} → some a ≡ some b → a ≡ b
    some-injective e = ap or_zero e

inside : (t : List Value) (i p : ℕ) → get_or t i (scalar 0) ≡ pointer p → i < length t
inside t i p h = elim (dec_lt i (length t)) [
  | yes lt ↦ lt
  | no ge ↦ absurd (cc (h, get_or-past t i (omega arith)))
]

has_table : (s : Continuations) → 0 < length (slots s) → table_initialized s ≡ true
has_table s h = go s.table h
  where
    go :
        (t : Option (List Value))
        → 0 < length (slots (state t 0 0))
        → table_initialized (state t 0 0) ≡ true
    go none h = absurd (omega arith)
    go (some t) h = refl

-- In a table with a sound free list, recalling an index that is in use does not trap, gives what is
-- under it, keeps the free list sound, frees the index, leaves what is under any other index, and
-- counts one less.
pub recall_continuation_effect :
    (s : Continuations) (idx p j : ℕ)
    → IsTable s
    → live s idx ≡ some p
    → s.n_continuations < 2 ^ 64
    → (s' : Continuations) × (recall_continuation idx s ≡ ok (pointer p, s'))
      × IsTable s'
      × (live s' idx ≡ none)
      × ((j ≡ idx) ⊎ (live s' j ≡ live s j))
      × (s'.n_continuations + 1 ≡ s.n_continuations)
unfolding recall_continuation
recall_continuation_effect s idx p j is used few =
    let t = slots s in
    let here : get_or t idx (scalar 0) ≡ pointer p = is_pointer (get_or t idx (scalar 0)) p used in
    let lt : idx < length t = inside t idx p here in
    let count = pointers-set t idx (scalar s.free_slot) lt in
    (
      state (some (set t idx (scalar s.free_slot))) ((s.n_continuations + 2 ^ 64 - 1) % 2 ^ 64) idx,
      rw (has_table s (omega (arith, lt)), lt→ltb idx (length t) lt, here) refl,
      record {
        free = idx ∷ is.free;
        chain = (
          refl,
          omega (arith, lt, length-set t idx (scalar s.free_slot)),
          pointer_outside t idx p s.free_slot is.free here is.chain,
          (
            s.free_slot,
            get_or-set_self t idx (scalar s.free_slot) (scalar 0) lt,
            Chain-set t idx (scalar s.free_slot) s.free_slot is.free
                (pointer_outside t idx p s.free_slot is.free here is.chain) is.chain,
          ),
        );
        count = omega (arith, is.count, count, ap weight here);
        size = λ _. omega (arith, lt, length-set t idx (scalar s.free_slot));
      },
      ap pointer_of (get_or-set_self t idx (scalar s.free_slot) (scalar 0) lt),
      elim (ℕ_discrete j idx) [
        | yes h ↦ inl h
        | no h ↦
            inr (
              ap pointer_of
                (get_or-set_ne t idx j (scalar s.free_slot) (scalar 0) (λ k. h (sym k))))
      ],
      omega (arith, is.count, count, ap weight here),
    )

-- A value that is no pointer is a scalar.
no_pointer : (v : Value) → pointer_of v ≡ none → is_scalar v ≡ true
no_pointer (scalar n) h = refl
no_pointer (pointer p) h = absurd (cc h)

-- Recalling an index that is not in use traps, whatever the table, and the message says why: there is
-- no table yet, the index is not below its length, or what is there is no continuation.
pub recall_continuation_trap :
    (s : Continuations) (idx : ℕ)
    → live s idx ≡ none
    → ((table_initialized s ≡ false)
        × (recall_continuation idx s
            ≡ trap "RTS error: recall_continuation: Continuation table not allocated"))
      ⊎ ((table_initialized s ≡ true)
          × (length (slots s) ≤ idx)
          × (recall_continuation idx s
              ≡ trap "RTS error: recall_continuation: Continuation index out of range"))
      ⊎ ((table_initialized s ≡ true)
          × (idx < length (slots s))
          × (recall_continuation idx s
              ≡ trap "RTS error: recall_continuation: Continuation index not in table"))
unfolding recall_continuation
recall_continuation_trap s idx unused = elim (Bool-cases (table_initialized s)) [
  | inr missing ↦ inl (missing, rw missing refl)
  | inl there ↦ elim (dec_lt idx (length (slots s))) [
    | no past ↦
        inr (inl (there, omega arith, rw (there, ge→ltb idx (length (slots s)) (omega arith)) refl))
    | yes lt ↦ inr (
        inr (
          there,
          lt,
          rw
              (
                there,
                lt→ltb idx (length (slots s)) lt,
                no_pointer (get_or (slots s) idx (scalar 0)) unused,
              )
              refl,
        ))
  ]
]
