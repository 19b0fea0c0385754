-- ===== src/MarkStack/Pop.antt =====
-- Popping, and the empty stack, on the stack as a list.
use motoko.Prelude.{
  ℕ, zero, suc, ◌+◌, ◌-◌, ◌*◌, ◌/◌, ◌%◌, ◌<◌, ◌≡◌, ◌≢◌, refl, sym, ap, ◌∙◌, subst, List, [], ◌∷◌,
  none, some, true, false, length, get_or, arith, eq→==, ne→==, ℕ_discrete, ◌⊎◌, inl, inr,
}
use motoko.MarkStack.{
  stack_table_capacity, stack_empty, MarkStack, blank, table, new_table, new, take_top, pop,
  is_empty,
}
use motoko.MarkStack.Shape.{IsStack, before, height, value_at, values, contents}

head_or : ℕ → List ℕ → ℕ
head_or d [] = d
head_or d (x ∷ xs) = x

tail : List ℕ → List ℕ
tail [] = []
tail (x ∷ xs) = xs

values-cons :
    (f : ℕ → ℕ) (n x : ℕ) (xs : List ℕ)
    → values f n ≡ x ∷ xs
    → (m : ℕ) × (n ≡ suc m) × (f m ≡ x) × (values f m ≡ xs)
unfolding head_or tail
values-cons f zero x xs h = absurd (cc h)
values-cons f (suc m) x xs h = (m, refl, ap (head_or 0) h, ap tail h)

-- The top entry comes off.
record Popped (s : MarkStack) (x : ℕ) (xs : List ℕ) (r : ℕ × MarkStack) : Type 0 where
  value : r.0 ≡ x
  is : IsStack r.1
  rest : contents r.1 ≡ xs

take_top-Popped :
    (s : MarkStack) (x : ℕ) (xs : List ℕ)
    → IsStack s
    → 0 < s.top
    → contents s ≡ x ∷ xs
    → Popped s x xs (take_top s)
unfolding take_top
take_top-Popped s x xs is some_top e =
    let (m, height_suc, top, below) = values-cons (value_at s.tables) (height s) x xs e in
    record {
      value =
          (λ i.
            get_or
              (table s.tables (
                (let q : s.last ≡ m / stack_table_capacity = omega (arith, height_suc, is.top) in q)
                  i)).entries
              ((let r : s.top - 1 ≡ m % stack_table_capacity = omega (arith, height_suc, is.top) in
                  r)
                i)
              0)
          ∙ top;
      is = record {
        last = is.last;
        top = omega (arith, is.top);
        previous = is.previous;
        next = is.next;
        no_next = is.no_next;
        entries = is.entries;
      };
      rest =
          ap (values (value_at s.tables)) (
            let h : s.last * stack_table_capacity + (s.top - 1) ≡ m = omega (arith, height_suc) in
            h)
          ∙ below;
    }

zero_or_suc : (n : ℕ) → (n ≡ 0) ⊎ ((p : ℕ) × (n ≡ suc p))
zero_or_suc zero = inl refl
zero_or_suc (suc p) = inr (p, refl)

-- Where the last table is used up, the same stack ends at the end of the one before.
module _ (s : MarkStack) (is : IsStack s) (used_up : s.top ≡ 0) (p : ℕ) (e : s.last ≡ suc p) where
  abbrev back : MarkStack
  back = record s { last = p; top = stack_table_capacity }

  back-IsStack : IsStack back
  back-IsStack = record {
    last = omega (arith, is.last, e);
    top = omega arith;
    previous = is.previous;
    next = is.next;
    no_next = is.no_next;
    entries = is.entries;
  }

  back-contents : contents back ≡ contents s
  back-contents = ap (values (value_at s.tables)) (omega (arith, used_up, e))

  link : (table s.tables s.last).previous ≡ some p
  link = is.previous s.last is.last ∙ ap before e

  pop-back : pop s ≡ take_top back
  unfolding pop
  pop-back = rw (eq→== s.top 0 used_up, link) refl

  not_empty : is_empty s ≡ false
  unfolding is_empty
  not_empty = rw (eq→== s.top 0 used_up, link) refl

pop-Popped :
    (s : MarkStack) (x : ℕ) (xs : List ℕ) → IsStack s → contents s ≡ x ∷ xs → Popped s x xs (pop s)
unfolding pop
pop-Popped s x xs is e = elim (ℕ_discrete s.top 0) [
  | no ne ↦
      let go : pop s ≡ take_top s = rw (ne→== s.top 0 ne) refl in
      subst (Popped s x xs) (sym go) (take_top-Popped s x xs is (ground (arith, ne)) e)
  | yes used_up ↦ elim (zero_or_suc s.last) [
    | inl first ↦
        let (m, height_suc, top, below) = values-cons (value_at s.tables) (height s) x xs e in
        absurd (omega (arith, height_suc, used_up, first))
    | inr (p, l) ↦
        let r =
          take_top-Popped (back s is used_up p l) x xs (back-IsStack s is used_up p l) (omega arith)
            (back-contents s is used_up p l ∙ e) in
        subst (Popped s x xs) (sym (pop-back s is used_up p l))
          (record { value = r.value; is = r.is; rest = r.rest })
  ]
]

values-some : (f : ℕ → ℕ) (n : ℕ) → 0 < n → values f n ≢ []
values-some f zero h e = absurd (omega arith)
values-some f (suc n) h e = absurd (cc e)

-- In tables of the right shape that hold a stack that is not empty, popping gives the top of the stack
-- and leaves the rest, and keeps the shape, also where the last table is used up.
pub pop-contents :
    (s : MarkStack) (x : ℕ) (xs : List ℕ)
    → IsStack s
    → contents s ≡ x ∷ xs
    → ((pop s).0 ≡ x) × IsStack (pop s).1 × (contents (pop s).1 ≡ xs)
pop-contents s x xs is e = let r = pop-Popped s x xs is e in (r.value, r.is, r.rest)

-- In tables of the right shape, `is_empty` says whether the stack is empty, and popping an empty stack
-- gives the sentinel and changes nothing.
pub is_empty-contents :
    (s : MarkStack)
    → IsStack s
    → ((is_empty s ≡ true) × (contents s ≡ []) × (pop s ≡ (stack_empty, s)))
      ⊎ ((is_empty s ≡ false) × (contents s ≢ []))
unfolding is_empty pop
is_empty-contents s is = elim (ℕ_discrete s.top 0) [
  | no ne ↦
      inr (
        rw (ne→== s.top 0 ne) refl,
        values-some (value_at s.tables) (height s) (ground (arith, ne)),
      )
  | yes used_up ↦ elim (zero_or_suc s.last) [
    | inr (p, l) ↦
        inr (
          not_empty s is used_up p l,
          values-some (value_at s.tables) (height s) (omega (arith, l)),
        )
    | inl first ↦
        let link : (table s.tables s.last).previous ≡ none =
          is.previous s.last is.last ∙ ap before first in
        inl (
          rw (eq→== s.top 0 used_up, link) refl,
          ap (values (value_at s.tables))
              (let e : height s ≡ 0 = omega (arith, used_up, first) in e),
          rw (eq→== s.top 0 used_up, link) refl,
        )
  ]
]

only : (P : ℕ → Type 0) → P 0 → (i : ℕ) → i < 1 → P i
only P h zero k = h
only P h (suc i) k = absurd (omega arith)

-- A new stack has tables of the right shape and is empty.
pub new-contents : IsStack new × (contents new ≡ [])
unfolding new new_table
new-contents = (
  record {
    last = omega arith;
    top = omega arith;
    previous = λ i h. only (λ i. (table (blank none ∷ []) i).previous ≡ before i) refl i h;
    next = λ i h. absurd (omega arith);
    no_next = λ i h. only (λ i. (table (blank none ∷ []) i).next ≡ none) refl i (omega arith);
    entries = λ i h.
        only (λ i. length (table (blank none ∷ []) i).entries ≡ stack_table_capacity) refl i h;
  },
  refl,
)
