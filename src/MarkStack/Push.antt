-- ===== src/MarkStack/Push.antt =====
-- Pushing, on the stack as a list.
use motoko.Prelude.{
  ℕ, suc, ◌+◌, ◌*◌, ◌/◌, ◌%◌, ◌<◌, ◌≡◌, ◌≢◌, refl, sym, ap, ap₂, ◌∙◌, subst, List, [], ◌∷◌, ◌++◌,
  none, some, length, get_or, set, arith, length-set, length-append, get_or-set_self, get_or-set_ne,
  get_or-append_left, get_or-append_right, eq→==, ne→==, ℕ_discrete, dec_lt,
}
use motoko.MarkStack.{
  stack_table_capacity, StackTable, MarkStack, blank, table, new_table, with_space, push,
}
use motoko.MarkStack.Shape.{IsStack, before, height, value_at, values, values_agree, contents}

-- A table of which one is replaced.
table-set_self :
    (ts : List StackTable) (i : ℕ) (t : StackTable) → i < length ts → table (set ts i t) i ≡ t
table-set_self ts i t h = get_or-set_self ts i t (blank none) h

table-set_ne :
    (ts : List StackTable) (i j : ℕ) (t : StackTable) → i ≢ j → table (set ts i t) j ≡ table ts j
table-set_ne ts i j t h = get_or-set_ne ts i j t (blank none) h

-- Replacing a table by one that agrees in a field keeps the field everywhere.
keeps :
    {A : Type 0} (field : StackTable → A) (ts : List StackTable) (i j : ℕ) (t : StackTable)
    → i < length ts
    → field t ≡ field (table ts i)
    → field (table (set ts i t) j) ≡ field (table ts j)
keeps field ts i j t lt e = elim (ℕ_discrete i j) [
  | yes h ↦
      ap (λ k. field (table (set ts i t) k)) (sym h)
      ∙ ap field (table-set_self ts i t lt)
      ∙ e
      ∙ ap (λ k. field (table ts k)) h
  | no h ↦ ap field (table-set_ne ts i j t h)
]

-- An entry written at the top.
written : (v : ℕ) → MarkStack → MarkStack
written v s = record s {
  tables =
      set s.tables s.last
        (record (table s.tables s.last) { entries = set (table s.tables s.last).entries s.top v });
  top = s.top + 1;
}

module _ (v : ℕ) (s : MarkStack) (is : IsStack s) (space : s.top < stack_table_capacity) where
  abbrev t : StackTable
  t = record (table s.tables s.last) { entries = set (table s.tables s.last).entries s.top v }

  written-IsStack : IsStack (written v s)
  unfolding written
  written-IsStack =
      let l = length-set s.tables s.last t in
      record {
        last = omega (arith, is.last, l);
        top = omega (arith, space);
        previous = λ i h.
            keeps (λ x. x.previous) s.tables s.last i t is.last refl
            ∙ is.previous i (omega (arith, l));
        next = λ i h.
            keeps (λ x. x.next) s.tables s.last i t is.last refl ∙ is.next i (omega (arith, l));
        no_next = λ i h.
            keeps (λ x. x.next) s.tables s.last i t is.last refl ∙ is.no_next i (omega (arith, l));
        entries = λ i h.
            keeps (λ x. length x.entries) s.tables s.last i t is.last
              (length-set (table s.tables s.last).entries s.top v)
            ∙ is.entries i (omega (arith, l));
      }

  written_top : value_at (written v s).tables (height s) ≡ v
  unfolding written
  written_top =
      let quotient : height s / stack_table_capacity ≡ s.last = omega (arith, space) in
      let rest : height s % stack_table_capacity ≡ s.top = omega (arith, space) in
      ap₂ (λ q r. get_or (table (set s.tables s.last t) q).entries r 0) quotient rest
      ∙ ap (λ x. get_or x.entries s.top 0) (table-set_self s.tables s.last t is.last)
      ∙ get_or-set_self (table s.tables s.last).entries s.top v 0
          (omega (arith, space, is.entries s.last is.last))

  written_below : (k : ℕ) → k < height s → value_at (written v s).tables k ≡ value_at s.tables k
  unfolding written
  written_below k h = elim (ℕ_discrete s.last (k / stack_table_capacity)) [
    | no ne ↦
        ap (λ x. get_or x.entries (k % stack_table_capacity) 0)
          (table-set_ne s.tables s.last (k / stack_table_capacity) t ne)
    | yes e ↦
        ap (λ q. get_or (table (set s.tables s.last t) q).entries (k % stack_table_capacity) 0)
          (sym e)
        ∙ ap (λ x. get_or x.entries (k % stack_table_capacity) 0)
            (table-set_self s.tables s.last t is.last)
        ∙ get_or-set_ne (table s.tables s.last).entries s.top (k % stack_table_capacity) v 0
            (λ f. absurd (omega (arith, e, f, h)))
        ∙ ap (λ q. get_or (table s.tables q).entries (k % stack_table_capacity) 0) e
  ]

  written-contents : contents (written v s) ≡ v ∷ contents s
  unfolding written
  written-contents =
      ap (values (value_at (written v s).tables))
        (let e : s.last * stack_table_capacity + (s.top + 1) ≡ suc (height s) = omega arith in e)
      ∙ ap₂ ◌∷◌ written_top (values_agree _ _ (height s) written_below)

-- Space for one more: the same stack, with a top that is not the last table's end.
record Spacious (s s1 : MarkStack) : Type 0 where
  is : IsStack s1
  space : s1.top < stack_table_capacity
  same : contents s1 ≡ contents s

-- The tables with a new one behind the last.
module _ (s : MarkStack) (is : IsStack s) (end : s.last + 1 ≡ length s.tables) where
  abbrev n : ℕ
  n = length s.tables

  abbrev all : List StackTable
  all = s.tables ++ blank (some s.last) ∷ []

  abbrev linked : StackTable
  linked = record (table all s.last) { next = some n }

  length-all : length all ≡ n + 1
  length-all = length-append s.tables (blank (some s.last) ∷ [])

  old : (i : ℕ) → i < n → table all i ≡ table s.tables i
  old i h = get_or-append_left s.tables (blank (some s.last) ∷ []) i (blank none) h

  newest : table all n ≡ blank (some s.last)
  newest =
      ap (table all) (let e : n ≡ n + 0 = omega arith in e)
      ∙ get_or-append_right s.tables (blank (some s.last) ∷ []) 0 (blank none)

  -- A fact of every old table and of the new one.
  either : (P : ℕ → Type 0) (i : ℕ) → i < n + 1 → (i < n → P i) → P n → P i
  either P i h low high = elim (dec_lt i n) [
    | yes k ↦ low k
    | no k ↦ subst P (let e : n ≡ i = omega arith in e) high
  ]

  kept :
      {A : Type 0} (field : StackTable → A) (i : ℕ)
      → field linked ≡ field (table all s.last)
      → field (table (set all s.last linked) i) ≡ field (table all i)
  kept field i e = keeps field all s.last i linked (omega (arith, length-all, is.last)) e

  abbrev extended : MarkStack
  extended = record { tables = set all s.last linked; last = n; top = 0 }

  extended-IsStack : IsStack extended
  extended-IsStack =
      let l = length-set all s.last linked ∙ length-all in
      record {
        last = omega (arith, l);
        top = omega arith;
        previous = λ i h.
            kept (λ t. t.previous) i refl
            ∙ either (λ i. (table all i).previous ≡ before i) i (omega (arith, l))
                (λ k. ap (λ t. t.previous) (old i k) ∙ is.previous i k)
                (ap (λ t. t.previous) newest
                  ∙ ap before (let e : suc s.last ≡ n = omega (arith, end) in e));
        next = λ i h. elim (ℕ_discrete s.last i) [
          | yes e ↦
              ap (λ j. (table (set all s.last linked) j).next) (sym e)
              ∙ ap (λ t. t.next)
                  (table-set_self all s.last linked (omega (arith, length-all, is.last)))
              ∙ ap some (omega (arith, e, end))
          | no ne ↦
              ap (λ t. t.next) (table-set_ne all s.last i linked ne ∙ old i (omega (arith, l)))
              ∙ is.next i (ground (arith, l, end, ne, h))
        ];
        no_next = λ i h.
            let e : i ≡ n = omega (arith, l) in
            ap (λ j. (table (set all s.last linked) j).next) e
            ∙ ap (λ t. t.next)
                (table-set_ne all s.last n linked (λ f. absurd (omega (arith, f, end))) ∙ newest);
        entries = λ i h.
            kept (λ t. length t.entries) i refl
            ∙ either (λ i. length (table all i).entries ≡ stack_table_capacity) i (omega (arith, l))
                (λ k. ap (λ t. length t.entries) (old i k) ∙ is.entries i k)
                (ap (λ t. length t.entries) newest);
      }

  extended-contents : s.top ≡ stack_table_capacity → contents extended ≡ contents s
  extended-contents full =
      ap (values (value_at extended.tables))
        (let e : n * stack_table_capacity + 0 ≡ height s = omega (arith, full, end) in e)
      ∙ values_agree _ _ (height s) (λ k h.
        ap (λ es. get_or es (k % stack_table_capacity) 0)
          (kept (λ t. t.entries) (k / stack_table_capacity) refl
            ∙ ap (λ t. t.entries) (old (k / stack_table_capacity) (omega (arith, full, end, h)))))

with_space-Spacious : (s : MarkStack) → IsStack s → Spacious s (with_space s)
unfolding with_space new_table
with_space-Spacious s is = elim (ℕ_discrete s.top stack_table_capacity) [
  | no ne ↦
      let e : with_space s ≡ s = rw (ne→== s.top stack_table_capacity ne) refl in
      subst (Spacious s) (sym e)
        (record { is = is; space = ground (arith, ne, is.top); same = refl })
  | yes full ↦ elim (dec_lt (s.last + 1) (length s.tables)) [
    | yes more ↦
        let e : with_space s ≡ record s { last = s.last + 1; top = 0 } =
          rw (eq→== s.top stack_table_capacity full, is.next s.last more) refl in
        subst (Spacious s) (sym e) (record {
          is = record {
            last = more;
            top = omega arith;
            previous = is.previous;
            next = is.next;
            no_next = is.no_next;
            entries = is.entries;
          };
          space = omega arith;
          same = ap (values (value_at s.tables)) (omega (arith, full));
        })
    | no none_left ↦
        let end : s.last + 1 ≡ length s.tables = omega (arith, is.last) in
        let e : with_space s ≡ extended s is end =
          rw (eq→== s.top stack_table_capacity full, is.no_next s.last end) refl in
        subst (Spacious s) (sym e) (record {
          is = extended-IsStack s is end;
          space = omega arith;
          same = extended-contents s is end full;
        })
  ]
]

-- In tables of the right shape, pushing a value puts it on top of the stack and keeps the shape, also
-- where the last table is full and the next one is used again or allocated.
pub push-contents :
    (s : MarkStack) (value : ℕ)
    → IsStack s
    → IsStack (push value s) × (contents (push value s) ≡ value ∷ contents s)
unfolding push written
push-contents s value is =
    let r = with_space-Spacious s is in
    (
      written-IsStack value (with_space s) r.is r.space,
      written-contents value (with_space s) r.is r.space ∙ ap (λ l. value ∷ l) r.same,
    )
