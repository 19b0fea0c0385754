-- ===== src/MarkStack.antt =====
-- rts/motoko-rts/src/gc/incremental/mark_stack.rs: a stack of values in linked tables. A table goes by
-- the number of tables that were allocated before it.
pub mod Shape
pub mod Push
pub mod Pop
mod Runs
use motoko.Prelude.{
  ℕ, zero, suc, ◌+◌, ◌-◌, List, [], ◌∷◌, ◌++◌, Option, none, some, Bool, true, false, ◌&&◌, length,
  replicate, get_or, set, ◌==◌, if◌then◌else◌,
}

abbrev pub stack_table_capacity : ℕ
stack_table_capacity = 1018

abbrev pub stack_empty : ℕ
stack_empty = 0

-- A missing link is the null pointer.
pub record StackTable : Type 0 where
  pub previous : Option ℕ
  pub next : Option ℕ
  pub entries : List ℕ

pub record MarkStack : Type 0 where
  pub tables : List StackTable
  pub last : ℕ
  pub top : ℕ

-- A table whose entries are not set.
abbrev pub blank : Option ℕ → StackTable
blank previous = record {
  previous = previous;
  next = none;
  entries = replicate stack_table_capacity 0;
}

abbrev pub table : List StackTable → ℕ → StackTable
table ts i = get_or ts i (blank none)

-- The tables with a new one at the end, linked to from the previous one.
pub new_table : Option ℕ → List StackTable → List StackTable
new_table none ts = ts ++ blank none ∷ []
new_table (some p) ts =
    let all = ts ++ blank (some p) ∷ [] in
    set all p (record (table all p) { next = some (length ts) })

pub new : MarkStack
unfolding new_table
new = record { tables = new_table none []; last = 0; top = 0 }

-- The table that the next entry goes to.
pub with_space : MarkStack → MarkStack
unfolding new_table
with_space s =
    if s.top == stack_table_capacity
    then elim (table s.tables s.last).next [
      | none ↦ record { tables = new_table (some s.last) s.tables; last = length s.tables; top = 0 }
      | some n ↦ record s { last = n; top = 0 }
    ]
    else s

pub push : ℕ → MarkStack → MarkStack
unfolding with_space
push value s =
    let s1 = with_space s in
    let t = table s1.tables s1.last in
    record s1 {
      tables = set s1.tables s1.last (record t { entries = set t.entries s1.top value });
      top = s1.top + 1;
    }

-- The entry below `top`, which is not 0.
pub take_top : MarkStack → ℕ × MarkStack
take_top s = (get_or (table s.tables s.last).entries (s.top - 1) 0, record s { top = s.top - 1 })

pub pop : MarkStack → ℕ × MarkStack
unfolding take_top
pop s =
    if s.top == 0
    then elim (table s.tables s.last).previous [
      | none ↦ (stack_empty, s)
      | some p ↦ take_top (record s { last = p; top = stack_table_capacity })
    ]
    else take_top s

pub is_empty : MarkStack → Bool
is_empty s = s.top == 0 && elim (table s.tables s.last).previous [ none ↦ true | some p ↦ false ]
