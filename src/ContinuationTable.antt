-- ===== src/ContinuationTable.antt =====
-- rts/motoko-rts/src/continuation_table.rs: outstanding continuations under indices, with an implicit
-- list of the free slots. The barriers of the collector are not modelled.
pub mod Free
pub mod Room
pub mod Laws
mod Runs
use motoko.Prelude.{
  ℕ, zero, suc, ◌+◌, ◌-◌, ◌*◌, ◌%◌, ◌^◌, List, [], ◌∷◌, ◌++◌, Option, none, some, Bool, true, false,
  not, length, get_or, set, ltb, ◌==◌, if◌then◌else◌,
}
use motoko.Prelude.Result.{Result, ok, trap, ◌>>=◌, ◌>>◌, guard, assert}

-- A word of the heap: a scalar, or a skewed pointer to an object.
pub data Value : Type 0 where
  scalar : ℕ → Value
  pointer : ℕ → Value

abbrev pub is_scalar : Value → Bool
is_scalar (scalar n) = true
is_scalar (pointer p) = false

-- Of a scalar; no slot that is free holds a pointer.
abbrev pub get_scalar : Value → ℕ
get_scalar (scalar n) = n
get_scalar (pointer p) = 0

abbrev pub initial_size : ℕ
initial_size = 256

-- `TABLE`, none before it is created, `N_CONTINUATIONS` and `FREE_SLOT`.
pub record Continuations : Type 0 where
  pub table : Option (List Value)
  pub n_continuations : ℕ
  pub free_slot : ℕ

-- `TABLE.as_array()`
abbrev pub slots : Continuations → List Value
slots s = elim s.table [ none ↦ [] | some t ↦ t ]

abbrev pub table_initialized : Continuations → Bool
table_initialized s = elim s.table [ none ↦ false | some t ↦ true ]

-- `n` free slots from `i` on, each with the index of the next.
abbrev pub free_slots : ℕ → ℕ → List Value
free_slots zero i = []
free_slots (suc n) i = scalar (i + 1) ∷ free_slots n (i + 1)

abbrev pub create_continuation_table : Continuations
create_continuation_table = record {
  table = some (free_slots initial_size 0);
  n_continuations = 0;
  free_slot = 0;
}

pub double_continuation_table : Continuations → Result Continuations
double_continuation_table s =
    let old_size = length (slots s) in
    do
      assert (s.free_slot == old_size)
      ok (record s { table = some (slots s ++ free_slots (old_size * 2 - old_size) old_size) })

-- The table after it has been created or doubled, where that is needed.
pub with_room : Continuations → Result Continuations
unfolding double_continuation_table
with_room s =
    let s1 = if table_initialized s then s else create_continuation_table in
    if s1.free_slot == length (slots s1) then double_continuation_table s1 else ok s1

pub remember_continuation : Value → Continuations → Result (ℕ × Continuations)
unfolding with_room
remember_continuation ptr s = do
  s1 ← with_room s
  guard (not (is_scalar ptr)) "RTS error: remember_continuation: Argument is not a skewed pointer"
  let idx = s1.free_slot
  ok (
    idx,
    record {
      table = some (set (slots s1) idx ptr);
      n_continuations = (s1.n_continuations + 1) % 2 ^ 64;
      free_slot = get_scalar (get_or (slots s1) idx (scalar 0));
    },
  )

abbrev pub future_array_index : ℕ
future_array_index = 3

-- `field p i`: what the array at `p` holds at `i`.
pub peek_future_continuation : (ℕ → ℕ → Value) → ℕ → Continuations → Result Value
peek_future_continuation field idx s = do
  guard (table_initialized s)
      "RTS error: peek_future_continuation: Continuation table not allocated"
  guard (ltb idx (length (slots s)))
      "RTS error: peek_future_continuation: Continuation index out of range"
  elim (get_or (slots s) idx (scalar 0)) [
    | scalar n ↦ trap "RTS error: peek_future_continuation: Continuation index not in table"
    | pointer p ↦ ok (field p future_array_index)
  ]

pub recall_continuation : ℕ → Continuations → Result (Value × Continuations)
recall_continuation idx s = do
  guard (table_initialized s) "RTS error: recall_continuation: Continuation table not allocated"
  guard (ltb idx (length (slots s)))
      "RTS error: recall_continuation: Continuation index out of range"
  let ptr = get_or (slots s) idx (scalar 0)
  guard (not (is_scalar ptr)) "RTS error: recall_continuation: Continuation index not in table"
  ok (
    ptr,
    record {
      table = some (set (slots s) idx (scalar s.free_slot));
      n_continuations = (s.n_continuations + 2 ^ 64 - 1) % 2 ^ 64;
      free_slot = idx;
    },
  )

abbrev pub continuation_count : Continuations → ℕ
continuation_count s = s.n_continuations

abbrev pub continuation_table_size : Continuations → ℕ
continuation_table_size s = if table_initialized s then length (slots s) else 0
