-- ===== src/MarkStack/Shape.antt =====
-- The shape of the tables, and the stack that they hold.
use motoko.Prelude.{
  ℕ, zero, suc, ◌+◌, ◌*◌, ◌/◌, ◌%◌, ◌≤◌, ◌<◌, ◌≡◌, refl, ap₂, List, [], ◌∷◌, Option, none, some,
  length, get_or, arith,
}
use motoko.MarkStack.{stack_table_capacity, StackTable, MarkStack, table}

abbrev pub before : ℕ → Option ℕ
before zero = none
before (suc i) = some i

-- Each table is linked to its neighbours in the order of allocation, and has all its entries.
pub record IsStack (s : MarkStack) : Type 0 where
  pub last : s.last < length s.tables
  pub top : s.top ≤ stack_table_capacity
  pub previous : (i : ℕ) → i < length s.tables → (table s.tables i).previous ≡ before i
  pub next : (i : ℕ) → i + 1 < length s.tables → (table s.tables i).next ≡ some (i + 1)
  pub no_next : (i : ℕ) → i + 1 ≡ length s.tables → (table s.tables i).next ≡ none
  pub entries :
      (i : ℕ) → i < length s.tables → length (table s.tables i).entries ≡ stack_table_capacity

-- How many entries there are, and each of them from the bottom.
abbrev pub height : MarkStack → ℕ
height s = s.last * stack_table_capacity + s.top

abbrev pub value_at : List StackTable → ℕ → ℕ
value_at ts k = get_or (table ts (k / stack_table_capacity)).entries (k % stack_table_capacity) 0

-- The values below `n`, the highest first.
abbrev pub values : (ℕ → ℕ) → ℕ → List ℕ
values f zero = []
values f (suc n) = f n ∷ values f n

pub values_agree : (f g : ℕ → ℕ) (n : ℕ) → ((k : ℕ) → k < n → f k ≡ g k) → values f n ≡ values g n
values_agree f g zero h = refl
values_agree f g (suc n) h =
    ap₂ ◌∷◌ (h n (omega arith)) (values_agree f g n (λ k p. h k (omega arith)))

-- The stack as a list, its top first.
abbrev pub contents : MarkStack → List ℕ
contents s = values (value_at s.tables) (height s)
