-- ===== src/BitRel/Index.antt =====
-- The indices: every pair of types lies within the words, and no two share a bit.
use motoko.Prelude.{ℕ, ◌+◌, ◌*◌, ◌/◌, ◌<◌, ◌≡◌, refl, ap, Bool, true, false, arith}
use motoko.Prelude.Bits.{row_lt}
use motoko.BitRel.{BitRel, words_for, bit_index, usize_bits}
use native.Mathlib.Decide.{dec_lt}

-- Types of the relation: `i_j` counts in the first side if `p`, else in the second.
abbrev pub InRange : BitRel → Bool → ℕ → ℕ → ℕ → Type 0
InRange r true i_j j_i bit = (i_j < r.size1) × (j_i < r.size2) × (bit < 2)
InRange r false i_j j_i bit = (i_j < r.size2) × (j_i < r.size1) × (bit < 2)

row_eq : (x y x' y' w : ℕ) → y < w → y' < w → x * w + y ≡ x' * w + y' → x ≡ x'
row_eq x y x' y' w p q e = elim (dec_lt x x') [
  | yes h ↦ absurd (grind arith)
  | no h ↦ elim (dec_lt x' x) [ yes k ↦ absurd (grind arith) | no k ↦ omega arith ]
]

-- The row and the column of a pair.
abbrev row : BitRel → Bool → ℕ → ℕ → ℕ
row r true i_j j_i = 0 + i_j
row r false i_j j_i = r.size1 + j_i

abbrev column : Bool → ℕ → ℕ → ℕ
column true i_j j_i = j_i
column false i_j j_i = i_j

bit_index-row :
    (r : BitRel) (p : Bool) (i_j j_i bit : ℕ)
    → bit_index r p i_j j_i bit ≡ (row r p i_j j_i * r.size2 + column p i_j j_i) * 2 + bit
bit_index-row r true i_j j_i bit = refl
bit_index-row r false i_j j_i bit = refl

row_bounds :
    (r : BitRel) (p : Bool) (i_j j_i bit : ℕ)
    → InRange r p i_j j_i bit
    → (row r p i_j j_i < 2 * r.size1) × (column p i_j j_i < r.size2) × (bit < 2)
row_bounds r true i_j j_i bit h = omega arith
row_bounds r false i_j j_i bit h = omega arith

-- A pair in range has its word within the array that `words` asks for.
pub word_lt :
    (r : BitRel) (p : Bool) (i_j j_i bit : ℕ)
    → InRange r p i_j j_i bit
    → bit_index r p i_j j_i bit / usize_bits < words_for r.size1 r.size2
word_lt r p i_j j_i bit h =
    let (a, b, c) = row_bounds r p i_j j_i bit h in
    omega (
      arith,
      bit_index-row r p i_j j_i bit,
      row_lt (row r p i_j j_i) (column p i_j j_i) (2 * r.size1) r.size2 a b,
    )

-- Pairs, directions and bits in range have indices of their own.
pub bit_index-injective :
    (r : BitRel) (p p' : Bool) (i_j j_i bit i_j' j_i' bit' : ℕ)
    → InRange r p i_j j_i bit
    → InRange r p' i_j' j_i' bit'
    → bit_index r p i_j j_i bit ≡ bit_index r p' i_j' j_i' bit'
    → (p ≡ p') × (i_j ≡ i_j') × (j_i ≡ j_i') × (bit ≡ bit')
bit_index-injective r p p' i_j j_i bit i_j' j_i' bit' h h' e =
    let (a, b, c) = row_bounds r p i_j j_i bit h in
    let (a', b', c') = row_bounds r p' i_j' j_i' bit' h' in
    let s : row r p i_j j_i * r.size2 + column p i_j j_i
        ≡ row r p' i_j' j_i' * r.size2 + column p' i_j' j_i' =
      omega (arith, bit_index-row r p i_j j_i bit, bit_index-row r p' i_j' j_i' bit') in
    let rows : row r p i_j j_i ≡ row r p' i_j' j_i' =
      row_eq (row r p i_j j_i) (column p i_j j_i) (row r p' i_j' j_i') (column p' i_j' j_i') r.size2
        b b' s in
    let columns : column p i_j j_i ≡ column p' i_j' j_i' =
      omega (arith, ap (λ k. k * r.size2) rows) in
    let same : bit ≡ bit' = omega (
      arith,
      bit_index-row r p i_j j_i bit,
      bit_index-row r p' i_j' j_i' bit',
      ap (λ k. k * r.size2) rows,
    ) in
    parts p p' h h' rows columns same
  where
    parts :
        (p p' : Bool)
        → InRange r p i_j j_i bit
        → InRange r p' i_j' j_i' bit'
        → row r p i_j j_i ≡ row r p' i_j' j_i'
        → column p i_j j_i ≡ column p' i_j' j_i'
        → bit ≡ bit'
        → (p ≡ p') × (i_j ≡ i_j') × (j_i ≡ j_i') × (bit ≡ bit')
    parts true true h h' a b c = (refl, omega arith, omega arith, c)
    parts true false h h' a b c = absurd (omega arith)
    parts false true h h' a b c = absurd (omega arith)
    parts false false h h' a b c = (refl, omega arith, omega arith, c)
