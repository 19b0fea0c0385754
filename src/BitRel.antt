-- ===== src/BitRel.antt =====
-- rts/motoko-rts/src/bitrel.rs: the cache of the subtype check, two bits for each pair of types and
-- direction.
pub mod Index
pub mod Laws
mod Runs
use motoko.Prelude.{
  ℕ, ◌+◌, ◌-◌, ◌*◌, ◌/◌, ◌%◌, ◌^◌, List, Bool, true, false, not, length, replicate, get_or, set,
  ltb, ◌==◌, if◌then◌else◌, bit_and, bit_or,
}
use motoko.Prelude.Result.{Result, ok, trap, ◌>>=◌, ◌>>◌, guard}

-- usize::BITS
abbrev pub usize_bits : ℕ
usize_bits = 64

-- BITS
abbrev pub bits : ℕ
bits = 2

-- The words between `ptr` and `end`, and the sizes.
pub record BitRel : Type 0 where
  pub words : List ℕ
  pub size1 : ℕ
  pub size2 : ℕ

-- `BitRel::words`
abbrev pub words_for : ℕ → ℕ → ℕ
words_for size1 size2 = (2 * size1 * size2 * bits + (usize_bits - 1)) / usize_bits

-- `init`; that `end` is not before `ptr` holds of a list.
pub init : BitRel → Result BitRel
init r = do
  guard (length r.words == words_for r.size1 r.size2) "BitRel missized"
  ok (record r { words = replicate (length r.words) 0 })

-- The bit of the relation: direction `p`, a type of each side, and which of the two bits.
abbrev pub bit_index : BitRel → Bool → ℕ → ℕ → ℕ → ℕ
bit_index r p i_j j_i bit =
    if p
    then ((0 + i_j) * r.size2 + j_i) * bits + bit
    else ((r.size1 + j_i) * r.size2 + i_j) * bits + bit

-- The index of the word, and the bit in it.
pub locate_ptr_bit : BitRel → Bool → ℕ → ℕ → ℕ → Result (ℕ × ℕ)
locate_ptr_bit r p i_j j_i bit =
    let k = bit_index r p i_j j_i bit in
    if ltb (length r.words) (k / usize_bits)
    then trap "BitRel indices out of bounds"
    else ok (k / usize_bits, k % usize_bits)

-- A write at `end` itself, which the guard lets pass, leaves the list alone.
pub set_bit : BitRel → Bool → ℕ → ℕ → ℕ → Bool → Result BitRel
set_bit r p i_j j_i bit v = do
  (word, b) ← locate_ptr_bit r p i_j j_i bit
  let w = get_or r.words word 0
  ok (record r {
    words =
        set r.words word (if v then bit_or w (2 ^ b) else bit_and w (2 ^ usize_bits - 1 - 2 ^ b));
  })

pub get_bit : BitRel → Bool → ℕ → ℕ → ℕ → Result Bool
get_bit r p i_j j_i bit = do
  (word, b) ← locate_ptr_bit r p i_j j_i bit
  ok (bit_and (get_or r.words word 0) (2 ^ b) == 2 ^ b)

pub visited : BitRel → Bool → ℕ → ℕ → Result Bool
unfolding get_bit
visited r p i_j j_i = get_bit r p i_j j_i 0

pub visit : BitRel → Bool → ℕ → ℕ → Result BitRel
unfolding set_bit
visit r p i_j j_i = set_bit r p i_j j_i 0 true

-- The second bit is kept negated.
pub related : BitRel → Bool → ℕ → ℕ → Result Bool
unfolding get_bit
related r p i_j j_i = do b ← get_bit r p i_j j_i 1; ok (not b)

pub disprove : BitRel → Bool → ℕ → ℕ → Result BitRel
unfolding set_bit
disprove r p i_j j_i = set_bit r p i_j j_i 1 true
