-- ===== src/MarkBitmap/WordBits.antt =====
-- The bits of a word of the bitmap are those of its bytes.
use motoko.Prelude.{
  ℕ, zero, suc, ◌+◌, ◌-◌, ◌*◌, ◌/◌, ◌%◌, ◌^◌, ◌<◌, ◌≡◌, ap, ap₂, ◌∙◌, dec_lt, arith,
}
use motoko.Prelude.Bits.{test_bit, two_pow-add}
use native.Mathlib.Nat.{pow-suc, mul_assoc}
use motoko.StableMem.{Bytes, read, from_le_bytes, read_word}

-- The low byte of a number, and what stands above it.
low_bits : (k b r j : ℕ) → j < k → test_bit (b + 2 ^ k * r) j ≡ test_bit b j
unfolding test_bit
low_bits zero b r j h = absurd (omega arith)
low_bits (suc k) b r zero h =
    omega (arith, ap (λ (t : ℕ). t * r) (pow-suc 2 k), mul_assoc 2 (2 ^ k) r)
low_bits (suc k) b r (suc j) h =
    ap (λ c. test_bit c j)
      (let e : (b + 2 ^ suc k * r) / 2 ≡ b / 2 + 2 ^ k * r =
          omega (arith, ap (λ (t : ℕ). t * r) (pow-suc 2 k), mul_assoc 2 (2 ^ k) r) in
        e)
    ∙ low_bits k (b / 2) r j (omega arith)

high_bits : (b r j : ℕ) → b < 256 → test_bit (b + 256 * r) (8 + j) ≡ test_bit r j
unfolding test_bit
high_bits b r j h =
    ap (test_bit (b + 256 * r))
      (let e : 8 + j ≡ suc (suc (suc (suc (suc (suc (suc (suc j))))))) = omega arith in e)
    ∙ ap (λ c. test_bit c j)
        (let e : (b + 256 * r) / 2 / 2 / 2 / 2 / 2 / 2 / 2 / 2 ≡ r = omega arith in e)

-- Every byte is below 256.
abbrev pub AreBytes : Bytes → Type 0
AreBytes m = (a : ℕ) → m a < 256

pub read_word-bit :
    (m : Bytes) (n offset j : ℕ)
    → AreBytes m
    → j < 8 * n
    → test_bit (read_word n offset m) j ≡ test_bit (m (offset + j / 8)) (j % 8)
unfolding read_word read from_le_bytes
read_word-bit m zero offset j are h = absurd (omega arith)
read_word-bit m (suc n) offset j are h = elim (dec_lt j 8) [
  | yes l ↦
      low_bits 8 (m offset) (read_word n (offset + 1) m) j l
      ∙ ap₂ (λ a i. test_bit (m a) i) (omega arith) (omega arith)
  | no ge ↦
      let e : j ≡ 8 + (j - 8) = omega arith in
      ap (test_bit (m offset + 256 * read_word n (offset + 1) m)) e
      ∙ high_bits (m offset) (read_word n (offset + 1) m) (j - 8) (are offset)
      ∙ read_word-bit m n (offset + 1) (j - 8) are (omega arith)
      ∙ ap₂ (λ a i. test_bit (m a) i) (omega arith) (omega arith)
]

pub read_word-lt : (m : Bytes) (n offset : ℕ) → AreBytes m → read_word n offset m < 2 ^ (8 * n)
unfolding read_word read from_le_bytes
read_word-lt m zero offset are = omega arith
read_word-lt m (suc n) offset are =
    omega (arith, are offset, read_word-lt m n (offset + 1) are, pow_eight n)
  where
    pow_eight : (n : ℕ) → 2 ^ (8 * suc n) ≡ 256 * 2 ^ (8 * n)
    pow_eight n =
        ap (λ k. 2 ^ k) (let e : 8 * suc n ≡ 8 * n + 8 = omega arith in e) ∙ two_pow-add (8 * n) 8
