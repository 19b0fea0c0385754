-- ===== src/MarkBitmap/Zeros.antt =====
-- The zeros at the two ends of a word, and its bits after a shift.
use motoko.Prelude.{
  ℕ, zero, suc, ◌+◌, ◌-◌, ◌/◌, ◌%◌, ◌^◌, ◌≤◌, ◌<◌, ◌≡◌, refl, sym, ap, ◌∙◌, ◌==◌, ltb, ltb→lt,
  ltb→ge, subst, Bool-cases, inl, inr, ==→eq, ==→ne, if_true_eq, if_false_eq, arith,
}
use motoko.Prelude.Bits.{test_bit}
use native.Mathlib.Nat.{pow-suc, pow-succ', div-div-eq-div-mul}
use motoko.MarkBitmap.Iterate.{trailing_zeros, leading_zeros_of}

-- The highest bit of `c` is bit `w - 1`.
abbrev pub HasWidth : ℕ → ℕ → Type 0
HasWidth c zero = c ≡ 0
HasWidth c (suc w) = (0 < c) × HasWidth (c / 2) w

pub zero-HasWidth : (c w : ℕ) → c ≡ 0 → HasWidth c w → w ≡ 0
zero-HasWidth c zero e h = refl
zero-HasWidth c (suc w) e (pos, h) = absurd (omega arith)

pub test_bit_zero : (c j : ℕ) → c ≡ 0 → test_bit c j ≡ 0
unfolding test_bit
test_bit_zero c zero e = omega arith
test_bit_zero c (suc j) e = test_bit_zero (c / 2) j (omega arith)

top-HasWidth : (n c : ℕ) → 2 ^ n ≤ c → c < 2 ^ suc n → HasWidth c (suc n)
top-HasWidth zero c l u = (omega arith, omega arith)
top-HasWidth (suc n) c l u = (
  omega (arith, pow-suc 2 n),
  top-HasWidth n (c / 2) (omega (arith, pow-suc 2 n))
      (omega (arith, pow-suc 2 n, pow-suc 2 (suc n))),
)

pub leading_zeros-HasWidth :
    (n c : ℕ) → c < 2 ^ n → (leading_zeros_of n c ≤ n) × HasWidth c (n - leading_zeros_of n c)
unfolding leading_zeros_of
leading_zeros-HasWidth zero c h = (omega arith, omega arith)
leading_zeros-HasWidth (suc n) c h = elim (Bool-cases (ltb c (2 ^ n))) [
  | inl low ↦
      let (le, width) = leading_zeros-HasWidth n c (ltb→lt c (2 ^ n) low) in
      rw (if_true_eq (ltb c (2 ^ n)) (suc (leading_zeros_of n c)) 0 low) (
        omega arith,
        subst (HasWidth c)
            (let e : n - leading_zeros_of n c ≡ suc n - suc (leading_zeros_of n c) = omega arith in
              e)
            width,
      )
  | inr high ↦ rw (if_false_eq (ltb c (2 ^ n)) (suc (leading_zeros_of n c)) 0 high) (
    omega arith,
    subst (HasWidth c) (let e : suc n ≡ suc n - 0 = omega arith in e)
        (top-HasWidth n c (ltb→ge c (2 ^ n) high) h),
  )
]

-- The lowest bit, where the word is not zero.
pub record LowestBit (c s w : ℕ) : Type 0 where
  pub lt : s < w
  pub below : (j : ℕ) → j < s → test_bit c j ≡ 0
  pub at : test_bit c s ≡ 1

-- A word with an even number has its lowest bit one place above that of the half.
even-LowestBit : (c s w : ℕ) → c % 2 ≡ 0 → LowestBit (c / 2) s w → LowestBit c (suc s) (suc w)
unfolding test_bit
even-LowestBit c s w e low = record { lt = omega (arith, low.lt); below = below; at = low.at }
  where
    below : (j : ℕ) → j < suc s → test_bit c j ≡ 0
    below zero l = e
    below (suc j) l = low.below j (omega arith)

pub trailing_zeros-LowestBit :
    (n w c : ℕ) → HasWidth c w → w ≤ n → 0 < c → LowestBit c (trailing_zeros n c) w
unfolding trailing_zeros test_bit
trailing_zeros-LowestBit n zero c width le pos = absurd (omega arith)
trailing_zeros-LowestBit zero (suc w) c width le pos = absurd (omega arith)
trailing_zeros-LowestBit (suc n) (suc w) c (p, width) le pos = elim (Bool-cases (c % 2 == 0)) [
  | inr odd ↦
      subst (λ s. LowestBit c s (suc w))
        (sym (if_false_eq (c % 2 == 0) (suc (trailing_zeros n (c / 2))) 0 odd))
        (record {
          lt = omega arith;
          below = λ j l. absurd (omega arith);
          at = ground (arith, ==→ne (c % 2) 0 odd);
        })
  | inl even ↦
      let is_even = ==→eq (c % 2) 0 even in
      subst (λ s. LowestBit c s (suc w))
        (sym (if_true_eq (c % 2 == 0) (suc (trailing_zeros n (c / 2))) 0 even))
        (even-LowestBit c (trailing_zeros n (c / 2)) w is_even
          (trailing_zeros-LowestBit n w (c / 2) width (omega arith) (omega (arith, is_even))))
]

shift_step : (c s : ℕ) → c / 2 ^ suc s ≡ c / 2 / 2 ^ s
shift_step c s = ap (λ k. c / k) (pow-succ' 2 s) ∙ sym (div-div-eq-div-mul c 2 (2 ^ s))

pub shift-HasWidth : (s c w : ℕ) → HasWidth c (s + w) → HasWidth (c / 2 ^ s) w
shift-HasWidth zero c w h =
    subst (λ k. HasWidth (c / 1) k) (let e : 0 + w ≡ w = omega arith in e)
      (subst (λ k. HasWidth k (0 + w)) (let e : c ≡ c / 1 = omega arith in e) h)
shift-HasWidth (suc s) c w h =
    let (pos, width) = subst (HasWidth c) (let e : suc s + w ≡ suc (s + w) = omega arith in e) h in
    subst (λ k. HasWidth k w) (sym (shift_step c s)) (shift-HasWidth s (c / 2) w width)

pub test_bit-shift : (s c j : ℕ) → test_bit (c / 2 ^ s) j ≡ test_bit c (s + j)
unfolding test_bit
test_bit-shift zero c j =
    ap (λ k. test_bit k j) (let e : c / 1 ≡ c = omega arith in e)
    ∙ ap (test_bit c) (let e : j ≡ 0 + j = omega arith in e)
test_bit-shift (suc s) c j =
    ap (λ k. test_bit k j) (shift_step c s)
    ∙ test_bit-shift s (c / 2) j
    ∙ ap (test_bit c) (let e : suc (s + j) ≡ suc s + j = omega arith in e)
