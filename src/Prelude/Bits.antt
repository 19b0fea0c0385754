-- ===== src/Prelude/Bits.antt =====
-- The native bit operations as arithmetic, at every width: one equation for the lowest digit, then
-- masks, shifted fields and single bits.
use Prim.Native.Nat.{ℕ, zero, suc, ◌+◌, ◌-◌, ◌*◌, ◌/◌, ◌%◌, ◌^◌, ◌≤◌, ◌<◌, min, max}
use Prim.Native.Nat.{bit_and, bit_or, digits, bitwise, bit_and-bitwise, bit_or-bitwise}
use mathlib.Core.Path.{◌≡◌, ◌∙◌, refl, sym, ap}
use mathlib.Core.Logic.{◌≢◌}
use mathlib.Core.WellFounded
use native.Mathlib.Nat.{le_refl, pow-suc, pow-succ', one-le-pow, div-div-eq-div-mul, mod-add-div'}
use native.Mathlib.Omega.{arith}
use motoko.Prelude.Order.{lt_wf}

-- Fuel beyond the first operand changes nothing.
extra_fuel :
    (z : ℕ → ℕ) (f : ℕ → ℕ → ℕ) (k n a b : ℕ) → a ≤ n → digits z f (n + k) a b ≡ digits z f n a b
extra_fuel z f zero n a b h = ap (λ t. digits z f t a b) (let e : n + 0 ≡ n = omega arith in e)
extra_fuel z f (suc k) zero zero b h =
    ap (λ t. digits z f t 0 b) (let e : 0 + suc k ≡ suc k = omega arith in e)
extra_fuel z f (suc k) zero (suc a) b h = absurd (omega arith)
extra_fuel z f (suc k) (suc n) zero b h =
    ap (λ t. digits z f t 0 b) (let e : suc n + suc k ≡ suc (n + suc k) = omega arith in e)
extra_fuel z f (suc k) (suc n) (suc a) b h =
    ap (λ t. digits z f t (suc a) b) (let e : suc n + suc k ≡ suc (n + suc k) = omega arith in e)
    ∙ ap (λ t. t * 2 + f (suc a % 2) (b % 2))
        (extra_fuel z f (suc k) n (suc a / 2) (b / 2) (omega arith))

-- The lowest digit, and the halves.
lowest_digit :
    (z : ℕ → ℕ) (f : ℕ → ℕ → ℕ)
    → ((b : ℕ) → z b ≡ z (b / 2) * 2 + f 0 (b % 2))
    → (a b : ℕ) → bitwise z f a b ≡ bitwise z f (a / 2) (b / 2) * 2 + f (a % 2) (b % 2)
lowest_digit z f base zero b = base b
lowest_digit z f base (suc a) b =
    let half = suc a / 2 in
    ap (λ t. t * 2 + f (suc a % 2) (b % 2))
      (ap (λ t. digits z f t half (b / 2)) (let e : a ≡ half + (a - half) = omega arith in e)
        ∙ extra_fuel z f (a - half) half half (b / 2) (le_refl half))

pub bit_or_step : (a b : ℕ) → bit_or a b ≡ bit_or (a / 2) (b / 2) * 2 + max (a % 2) (b % 2)
bit_or_step a b =
    (λ i. bit_or-bitwise a b i)
    ∙ lowest_digit (λ y. y) max (λ c. omega arith) a b
    ∙ ap (λ t. t * 2 + max (a % 2) (b % 2)) (sym (λ i. bit_or-bitwise (a / 2) (b / 2) i))

pub bit_and_step : (a b : ℕ) → bit_and a b ≡ bit_and (a / 2) (b / 2) * 2 + min (a % 2) (b % 2)
bit_and_step a b =
    (λ i. bit_and-bitwise a b i)
    ∙ lowest_digit (λ y. 0) min (λ c. omega arith) a b
    ∙ ap (λ t. t * 2 + min (a % 2) (b % 2)) (sym (λ i. bit_and-bitwise (a / 2) (b / 2) i))

-- What holds of 0, and of a number when it holds of its half, holds of every number.
by_halves : (P : ℕ → Type 0) → P 0 → ((n : ℕ) → P (suc n / 2) → P (suc n)) → (n : ℕ) → P n
by_halves P base up n = WellFounded.induction lt_wf n go
  where
    go : (k : ℕ) → ((m : ℕ) → m < k → P m) → P k
    go zero below = base
    go (suc k) below = up k (below (suc k / 2) (omega arith))

pub bit_or-zero : (a : ℕ) → bit_or a 0 ≡ a
bit_or-zero = by_halves (λ a. bit_or a 0 ≡ a) refl (λ n h. omega (arith, h, bit_or_step (suc n) 0))

pub bit_and-zero : (a : ℕ) → bit_and a 0 ≡ 0
bit_and-zero =
    by_halves (λ a. bit_and a 0 ≡ 0) refl (λ n h. omega (arith, h, bit_and_step (suc n) 0))

pub half-two_pow : (b : ℕ) → 2 ^ suc b / 2 ≡ 2 ^ b
half-two_pow b = omega (arith, pow-suc 2 b)

scaled : (q k : ℕ) → q * 2 ^ suc k ≡ 2 * (q * 2 ^ k)
scaled q k = omega (arith, ap (λ (t : ℕ). q * t) (pow-suc 2 k))

pub bit_or_comm : (a b : ℕ) → bit_or a b ≡ bit_or b a
bit_or_comm =
    by_halves (λ a. (b : ℕ) → bit_or a b ≡ bit_or b a)
      (λ b. (λ i. bit_or-bitwise 0 b i) ∙ sym (bit_or-zero b))
      (λ n h b. omega (arith, bit_or_step (suc n) b, bit_or_step b (suc n), h (b / 2)))

-- `r | (q << k)` is a sum when `r` fits `k` bits.
pub bit_or_disjoint : (k q r : ℕ) → r < 2 ^ k → bit_or r (q * 2 ^ k) ≡ r + q * 2 ^ k
bit_or_disjoint zero q r h =
    ap (λ t. bit_or t (q * 1)) (let e : r ≡ 0 = omega arith in e)
    ∙ (λ i. bit_or-bitwise 0 (q * 1) i)
    ∙ omega arith
bit_or_disjoint (suc k) q r h =
    let half : q * 2 ^ suc k / 2 ≡ q * 2 ^ k = omega (arith, scaled q k) in
    omega (
      arith,
      bit_or_step r (q * 2 ^ suc k),
      ap (bit_or (r / 2)) half,
      bit_or_disjoint k q (r / 2) (omega (arith, pow-suc 2 k)),
      scaled q k,
    )

-- The remainder by a power of two, digit by digit.
mod_step : (n w : ℕ) → w % 2 ^ suc n ≡ w / 2 % 2 ^ n * 2 + w % 2
mod_step n w =
    let quotient : w / 2 ^ suc n ≡ w / 2 / 2 ^ n =
      ap (λ k. w / k) (pow-succ' 2 n) ∙ sym (div-div-eq-div-mul w 2 (2 ^ n)) in
    omega (
      arith,
      mod-add-div' w (2 ^ suc n),
      mod-add-div' (w / 2) (2 ^ n),
      ap (λ q. q * 2 ^ suc n) quotient,
      scaled (w / 2 / 2 ^ n) n,
    )

-- A mask of `k` low bits is the remainder by `2 ^ k`.
pub bit_and_mask : (k a : ℕ) → bit_and a (2 ^ k - 1) ≡ a % 2 ^ k
bit_and_mask zero a = bit_and-zero a ∙ omega arith
bit_and_mask (suc k) a =
    let half : (2 ^ suc k - 1) / 2 ≡ 2 ^ k - 1 = omega (arith, pow-suc 2 k, one-le-pow k 2) in
    omega (
      arith,
      bit_and_step a (2 ^ suc k - 1),
      ap (bit_and (a / 2)) half,
      bit_and_mask k (a / 2),
      mod_step k a,
      pow-suc 2 k,
      one-le-pow k 2,
    )

-- Bit `b` of `w`.
unfoldable pub test_bit : ℕ → ℕ → ℕ
test_bit w zero = w % 2
test_bit w (suc b) = test_bit (w / 2) b

pub test_bit-lt : (w b : ℕ) → test_bit w b < 2
unfolding test_bit
test_bit-lt w zero = omega arith
test_bit-lt w (suc b) = test_bit-lt (w / 2) b

-- `w & (1 << b)` is the bit at its place.
pub bit_and-two_pow : (w b : ℕ) → bit_and w (2 ^ b) ≡ test_bit w b * 2 ^ b
unfolding test_bit
bit_and-two_pow w zero = omega (arith, bit_and_step w 1, bit_and-zero (w / 2))
bit_and-two_pow w (suc b) = omega (
  arith,
  bit_and_step w (2 ^ suc b),
  pow-suc 2 b,
  ap (bit_and (w / 2)) (half b),
  bit_and-two_pow (w / 2) b,
  scaled (test_bit (w / 2) b) b,
)
  where
    half : (b : ℕ) → 2 ^ suc b / 2 ≡ 2 ^ b
    half b = omega (arith, pow-suc 2 b)

-- `w | (1 << b)` sets that bit.
pub test_bit-or_self : (w b : ℕ) → test_bit (bit_or w (2 ^ b)) b ≡ 1
unfolding test_bit
test_bit-or_self w zero = omega (arith, bit_or_step w 1)
test_bit-or_self w (suc b) =
    ap (λ n. test_bit n b)
      (omega (arith, bit_or_step w (2 ^ suc b), pow-suc 2 b, ap (bit_or (w / 2)) (half-two_pow b)))
    ∙ test_bit-or_self (w / 2) b

pub test_bit-or_ne : (w b c : ℕ) → b ≢ c → test_bit (bit_or w (2 ^ b)) c ≡ test_bit w c
unfolding test_bit
test_bit-or_ne w zero zero h = absurd (h refl)
test_bit-or_ne w zero (suc c) h =
    ap (λ n. test_bit n c) (omega (arith, bit_or_step w 1, bit_or-zero (w / 2)))
test_bit-or_ne w (suc b) zero h = omega (arith, bit_or_step w (2 ^ suc b), pow-suc 2 b)
test_bit-or_ne w (suc b) (suc c) h =
    ap (λ n. test_bit n c)
      (omega (arith, bit_or_step w (2 ^ suc b), pow-suc 2 b, ap (bit_or (w / 2)) (half-two_pow b)))
    ∙ test_bit-or_ne (w / 2) b c (λ e. h (ap suc e))

pub two_pow_mono : (b n : ℕ) → b < n → 2 ^ b < 2 ^ n
two_pow_mono b zero h = absurd (omega arith)
two_pow_mono zero (suc n) h = omega (arith, pow-suc 2 n, one-le-pow n 2)
two_pow_mono (suc b) (suc n) h =
    omega (arith, pow-suc 2 n, pow-suc 2 b, two_pow_mono b n (omega arith))

half_mask : (n b : ℕ) → suc b < suc n → (2 ^ suc n - 1 - 2 ^ suc b) / 2 ≡ 2 ^ n - 1 - 2 ^ b
half_mask n b h = omega (arith, pow-suc 2 n, pow-suc 2 b, two_pow_mono b n (omega arith))

-- `w & !(1 << b)` in `n` bits clears that bit.
pub test_bit-and_not_self : (n w b : ℕ) → b < n → test_bit (bit_and w (2 ^ n - 1 - 2 ^ b)) b ≡ 0
unfolding test_bit
test_bit-and_not_self zero w b h = absurd (omega arith)
test_bit-and_not_self (suc n) w zero h =
    omega (arith, bit_and_step w (2 ^ suc n - 1 - 1), pow-suc 2 n, one-le-pow n 2)
test_bit-and_not_self (suc n) w (suc b) h =
    ap (λ k. test_bit k b)
      (omega
        (arith, bit_and_step w (2 ^ suc n - 1 - 2 ^ suc b), ap (bit_and (w / 2)) (half_mask n b h)))
    ∙ test_bit-and_not_self n (w / 2) b (omega arith)

test_bit-mod : (n w c : ℕ) → c < n → test_bit (w % 2 ^ n) c ≡ test_bit w c
unfolding test_bit
test_bit-mod zero w c h = absurd (omega arith)
test_bit-mod (suc n) w zero h = omega (arith, mod_step n w)
test_bit-mod (suc n) w (suc c) h =
    ap (λ k. test_bit k c)
      (let e : w % 2 ^ suc n / 2 ≡ w / 2 % 2 ^ n = omega (arith, mod_step n w) in e)
    ∙ test_bit-mod n (w / 2) c (omega arith)

pub test_bit-and_not_ne :
    (n w b c : ℕ)
    → b < n
    → c < n
    → b ≢ c
    → test_bit (bit_and w (2 ^ n - 1 - 2 ^ b)) c ≡ test_bit w c
unfolding test_bit
test_bit-and_not_ne zero w b c h k ne = absurd (omega arith)
test_bit-and_not_ne (suc n) w zero zero h k ne = absurd (ne refl)
test_bit-and_not_ne (suc n) w zero (suc c) h k ne =
    ap (λ k. test_bit k c)
      (omega (
        arith,
        bit_and_step w (2 ^ suc n - 1 - 1),
        ap (bit_and (w / 2)) (
            let e : (2 ^ suc n - 1 - 1) / 2 ≡ 2 ^ n - 1 =
              omega (arith, pow-suc 2 n, one-le-pow n 2) in
            e),
      ))
    ∙ ap (λ k. test_bit k c) (bit_and_mask n (w / 2))
    ∙ test_bit-mod n (w / 2) c (omega arith)
test_bit-and_not_ne (suc n) w (suc b) zero h k ne = omega (
  arith,
  bit_and_step w (2 ^ suc n - 1 - 2 ^ suc b),
  pow-suc 2 n,
  pow-suc 2 b,
  two_pow_mono b n (omega arith),
)
test_bit-and_not_ne (suc n) w (suc b) (suc c) h k ne =
    ap (λ k. test_bit k c)
      (omega
        (arith, bit_and_step w (2 ^ suc n - 1 - 2 ^ suc b), ap (bit_and (w / 2)) (half_mask n b h)))
    ∙ test_bit-and_not_ne n (w / 2) b c (omega arith) (omega arith) (λ e. ne (ap suc e))

-- `(w >> b) & 1` is the bit.
pub shifted_bit : (w b : ℕ) → w / 2 ^ b % 2 ≡ test_bit w b
unfolding test_bit
shifted_bit w zero = omega arith
shifted_bit w (suc b) =
    ap (λ k. k % 2) (ap (λ k. w / k) (pow-succ' 2 b) ∙ sym (div-div-eq-div-mul w 2 (2 ^ b)))
    ∙ shifted_bit (w / 2) b

-- A digit in front of what fits below it fits.
pub row_lt : (x y h w : ℕ) → x < h → y < w → x * w + y < h * w
row_lt x y h w p q = grind arith

pub two_pow-add : (a b : ℕ) → 2 ^ (a + b) ≡ 2 ^ b * 2 ^ a
two_pow-add a zero = ap (λ k. 2 ^ k) (let e : a + 0 ≡ a = omega arith in e) ∙ omega arith
two_pow-add a (suc b) =
    let e : a + suc b ≡ suc (a + b) = omega arith in
    omega (
      arith,
      ap (λ k. 2 ^ k) e,
      pow-suc 2 (a + b),
      pow-suc 2 b,
      two_pow-add a b,
      ap (λ k. k * 2 ^ a) (pow-suc 2 b),
    )
