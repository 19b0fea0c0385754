-- ===== src/Prelude/Sums.antt =====
-- Sums of a function over a range of numbers.
use Prim.Native.Nat.{ℕ, zero, suc, ◌+◌, ◌*◌, ◌≤◌, ◌<◌}
use mathlib.Core.Logic.{◌≢◌}
use mathlib.Core.Path.{◌≡◌, refl, ap, ap₂, ◌∙◌, sym}
use native.Mathlib.Omega.{arith}
use native.Mathlib.Decide.{ℕ_discrete}
use motoko.Prelude.Tests.{◌==◌, if◌then◌else◌, eq→==, ne→==}

-- f b + f (b + 1) + …, `n` terms.
unfoldable pub sum : (ℕ → ℕ) → ℕ → ℕ → ℕ
sum f b zero = 0
sum f b (suc n) = f b + sum f (b + 1) n

pub sum_agree :
    (f g : ℕ → ℕ) (b n : ℕ) → ((i : ℕ) → b ≤ i → i < b + n → f i ≡ g i) → sum f b n ≡ sum g b n
unfolding sum
sum_agree f g b zero h = refl
sum_agree f g b (suc n) h =
    ap₂ ◌+◌ (h b (omega arith) (omega arith))
      (sum_agree f g (b + 1) n (λ i p q. h i (omega arith) (omega arith)))

pub sum_const :
    (f : ℕ → ℕ) (c b n : ℕ) → ((i : ℕ) → b ≤ i → i < b + n → f i ≡ c) → sum f b n ≡ n * c
unfolding sum
sum_const f c b zero h = omega arith
sum_const f c b (suc n) h = omega (
  arith,
  h b (omega arith) (omega arith),
  sum_const f c (b + 1) n (λ i p q. h i (omega arith) (omega arith)),
)

pub sum_snoc : (f : ℕ → ℕ) (b n : ℕ) → sum f b (suc n) ≡ sum f b n + f (b + n)
unfolding sum
sum_snoc f b zero = omega (arith, ap f (let e : b ≡ b + 0 = omega arith in e))
sum_snoc f b (suc n) =
    omega (arith, sum_snoc f (b + 1) n, ap f (let e : b + 1 + n ≡ b + suc n = omega arith in e))

pub sum-add : (f g : ℕ → ℕ) (b n : ℕ) → sum (λ i. f i + g i) b n ≡ sum f b n + sum g b n
unfolding sum
sum-add f g b zero = omega arith
sum-add f g b (suc n) = omega (arith, sum-add f g (b + 1) n)

pub sum_zero : (b n : ℕ) → sum (λ _. 0) b n ≡ 0
unfolding sum
sum_zero b zero = refl
sum_zero b (suc n) = omega (arith, sum_zero (b + 1) n)

-- The order of two sums does not matter.
pub sum_swap :
    (f : ℕ → ℕ → ℕ) (b n c k : ℕ)
    → sum (λ i. sum (f i) c k) b n ≡ sum (λ j. sum (λ i. f i j) b n) c k
unfolding sum
sum_swap f b zero c k = sym (sum_zero c k)
sum_swap f b (suc n) c k =
    ap (λ t. sum (f b) c k + t) (sum_swap f (b + 1) n c k)
    ∙ sym (sum-add (f b) (λ j. sum (λ i. f i j) (b + 1) n) c k)

pub le-sum : (f : ℕ → ℕ) (b n i : ℕ) → b ≤ i → i < b + n → f i ≤ sum f b n
unfolding sum
le-sum f b zero i h k = absurd (omega arith)
le-sum f b (suc n) i h k = elim (ℕ_discrete i b) [
  | yes e ↦ omega (arith, ap f e)
  | no ne ↦ omega (arith, le-sum f (b + 1) n i (omega arith) (omega arith))
]

-- A sum with one term that counts.
pub sum_pick :
    (f : ℕ → ℕ) (a b n : ℕ) → b ≤ a → a < b + n → sum (λ i. if a == i then f i else 0) b n ≡ f a
unfolding sum
sum_pick f a b zero h k = absurd (omega arith)
sum_pick f a b (suc n) h k = elim (ℕ_discrete a b) [
  | yes e ↦
      ap₂ ◌+◌ (let h : (if a == b then f b else 0) ≡ f a = rw (eq→== a b e) (ap f (sym e)) in h) (
        sum_const (λ i. if a == i then f i else 0) 0 (b + 1) n
          (λ i p q. rw (ne→== a i (omega arith))))
      ∙ omega arith
  | no ne ↦
      ap₂ ◌+◌ (let e : (if a == b then f b else 0) ≡ 0 = rw (ne→== a b ne) in e)
        (sum_pick f a (b + 1) n (omega arith) (omega arith))
      ∙ omega arith
]

sum_append_none : (f : ℕ → ℕ) (b n : ℕ) → sum f b n ≡ sum f b n + sum f (b + n) 0
unfolding sum
sum_append_none f b n = omega arith

pub sum_append : (f : ℕ → ℕ) (b n m : ℕ) → sum f b (n + m) ≡ sum f b n + sum f (b + n) m
sum_append f b n zero = ap (sum f b) (let e : n + 0 ≡ n = omega arith in e) ∙ sum_append_none f b n
sum_append f b n (suc m) =
    ap (sum f b) (let e : n + suc m ≡ suc (n + m) = omega arith in e)
    ∙ sum_snoc f b (n + m)
    ∙ omega (
      arith,
      sum_append f b n m,
      sum_snoc f (b + n) m,
      ap f (let e : b + (n + m) ≡ b + n + m = omega arith in e),
    )

-- A sum of a function that differs in one term.
pub sum_change :
    (f g : ℕ → ℕ) (i b n : ℕ)
    → b ≤ i
    → i < b + n
    → ((j : ℕ) → i ≢ j → g j ≡ f j)
    → sum g b n + f i ≡ sum f b n + g i
unfolding sum
sum_change f g i b zero h k same = absurd (omega arith)
sum_change f g i b (suc n) h k same = elim (ℕ_discrete i b) [
  | yes e ↦
      omega (
        arith,
        ap f e,
        ap g e,
        sum_agree g f (b + 1) n (λ j p q. same j (λ d. absurd (omega arith))),
      )
  | no ne ↦ omega (arith, same b ne, sum_change f g i (b + 1) n (omega arith) (omega arith) same)
]

-- The same terms over another range.
pub sum_shift :
    (f g : ℕ → ℕ) (b c n : ℕ)
    → ((j : ℕ) → j < c + n → f (b + j) ≡ g j)
    → sum f (b + c) n ≡ sum g c n
unfolding sum
sum_shift f g b c zero h = refl
sum_shift f g b c (suc n) h = ap₂ ◌+◌ (h c (omega arith)) (
    ap (λ k. sum f k n) (let e : b + c + 1 ≡ b + (c + 1) = omega arith in e)
    ∙ sum_shift f g b (c + 1) n (λ j l. h j (omega arith)))

pub sum_bound :
    (f : ℕ → ℕ) (c b n : ℕ) → ((i : ℕ) → b ≤ i → i < b + n → f i ≤ c) → sum f b n ≤ n * c
unfolding sum
sum_bound f c b zero h = omega arith
sum_bound f c b (suc n) h = omega (
  arith,
  h b (omega arith) (omega arith),
  sum_bound f c (b + 1) n (λ i p q. h i (omega arith) (omega arith)),
)
