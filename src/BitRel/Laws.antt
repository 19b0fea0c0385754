-- ===== src/BitRel/Laws.antt =====
-- The bits read back as they were set, one by one.
use motoko.Prelude.{
  ℕ, zero, suc, ◌-◌, ◌*◌, ◌/◌, ◌%◌, ◌^◌, ◌<◌, ◌≡◌, ◌≢◌, refl, sym, ap, ◌∙◌, Bool, true, false, not,
  List, length, get_or, set, replicate, length-replicate, length-set, get_or-set_self,
  get_or-set_ne, arith, if◌then◌else◌, bit_and, bit_or, ◌==◌, ge→ltb, eq→==, ne→==, ℕ_discrete,
}
use motoko.Prelude.Bits.{
  test_bit, test_bit-lt, bit_and-two_pow, test_bit-or_self, test_bit-or_ne, test_bit-and_not_self,
  test_bit-and_not_ne,
}
use motoko.Prelude.Result.{Result, ok, trap, ◌>>=◌}
use motoko.BitRel.{
  BitRel, words_for, bit_index, usize_bits, init, locate_ptr_bit, set_bit, get_bit, visited, visit,
  related, disprove,
}
use motoko.BitRel.Index.{InRange, word_lt, bit_index-injective}
use native.Mathlib.Nat.{one-le-pow}

-- As many words as the sizes ask for.
abbrev pub IsSized : BitRel → Type 0
IsSized r = length r.words ≡ words_for r.size1 r.size2

abbrev word_of : BitRel → ℕ → ℕ
word_of r k = get_or r.words (k / usize_bits) 0

locate :
    (r : BitRel) (p : Bool) (i_j j_i bit : ℕ)
    → IsSized r
    → InRange r p i_j j_i bit
    → locate_ptr_bit r p i_j j_i bit
      ≡ ok (bit_index r p i_j j_i bit / usize_bits, bit_index r p i_j j_i bit % usize_bits)
unfolding locate_ptr_bit
locate r p i_j j_i bit sized h =
    rw
      (ge→ltb (length r.words) (bit_index r p i_j j_i bit / usize_bits)
        (omega (arith, sized, word_lt r p i_j j_i bit h)))
      refl

mask_test : (w b : ℕ) → (bit_and w (2 ^ b) == 2 ^ b) ≡ (test_bit w b == 1)
mask_test w b = elim (ℕ_discrete (test_bit w b) 1) [
  | yes e ↦
      eq→== _ _ (bit_and-two_pow w b ∙ omega (arith, ap (λ k. k * 2 ^ b) e)) ∙ sym (eq→== _ _ e)
  | no n ↦
      ne→== _ _ (λ e. absurd (
        omega (
          arith,
          one-le-pow b 2,
          bit_and-two_pow w b,
          ap (λ k. k * 2 ^ b) (let z : test_bit w b ≡ 0 = ground (arith, test_bit-lt w b, n) in z),
        )))
      ∙ sym (ne→== _ _ n)
]

get_bit-eq :
    (r : BitRel) (p : Bool) (i_j j_i bit : ℕ)
    → IsSized r
    → InRange r p i_j j_i bit
    → get_bit r p i_j j_i bit
      ≡ ok (
          test_bit (word_of r (bit_index r p i_j j_i bit)) (bit_index r p i_j j_i bit % usize_bits)
          == 1)
unfolding get_bit
get_bit-eq r p i_j j_i bit sized h = rw (locate r p i_j j_i bit sized h) (ap ok (mask_test _ _))

-- The word with one of its bits changed.
abbrev changed : ℕ → ℕ → Bool → ℕ
changed w b v = if v then bit_or w (2 ^ b) else bit_and w (2 ^ usize_bits - 1 - 2 ^ b)

set_bit-eq :
    (r : BitRel) (p : Bool) (i_j j_i bit : ℕ) (v : Bool)
    → IsSized r
    → InRange r p i_j j_i bit
    → set_bit r p i_j j_i bit v
      ≡ ok (record r {
        words = set r.words (bit_index r p i_j j_i bit / usize_bits) (
            changed
              (word_of r (bit_index r p i_j j_i bit))
              (bit_index r p i_j j_i bit % usize_bits)
              v);
      })
unfolding set_bit
set_bit-eq r p i_j j_i bit v sized h = rw (locate r p i_j j_i bit sized h) refl

changed_self : (w b : ℕ) (v : Bool) → b < usize_bits → (test_bit (changed w b v) b == 1) ≡ v
changed_self w b true h = eq→== _ _ (test_bit-or_self w b)
changed_self w b false h = rw (test_bit-and_not_self usize_bits w b h) refl

changed_ne :
    (w b c : ℕ) (v : Bool)
    → b < usize_bits
    → c < usize_bits
    → b ≢ c
    → test_bit (changed w b v) c ≡ test_bit w c
changed_ne w b c true h k ne = test_bit-or_ne w b c ne
changed_ne w b c false h k ne = test_bit-and_not_ne usize_bits w b c h k ne

-- A bit of the words, by its index.
abbrev bit_of : List ℕ → ℕ → ℕ
bit_of ws k = test_bit (get_or ws (k / usize_bits) 0) (k % usize_bits)

abbrev with_bit : List ℕ → ℕ → Bool → List ℕ
with_bit ws k v =
    set ws (k / usize_bits) (changed (get_or ws (k / usize_bits) 0) (k % usize_bits) v)

bit_of-with_bit_self :
    (ws : List ℕ) (k : ℕ) (v : Bool)
    → k / usize_bits < length ws
    → (bit_of (with_bit ws k v) k == 1) ≡ v
bit_of-with_bit_self ws k v h =
    rw
      (get_or-set_self ws (k / usize_bits)
        (changed (get_or ws (k / usize_bits) 0) (k % usize_bits) v) 0 h)
      (changed_self _ _ v (omega arith))

bit_of-with_bit_ne :
    (ws : List ℕ) (k l : ℕ) (v : Bool)
    → k / usize_bits < length ws
    → k ≢ l
    → bit_of (with_bit ws k v) l ≡ bit_of ws l
bit_of-with_bit_ne ws k l v h ne = elim (ℕ_discrete (k / usize_bits) (l / usize_bits)) [
  | no n ↦ ap (λ w. test_bit w (l % usize_bits)) (get_or-set_ne ws _ _ _ 0 n)
  | yes e ↦
      ap (λ m. test_bit (get_or (with_bit ws k v) m 0) (l % usize_bits)) (sym e)
      ∙ ap (λ w. test_bit w (l % usize_bits)) (get_or-set_self ws (k / usize_bits) _ 0 h)
      ∙ changed_ne _ (k % usize_bits) (l % usize_bits) v (omega arith) (omega arith)
          (λ f. ne (omega (arith, e, f)))
      ∙ ap (λ m. test_bit (get_or ws m 0) (l % usize_bits)) e
]

InRange-words :
    (r : BitRel) (ws : List ℕ) (p : Bool) (i_j j_i bit : ℕ)
    → InRange r p i_j j_i bit
    → InRange (record r { words = ws }) p i_j j_i bit
InRange-words r ws true i_j j_i bit h = h
InRange-words r ws false i_j j_i bit h = h

-- A bit that is set in range reads back as it was set, without a trap, in words of the right size.
pub get_bit-set_bit_self :
    (r : BitRel) (p : Bool) (i_j j_i bit : ℕ) (v : Bool)
    → IsSized r
    → InRange r p i_j j_i bit
    → (set_bit r p i_j j_i bit v >>= λ s. get_bit s p i_j j_i bit) ≡ ok v
get_bit-set_bit_self r p i_j j_i bit v sized h =
    let k = bit_index r p i_j j_i bit in
    rw (set_bit-eq r p i_j j_i bit v sized h) (
      get_bit-eq (record r { words = with_bit r.words k v }) p i_j j_i bit
        (length-set r.words _ _ ∙ sized) (InRange-words r (with_bit r.words k v) p i_j j_i bit h)
      ∙ ap ok (bit_of-with_bit_self r.words k v (omega (arith, sized, word_lt r p i_j j_i bit h))))

-- A bit that is set in range leaves every other bit in range (of another direction, another pair
-- of types, or the other of the two bits) as it was, without a trap, in words of the right size.
pub get_bit-set_bit_ne :
    (r : BitRel) (p : Bool) (i_j j_i bit : ℕ) (v q : Bool) (k_l l_k other : ℕ)
    → IsSized r
    → InRange r p i_j j_i bit
    → InRange r q k_l l_k other
    → ¬ ((p ≡ q) × (i_j ≡ k_l) × (j_i ≡ l_k) × (bit ≡ other))
    → (set_bit r p i_j j_i bit v >>= λ s. get_bit s q k_l l_k other) ≡ get_bit r q k_l l_k other
get_bit-set_bit_ne r p i_j j_i bit v q k_l l_k other sized h h' ne =
    let k = bit_index r p i_j j_i bit in
    let l = bit_index r q k_l l_k other in
    rw (set_bit-eq r p i_j j_i bit v sized h) (
      get_bit-eq (record r { words = with_bit r.words k v }) q k_l l_k other
        (length-set r.words _ _ ∙ sized) (InRange-words r (with_bit r.words k v) q k_l l_k other h')
      ∙ ap (λ b. ok (b == 1))
          (bit_of-with_bit_ne r.words k l v (omega (arith, sized, word_lt r p i_j j_i bit h))
            (λ e. ne (bit_index-injective r p q i_j j_i bit k_l l_k other h h' e)))
      ∙ sym (get_bit-eq r q k_l l_k other sized h'))

test_bit-zero : (b : ℕ) → test_bit 0 b ≡ 0
unfolding test_bit
test_bit-zero zero = refl
test_bit-zero (suc b) = test_bit-zero b

get_or-replicate : (n i : ℕ) → get_or {A = ℕ} (replicate n 0) i 0 ≡ 0
get_or-replicate zero i = refl
get_or-replicate (suc n) zero = refl
get_or-replicate (suc n) (suc i) = get_or-replicate n i

second_bit : (r : BitRel) (p : Bool) (i_j j_i : ℕ) → InRange r p i_j j_i 0 → InRange r p i_j j_i 1
second_bit r true i_j j_i (a, b, c) = (a, b, omega arith)
second_bit r false i_j j_i (a, b, c) = (a, b, omega arith)

-- Words of the right size, whatever they hold, are accepted by `init`; then every pair in range is
-- not visited and, the second bit being negated, related.
pub init-fresh :
    (r : BitRel) (p : Bool) (i_j j_i : ℕ)
    → IsSized r
    → InRange r p i_j j_i 0
    → ((init r >>= λ s. visited s p i_j j_i) ≡ ok false)
      × ((init r >>= λ s. related s p i_j j_i) ≡ ok true)
unfolding init visited related
init-fresh r p i_j j_i sized h =
    rw (eq→== (length r.words) (words_for r.size1 r.size2) sized)
      (cleared 0 h, ap (λ b. b >>= λ c. ok (not c)) (cleared 1 (second_bit r p i_j j_i h)))
  where
    cleared :
        (bit : ℕ)
        → InRange r p i_j j_i bit
        → get_bit (record r { words = replicate (length r.words) 0 }) p i_j j_i bit ≡ ok false
    cleared bit g =
        get_bit-eq (record r { words = replicate (length r.words) 0 }) p i_j j_i bit
          (length-replicate _ _ ∙ sized)
          (InRange-words r (replicate (length r.words) 0) p i_j j_i bit g)
        ∙ rw
            (
              get_or-replicate (length r.words) (bit_index r p i_j j_i bit / usize_bits),
              test_bit-zero (bit_index r p i_j j_i bit % usize_bits),
            )
            refl

related-eq :
    (m : Result BitRel) (q : Bool) (k_l l_k : ℕ) {b : Result Bool}
    → (m >>= λ s. get_bit s q k_l l_k 1) ≡ b
    → (m >>= λ s. related s q k_l l_k) ≡ (b >>= λ c. ok (not c))
unfolding related
related-eq (ok s) q k_l l_k e = ap (λ b. b >>= λ c. ok (not c)) e
related-eq (trap t) q k_l l_k e = ap (λ b. b >>= λ c. ok (not c)) e

-- Visiting a pair in range marks it as visited and leaves it as related as it was, and leaves another
-- pair or direction in range as visited and as related as it was; nothing traps in words of the right
-- size.
pub visit_effect :
    (r : BitRel) (p : Bool) (i_j j_i : ℕ) (q : Bool) (k_l l_k : ℕ)
    → IsSized r
    → InRange r p i_j j_i 0
    → InRange r q k_l l_k 0
    → ¬ ((p ≡ q) × (i_j ≡ k_l) × (j_i ≡ l_k))
    → ((visit r p i_j j_i >>= λ s. visited s p i_j j_i) ≡ ok true)
      × ((visit r p i_j j_i >>= λ s. related s p i_j j_i) ≡ related r p i_j j_i)
      × ((visit r p i_j j_i >>= λ s. visited s q k_l l_k) ≡ visited r q k_l l_k)
      × ((visit r p i_j j_i >>= λ s. related s q k_l l_k) ≡ related r q k_l l_k)
unfolding visit visited related
visit_effect r p i_j j_i q k_l l_k sized h h' ne = (
  get_bit-set_bit_self r p i_j j_i 0 true sized h,
  related-eq (set_bit r p i_j j_i 0 true) p i_j j_i (
      get_bit-set_bit_ne r p i_j j_i 0 true p i_j j_i 1 sized h (second_bit r p i_j j_i h)
        (λ (a, b, c, d). absurd (omega (arith, d)))),
  get_bit-set_bit_ne r p i_j j_i 0 true q k_l l_k 0 sized h h' (λ (a, b, c, d). ne (a, b, c)),
  related-eq (set_bit r p i_j j_i 0 true) q k_l l_k (
      get_bit-set_bit_ne r p i_j j_i 0 true q k_l l_k 1 sized h (second_bit r q k_l l_k h')
        (λ (a, b, c, d). absurd (omega (arith, d)))),
)

-- Disproving a pair in range makes it not related and leaves it as visited as it was, and leaves
-- another pair or direction in range as visited and as related as it was; nothing traps in words of
-- the right size.
pub disprove_effect :
    (r : BitRel) (p : Bool) (i_j j_i : ℕ) (q : Bool) (k_l l_k : ℕ)
    → IsSized r
    → InRange r p i_j j_i 0
    → InRange r q k_l l_k 0
    → ¬ ((p ≡ q) × (i_j ≡ k_l) × (j_i ≡ l_k))
    → ((disprove r p i_j j_i >>= λ s. related s p i_j j_i) ≡ ok false)
      × ((disprove r p i_j j_i >>= λ s. visited s p i_j j_i) ≡ visited r p i_j j_i)
      × ((disprove r p i_j j_i >>= λ s. visited s q k_l l_k) ≡ visited r q k_l l_k)
      × ((disprove r p i_j j_i >>= λ s. related s q k_l l_k) ≡ related r q k_l l_k)
unfolding disprove visited related
disprove_effect r p i_j j_i q k_l l_k sized h h' ne =
    let set_lt = second_bit r p i_j j_i h in
    (
      related-eq (set_bit r p i_j j_i 1 true) p i_j j_i
          (get_bit-set_bit_self r p i_j j_i 1 true sized set_lt),
      get_bit-set_bit_ne r p i_j j_i 1 true p i_j j_i 0 sized set_lt h
          (λ (a, b, c, d). absurd (omega (arith, d))),
      get_bit-set_bit_ne r p i_j j_i 1 true q k_l l_k 0 sized set_lt h'
          (λ (a, b, c, d). absurd (omega (arith, d))),
      related-eq (set_bit r p i_j j_i 1 true) q k_l l_k (
          get_bit-set_bit_ne r p i_j j_i 1 true q k_l l_k 1 sized set_lt (second_bit r q k_l l_k h')
            (λ (a, b, c, d). ne (a, b, c))),
    )
