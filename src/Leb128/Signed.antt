-- ===== src/Leb128/Signed.antt =====
-- One round of encoding and of decoding a signed word. A negative word is `minus_one - w`.
use motoko.Prelude.{
  ℕ, zero, suc, ◌+◌, ◌-◌, ◌*◌, ◌/◌, ◌%◌, ◌^◌, ◌≤◌, ◌<◌, ◌≡◌, ◌≢◌, ◌⊎◌, inl, inr, refl, sym, ap, ◌∙◌,
  [], ◌∷◌, some, Bool, true, false, not, ◌&&◌, ◌||◌, ltb, ◌==◌, if◌then◌else◌, bit_and, bit_or,
  arith, eq→==, ne→==, lt→ltb, ge→ltb, ℕ_discrete,
}
use motoko.Prelude.Bits.{bit_and_mask, bit_or_disjoint, two_pow_mono, row_lt, two_pow-add}
use native.Mathlib.Nat.{one-le-pow}
use motoko.Prelude.Result.{ok}
use motoko.Buf.{Buf, read_byte}
use motoko.Leb128.{minus_one, shr_signed, sleb128_bytes, shl, signed_rounds, sign_extend}
use motoko.Leb128.Round.{one_bit, added, step}

payload : (v : ℕ) → bit_and v 0x7f ≡ v % 128
payload v = bit_and_mask 7 v

-- The test for the last byte of a word whose next word and byte are known.
abbrev is_last : ℕ → ℕ → Bool
is_last next byte =
    next == 0 && bit_and byte 0x40 == 0 || next == minus_one && bit_and byte 0x40 == 0x40

sleb128_bytes-step :
    (n v next low : ℕ)
    → shr_signed v ≡ next
    → v % 128 ≡ low
    → sleb128_bytes (suc n) v
      ≡ (if is_last next low then low ∷ [] else (low + 128) ∷ sleb128_bytes n next)
unfolding sleb128_bytes
sleb128_bytes-step n v next low e f =
    (λ i.
      let byte = (payload v ∙ f) i in
      if is_last (e i) byte then byte ∷ [] else bit_or byte 0x80 ∷ sleb128_bytes n (e i))
    ∙ ap (λ t. if is_last next low then low ∷ [] else t ∷ sleb128_bytes n next)
        (bit_or_disjoint 7 1 low (omega (arith, f)))

shr-positive : (v : ℕ) → v < 2 ^ 63 → shr_signed v ≡ v / 128
shr-positive v h = rw (lt→ltb v (2 ^ 63) h) refl

shr-negative : (w : ℕ) → w < 2 ^ 63 → shr_signed (minus_one - w) ≡ minus_one - w / 128
shr-negative w h = rw (ge→ltb (minus_one - w) (2 ^ 63) (omega arith)) (omega arith)

clear : (y : ℕ) → y < 64 → bit_and y 0x40 ≡ 0
clear y h = one_bit y 6 ∙ omega arith

sign_set : (y : ℕ) → 64 ≤ y → y < 128 → bit_and y 0x40 ≡ 0x40
sign_set y h k = one_bit y 6 ∙ omega arith

pub positive_last : (n v : ℕ) → v < 64 → sleb128_bytes (suc n) v ≡ v ∷ []
positive_last n v h =
    sleb128_bytes-step n v 0 v (shr-positive v (omega arith) ∙ omega arith) (omega arith)
    ∙ rw (eq→== (bit_and v 0x40) 0 (clear v h)) refl

pub positive_more :
    (n v : ℕ)
    → 64 ≤ v
    → v < 2 ^ 63
    → sleb128_bytes (suc n) v ≡ (v % 128 + 128) ∷ sleb128_bytes n (v / 128)
positive_more n v h k =
    sleb128_bytes-step n v (v / 128) (v % 128) (shr-positive v k) refl
    ∙ rw (ne→== (v / 128) minus_one (λ e. absurd (omega (arith, e))))
        (elim (ℕ_discrete (v / 128) 0) [
          | no ne ↦ rw (ne→== (v / 128) 0 ne) refl
          | yes e ↦
              rw
                (
                  ne→== (bit_and (v % 128) 0x40) 0 (λ f.
                      absurd
                        (omega (arith, f, sign_set (v % 128) (omega (arith, e)) (omega arith)))),
                  eq→== (v / 128) 0 e,
                )
                refl
        ])

pub negative_last : (n w : ℕ) → w < 64 → sleb128_bytes (suc n) (minus_one - w) ≡ (127 - w) ∷ []
negative_last n w h =
    sleb128_bytes-step n (minus_one - w) minus_one (127 - w)
      (shr-negative w (omega arith) ∙ omega arith) (omega arith)
    ∙ rw (eq→== (bit_and (127 - w) 0x40) 0x40 (sign_set (127 - w) (omega arith) (omega arith))) refl

pub negative_more :
    (n w : ℕ)
    → 64 ≤ w
    → w < 2 ^ 63
    → sleb128_bytes (suc n) (minus_one - w)
      ≡ (127 - w % 128 + 128) ∷ sleb128_bytes n (minus_one - w / 128)
negative_more n w h k =
    sleb128_bytes-step n (minus_one - w) (minus_one - w / 128) (127 - w % 128) (shr-negative w k)
      (omega arith)
    ∙ rw (ne→== (minus_one - w / 128) 0 (λ e. absurd (omega (arith, e))))
        (elim (ℕ_discrete (w / 128) 0) [
          | no ne ↦ rw (ne→== (minus_one - w / 128) minus_one (λ e. ne (omega (arith, e)))) refl
          | yes e ↦
              rw
                (
                  ne→== (bit_and (127 - w % 128) 0x40) 0x40
                      (λ f. absurd (omega (arith, f, clear (127 - w % 128) (omega (arith, e))))),
                  eq→== (minus_one - w / 128) minus_one (omega (arith, e)),
                )
                refl
        ])

-- A round of the decoder at a last byte.
pub signed_last :
    (fuel result shift byte : ℕ) (b : Buf)
    → b.memory b.ptr ≡ byte
    → b.ptr < b.end
    → byte < 128
    → (shift ≡ 63 → (byte ≡ 0) ⊎ (byte ≡ 127))
    → signed_rounds (suc fuel) result shift b
      ≡ ok (some (bit_or result (shl byte shift), shift + 7, byte), step b)
unfolding signed_rounds read_byte
signed_last fuel result shift byte b here inside small top =
    rw
      (
        lt→ltb b.ptr b.end inside,
        here,
        payload byte ∙ (let e : byte % 128 ≡ byte = omega arith in e),
        flag,
        eq→== (bit_and byte 0x80) 0 (one_bit byte 7 ∙ omega arith),
      )
      refl
  where
    flag : (shift == 63 && (not (byte == 0) && not (byte == 0x7f))) ≡ false
    flag = elim (ℕ_discrete shift 63) [
      | no n ↦ rw (ne→== shift 63 n)
      | yes e ↦ elim (top e) [
        | inl z ↦ rw (eq→== shift 63 e, eq→== byte 0 z) refl
        | inr m ↦
            rw
              (
                eq→== shift 63 e,
                ne→== byte 0 (λ f. absurd (omega (arith, f, m))),
                eq→== byte 0x7f m,
              )
              refl
      ]
    ]

pub signed_more :
    (fuel result shift low : ℕ) (b : Buf)
    → b.memory b.ptr ≡ low + 128
    → b.ptr < b.end
    → low < 128
    → shift < 64
    → shift ≢ 63
    → result < 2 ^ shift
    → low * 2 ^ shift < 2 ^ 64
    → signed_rounds (suc fuel) result shift b
      ≡ signed_rounds fuel (result + low * 2 ^ shift) (shift + 7) (step b)
unfolding signed_rounds read_byte
signed_more fuel result shift low b here inside small narrow top fits whole =
    rw
      (
        lt→ltb b.ptr b.end inside,
        here,
        ne→== shift 63 top,
        ne→== (bit_and (low + 128) 0x80) 0 (λ e. absurd (omega (arith, e, one_bit (low + 128) 7))),
      )
      (ap (λ v. signed_rounds fuel v (shift + 7) (step b))
        (added result shift low (low + 128) narrow (omega arith) fits whole))

shl-added :
    (result shift byte : ℕ)
    → shift < 64
    → result < 2 ^ shift
    → byte * 2 ^ shift < 2 ^ 64
    → bit_or result (shl byte shift) ≡ result + byte * 2 ^ shift
shl-added result shift byte narrow fits whole =
    ap (bit_or result) (
      ap (λ s. byte * 2 ^ s % 2 ^ 64) (let e : shift % 64 ≡ shift = omega arith in e) ∙ omega arith)
    ∙ bit_or_disjoint shift byte result fits

-- What the last byte adds, and the sign.
pub sign_extend-positive :
    (result shift byte : ℕ)
    → byte < 64
    → shift < 64
    → result < 2 ^ shift
    → byte * 2 ^ shift < 2 ^ 64
    → sign_extend (bit_or result (shl byte shift), shift + 7, byte) ≡ result + byte * 2 ^ shift
unfolding sign_extend
sign_extend-positive result shift byte small narrow fits whole =
    rw (eq→== (bit_and byte 0x40) 0 (clear byte small))
      (if_same (ltb (shift + 7) 64) _ _ ∙ shl-added result shift byte narrow fits whole)
  where
    if_same : (c : Bool) (x y : ℕ) → (if c && false then x else y) ≡ y
    if_same true x y = refl
    if_same false x y = refl

-- The sign bits above a short result.
sign_bits : (shift : ℕ) → shift < 64 → (2 ^ (64 - shift) - 1) * 2 ^ shift ≡ 2 ^ 64 - 2 ^ shift
sign_bits shift h =
    let whole : 2 ^ (64 - shift) * 2 ^ shift ≡ 2 ^ 64 =
      sym (two_pow-add shift (64 - shift))
      ∙ ap (λ k. 2 ^ k) (let e : shift + (64 - shift) ≡ 64 = omega arith in e) in
    minus (2 ^ (64 - shift)) (2 ^ shift) ∙ ap (λ t. t - 2 ^ shift) whole
  where
    minus : (a c : ℕ) → (a - 1) * c ≡ a * c - c
    minus zero c = omega arith
    minus (suc a) c = let e : suc a - 1 ≡ a = omega arith in omega (arith, ap (λ t. t * c) e)

shl-minus_one : (shift : ℕ) → shift < 64 → shl minus_one shift ≡ 2 ^ 64 - 2 ^ shift
shl-minus_one shift h =
    ap (λ s. minus_one * 2 ^ s % 2 ^ 64) (let e : shift % 64 ≡ shift = omega arith in e)
    ∙ omega (arith, two_pow_mono shift 64 h, one-le-pow shift 2)

extended :
    (shift r : ℕ)
    → shift < 64
    → r < 2 ^ shift
    → bit_or r (shl minus_one shift) ≡ r + (2 ^ 64 - 2 ^ shift)
extended shift r h fits =
    ap (bit_or r) (shl-minus_one shift h ∙ sym (sign_bits shift h))
    ∙ bit_or_disjoint shift (2 ^ (64 - shift) - 1) r fits
    ∙ ap (λ t. r + t) (sign_bits shift h)

pub sign_extend-negative :
    (result shift w : ℕ)
    → w < 64
    → shift < 64
    → result < 2 ^ shift
    → w * 2 ^ shift < 2 ^ 63
    → shift ≤ 56
    → sign_extend (bit_or result (shl (127 - w) shift), shift + 7, 127 - w) + (w + 1) * 2 ^ shift
      ≡ 2 ^ 64 + result
unfolding sign_extend
sign_extend-negative result shift w small narrow fits whole short =
    let e = two_pow-add shift 7 in
    let bound = row_lt (127 - w) result 128 (2 ^ shift) (omega arith) fits in
    let parts : (127 - w) * 2 ^ shift + (w + 1) * 2 ^ shift ≡ 128 * 2 ^ shift =
      complement w (2 ^ shift) small in
    let sum : bit_or result (shl (127 - w) shift) ≡ result + (127 - w) * 2 ^ shift =
      shl-added result shift (127 - w) narrow fits
        (omega (arith, parts, two_pow_mono shift 57 (omega arith))) in
    rw
      (
        lt→ltb (shift + 7) 64 (omega arith),
        ne→== (bit_and (127 - w) 0x40) 0
            (λ f. absurd (omega (arith, f, sign_set (127 - w) (omega arith) (omega arith)))),
      )
      (ap (λ t. bit_or t (shl minus_one (shift + 7)) + (w + 1) * 2 ^ shift) sum
        ∙ ap (λ t. t + (w + 1) * 2 ^ shift)
            (extended (shift + 7) (result + (127 - w) * 2 ^ shift) (omega arith)
              (omega (arith, bound, e)))
        ∙ omega (arith, parts, e, two_pow_mono (shift + 7) 64 (omega arith)))
  where
    complement : (w p : ℕ) → w < 64 → (127 - w) * p + (w + 1) * p ≡ 128 * p
    complement w p h =
        let e : 127 - w + (w + 1) ≡ 128 = omega arith in omega (arith, ap (λ t. t * p) e)

-- At the top shift the last byte of a negative word is all ones, and there is nothing to extend.
pub sign_extend-top :
    (result : ℕ)
    → result < 2 ^ 63
    → sign_extend (bit_or result (shl 127 63), 70, 127) ≡ result + 2 ^ 63
unfolding sign_extend
sign_extend-top result fits = bit_or_disjoint 63 1 result fits
