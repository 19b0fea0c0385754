-- ===== src/Leb128/Round.antt =====
-- One round of encoding and of decoding, as arithmetic.
use motoko.Prelude.{
  ℕ, zero, suc, ◌+◌, ◌*◌, ◌/◌, ◌%◌, ◌^◌, ◌≤◌, ◌<◌, ◌≡◌, ◌≢◌, refl, sym, ap, ap₂, ◌∙◌, [], ◌∷◌, some,
  false, not, ◌&&◌, ◌==◌, bit_and, bit_or, arith, eq→==, ne→==, lt→ltb, ℕ_discrete,
}
use motoko.Prelude.Bits.{bit_and_mask, bit_and-two_pow, shifted_bit, bit_or_disjoint}
use motoko.Prelude.Result.{ok}
use motoko.Buf.{Buf, read_byte}
use motoko.Leb128.{leb128_bytes, shl, decode_rounds}

-- `w & (1 << b)`
pub one_bit : (w b : ℕ) → bit_and w (2 ^ b) ≡ w / 2 ^ b % 2 * 2 ^ b
one_bit w b = bit_and-two_pow w b ∙ ap (λ t. t * 2 ^ b) (sym (shifted_bit w b))

pub leb128_bytes-last : (n val : ℕ) → val < 128 → leb128_bytes (suc n) val ≡ val ∷ []
unfolding leb128_bytes
leb128_bytes-last n val h =
    rw (eq→== (val / 2 ^ 7) 0 (omega arith)) (ap (λ b. b ∷ []) (bit_and_mask 7 val ∙ omega arith))

pub leb128_bytes-more :
    (n val : ℕ)
    → 128 ≤ val
    → leb128_bytes (suc n) val ≡ (val % 128 + 128) ∷ leb128_bytes n (val / 128)
unfolding leb128_bytes
leb128_bytes-more n val h = rw (ne→== (val / 2 ^ 7) 0 (λ e. absurd (omega arith))) (
    ap (λ b. b ∷ leb128_bytes n (val / 128))
      (bit_or_disjoint 7 1 (bit_and val 0x7f) (omega (arith, bit_and_mask 7 val))
        ∙ omega (arith, bit_and_mask 7 val)))

-- What a round adds to the result.
pub added :
    (result shift payload byte : ℕ)
    → shift < 64
    → byte % 128 ≡ payload
    → result < 2 ^ shift
    → payload * 2 ^ shift < 2 ^ 64
    → bit_or result (shl (bit_and byte 0x7f) shift) ≡ result + payload * 2 ^ shift
added result shift payload byte small e fits whole =
    ap (bit_or result) (
      ap₂ (λ v s. v * 2 ^ s % 2 ^ 64) (bit_and_mask 7 byte ∙ e)
        (let t : shift % 64 ≡ shift = omega arith in t)
      ∙ omega arith)
    ∙ bit_or_disjoint shift payload result fits

abbrev pub step : Buf → Buf
step b = record b { ptr = b.ptr + 1 }

pub round_last :
    (fuel result shift byte : ℕ) (b : Buf)
    → b.memory b.ptr ≡ byte
    → b.ptr < b.end
    → byte < 128
    → shift < 64
    → (shift ≡ 63 → byte < 2)
    → result < 2 ^ shift
    → byte * 2 ^ shift < 2 ^ 64
    → decode_rounds (suc fuel) result shift b ≡ ok (some (result + byte * 2 ^ shift), step b)
unfolding decode_rounds read_byte
round_last fuel result shift byte b here inside small narrow top fits whole =
    rw
      (
        lt→ltb b.ptr b.end inside,
        here,
        flag,
        eq→== (bit_and byte 0x80) 0 (one_bit byte 7 ∙ omega arith),
      )
      (ap (λ v. ok (some v, step b)) (added result shift byte byte narrow (omega arith) fits whole))
  where
    low : (y : ℕ) → y < 2 → bit_and y 0xfe ≡ 0
    low zero h = refl
    low (suc zero) h = refl
    low (suc (suc y)) h = absurd (omega arith)

    flag : (shift == 63 && not (bit_and byte 0xfe == 0)) ≡ false
    flag = elim (ℕ_discrete shift 63) [
      | yes e ↦ rw (eq→== shift 63 e, eq→== (bit_and byte 0xfe) 0 (low byte (top e)))
      | no n ↦ rw (ne→== shift 63 n)
    ]

pub round_more :
    (fuel result shift payload : ℕ) (b : Buf)
    → b.memory b.ptr ≡ payload + 128
    → b.ptr < b.end
    → payload < 128
    → shift < 64
    → shift ≢ 63
    → result < 2 ^ shift
    → payload * 2 ^ shift < 2 ^ 64
    → decode_rounds (suc fuel) result shift b
      ≡ decode_rounds fuel (result + payload * 2 ^ shift) (shift + 7) (step b)
unfolding decode_rounds read_byte
round_more fuel result shift payload b here inside small narrow top fits whole =
    rw
      (
        lt→ltb b.ptr b.end inside,
        here,
        ne→== shift 63 top,
        ne→== (bit_and (payload + 128) 0x80) 0
            (λ e. absurd (omega (arith, one_bit (payload + 128) 7))),
      )
      (ap (λ v. decode_rounds fuel v (shift + 7) (step b))
        (added result shift payload (payload + 128) narrow (omega arith) fits whole))
