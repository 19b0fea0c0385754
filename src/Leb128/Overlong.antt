-- ===== src/Leb128/Overlong.antt =====
-- Encodings of a signed word of more than ten bytes.
use motoko.Prelude.{
  ℕ, zero, suc, ◌+◌, ◌-◌, ◌*◌, ◌%◌, ◌^◌, ◌≤◌, ◌<◌, ◌≡◌, refl, ap, ◌∙◌, Option, some, Bool, true,
  false, ◌&&◌, ◌==◌, if◌then◌else◌, bit_and, bit_or, arith, lt→ltb, eq→==,
}
use motoko.Prelude.Bits.{bit_and_mask, bit_or_disjoint}
use motoko.Prelude.Result.{Result, ok}
use motoko.Buf.{Buf, size, read_byte}
use motoko.Leb128.{shl, signed_rounds, sign_extend, sleb128_decode_checked}
use motoko.Leb128.Round.{one_bit, step}
use motoko.Leb128.RoundTrip.{advanced}

-- A byte that adds nothing and asks for another.
zero_round :
    (fuel shift : ℕ) (b : Buf)
    → b.memory b.ptr ≡ 0x80
    → b.ptr < b.end
    → signed_rounds (suc fuel) 0 shift b ≡ signed_rounds fuel 0 (shift + 7) (step b)
unfolding signed_rounds read_byte
zero_round fuel shift b here inside =
    rw (lt→ltb b.ptr b.end inside, here)
      (pick (shift == 63) _ _
        ∙ ap (λ r. signed_rounds fuel r (shift + 7) (step b))
            (ap (bit_or 0) (let e : 0 * 2 ^ (shift % 64) % 2 ^ 64 ≡ 0 = omega arith in e)))
  where
    pick : (c : Bool) (x y : Result (Option (ℕ × ℕ × ℕ) × Buf)) → (if c && false then x else y) ≡ y
    pick true x y = refl
    pick false x y = refl

zero_rounds :
    (k fuel shift : ℕ) (b : Buf)
    → ((i : ℕ) → i < k → b.memory (b.ptr + i) ≡ 0x80)
    → b.ptr + k ≤ b.end
    → signed_rounds (k + fuel) 0 shift b ≡ signed_rounds fuel 0 (shift + 7 * k) (advanced b k)
zero_rounds zero fuel shift b zeros inside = (λ i.
    signed_rounds ((let e : 0 + fuel ≡ fuel = omega arith in e) i) 0
      ((let e : shift ≡ shift + 7 * 0 = omega arith in e) i)
      (record b { ptr = (let e : b.ptr ≡ b.ptr + 0 = omega arith in e) i }))
zero_rounds (suc k) fuel shift b zeros inside =
    ap (λ f. signed_rounds f 0 shift b) (let e : suc k + fuel ≡ suc (k + fuel) = omega arith in e)
    ∙ zero_round (k + fuel) shift b
        (ap b.memory (let e : b.ptr ≡ b.ptr + 0 = omega arith in e) ∙ zeros 0 (omega arith))
        (omega arith)
    ∙ zero_rounds k fuel (shift + 7) (step b)
        (λ i h.
          ap b.memory (let e : b.ptr + 1 + i ≡ b.ptr + suc i = omega arith in e)
          ∙ zeros (suc i) (omega arith))
        (omega arith)
    ∙ (λ i.
        signed_rounds fuel 0 ((let e : shift + 7 + 7 * k ≡ shift + 7 * suc k = omega arith in e) i)
          (record b { ptr = (let e : b.ptr + 1 + k ≡ b.ptr + suc k = omega arith in e) i }))

last_round :
    (fuel byte : ℕ) (b : Buf)
    → b.memory b.ptr ≡ byte
    → b.ptr < b.end
    → byte < 128
    → signed_rounds (suc fuel) 0 70 b ≡ ok (some (byte * 64, 77, byte), step b)
unfolding signed_rounds read_byte
last_round fuel byte b here inside small =
    let value : bit_or 0 (shl (bit_and byte 0x7f) 70) ≡ byte * 64 =
      ap (λ t. bit_or 0 (t * 64 % 2 ^ 64)) (bit_and_mask 7 byte)
      ∙ ap (bit_or 0) (let e : byte % 128 * 64 % 2 ^ 64 ≡ byte * 2 ^ 6 = omega arith in e)
      ∙ bit_or_disjoint 6 byte 0 (omega arith)
      ∙ omega arith in
    rw (lt→ltb b.ptr b.end inside, here, eq→== (bit_and byte 0x80) 0 (one_bit byte 7 ∙ omega arith))
      (ap (λ v. ok (some (v, 77, byte), step b)) value)

-- Ten bytes that ask for another and a last one are too many for 64 bits, but decoding a signed word
-- accepts them: for ten bytes 0x80 and a last byte the result is the last byte times 64, since the
-- shift by 70 is cut to 6, and eleven bytes are read.
pub sleb128_decode_overlong :
    (byte : ℕ) (b : Buf)
    → byte < 128
    → ((i : ℕ) → i < 10 → b.memory (b.ptr + i) ≡ 0x80)
    → b.memory (b.ptr + 10) ≡ byte
    → b.ptr + 11 ≤ b.end
    → sleb128_decode_checked b ≡ ok (some (byte * 64), advanced b 11)
unfolding sleb128_decode_checked sign_extend
sleb128_decode_overlong byte b small zeros end room =
    let fuel = size b - 10 in
    rw
      (ap (λ f. signed_rounds f 0 0 b) (let e : size b + 1 ≡ 10 + suc fuel = omega arith in e)
        ∙ zero_rounds 10 (suc fuel) 0 b zeros (omega arith)
        ∙ last_round fuel byte (advanced b 10) end (omega arith) small)
      (ap (λ p. ok (some (byte * 64), record b { ptr = p }))
        (let e : b.ptr + 10 + 1 ≡ b.ptr + 11 = omega arith in e))
