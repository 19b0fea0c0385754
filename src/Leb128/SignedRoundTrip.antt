-- ===== src/Leb128/SignedRoundTrip.antt =====
-- Decoding a signed word that was encoded.
use motoko.Prelude.{
  ℕ, zero, suc, ◌+◌, ◌-◌, ◌*◌, ◌/◌, ◌%◌, ◌^◌, ◌≤◌, ◌<◌, ◌≡◌, ◌⊎◌, inl, inr, ap₂, bit_or, refl, sym,
  ap, ◌∙◌, subst, some, length, arith, dec_lt,
}
use motoko.Prelude.Bits.{row_lt, two_pow_mono, two_pow-add}
use motoko.Prelude.Result.{ok}
use motoko.StableMem.{Bytes}
use motoko.StableMem.Laws.{write-inside}
use motoko.Buf.{Buf, size}
use motoko.Leb128.{
  minus_one, shl, sleb128_bytes, sleb128_encode, signed_rounds, sign_extend, sleb128_decode_checked,
  sleb128_decode,
}
use motoko.Leb128.Round.{step}
use motoko.Leb128.Signed.{
  positive_last, positive_more, negative_last, negative_more, signed_last, signed_more,
  sign_extend-positive, sign_extend-negative, sign_extend-top,
}
use motoko.Leb128.RoundTrip.{Holds, Holds-head, Holds-tail, advanced, split_value}

-- The rounds from a state on end behind `len` bytes, and what sign extension makes of the end.
record Ends (fuel result shift : ℕ) (b : Buf) (len : ℕ) (value : ℕ → Type 0) : Type 0 where
  state : ℕ × ℕ × ℕ
  rounds : signed_rounds fuel result shift b ≡ ok (some state, advanced b len)
  good : value (sign_extend state)

-- One round in front.
in_front :
    (fuel result shift next : ℕ) (b : Buf) (len len' : ℕ) (value value' : ℕ → Type 0)
    → signed_rounds (suc fuel) result shift b ≡ signed_rounds fuel next (shift + 7) (step b)
    → len' ≡ suc len
    → ((x : ℕ) → value x → value' x)
    → Ends fuel next (shift + 7) (step b) len value
    → Ends (suc fuel) result shift b len' value'
in_front fuel result shift next b len len' value value' e l better h = record {
  state = h.state;
  rounds = e ∙ h.rounds ∙ ap (λ k. ok (some h.state, record b { ptr = k })) (omega (arith, l));
  good = better (sign_extend h.state) h.good;
}

at_top : (v shift : ℕ) → shift ≡ 63 → v * 2 ^ shift < 2 ^ 63 → v ≡ 0
at_top v shift top whole = omega (arith, ap (λ k. v * 2 ^ k) top)

-- A last byte.
ends :
    (fuel result shift byte len : ℕ) (b : Buf) (value : ℕ → Type 0)
    → b.memory b.ptr ≡ byte
    → len ≡ 1
    → b.ptr + len ≤ b.end
    → byte < 128
    → (shift ≡ 63 → (byte ≡ 0) ⊎ (byte ≡ 127))
    → value (sign_extend (bit_or result (shl byte shift), shift + 7, byte))
    → Ends (suc fuel) result shift b len value
ends fuel result shift byte len b value here l inside small top good = record {
  state = (bit_or result (shl byte shift), shift + 7, byte);
  rounds =
      signed_last fuel result shift byte b here (omega (arith, l)) small top
      ∙ ap (λ k. ok (some (bit_or result (shl byte shift), shift + 7, byte), advanced b k)) (sym l);
  good = good;
}

-- A word that is not negative, of one byte.
positive_end :
    (n fuel v result shift : ℕ) (b : Buf)
    → shift < 64
    → v < 64
    → result < 2 ^ shift
    → v * 2 ^ shift < 2 ^ 63
    → Holds b.memory b.ptr (sleb128_bytes (suc n) v)
    → b.ptr + length (sleb128_bytes (suc n) v) ≤ b.end
    → Ends
        (suc fuel)
        result
        shift
        b
        (length (sleb128_bytes (suc n) v))
        (λ x. x ≡ result + v * 2 ^ shift)
positive_end n fuel v result shift b narrow s fits whole holds inside =
    let e = positive_last n v s in
    ends fuel result shift v (length (sleb128_bytes (suc n) v)) b (λ x. x ≡ result + v * 2 ^ shift)
      (Holds-head (subst (Holds b.memory b.ptr) e holds)) (ap length e) inside (omega arith)
      (λ top. inl (at_top v shift top whole))
      (sign_extend-positive result shift v s narrow fits (omega arith))

positive :
    (n fuel v result shift : ℕ) (b : Buf)
    → shift + 7 * suc n ≡ 70
    → length (sleb128_bytes (suc n) v) ≤ fuel
    → result < 2 ^ shift
    → v * 2 ^ shift < 2 ^ 63
    → v < 2 ^ 63
    → Holds b.memory b.ptr (sleb128_bytes (suc n) v)
    → b.ptr + length (sleb128_bytes (suc n) v) ≤ b.end
    → Ends fuel result shift b (length (sleb128_bytes (suc n) v)) (λ x. x ≡ result + v * 2 ^ shift)
positive n zero v result shift b place enough fits whole small holds inside = elim (dec_lt v 64) [
  | yes s ↦ absurd (omega (arith, ap length (positive_last n v s)))
  | no m ↦ absurd (omega (arith, ap length (positive_more n v (omega arith) small)))
]
positive zero (suc fuel) v result shift b place enough fits whole small holds inside =
    positive_end zero fuel v result shift b (omega arith)
      (omega (arith, at_top v shift (omega arith) whole)) fits whole holds inside
positive (suc n) (suc fuel) v result shift b place enough fits whole small holds inside =
    elim (dec_lt v 64) [
      | yes s ↦ positive_end (suc n) fuel v result shift b (omega arith) s fits whole holds inside
      | no m ↦
          let e = positive_more (suc n) v (omega arith) small in
          let holds' = subst (Holds b.memory b.ptr) e holds in
          let digits = split_value v shift in
          let bound = row_lt (v % 128) result 128 (2 ^ shift) (omega arith) fits in
          in_front fuel result shift (result + v % 128 * 2 ^ shift) b
            (length (sleb128_bytes (suc n) (v / 128))) (length (sleb128_bytes (suc (suc n)) v))
            (λ x. x ≡ result + v % 128 * 2 ^ shift + v / 128 * 2 ^ (shift + 7))
            (λ x. x ≡ result + v * 2 ^ shift)
            (signed_more fuel result shift (v % 128) b (Holds-head holds')
              (omega (arith, ap length e)) (omega arith) (omega arith) (omega arith) fits
              (omega (arith, digits)))
            (ap length e) (λ x h. omega (arith, h, digits))
            (positive n fuel (v / 128) (result + v % 128 * 2 ^ shift) (shift + 7) (step b)
              (omega arith) (omega (arith, ap length e)) (omega (arith, bound, two_pow-add shift 7))
              (omega (arith, digits)) (omega arith) (Holds-tail holds')
              (omega (arith, ap length e)))
    ]

-- A negative word, of one byte.
negative_end :
    (n fuel w result shift : ℕ) (b : Buf)
    → (shift ≤ 56) ⊎ (shift ≡ 63)
    → w < 64
    → result < 2 ^ shift
    → w * 2 ^ shift < 2 ^ 63
    → Holds b.memory b.ptr (sleb128_bytes (suc n) (minus_one - w))
    → b.ptr + length (sleb128_bytes (suc n) (minus_one - w)) ≤ b.end
    → Ends
        (suc fuel)
        result
        shift
        b
        (length (sleb128_bytes (suc n) (minus_one - w)))
        (λ x. x + (w + 1) * 2 ^ shift ≡ 2 ^ 64 + result)
negative_end n fuel w result shift b place s fits whole holds inside =
    let e = negative_last n w s in
    ends fuel result shift (127 - w) (length (sleb128_bytes (suc n) (minus_one - w))) b
      (λ x. x + (w + 1) * 2 ^ shift ≡ 2 ^ 64 + result)
      (Holds-head (subst (Holds b.memory b.ptr) e holds)) (ap length e) inside (omega arith)
      (λ top. inr (omega (arith, at_top w shift top whole)))
      (elim place [
        | inl short ↦ sign_extend-negative result shift w s (omega arith) fits whole short
        | inr top ↦ at_the_top w shift top (at_top w shift top whole) fits
      ])
  where
    at_the_top :
        (w shift : ℕ)
        → shift ≡ 63
        → w ≡ 0
        → result < 2 ^ shift
        → sign_extend (bit_or result (shl (127 - w) shift), shift + 7, 127 - w)
            + (w + 1) * 2 ^ shift
          ≡ 2 ^ 64 + result
    at_the_top w shift top least fits =
        ap₂
          (λ w shift.
            sign_extend (bit_or result (shl (127 - w) shift), shift + 7, 127 - w)
            + (w + 1) * 2 ^ shift)
          least top
        ∙ omega (arith, sign_extend-top result (omega (arith, ap (λ k. 2 ^ k) top)))

negative :
    (n fuel w result shift : ℕ) (b : Buf)
    → shift + 7 * suc n ≡ 70
    → length (sleb128_bytes (suc n) (minus_one - w)) ≤ fuel
    → result < 2 ^ shift
    → w * 2 ^ shift < 2 ^ 63
    → w < 2 ^ 63
    → Holds b.memory b.ptr (sleb128_bytes (suc n) (minus_one - w))
    → b.ptr + length (sleb128_bytes (suc n) (minus_one - w)) ≤ b.end
    → Ends fuel result shift b
        (length (sleb128_bytes (suc n) (minus_one - w)))
        (λ x. x + (w + 1) * 2 ^ shift ≡ 2 ^ 64 + result)
negative n zero w result shift b place enough fits whole small holds inside = elim (dec_lt w 64) [
  | yes s ↦ absurd (omega (arith, ap length (negative_last n w s)))
  | no m ↦ absurd (omega (arith, ap length (negative_more n w (omega arith) small)))
]
negative zero (suc fuel) w result shift b place enough fits whole small holds inside =
    negative_end zero fuel w result shift b (inr (omega arith))
      (omega (arith, at_top w shift (omega arith) whole)) fits whole holds inside
negative (suc n) (suc fuel) w result shift b place enough fits whole small holds inside =
    elim (dec_lt w 64) [
      | yes s ↦
          negative_end (suc n) fuel w result shift b (inl (omega arith)) s fits whole holds inside
      | no m ↦
          let e = negative_more (suc n) w (omega arith) small in
          let holds' = subst (Holds b.memory b.ptr) e holds in
          let digits = split_value w shift in
          let low = 127 - w % 128 in
          let bound = row_lt low result 128 (2 ^ shift) (omega arith) fits in
          let pair : low * 2 ^ shift + (w % 128 + 1) * 2 ^ shift ≡ 128 * 2 ^ shift =
            complement (w % 128) (2 ^ shift) (omega arith) in
          let p = two_pow-add shift 7 in
          in_front fuel result shift (result + low * 2 ^ shift) b
            (length (sleb128_bytes (suc n) (minus_one - w / 128)))
            (length (sleb128_bytes (suc (suc n)) (minus_one - w)))
            (λ x. x + (w / 128 + 1) * 2 ^ (shift + 7) ≡ 2 ^ 64 + (result + low * 2 ^ shift))
            (λ x. x + (w + 1) * 2 ^ shift ≡ 2 ^ 64 + result)
            (signed_more fuel result shift low b (Holds-head holds') (omega (arith, ap length e))
              (omega arith) (omega arith) (omega arith) fits
              (omega (arith, pair, p, two_pow_mono shift 57 (omega arith))))
            (ap length e) (λ x h. omega (arith, h, digits, pair, p))
            (negative n fuel (w / 128) (result + low * 2 ^ shift) (shift + 7) (step b) (omega arith)
              (omega (arith, ap length e)) (omega (arith, bound, p)) (omega (arith, digits))
              (omega arith) (Holds-tail holds') (omega (arith, ap length e)))
    ]
  where
    complement : (r p : ℕ) → r < 128 → (127 - r) * p + (r + 1) * p ≡ 128 * p
    complement r p h =
        let e : 127 - r + (r + 1) ≡ 128 = omega arith in omega (arith, ap (λ t. t * p) e)

decode-Ends :
    (x len : ℕ) (b : Buf)
    → Ends (size b + 1) 0 0 b len (λ y. y ≡ x)
    → sleb128_decode_checked b ≡ ok (some x, advanced b len)
unfolding sleb128_decode_checked
decode-Ends x len b h = rw h.rounds (ap (λ y. ok (some y, advanced b len)) h.good)

better :
    {fuel result shift : ℕ} {b : Buf} {len : ℕ} {value value' : ℕ → Type 0}
    → ((y : ℕ) → value y → value' y)
    → Ends fuel result shift b len value
    → Ends fuel result shift b len value'
better f h = record { state = h.state; rounds = h.rounds; good = f (sign_extend h.state) h.good }

decode-bytes :
    (x : ℕ) (b : Buf)
    → x < 2 ^ 64
    → Holds b.memory b.ptr (sleb128_bytes 10 x)
    → b.ptr + length (sleb128_bytes 10 x) ≤ b.end
    → sleb128_decode_checked b ≡ ok (some x, advanced b (length (sleb128_bytes 10 x)))
decode-bytes x b word holds inside = elim (dec_lt x (2 ^ 63)) [
  | yes pos ↦ decode-Ends x (length (sleb128_bytes 10 x)) b (
      better (λ y h. omega (arith, h))
        (positive 9 (size b + 1) x 0 0 b (omega arith) (omega arith) (omega arith) (omega arith) pos
          holds inside))
  | no neg ↦
      let w = minus_one - x in
      let e : minus_one - w ≡ x = omega arith in
      let bytes = ap (λ y. sleb128_bytes 10 y) e in
      decode-Ends x (length (sleb128_bytes 10 x)) b (
        subst (λ l. Ends (size b + 1) 0 0 b (length l) (λ y. y ≡ x)) bytes
          (better (λ y h. omega (arith, h))
            (negative 9 (size b + 1) w 0 0 b (omega arith) (omega (arith, ap length bytes))
              (omega arith) (omega arith) (omega arith)
              (subst (Holds b.memory b.ptr) (sym bytes) holds) (omega (arith, ap length bytes)))))
]

-- Encoding a signed word of 64 bits, given as its two's complement, into memory and decoding it, from a
-- buffer that begins where it was written and has room for it, gives the word and moves the buffer
-- just behind it, whatever follows; there is no overflow, no trap, and the loop ends.
pub sleb128_decode-encode :
    (val : ℕ) (m : Bytes) (ptr end : ℕ)
    → val < 2 ^ 64
    → ptr + length (sleb128_bytes 10 val) ≤ end
    → let b : Buf = record { memory = sleb128_encode val ptr m; ptr = ptr; end = end } in
      sleb128_decode b ≡ ok (val, advanced b (length (sleb128_bytes 10 val)))
unfolding sleb128_decode sleb128_encode
sleb128_decode-encode val m ptr end word room =
    let b : Buf = record { memory = sleb128_encode val ptr m; ptr = ptr; end = end } in
    rw
      (decode-bytes val b word
        (record { byte = λ i p. write-inside ptr (sleb128_bytes 10 val) m i 0 p }) room)
      refl
