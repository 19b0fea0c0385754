-- ===== src/Leb128/RoundTrip.antt =====
-- Decoding what was encoded.
use motoko.Prelude.{
  ℕ, zero, suc, ◌+◌, ◌*◌, ◌/◌, ◌%◌, ◌^◌, ◌≤◌, ◌<◌, ◌≡◌, ◌≢◌, refl, sym, ap, ◌∙◌, subst, List, [],
  ◌∷◌, some, length, get_or, arith, dec_lt,
}
use motoko.Prelude.Bits.{row_lt, two_pow-add}
use motoko.Prelude.Result.{ok}
use motoko.StableMem.{Bytes}
use motoko.StableMem.Laws.{write-inside}
use motoko.Buf.{Buf, size}
use motoko.Leb128.{leb128_bytes, leb128_encode, decode_rounds, leb128_decode_checked, leb128_decode}
use motoko.Leb128.Round.{leb128_bytes-last, leb128_bytes-more, round_last, round_more, step}

-- The memory has these bytes from an address on.
pub record Holds (m : Bytes) (at : ℕ) (bytes : List ℕ) : Type 0 where
  pub byte : (i : ℕ) → i < length bytes → m (at + i) ≡ get_or bytes i 0

pub Holds-head : {m : Bytes} {at x : ℕ} {xs : List ℕ} → Holds m at (x ∷ xs) → m at ≡ x
Holds-head {m} {at} h = ap m (let e : at ≡ at + 0 = omega arith in e) ∙ h.byte 0 (omega arith)

pub Holds-tail : {m : Bytes} {at x : ℕ} {xs : List ℕ} → Holds m at (x ∷ xs) → Holds m (at + 1) xs
Holds-tail {m} {at} h = record {
  byte = λ i p.
      ap m (let e : at + 1 + i ≡ at + suc i = omega arith in e) ∙ h.byte (suc i) (omega arith);
}

-- The buffer `n` bytes further.
abbrev pub advanced : Buf → ℕ → Buf
advanced b n = record b { ptr = b.ptr + n }

-- From the round at `shift` on, if the value is one byte.
rounds_last :
    (n fuel val result shift : ℕ) (b : Buf)
    → val < 128
    → shift < 64
    → result < 2 ^ shift
    → val * 2 ^ shift < 2 ^ 64
    → Holds b.memory b.ptr (leb128_bytes (suc n) val)
    → b.ptr + length (leb128_bytes (suc n) val) ≤ b.end
    → decode_rounds (suc fuel) result shift b
      ≡ ok (some (result + val * 2 ^ shift), advanced b (length (leb128_bytes (suc n) val)))
rounds_last n fuel val result shift b small narrow fits whole holds inside =
    let e : leb128_bytes (suc n) val ≡ val ∷ [] = leb128_bytes-last n val small in
    round_last fuel result shift val b (Holds-head (subst (Holds b.memory b.ptr) e holds))
      (omega (arith, ap length e)) small narrow (λ top. omega (arith, ap (λ s. val * 2 ^ s) top))
      fits whole
    ∙ ap (λ l. ok (some (result + val * 2 ^ shift), advanced b l)) (sym (ap length e))

-- A value of more bytes leaves more than one round.
not_top : (val shift : ℕ) → 128 ≤ val → val * 2 ^ shift < 2 ^ 64 → shift ≢ 63
not_top val shift large whole top = absurd (omega (arith, ap (λ s. val * 2 ^ s) top))

pub split_value :
    (val shift : ℕ) → val * 2 ^ shift ≡ val % 128 * 2 ^ shift + val / 128 * 2 ^ (shift + 7)
split_value val shift =
    let e : val ≡ val / 128 * 128 + val % 128 = omega arith in
    omega (arith, ap (λ v. v * 2 ^ shift) e, ap (λ t. val / 128 * t) (two_pow-add shift 7))

length-leb128_bytes : (n val : ℕ) → 1 ≤ length (leb128_bytes (suc n) val)
length-leb128_bytes n val = elim (dec_lt val 128) [
  | yes small ↦ omega (arith, ap length (leb128_bytes-last n val small))
  | no large ↦ omega (arith, ap length (leb128_bytes-more n val (omega arith)))
]

decode_rounds-bytes :
    (n fuel val result shift : ℕ) (b : Buf)
    → shift + 7 * suc n ≡ 70
    → length (leb128_bytes (suc n) val) ≤ suc fuel
    → result < 2 ^ shift
    → val * 2 ^ shift < 2 ^ 64
    → Holds b.memory b.ptr (leb128_bytes (suc n) val)
    → b.ptr + length (leb128_bytes (suc n) val) ≤ b.end
    → decode_rounds (suc fuel) result shift b
      ≡ ok (some (result + val * 2 ^ shift), advanced b (length (leb128_bytes (suc n) val)))
decode_rounds-bytes zero fuel val result shift b place enough fits whole holds inside =
    rounds_last 0 fuel val result shift b
      (omega (arith, ap (λ s. val * 2 ^ s) (let e : shift ≡ 63 = omega arith in e))) (omega arith)
      fits whole holds inside
decode_rounds-bytes (suc n) zero val result shift b place enough fits whole holds inside =
    elim (dec_lt val 128) [
      | yes small ↦
          rounds_last (suc n) zero val result shift b small (omega arith) fits whole holds inside
      | no large ↦ absurd (
          omega (
            arith,
            ap length (leb128_bytes-more (suc n) val (omega arith)),
            length-leb128_bytes n (val / 128),
          ))
    ]
decode_rounds-bytes (suc n) (suc fuel) val result shift b place enough fits whole holds inside =
    elim (dec_lt val 128) [
      | yes small ↦
          rounds_last (suc n) (suc fuel) val result shift b small (omega arith) fits whole holds
            inside
      | no large ↦
          let e = leb128_bytes-more (suc n) val (omega arith) in
          let holds' = subst (Holds b.memory b.ptr) e holds in
          let digits = split_value val shift in
          let bound = row_lt (val % 128) result 128 (2 ^ shift) (omega arith) fits in
          round_more (suc fuel) result shift (val % 128) b (Holds-head holds')
            (omega (arith, ap length e)) (omega arith) (omega arith)
            (not_top val shift (omega arith) whole) fits (omega (arith, digits))
          ∙ decode_rounds-bytes n fuel (val / 128) (result + val % 128 * 2 ^ shift) (shift + 7)
              (step b) (omega arith) (omega (arith, ap length e))
              (omega (arith, bound, two_pow-add shift 7)) (omega (arith, digits))
              (Holds-tail holds') (omega (arith, ap length e))
          ∙ (λ i. ok (
            some (
                (let t : result + val % 128 * 2 ^ shift + val / 128 * 2 ^ (shift + 7)
                        ≡ result + val * 2 ^ shift =
                      omega (arith, digits) in
                    t)
                  i),
            record b {
              ptr =
                  (let t : b.ptr + 1 + length (leb128_bytes (suc n) (val / 128))
                          ≡ b.ptr + length (leb128_bytes (suc (suc n)) val) =
                        omega (arith, ap length e) in
                      t)
                    i;
            },
          ))
    ]

pub decode-bytes :
    (val : ℕ) (b : Buf)
    → val < 2 ^ 64
    → Holds b.memory b.ptr (leb128_bytes 10 val)
    → b.ptr + length (leb128_bytes 10 val) ≤ b.end
    → leb128_decode_checked b ≡ ok (some val, advanced b (length (leb128_bytes 10 val)))
unfolding leb128_decode_checked
decode-bytes val b word holds inside =
    ap (λ f. decode_rounds f 0 0 b) (let e : size b + 1 ≡ suc (size b) = omega arith in e)
    ∙ decode_rounds-bytes 9 (size b) val 0 0 b (omega arith) (omega arith) (omega arith)
        (omega arith) holds inside
    ∙ ap (λ v. ok (some v, advanced b (length (leb128_bytes 10 val))))
        (let e : 0 + val * 2 ^ 0 ≡ val = omega arith in e)

encode-Holds : (val at : ℕ) (m : Bytes) → Holds (leb128_encode val at m) at (leb128_bytes 10 val)
unfolding leb128_encode
encode-Holds val at m = record { byte = λ i p. write-inside at (leb128_bytes 10 val) m i 0 p }

-- Encoding a word of 64 bits into memory and decoding it, from a buffer that begins where it was
-- written and has room for it, gives the word and moves the buffer just behind it, whatever follows;
-- there is no overflow, no trap, and the loop ends.
pub leb128_decode-encode :
    (val : ℕ) (m : Bytes) (ptr end : ℕ)
    → val < 2 ^ 64
    → ptr + length (leb128_bytes 10 val) ≤ end
    → let b : Buf = record { memory = leb128_encode val ptr m; ptr = ptr; end = end } in
      leb128_decode b ≡ ok (val, advanced b (length (leb128_bytes 10 val)))
unfolding leb128_decode
leb128_decode-encode val m ptr end word room =
    let b : Buf = record { memory = leb128_encode val ptr m; ptr = ptr; end = end } in
    rw (decode-bytes val b word (encode-Holds val ptr m) room) refl
