-- ===== src/Leb128/Skip.antt =====
-- Skipping a number, and decoding it.
use motoko.Prelude.{
  ℕ, zero, suc, ◌+◌, ◌≡◌, refl, sym, ap, ◌∙◌, Option, none, some, Bool, true, false, not, ◌&&◌, ltb,
  ◌==◌, if◌then◌else◌, bit_and, bit_or,
}
use motoko.Prelude.Result.{Result, ok, trap, ◌>>=◌, ◌>>◌, guard}
use motoko.Buf.{Buf, size, read_byte, skip_rounds, skip_leb128}
use motoko.Leb128.{decode_rounds, leb128_decode_checked, shl}

buffer_of : Buf → Result (Option ℕ × Buf) → Buf
buffer_of b (ok (v, b')) = b'
buffer_of b (trap e) = b

-- One round of each, by the tests that they make.
same_round :
    (inside over last : Bool) (b1 b' : Buf) (r v : ℕ) (rest : Result (Option ℕ × Buf))
    (skipped : Result Buf)
    → (rest ≡ ok (some v, b') → skipped ≡ ok b')
    → (guard inside "IDL error: byte read out of buffer"
        >> (if over then ok (none, b1) else if last then ok (some r, b1) else rest))
      ≡ ok (some v, b')
    → (guard inside "IDL error: byte read out of buffer" >> (if last then ok b1 else skipped))
      ≡ ok b'
unfolding buffer_of
same_round false over last b1 b' r v rest skipped go h = absurd (cc h)
same_round true true last b1 b' r v rest skipped go h = absurd (cc h)
same_round true false true b1 b' r v rest skipped go h = ap ok (ap (buffer_of b1) h)
same_round true false false b1 b' r v rest skipped go h = go h

after_guard :
    {A B : Type 0} (inside : Bool) (p : A) (f : A → Result B)
    → (guard inside "IDL error: byte read out of buffer" >> ok p >>= f)
      ≡ (guard inside "IDL error: byte read out of buffer" >> f p)
after_guard true p f = refl
after_guard false p f = refl

skip_rounds-decode :
    (fuel result shift v : ℕ) (b b' : Buf)
    → decode_rounds fuel result shift b ≡ ok (some v, b')
    → skip_rounds fuel b ≡ ok b'
unfolding decode_rounds skip_rounds read_byte
skip_rounds-decode zero result shift v b b' h = absurd (cc h)
skip_rounds-decode (suc fuel) result shift v b b' h =
    let byte = b.memory b.ptr in
    let next = bit_or result (shl (bit_and byte 0x7f) shift) in
    let b1 : Buf = record b { ptr = b.ptr + 1 } in
    after_guard (ltb b.ptr b.end) (byte, b1)
      (λ (x, c). if bit_and x 0x80 == 0 then ok c else skip_rounds fuel c)
    ∙ same_round (ltb b.ptr b.end) (shift == 63 && not (bit_and byte 0xfe == 0))
        (bit_and byte 0x80 == 0) b1 b' next v
        (decode_rounds fuel next (shift + 7) (record b { ptr = b.ptr + 1 }))
        (skip_rounds fuel (record b { ptr = b.ptr + 1 }))
        (skip_rounds-decode fuel next (shift + 7) v (record b { ptr = b.ptr + 1 }) b')
        (sym (
            after_guard (ltb b.ptr b.end) (byte, b1)
              (λ (x, c).
                let next = bit_or result (shl (bit_and x 0x7f) shift) in
                if shift == 63 && not (bit_and x 0xfe == 0)
                then ok (none, c)
                else if bit_and x 0x80 == 0
                then ok (some next, c)
                else decode_rounds fuel next (shift + 7) c))
          ∙ h)

-- Wherever decoding an unsigned number gives one, skipping the number moves the buffer to the same
-- place, without a trap.
pub skip_leb128-decode :
    (v : ℕ) (b b' : Buf) → leb128_decode_checked b ≡ ok (some v, b') → skip_leb128 b ≡ ok b'
unfolding skip_leb128 leb128_decode_checked
skip_leb128-decode v b b' h = skip_rounds-decode (size b + 1) 0 0 v b b' h
