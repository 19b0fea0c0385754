-- ===== src/Leb128.antt =====
-- rts/motoko-rts/src/leb128.rs: the variable-length encoding of words of 64 bits, unsigned and signed.
-- A signed word stands as its two's complement.
pub mod Round
pub mod RoundTrip
pub mod Skip
pub mod Signed
pub mod Overlong
pub mod SignedRoundTrip
mod Runs
use motoko.Prelude.{
  ℕ, zero, suc, ◌+◌, ◌-◌, ◌*◌, ◌/◌, ◌%◌, ◌^◌, List, [], ◌∷◌, Option, none, some, Bool, true, false,
  not, ◌&&◌, ◌||◌, ltb, ◌==◌, if◌then◌else◌, bit_and, bit_or,
}
use motoko.Prelude.Result.{Result, ok, trap, ◌>>=◌, ◌>>◌}
use motoko.StableMem.{Bytes, write}
use motoko.Buf.{Buf, size, read_byte}

-- The bytes that `leb128_encode` writes. Each round takes seven bits, so ten rounds are enough.
unfoldable pub leb128_bytes : ℕ → ℕ → List ℕ
leb128_bytes zero val = []
leb128_bytes (suc fuel) val =
    let byte = bit_and val 0x7f in
    let rest = leb128_bytes fuel (val / 2 ^ 7) in
    if val / 2 ^ 7 == 0 then byte ∷ [] else bit_or byte 0x80 ∷ rest

pub leb128_encode : ℕ → ℕ → Bytes → Bytes
unfolding leb128_bytes
leb128_encode val buf m = write buf (leb128_bytes 10 val) m

abbrev pub minus_one : ℕ
minus_one = 2 ^ 64 - 1

-- `>>` on `isize` keeps the sign.
abbrev pub shr_signed : ℕ → ℕ
shr_signed val = if ltb val (2 ^ 63) then val / 2 ^ 7 else val / 2 ^ 7 + (2 ^ 64 - 2 ^ 57)

unfoldable pub sleb128_bytes : ℕ → ℕ → List ℕ
sleb128_bytes zero val = []
sleb128_bytes (suc fuel) val =
    let byte = bit_and val 0x7f in
    let next = shr_signed val in
    let rest = sleb128_bytes fuel next in
    if next == 0 && bit_and byte 0x40 == 0 || next == minus_one && bit_and byte 0x40 == 0x40
    then byte ∷ []
    else bit_or byte 0x80 ∷ rest

pub sleb128_encode : ℕ → ℕ → Bytes → Bytes
unfolding sleb128_bytes
sleb128_encode val buf m = write buf (sleb128_bytes 10 val) m

-- `<<` on 64 bits: without overflow checks the shift is cut to six bits.
abbrev pub shl : ℕ → ℕ → ℕ
shl val shift = val * 2 ^ (shift % 64) % 2 ^ 64

-- The loop of `leb128_decode_checked`. Each round reads a byte.
unfoldable pub decode_rounds : ℕ → ℕ → ℕ → Buf → Result (Option ℕ × Buf)
unfolding read_byte
decode_rounds zero result shift b = trap "out of fuel"
decode_rounds (suc fuel) result shift b = do
  (byte, b') ← read_byte b
  let result' = bit_or result (shl (bit_and byte 0x7f) shift)
  let rest = decode_rounds fuel result' (shift + 7) b'
  if shift == 63 && not (bit_and byte 0xfe == 0)
      then ok (none, b')
      else if bit_and byte 0x80 == 0
      then ok (some result', b')
      else rest

unfoldable pub leb128_decode_checked : Buf → Result (Option ℕ × Buf)
unfolding decode_rounds
leb128_decode_checked b = decode_rounds (size b + 1) 0 0 b

-- `expect`
pub leb128_decode : Buf → Result (ℕ × Buf)
unfolding leb128_decode_checked
leb128_decode b = do
  (result, b') ← leb128_decode_checked b
  elim result [ none ↦ trap "leb128_decode: overflow" | some v ↦ ok (v, b') ]

-- The loop of `sleb128_decode_checked`: the result, the shift and the last byte.
unfoldable pub signed_rounds : ℕ → ℕ → ℕ → Buf → Result (Option (ℕ × ℕ × ℕ) × Buf)
unfolding read_byte
signed_rounds zero result shift b = trap "out of fuel"
signed_rounds (suc fuel) result shift b = do
  (byte, b') ← read_byte b
  let result' = bit_or result (shl (bit_and byte 0x7f) shift)
  let rest = signed_rounds fuel result' (shift + 7) b'
  if shift == 63 && (not (bit_and byte 0x7f == 0) && not (bit_and byte 0x7f == 0x7f))
      then ok (none, b')
      else if bit_and byte 0x80 == 0
      then ok (some (result', shift + 7, byte), b')
      else rest

-- Sign extension of a result whose last byte is at `shift - 7`.
unfoldable pub sign_extend : ℕ × ℕ × ℕ → ℕ
sign_extend (result, shift, last_byte) =
    if ltb shift 64 && not (bit_and last_byte 0x40 == 0)
    then bit_or result (shl minus_one shift)
    else result

unfoldable pub sleb128_decode_checked : Buf → Result (Option ℕ × Buf)
unfolding signed_rounds sign_extend
sleb128_decode_checked b = do
  (result, b') ← signed_rounds (size b + 1) 0 0 b
  elim result [ none ↦ ok (none, b') | some t ↦ ok (some (sign_extend t), b') ]

pub sleb128_decode : Buf → Result (ℕ × Buf)
unfolding sleb128_decode_checked
sleb128_decode b = do
  (result, b') ← sleb128_decode_checked b
  elim result [ none ↦ trap "sleb128_decode: overflow" | some v ↦ ok (v, b') ]
