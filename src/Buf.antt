-- ===== src/Buf.antt =====
-- rts/motoko-rts/src/buf.rs: the read buffer of the candid decoder.
use motoko.Prelude.{ℕ, zero, suc, ◌+◌, ◌-◌, not, ltb, ◌==◌, if◌then◌else◌, bit_and}
use motoko.Prelude.Result.{Result, ok, trap, ◌>>=◌, ◌>>◌, guard}
use motoko.StableMem.{Bytes, read_word}

-- The memory that `ptr` and `end` point into, and the two as addresses.
pub record Buf : Type 0 where
  pub memory : Bytes
  pub ptr : ℕ
  pub end : ℕ

abbrev pub size : Buf → ℕ
size b = b.end - b.ptr

-- Gives the old end, to be set again.
abbrev pub limit_size : ℕ → Buf → ℕ × Buf
limit_size lim b = (b.end, if ltb lim (size b) then record b { end = b.ptr + lim } else b)

unfoldable pub read_byte : Buf → Result (ℕ × Buf)
read_byte b = do
  guard (ltb b.ptr b.end) "IDL error: byte read out of buffer"
  ok (b.memory b.ptr, record b { ptr = b.ptr + 1 })

-- A little-endian `u32`.
pub read_word_from : Buf → Result (ℕ × Buf)
read_word_from b = do
  guard (not (ltb (size b) 4)) "IDL error: word read out of buffer"
  ok (read_word 4 b.ptr b.memory, record b { ptr = b.ptr + 4 })

pub advance : ℕ → Buf → Result Buf
advance n b = do
  guard (not (ltb (size b) n)) "IDL error: advance out of buffer"
  ok (record b { ptr = b.ptr + n })

-- Each round reads a byte, so the size and one are enough rounds.
unfoldable pub skip_rounds : ℕ → Buf → Result Buf
unfolding read_byte
skip_rounds zero b = trap "out of fuel"
skip_rounds (suc fuel) b = do
  (byte, b') ← read_byte b
  if bit_and byte 0x80 == 0 then ok b' else skip_rounds fuel b'

unfoldable pub skip_leb128 : Buf → Result Buf
unfolding skip_rounds
skip_leb128 b = skip_rounds (size b + 1) b
