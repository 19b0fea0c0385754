-- ===== src/StableMem.antt =====
-- rts/motoko-rts/src/stable_mem.rs: stable memory as a store of bytes, and the little-endian words
-- that the runtime keeps in it.
pub mod Laws
pub mod Words
use motoko.Prelude.{ℕ, zero, suc, ◌+◌, ◌*◌, ◌/◌, ◌%◌, List, [], ◌∷◌, ◌==◌, if◌then◌else◌}

abbrev pub page_size : ℕ
page_size = 65536

-- The content of stable memory by address.
abbrev pub Bytes : Type 0
Bytes = ℕ → ℕ

-- `read(offset, &mut dst)` for a `dst` of `n` bytes.
unfoldable pub read : ℕ → ℕ → Bytes → List ℕ
read offset zero m = []
read offset (suc n) m = m offset ∷ read (offset + 1) n m

-- `write(offset, src)`
unfoldable pub write : ℕ → List ℕ → Bytes → Bytes
write offset [] m a = m a
write offset (b ∷ bs) m a = if a == offset then b else write (offset + 1) bs m a

-- `to_le_bytes` of a word of `n` bytes, and `from_le_bytes`.
unfoldable pub to_le_bytes : ℕ → ℕ → List ℕ
to_le_bytes zero v = []
to_le_bytes (suc n) v = v % 256 ∷ to_le_bytes n (v / 256)

unfoldable pub from_le_bytes : List ℕ → ℕ
from_le_bytes [] = 0
from_le_bytes (b ∷ bs) = b + 256 * from_le_bytes bs

-- `read_u8`, `read_u16`, `read_u32` and `read_u64`, for 1, 2, 4 and 8 bytes; so for the writes.
unfoldable pub read_word : ℕ → ℕ → Bytes → ℕ
read_word n offset m = from_le_bytes (read offset n m)

unfoldable pub write_word : ℕ → ℕ → ℕ → Bytes → Bytes
write_word n offset v m = write offset (to_le_bytes n v) m
