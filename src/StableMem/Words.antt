-- ===== src/StableMem/Words.antt =====
-- Little-endian words in stable memory: what was written is read back, and a write elsewhere does
-- not change it.
use motoko.Prelude.{ℕ, zero, suc, ◌+◌, ◌/◌, ◌^◌, ◌≤◌, ◌<◌, ◌≡◌, refl, ap, ◌∙◌, sym}
use motoko.Prelude.{◌⊎◌, inl, inr, List, length, arith}
use motoko.StableMem.{Bytes, read, write, to_le_bytes, from_le_bytes, read_word, write_word}
use motoko.StableMem.Laws.{write-outside, read_agree, read-write}
use native.Mathlib.Nat.{pow-suc}

pub length-to_le_bytes : (n v : ℕ) → length (to_le_bytes n v) ≡ n
unfolding to_le_bytes
length-to_le_bytes zero v = refl
length-to_le_bytes (suc n) v = ap suc (length-to_le_bytes n (v / 256))

pub from_le_bytes-to_le_bytes : (n v : ℕ) → v < 256 ^ n → from_le_bytes (to_le_bytes n v) ≡ v
unfolding to_le_bytes from_le_bytes
from_le_bytes-to_le_bytes zero v h = omega arith
from_le_bytes-to_le_bytes (suc n) v h =
    omega (arith, from_le_bytes-to_le_bytes n (v / 256) (omega (arith, pow-suc 256 n)))

pub read_word-write_word :
    (n offset v : ℕ) (m : Bytes) → v < 256 ^ n → read_word n offset (write_word n offset v m) ≡ v
unfolding read_word write_word
read_word-write_word n offset v m h =
    ap from_le_bytes (subst_length n v ∙ read-write offset (to_le_bytes n v) m)
    ∙ from_le_bytes-to_le_bytes n v h
  where
    subst_length :
        (n v : ℕ)
        → read offset n (write offset (to_le_bytes n v) m)
          ≡ read offset (length (to_le_bytes n v)) (write offset (to_le_bytes n v) m)
    subst_length n v =
        ap (λ k. read offset k (write offset (to_le_bytes n v) m)) (sym (length-to_le_bytes n v))

-- A word does not change by a write apart from it.
pub read_word-write :
    (n offset at : ℕ) (bs : List ℕ) (m : Bytes)
    → (offset + n ≤ at) ⊎ (at + length bs ≤ offset)
    → read_word n offset (write at bs m) ≡ read_word n offset m
unfolding read_word
read_word-write n offset at bs m h =
    ap from_le_bytes (read_agree offset n _ _ (λ a p q. write-outside at bs m a (apart a p q h)))
  where
    apart :
        (a : ℕ)
        → offset ≤ a
        → a < offset + n
        → (offset + n ≤ at) ⊎ (at + length bs ≤ offset)
        → (a < at) ⊎ (at + length bs ≤ a)
    apart a p q (inl h) = inl (omega arith)
    apart a p q (inr h) = inr (omega arith)

pub read_word-write_word_apart :
    (n offset k at v : ℕ) (m : Bytes)
    → (offset + n ≤ at) ⊎ (at + k ≤ offset)
    → read_word n offset (write_word k at v m) ≡ read_word n offset m
unfolding write_word
read_word-write_word_apart n offset k at v m h =
    read_word-write n offset at (to_le_bytes k v) m (omega (arith, length-to_le_bytes k v))

pub read_word_agree :
    (n offset : ℕ) (m m' : Bytes)
    → ((a : ℕ) → offset ≤ a → a < offset + n → m a ≡ m' a)
    → read_word n offset m ≡ read_word n offset m'
unfolding read_word
read_word_agree n offset m m' h = ap from_le_bytes (read_agree offset n m m' h)

pub write_word-outside :
    (n offset v : ℕ) (m : Bytes) (a : ℕ)
    → (a < offset) ⊎ (offset + n ≤ a)
    → write_word n offset v m a ≡ m a
unfolding write_word
write_word-outside n offset v m a h =
    write-outside offset (to_le_bytes n v) m a (omega (arith, length-to_le_bytes n v))
