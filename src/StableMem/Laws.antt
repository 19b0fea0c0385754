-- ===== src/StableMem/Laws.antt =====
-- Reads after writes of stable memory: the same range, and ranges apart.
use motoko.Prelude.{ℕ, zero, suc, ◌+◌, ◌≤◌, ◌<◌, ◌≡◌, refl, ap, ap₂, ◌∙◌}
use motoko.Prelude.{◌⊎◌, List, [], ◌∷◌, length, get_or, arith}
use motoko.StableMem.{Bytes, read, write}

-- A write leaves every address outside its range alone.
pub write-outside :
    (offset : ℕ) (bs : List ℕ) (m : Bytes) (a : ℕ)
    → (a < offset) ⊎ (offset + length bs ≤ a)
    → write offset bs m a ≡ m a
unfolding write
write-outside offset [] m a h = refl
write-outside offset (b ∷ bs) m a h = ground (arith, write-outside (offset + 1) bs m a)

pub write-inside :
    (offset : ℕ) (bs : List ℕ) (m : Bytes) (i d : ℕ)
    → i < length bs
    → write offset bs m (offset + i) ≡ get_or bs i d
unfolding write
write-inside offset [] m i d h = absurd (omega arith)
write-inside offset (b ∷ bs) m zero d h = ground arith
write-inside offset (b ∷ bs) m (suc i) d h = ground (
  arith,
  write-inside (offset + 1) bs m i d,
  ap (write (offset + 1) bs m) (let e : offset + suc i ≡ offset + 1 + i = omega arith in e),
)

pub read_agree :
    (offset n : ℕ) (m m' : Bytes)
    → ((a : ℕ) → offset ≤ a → a < offset + n → m a ≡ m' a)
    → read offset n m ≡ read offset n m'
unfolding read
read_agree offset zero m m' h = refl
read_agree offset (suc n) m m' h =
    ap₂ ◌∷◌ (h offset (omega arith) (omega arith))
      (read_agree (offset + 1) n m m' (λ a p q. h a (omega arith) (omega arith)))

pub length-read : (offset n : ℕ) (m : Bytes) → length (read offset n m) ≡ n
unfolding read
length-read offset zero m = refl
length-read offset (suc n) m = ap suc (length-read (offset + 1) n m)

pub get_or-read :
    (offset n : ℕ) (m : Bytes) (i d : ℕ) → i < n → get_or (read offset n m) i d ≡ m (offset + i)
unfolding read
get_or-read offset zero m i d h = absurd (omega arith)
get_or-read offset (suc n) m zero d h = ap m (omega arith)
get_or-read offset (suc n) m (suc i) d h =
    get_or-read (offset + 1) n m i d (omega arith) ∙ ap m (omega arith)

pub read-write :
    (offset : ℕ) (bs : List ℕ) (m : Bytes) → read offset (length bs) (write offset bs m) ≡ bs
unfolding read write
read-write offset [] m = refl
read-write offset (b ∷ bs) m = ap₂ ◌∷◌ (ground arith) (
    read_agree (offset + 1) (length bs) _ (write (offset + 1) bs m) (λ a p q. ground arith)
    ∙ read-write (offset + 1) bs m)
