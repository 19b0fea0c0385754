-- ===== src/ContinuationTable/Free.antt =====
-- The free list: what it is, and how it changes.
use motoko.Prelude.{
  ℕ, zero, suc, ◌+◌, ◌-◌, ◌≤◌, ◌<◌, ◌≡◌, ◌≢◌, refl, sym, ap, ◌∙◌, List, [], ◌∷◌, ◌++◌, length,
  get_or, set, All, length-append, length-set, get_or-set_ne, get_or-append_right, arith,
}
use motoko.ContinuationTable.{Value, scalar, pointer, free_slots}

-- The free slots of `t` in the order of the list from `i` on: each holds the next, the last one the
-- length, and none comes twice.
abbrev pub Chain : List Value → ℕ → List ℕ → Type 0
Chain t i [] = i ≡ length t
Chain t i (j ∷ js) =
    (i ≡ j)
    × (i < length t)
    × All (λ k. j ≢ k) js
    × ((next : ℕ) × (get_or t i (scalar 0) ≡ scalar next) × Chain t next js)

-- A write to a slot that is not on the list keeps the list.
pub Chain-set :
    (t : List Value) (at : ℕ) (v : Value) (i : ℕ) (free : List ℕ)
    → All (λ k. at ≢ k) free
    → Chain t i free
    → Chain (set t at v) i free
Chain-set t at v i [] apart c = c ∙ sym (length-set t at v)
Chain-set t at v i (j ∷ js) (ne, apart) (e, lt, once, (next, here, c)) = (
  e,
  omega (arith, length-set t at v),
  once,
  (
    next,
    get_or-set_ne t at i v (scalar 0) (λ h. ne (h ∙ e)) ∙ here,
    Chain-set t at v next js apart c,
  ),
)

-- A slot with a pointer is not on the list.
pub pointer_outside :
    (t : List Value) (at p : ℕ) (i : ℕ) (free : List ℕ)
    → get_or t at (scalar 0) ≡ pointer p
    → Chain t i free
    → All (λ k. at ≢ k) free
pointer_outside t at p i [] h c = tt
pointer_outside t at p i (j ∷ js) h (e, lt, once, (next, here, c)) =
    ((λ k. absurd (cc (h, here, k, e))), pointer_outside t at p next js h c)

-- The slots from `i` to `i + n`.
abbrev pub range : ℕ → ℕ → List ℕ
range zero i = []
range (suc n) i = i ∷ range n (i + 1)

pub length-range : (n i : ℕ) → length (range n i) ≡ n
length-range zero i = refl
length-range (suc n) i = ap suc (length-range n (i + 1))

pub length-free_slots : (n i : ℕ) → length (free_slots n i) ≡ n
length-free_slots zero i = refl
length-free_slots (suc n) i = ap suc (length-free_slots n (i + 1))

range_above : (n i j : ℕ) → j < i → All (λ k. j ≢ k) (range n i)
range_above zero i j h = tt
range_above (suc n) i j h = ((λ e. absurd (omega arith)), range_above n (i + 1) j (omega arith))

pub get_or-free_slots :
    (n i k : ℕ) → k < n → get_or (free_slots n i) k (scalar 0) ≡ scalar (i + k + 1)
get_or-free_slots zero i k h = absurd (omega arith)
get_or-free_slots (suc n) i zero h = ap scalar (omega arith)
get_or-free_slots (suc n) i (suc k) h =
    get_or-free_slots n (i + 1) k (omega arith) ∙ ap scalar (omega arith)

-- Slots that all hold the next index are a list.
pub Chain-range :
    (t : List Value) (n i : ℕ)
    → i + n ≡ length t
    → ((k : ℕ) → i ≤ k → k < length t → get_or t k (scalar 0) ≡ scalar (k + 1))
    → Chain t i (range n i)
Chain-range t zero i e h = omega (arith, e)
Chain-range t (suc n) i e h = (
  refl,
  omega (arith, e),
  range_above n (i + 1) i (omega arith),
  (
    i + 1,
    h i (omega arith) (omega (arith, e)),
    Chain-range t n (i + 1) (omega (arith, e)) (λ k p q. h k (omega arith) q),
  ),
)

-- Free slots behind a table.
pub Chain-free_slots :
    (t : List Value) (n : ℕ) → Chain (t ++ free_slots n (length t)) (length t) (range n (length t))
Chain-free_slots t n =
    Chain-range (t ++ free_slots n (length t)) n (length t)
      (omega (arith, length-append t (free_slots n (length t)), length-free_slots n (length t)))
      (λ k p q.
        let e : k ≡ length t + (k - length t) = omega arith in
        ap (λ j. get_or (t ++ free_slots n (length t)) j (scalar 0)) e
        ∙ get_or-append_right t (free_slots n (length t)) (k - length t) (scalar 0)
        ∙ get_or-free_slots n (length t) (k - length t) (
            omega
              (arith, length-append t (free_slots n (length t)), length-free_slots n (length t)))
        ∙ ap scalar (omega arith))
