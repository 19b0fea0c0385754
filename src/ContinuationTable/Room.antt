-- ===== src/ContinuationTable/Room.antt =====
-- What a sound table is, and how it gets room for one more continuation.
use motoko.Prelude.{
  ℕ, zero, suc, ◌+◌, ◌-◌, ◌*◌, ◌≤◌, ◌<◌, ◌≡◌, ◌≢◌, refl, sym, ap, ◌∙◌, subst, List, [], ◌∷◌, ◌++◌,
  Option, none, some, true, length, get_or, set, get_or-append_left, get_or-append_right, arith,
  ℕ_discrete, dec_lt, eq→==, ne→==,
}
use motoko.Prelude.Result.{ok}
use motoko.ContinuationTable.{
  Value, scalar, pointer, Continuations, slots, table_initialized, free_slots,
  create_continuation_table, double_continuation_table, with_room,
}
use motoko.ContinuationTable.Free.{
  Chain, Chain-free_slots, range, length-range, length-free_slots, get_or-free_slots,
}

-- The pointer under an index, if there is one.
abbrev pub pointer_of : Value → Option ℕ
pointer_of (scalar n) = none
pointer_of (pointer p) = some p

abbrev pub live : Continuations → ℕ → Option ℕ
live s i = pointer_of (get_or (slots s) i (scalar 0))

-- How many slots hold a pointer.
abbrev pub weight : Value → ℕ
weight (scalar n) = 0
weight (pointer p) = 1

abbrev pub pointers : List Value → ℕ
pointers [] = 0
pointers (v ∷ vs) = weight v + pointers vs

pub pointers-set :
    (t : List Value) (i : ℕ) (v : Value)
    → i < length t
    → pointers (set t i v) + weight (get_or t i (scalar 0)) ≡ pointers t + weight v
pointers-set [] i v h = absurd (omega arith)
pointers-set (x ∷ xs) zero v h = omega arith
pointers-set (x ∷ xs) (suc i) v h = omega (arith, pointers-set xs i v (omega arith))

pointers-append : (t u : List Value) → pointers (t ++ u) ≡ pointers t + pointers u
pointers-append [] u = omega arith
pointers-append (x ∷ xs) u = omega (arith, pointers-append xs u)

pointers-free_slots : (n i : ℕ) → pointers (free_slots n i) ≡ 0
pointers-free_slots zero i = refl
pointers-free_slots (suc n) i = omega (arith, pointers-free_slots n (i + 1))

-- The free list, the number of continuations, and a table that is not empty once it is there.
pub record IsTable (s : Continuations) : Type 0 where
  pub free : List ℕ
  pub chain : Chain (slots s) s.free_slot free
  pub count : s.n_continuations ≡ pointers (slots s)
  pub size : table_initialized s ≡ true → 0 < length (slots s)

-- What remembering starts from once there is room.
pub record HasRoom (s s1 : Continuations) : Type 0 where
  pub result : with_room s ≡ ok s1
  pub rest : List ℕ
  pub chain : Chain (slots s1) s1.free_slot (s1.free_slot ∷ rest)
  pub count : s1.n_continuations ≡ pointers (slots s1)
  pub number : s1.n_continuations ≡ s.n_continuations
  pub same : (j : ℕ) → live s1 j ≡ live s j

pub get_or-past : (t : List Value) (j : ℕ) → length t ≤ j → get_or t j (scalar 0) ≡ scalar 0
get_or-past [] j h = refl
get_or-past (x ∷ xs) zero h = absurd (omega arith)
get_or-past (x ∷ xs) (suc j) h = get_or-past xs j (omega arith)

free_slots-live : (n i j : ℕ) → pointer_of (get_or (free_slots n i) j (scalar 0)) ≡ none
free_slots-live n i j = elim (dec_lt j n) [
  | yes h ↦ ap pointer_of (get_or-free_slots n i j h)
  | no h ↦ ap pointer_of (get_or-past (free_slots n i) j (omega (arith, length-free_slots n i)))
]

append-live :
    (t : List Value) (n j : ℕ)
    → pointer_of (get_or (t ++ free_slots n (length t)) j (scalar 0))
      ≡ pointer_of (get_or t j (scalar 0))
append-live t n j = elim (dec_lt j (length t)) [
  | yes h ↦ ap pointer_of (get_or-append_left t (free_slots n (length t)) j (scalar 0) h)
  | no h ↦
      let e : j ≡ length t + (j - length t) = omega arith in
      ap (λ k. pointer_of (get_or (t ++ free_slots n (length t)) k (scalar 0))) e
      ∙ ap pointer_of (get_or-append_right t (free_slots n (length t)) (j - length t) (scalar 0))
      ∙ free_slots-live n (length t) (j - length t)
      ∙ sym (ap pointer_of (get_or-past t j (omega arith)))
]

range-cons : (n i : ℕ) → 0 < n → (rest : List ℕ) × (range n i ≡ i ∷ rest) × (suc (length rest) ≡ n)
range-cons zero i h = absurd (omega arith)
range-cons (suc n) i h = (range n (i + 1), refl, ap suc (length-range n (i + 1)))

-- The three cases: no table, a full one, and one with a free slot.
abbrev pub state : Option (List Value) → ℕ → ℕ → Continuations
state t n f = record { table = t; n_continuations = n; free_slot = f }

created : (n f : ℕ) → IsTable (state none n f) → HasRoom (state none n f) create_continuation_table
unfolding with_room double_continuation_table
created n f is = record {
  result = refl;
  rest = range 255 1;
  chain = Chain-free_slots [] 256;
  count = sym (pointers-free_slots 256 0);
  number = omega (arith, is.count);
  same = λ j. free_slots-live 256 0 j;
}

doubled :
    (t : List Value) (n f : ℕ)
    → IsTable (state (some t) n f)
    → f ≡ length t
    → (s1 : Continuations) × HasRoom (state (some t) n f) s1
unfolding with_room double_continuation_table
doubled t n f is full =
    let len = length t in
    let (rest, e, l) = range-cons (len * 2 - len) len (omega (arith, is.size refl)) in
    (
      state (some (t ++ free_slots (len * 2 - len) len)) n f,
      record {
        result = rw (eq→== f len full) refl;
        rest = rest;
        chain =
            subst (λ g. Chain (t ++ free_slots (len * 2 - len) len) g (g ∷ rest)) (sym full)
              (subst (Chain (t ++ free_slots (len * 2 - len) len) len) e
                (Chain-free_slots t (len * 2 - len)));
        count = omega (
          arith,
          is.count,
          pointers-append t (free_slots (len * 2 - len) len),
          pointers-free_slots (len * 2 - len) len,
        );
        number = refl;
        same = λ j. append-live t (len * 2 - len) j;
      },
    )

kept :
    (t : List Value) (n f : ℕ)
    → IsTable (state (some t) n f)
    → f ≢ length t
    → HasRoom (state (some t) n f) (state (some t) n f)
unfolding with_room double_continuation_table
kept t n f is left = go is.free is.chain is.count
  where
    go :
        (free : List ℕ)
        → Chain t f free
        → n ≡ pointers t
        → HasRoom (state (some t) n f) (state (some t) n f)
    go [] c e = absurd (left c)
    go (j ∷ js) c e = record {
      result = rw (ne→== f (length t) left) refl;
      rest = js;
      chain = subst (λ k. Chain t f (k ∷ js)) (sym c.0) c;
      count = e;
      number = refl;
      same = λ j. refl;
    }

pub room : (s : Continuations) → IsTable s → (s1 : Continuations) × HasRoom s s1
room s is = go s.table s.n_continuations s.free_slot is
  where
    go :
        (t : Option (List Value)) (n f : ℕ)
        → IsTable (state t n f)
        → (s1 : Continuations) × HasRoom (state t n f) s1
    go none n f is = (create_continuation_table, created n f is)
    go (some t) n f is = elim (ℕ_discrete f (length t)) [
      | yes full ↦ doubled t n f is full
      | no left ↦ (state (some t) n f, kept t n f is left)
    ]
