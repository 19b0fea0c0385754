-- ===== src/Sort/Members.antt =====
-- What holds of 0 and of all words of an array holds of all words of the sorted array.
use motoko.Prelude.{
  ℕ, zero, suc, ◌+◌, ◌-◌, ◌/◌, List, [], ◌∷◌, All, Bool, true, false, length, get_or, set, ltb, leb,
  if◌then◌else◌,
}
use Prim.Native.Nat.{Ordering}
use motoko.Sort.{swap, pred, forward_loop, backward_loop, partition_loop, quicksort, sort}

module _ (P : ℕ → Type 0) (p_zero : P 0) where
  All-get_or : (xs : List ℕ) (i : ℕ) → All P xs → P (get_or xs i 0)
  All-get_or [] i a = p_zero
  All-get_or (x ∷ xs) zero (a, b) = a
  All-get_or (x ∷ xs) (suc i) (a, b) = All-get_or xs i b

  All-set : (xs : List ℕ) (i v : ℕ) → P v → All P xs → All P (set xs i v)
  All-set [] i v p a = tt
  All-set (x ∷ xs) zero v p (a, b) = (p, b)
  All-set (x ∷ xs) (suc i) v p (a, b) = (a, All-set xs i v p b)

  All-swap : (i j : ℕ) (xs : List ℕ) → All P xs → All P (swap i j xs)
  All-swap i j xs a =
      All-set (set xs i (get_or xs j 0)) j (get_or xs i 0) (All-get_or xs i a)
        (All-set xs i (get_or xs j 0) (All-get_or xs j a) a)

  All-if : (b : Bool) (xs ys : List ℕ) → All P xs → All P ys → All P (if b then xs else ys)
  All-if true xs ys a b = a
  All-if false xs ys a b = b

  module _ (compare : ℕ → ℕ → Ordering) where
    All-partition_loop :
        (fuel pivot forward backward : ℕ) (xs : List ℕ)
        → All P xs
        → All P (partition_loop compare fuel pivot forward backward xs).0
    unfolding partition_loop
    All-partition_loop zero pivot forward backward xs a = a
    All-partition_loop (suc fuel) pivot forward backward xs a =
        let f = forward_loop compare (length xs) xs pivot forward in
        let b = backward_loop compare (length xs) xs pivot backward in
        let xs' = if leb f b then swap f b xs else xs in
        let a' : All P xs' = All-if (leb f b) (swap f b xs) xs (All-swap f b xs a) a in
        let f' = if leb f b then f + 1 else f in
        let b' = if leb f b then pred b else b in
        either (ltb b' f') (xs', f', b') (partition_loop compare fuel pivot f' b' xs') a'
          (All-partition_loop fuel pivot f' b' xs' a')
      where
        either :
            (t : Bool) (x y : List ℕ × ℕ × ℕ) → All P x.0 → All P y.0 → All P (if t then x else y).0
        either true x y p q = p
        either false x y p q = q

    All-quicksort :
        (fuel start end : ℕ) (xs : List ℕ) → All P xs → All P (quicksort compare fuel start end xs)
    unfolding quicksort
    All-quicksort zero start end xs a = a
    All-quicksort (suc fuel) start end xs a =
        let r =
          partition_loop compare (length xs) (get_or xs ((start + end + 1) / 2) 0) start end xs in
        let a1 =
          All-partition_loop (length xs) (get_or xs ((start + end + 1) / 2) 0) start end xs a in
        let ys = if ltb start r.2 then quicksort compare fuel start r.2 r.0 else r.0 in
        let a2 : All P ys =
          All-if (ltb start r.2) (quicksort compare fuel start r.2 r.0) r.0
            (All-quicksort fuel start r.2 r.0 a1) a1 in
        All-if (ltb r.1 end) (quicksort compare fuel r.1 end ys) ys
          (All-quicksort fuel r.1 end ys a2) a2

    pub All-sort : (xs : List ℕ) → All P xs → All P (sort compare xs)
    unfolding sort
    All-sort xs a =
        All-if (ltb 1 (length xs)) (quicksort compare (length xs) 0 (length xs - 1) xs) xs
          (All-quicksort (length xs) 0 (length xs - 1) xs a) a
