-- ===== src/Sort.antt =====
-- rts/motoko-rts/src/gc/incremental/sort.rs: quicksort of an array of words, in place. The loops and
-- the recursion go by fuel.
pub mod Members
use motoko.Prelude.{
  ℕ, zero, suc, ◌+◌, ◌-◌, ◌/◌, ◌%◌, ◌^◌, List, Bool, true, false, not, length, get_or, set, ltb,
  leb, if◌then◌else◌,
}
use Prim.Native.Nat.{Ordering}

abbrev pub is_less : Ordering → Bool
is_less Ordering.lt = true
is_less Ordering.eq = false
is_less Ordering.gt = false

abbrev pub is_greater : Ordering → Bool
is_greater Ordering.lt = false
is_greater Ordering.eq = false
is_greater Ordering.gt = true

-- The wrapping decrement of an index.
unfoldable pub pred : ℕ → ℕ
pred i = (i + 2 ^ 64 - 1) % 2 ^ 64

abbrev pub swap : ℕ → ℕ → List ℕ → List ℕ
swap i j array = set (set array i (get_or array j 0)) j (get_or array i 0)

module _ (compare : ℕ → ℕ → Ordering) where
  unfoldable pub forward_loop : ℕ → List ℕ → ℕ → ℕ → ℕ
  forward_loop zero array pivot forward = forward
  forward_loop (suc fuel) array pivot forward =
      let rest = forward_loop fuel array pivot (forward + 1) in
      if is_less (compare (get_or array forward 0) pivot) then rest else forward

  unfoldable pub backward_loop : ℕ → List ℕ → ℕ → ℕ → ℕ
  backward_loop zero array pivot backward = backward
  backward_loop (suc fuel) array pivot backward =
      let rest = backward_loop fuel array pivot (pred backward) in
      if is_greater (compare (get_or array backward 0) pivot) then rest else backward

  -- The array and the two indices when the loop ends.
  unfoldable pub partition_loop : ℕ → ℕ → ℕ → ℕ → List ℕ → List ℕ × ℕ × ℕ
  unfolding forward_loop backward_loop pred
  partition_loop zero pivot forward backward array = (array, forward, backward)
  partition_loop (suc fuel) pivot forward backward array =
      let f = forward_loop (length array) array pivot forward in
      let b = backward_loop (length array) array pivot backward in
      let swapped = if leb f b then swap f b array else array in
      let f' = if leb f b then f + 1 else f in
      let b' = if leb f b then pred b else b in
      let rest = partition_loop fuel pivot f' b' swapped in
      if ltb b' f' then (swapped, f', b') else rest

  unfoldable pub quicksort : ℕ → ℕ → ℕ → List ℕ → List ℕ
  unfolding partition_loop
  quicksort zero start end array = array
  quicksort (suc fuel) start end array =
      let pivot = get_or array ((start + end + 1) / 2) 0 in
      let (array1, forward, backward) = partition_loop (length array) pivot start end array in
      let left = quicksort fuel start backward array1 in
      let array2 = if ltb start backward then left else array1 in
      let right = quicksort fuel forward end array2 in if ltb forward end then right else array2

  unfoldable pub sort : List ℕ → List ℕ
  unfolding quicksort
  sort array =
      let sorted = quicksort (length array) 0 (length array - 1) array in
      if ltb 1 (length array) then sorted else array
