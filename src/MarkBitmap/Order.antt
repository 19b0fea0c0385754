-- ===== src/MarkBitmap/Order.antt =====
-- An iteration visits the marked offsets in their order.
use motoko.Prelude.{
  ℕ, zero, suc, ◌+◌, ◌-◌, ◌*◌, ◌/◌, ◌≤◌, ◌<◌, ◌≡◌, inl, inr, refl, sym, ap, ap₂, ◌∙◌, subst, true,
  false, not, List, [], ◌∷◌, ◌==◌, if◌then◌else◌, eq→==, ne→==, if_true_eq, if_false_eq, arith,
}
use motoko.StableMem.{Bytes}
use motoko.MarkBitmap.{MarkBitmap, is_marked, word_size}
use motoko.MarkBitmap.Laws.{bit_of, is_marked-eq}
use motoko.MarkBitmap.Iterate.{
  BitmapIterator, bitmap_iteration_end, bit_index_end, next_marked, new_iterator, iterate,
  current_marked_offset,
}
use motoko.MarkBitmap.WordBits.{AreBytes}
use motoko.MarkBitmap.Advance.{mark_bit, IsIterating, Advanced}
use motoko.MarkBitmap.Visit.{next_loop-Advanced}

-- The offsets that are visited by `next` until the end, at most `fuel` of them.
pub visit : ℕ → Bytes → BitmapIterator → List ℕ
visit zero memory it = []
visit (suc fuel) memory it =
    let rest = visit fuel memory (next_marked memory it) in
    if current_marked_offset it == bitmap_iteration_end then [] else current_marked_offset it ∷ rest

abbrev pub visit_all : ℕ → MarkBitmap → List ℕ
visit_all fuel m = visit fuel m.memory (iterate m)

-- The marked offsets of `n` words from word `i` on.
pub marked_from : MarkBitmap → ℕ → ℕ → List ℕ
marked_from m i zero = []
marked_from m i (suc n) =
    let rest = marked_from m (i + 1) n in
    if is_marked (i * word_size) m then i * word_size ∷ rest else rest

none_from : (m : MarkBitmap) (i : ℕ) → marked_from m i 0 ≡ []
unfolding marked_from
none_from m i = refl

-- The marked offsets of the partition.
abbrev pub marked_offsets : MarkBitmap → List ℕ
marked_offsets m = marked_from m 0 bit_index_end

module _ (m : MarkBitmap) (are : AreBytes m.memory) where
  abbrev bit_at : ℕ → ℕ
  bit_at = mark_bit m.memory m.pointer are

  marked_eq : (i : ℕ) → is_marked (i * word_size) m ≡ not (bit_at i == 0)
  marked_eq i =
      is_marked-eq (i * word_size) m
      ∙ ap (λ w. not (bit_of m w == 0)) (let e : i * 8 / 8 ≡ i = omega arith in e)

  marked_from_skips :
      (d i n : ℕ)
      → ((j : ℕ) → i ≤ j → j < i + d → bit_at j ≡ 0)
      → marked_from m i (d + n) ≡ marked_from m (i + d) n
  unfolding marked_from
  marked_from_skips zero i n none = ap₂ (marked_from m) (omega arith) (omega arith)
  marked_from_skips (suc d) i n none =
      ap (marked_from m i) (let e : suc d + n ≡ suc (d + n) = omega arith in e)
      ∙ if_false_eq (is_marked (i * word_size) m) _ (marked_from m (i + 1) (d + n))
          (marked_eq i ∙ ap not (eq→== (bit_at i) 0 (none i (omega arith) (omega arith))))
      ∙ marked_from_skips d (i + 1) n (λ j l u. none j (omega arith) (omega arith))
      ∙ ap (λ k. marked_from m k n) (omega arith)

  marked_from_found :
      (i n : ℕ) → bit_at i ≡ 1 → marked_from m i (suc n) ≡ i * word_size ∷ marked_from m (i + 1) n
  unfolding marked_from
  marked_from_found i n e =
      if_true_eq (is_marked (i * word_size) m) (i * word_size ∷ marked_from m (i + 1) n)
        (marked_from m (i + 1) n)
        (marked_eq i ∙ ap not (ne→== (bit_at i) 0 (λ z. absurd (omega (arith, e, z)))))

  next-Advanced :
      (it : BitmapIterator) (rest : ℕ)
      → IsIterating m.memory m.pointer are it rest
      → Advanced m.memory m.pointer are it.next_bit_index (next_marked m.memory it)
  unfolding next_marked
  next-Advanced it rest is =
      next_loop-Advanced m.memory m.pointer are 131074 it rest is (omega arith)

  -- What is visited after the iterator has advanced from bit `from` on.
  visit-marked :
      (fuel from : ℕ) (it : BitmapIterator)
      → bit_index_end < fuel + from
      → from ≤ bit_index_end
      → Advanced m.memory m.pointer are from it
      → visit fuel m.memory it ≡ marked_from m from (bit_index_end - from)
  unfolding visit current_marked_offset
  visit-marked zero from it enough le a = absurd (omega arith)
  visit-marked (suc fuel) from it enough le (inr ended) =
      let at_end : (it.next_bit_index == bitmap_iteration_end) ≡ true =
        eq→== it.next_bit_index bitmap_iteration_end ended.next_bit_index in
      let is_end : current_marked_offset it ≡ bitmap_iteration_end =
        if_true_eq (it.next_bit_index == bitmap_iteration_end) bitmap_iteration_end
          ((it.next_bit_index - 1) * word_size) at_end in
      if_true_eq (current_marked_offset it == bitmap_iteration_end) []
        (current_marked_offset it ∷ visit fuel m.memory (next_marked m.memory it))
        (eq→== (current_marked_offset it) bitmap_iteration_end is_end)
      ∙ sym (nothing (bit_index_end - from) from (λ j l u. ended.unmarked j l (omega arith)))
    where
      nothing : (n i : ℕ) → ((j : ℕ) → i ≤ j → j < i + n → bit_at j ≡ 0) → marked_from m i n ≡ []
      nothing n i none =
          ap (marked_from m i) (let e : n ≡ n + 0 = omega arith in e)
          ∙ marked_from_skips n i 0 none
          ∙ none_from m (i + n)
  visit-marked (suc fuel) from it enough le (inl (at, found)) =
      let running : (it.next_bit_index == bitmap_iteration_end) ≡ false =
        ne→== it.next_bit_index bitmap_iteration_end
          (λ e. absurd (omega (arith, e, found.next_bit_index, found.at_lt))) in
      let offset : current_marked_offset it ≡ at * word_size =
        if_false_eq (it.next_bit_index == bitmap_iteration_end) bitmap_iteration_end
          ((it.next_bit_index - 1) * word_size) running
        ∙ omega (arith, found.next_bit_index) in
      let (rest, is) = found.rest in
      let later = bit_index_end - suc at in
      if_false_eq (current_marked_offset it == bitmap_iteration_end) []
        (current_marked_offset it ∷ visit fuel m.memory (next_marked m.memory it))
        (ne→== (current_marked_offset it) bitmap_iteration_end
          (λ e. absurd (omega (arith, e, offset, found.at_lt))))
      ∙ ap₂ ◌∷◌ offset (
          visit-marked fuel (at + 1) (next_marked m.memory it) (omega (arith, found.from_le))
            (omega (arith, found.at_lt))
            (subst (λ k. Advanced m.memory m.pointer are k (next_marked m.memory it))
              found.next_bit_index (next-Advanced it rest is))
          ∙ ap (marked_from m (at + 1)) (omega arith))
      ∙ sym (marked_from_found at later found.marked)
      ∙ ap (λ k. marked_from m k (suc later))
          (let e : at ≡ from + (at - from) = omega (arith, found.from_le) in e)
      ∙ sym (
          marked_from_skips (at - from) from (suc later)
            (λ j l u. found.skipped j l (omega (arith, found.from_le))))
      ∙ ap (marked_from m from) (omega (arith, found.from_le, found.at_lt))

  -- In a memory of bytes, where more rounds are allowed than there are bits, the iteration over a bitmap
  -- ends and visits exactly the marked offsets of the partition, each once and in ascending order.
  pub visit_all-marked_offsets :
      (fuel : ℕ) → bit_index_end < fuel → visit_all fuel m ≡ marked_offsets m
  unfolding iterate new_iterator
  visit_all-marked_offsets fuel enough =
      let first : BitmapIterator = record {
        bitmap_pointer = m.pointer;
        next_bit_index = 0;
        current_word = 0;
        leading_zeros = 0;
      } in
      visit-marked fuel 0 (next_marked m.memory first) (omega arith) (omega arith) (
        next-Advanced first 0 (record {
          pointer = refl;
          aligned = refl;
          within = omega arith;
          rest_le = omega arith;
          zeros_le = omega arith;
          width = refl;
          bits = λ j l. absurd (omega arith);
        }))
