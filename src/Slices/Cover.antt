-- ===== src/Slices/Cover.antt =====
-- The slices of an array follow each other and cover it.
use motoko.Prelude.{
  ℕ, zero, suc, ◌+◌, ◌-◌, ◌*◌, ◌/◌, ◌%◌, ◌^◌, ◌≤◌, ◌<◌, ◌≡◌, ◌⊎◌, inl, inr, refl, ap, ap₂, ◌∙◌,
  bit_or, arith, le→leb, gt→leb, lt→ltb, ge→ltb, dec_lt,
}
use motoko.Prelude.Bits.{bit_or_disjoint, bit_or_comm}
use motoko.Slices.{
  tag_array_i, tag_spacing, tag_array_slice_min, slice_increment, slice_tag, slice_start, Array,
  slice_array,
}

-- The tags of arrays: 3, 5, 7 and 9.
pub data IsBase : ℕ → Type 0 where
  base : (k : ℕ) → k < 4 → IsBase (tag_array_i + k * tag_spacing)

slice_tag-eq :
    (k start : ℕ)
    → k < 4
    → start < 2 ^ 62
    → slice_tag (tag_array_i + k * tag_spacing) start ≡ start + k * 2 ^ 62
unfolding slice_tag
slice_tag-eq k start h fits =
    ap (λ q. bit_or q start)
      (let e : (tag_array_i + k * tag_spacing - tag_array_i) / tag_spacing * 2 ^ 62 % 2 ^ 64
            ≡ k * 2 ^ 62 =
          omega arith in
        e)
    ∙ bit_or_comm (k * 2 ^ 62) start
    ∙ bit_or_disjoint 62 k start fits

-- The tag of a slice gives back the array's own tag and the start.
pub slice_start-slice_tag :
    (tag start : ℕ)
    → IsBase tag
    → tag_array_slice_min ≤ start
    → start < 2 ^ 62
    → slice_start (slice_tag tag start) ≡ (tag, start)
unfolding slice_start
slice_start-slice_tag tag start (base k h) low fits =
    let e = slice_tag-eq k start h fits in
    rw
      (le→leb tag_array_slice_min (slice_tag (tag_array_i + k * tag_spacing) start)
        (omega (arith, e)))
      (ap₂ (λ x y. (x, y)) (omega (arith, e)) (omega (arith, e)))

-- The array after `k` increments.
abbrev pub after : ℕ → Array → Array
after zero a = a
after (suc k) a = (slice_array (after k a)).1

slice_array-more :
    (a : Array) (tag start : ℕ)
    → slice_start a.tag ≡ (tag, start)
    → start + slice_increment < a.len
    → a.len < 2 ^ 62
    → slice_array a
      ≡ (start + slice_increment, record a { tag = slice_tag tag (start + slice_increment) })
unfolding slice_array
slice_array-more a tag start e h fits =
    rw e (rw (lt→ltb slice_increment ((a.len + 2 ^ 64 - start) % 2 ^ 64) (omega arith)) refl)

slice_array-end :
    (a : Array) (tag start : ℕ)
    → slice_start a.tag ≡ (tag, start)
    → a.len ≤ start + slice_increment
    → start ≤ a.len
    → a.len < 2 ^ 62
    → slice_array a ≡ (a.len, record a { tag = tag })
unfolding slice_array
slice_array-end a tag start e h below fits =
    rw e (rw (ge→ltb slice_increment ((a.len + 2 ^ 64 - start) % 2 ^ 64) (omega arith)) refl)

IsBase-start : (tag : ℕ) → IsBase tag → slice_start tag ≡ (tag, 0)
unfolding slice_start
IsBase-start tag (base k h) =
    rw (gt→leb tag_array_slice_min (tag_array_i + k * tag_spacing) (omega arith)) refl

-- Where the array stands after `k` increments that did not reach its end.
standing :
    (k tag len : ℕ)
    → IsBase tag
    → len < 2 ^ 62
    → (k ≡ 0) ⊎ (k * slice_increment < len)
    → (slice_start (after k (record { tag = tag; len = len })).tag ≡ (tag, k * slice_increment))
      × ((after k (record { tag = tag; len = len })).len ≡ len)
standing zero tag len b fits h = (IsBase-start tag b ∙ ap (λ s. (tag, s)) (omega arith), refl)
standing (suc k) tag len b fits h =
    let a = after k (record { tag = tag; len = len }) in
    let more : suc k * slice_increment < len = ground (arith, h) in
    let (at, l) = standing k tag len b fits (inr (omega (arith, more))) in
    let e =
      slice_array-more a tag (k * slice_increment) at (omega (arith, l, more))
        (omega (arith, l, fits)) in
    let next : k * slice_increment + slice_increment ≡ suc k * slice_increment = omega arith in
    (
      ap (λ r. slice_start r.1.tag) e
          ∙ slice_start-slice_tag tag (k * slice_increment + slice_increment) b (omega arith)
              (omega (arith, more))
          ∙ ap (λ s. (tag, s)) next,
      ap (λ r. r.1.len) e ∙ l,
    )

-- The increments over an array with an array's tag and fewer than 2 ^ 62 elements: the slice of each
-- begins where the one before ended, from 0 on, and has 128 elements, until at most 128 are left. That
-- last slice ends at the length, and the array has its own tag again.
pub slice_array_cover :
    (k tag len : ℕ)
    → IsBase tag
    → len < 2 ^ 62
    → (k ≡ 0) ⊎ (k * slice_increment < len)
    → let a : Array = after k (record { tag = tag; len = len }) in
      (slice_start a.tag ≡ (tag, k * slice_increment))
      × ((((slice_array a).0 ≡ (k + 1) * slice_increment) × ((k + 1) * slice_increment < len))
          ⊎ (((slice_array a).0 ≡ len)
              × (len ≤ (k + 1) * slice_increment)
              × ((slice_array a).1 ≡ record { tag = tag; len = len })))
slice_array_cover k tag len b fits h =
    let a : Array = after k (record { tag = tag; len = len }) in
    let (at, l) = standing k tag len b fits h in
    (
      at,
      elim (dec_lt ((k + 1) * slice_increment) len) [
        | yes more ↦ inl (
          ap (λ r. r.0)
                (slice_array-more a tag (k * slice_increment) at (omega (arith, l, more))
                  (omega (arith, l, fits)))
              ∙ omega arith,
          more,
        )
        | no last ↦
            let e =
              slice_array-end a tag (k * slice_increment) at (omega (arith, l, last))
                (ground (arith, l, h)) (omega (arith, l, fits)) in
            inr (
              ap (λ r. r.0) e ∙ l,
              omega (arith, last),
              ap (λ r. r.1) e ∙ ap (λ n. record { tag = tag; len = n }) l,
            )
      ],
    )
