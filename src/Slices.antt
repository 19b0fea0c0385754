-- ===== src/Slices.antt =====
-- The bounded increments of the collector: rts/motoko-rts/src/gc/incremental/array_slicing.rs with the
-- array tags of types.rs, and rts/motoko-rts/src/gc/incremental/time.rs.
pub mod Cover
pub mod Time
mod Runs
use motoko.Prelude.{
  ℕ, zero, suc, ◌+◌, ◌-◌, ◌*◌, ◌/◌, ◌%◌, ◌^◌, Bool, min, leb, ltb, if◌then◌else◌, bit_or,
}

abbrev pub tag_array_i : ℕ
tag_array_i = 3

abbrev pub tag_spacing : ℕ
tag_spacing = 2

abbrev pub tag_array_slice_min : ℕ
tag_array_slice_min = 46

abbrev pub slice_increment : ℕ
slice_increment = 128

abbrev pub start_of_slice : ℕ → ℕ
start_of_slice tag = tag * 4 % 2 ^ 64 / 4

abbrev pub tag_of_slice : ℕ → ℕ
tag_of_slice tag = tag_array_i + tag / 2 ^ 62 * tag_spacing

unfoldable pub slice_tag : ℕ → ℕ → ℕ
slice_tag array_tag slice_start =
    bit_or ((array_tag - tag_array_i) / tag_spacing * 2 ^ 62 % 2 ^ 64) slice_start

unfoldable pub slice_start : ℕ → ℕ × ℕ
slice_start tag =
    if leb tag_array_slice_min tag then (tag_of_slice tag, start_of_slice tag) else (tag, 0)

-- The tag and the length of an array.
pub record Array : Type 0 where
  pub tag : ℕ
  pub len : ℕ

-- The end of the slice, and the array with the start of the next one or its own tag again.
unfoldable pub slice_array : Array → ℕ × Array
unfolding slice_start slice_tag
slice_array a =
    let (base_tag, start) = slice_start a.tag in
    if ltb slice_increment ((a.len + 2 ^ 64 - start) % 2 ^ 64)
    then (start + slice_increment, record a { tag = slice_tag base_tag (start + slice_increment) })
    else (a.len, record a { tag = base_tag })

-- The steps of a collector increment and their limit.
pub record BoundedTime : Type 0 where
  pub steps : ℕ
  pub limit : ℕ

abbrev pub new_time : ℕ → BoundedTime
new_time limit = record { steps = 0; limit = limit }

abbrev pub saturating_add : ℕ → ℕ → ℕ
saturating_add a b = min (a + b) (2 ^ 64 - 1)

pub tick : BoundedTime → BoundedTime
tick t = record t { steps = saturating_add t.steps 1 }

pub advance_time : ℕ → BoundedTime → BoundedTime
advance_time amount t = record t { steps = saturating_add t.steps amount }

pub is_over : BoundedTime → Bool
is_over t = leb t.limit t.steps
