-- ===== src/Slices/Runs.antt =====
-- An array of 300 elements, and an increment with a limit of 100 steps.
use motoko.Prelude.{◌≤◌, ◌<◌, ◌≡◌, ◌⊎◌, inr, List, [], ◌∷◌, leb, arith}
use motoko.Slices.{slice_start, Array, slice_array, new_time, is_over}
use motoko.Slices.Cover.{base, after, slice_array_cover}
use motoko.Slices.Time.{Work, one, several, perform, total, is_over-perform}

abbrev elements : Array
elements = record { tag = 5; len = 300 }

slice_array_cover_example :
    (slice_start (after 2 elements).tag ≡ (5, 256))
    × ((((slice_array (after 2 elements)).0 ≡ 384) × (384 < 300))
        ⊎ (((slice_array (after 2 elements)).0 ≡ 300)
            × (300 ≤ 384)
            × ((slice_array (after 2 elements)).1 ≡ elements)))
slice_array_cover_example =
    slice_array_cover 2 5 300 (base 1 (omega arith)) (omega arith) (inr (omega arith))

abbrev work : List Work
work = one ∷ several 98 ∷ one ∷ []

is_over-perform_example : is_over (perform work (new_time 100)) ≡ leb 100 (total work)
is_over-perform_example = is_over-perform work 100 (omega arith)
