-- ===== src/Region/Runs.antt =====
-- Runs of the region manager on a small memory: two regions that grow in turn, a store to one of
-- them, recovery, and the migrations of memories of different sizes.
use motoko.Prelude.{
  ℕ, ◌+◌, ◌-◌, ◌*◌, ◌/◌, ◌^◌, some, ◌≤◌, ◌<◌, ◌≡◌, ◌≢◌, ◌⊎◌, refl, ap, inr, List, [], ◌∷◌, Bool,
  leb, leb→le, arith,
}
use motoko.Prelude.Result.{ok, ◌>>=◌}
use motoko.StableMem.{
  Bytes, page_size, read_word, from_le_bytes, read, write_word, write, to_le_bytes,
}
use motoko.Region.Meta.{
  State, total_blocks, total_regions, set_total_blocks, set_total_regions, block_in_bytes,
  id_into_u64, index, table_get, table_set, base_low, u64_max,
}
use motoko.Region.Grow.{
  Region, block_id, block_page_count, new_block_id, new_entry, assign_blocks, update_last_block,
  commit_grow, ensure_pages, region_grow,
}
use motoko.Region.Owns.{IsState, Owns, entry_of, block_count, max_stable_pages}
use motoko.Region.Recover.{region_recover}
use motoko.Region.Recover.Restores.{region_recover-eq}
use motoko.Region.Access.{
  relative_into_absolute_info, region_load, region_store, offset_out_of_bounds, range_overflow,
  range_out_of_bounds,
}
use motoko.Region.Access.Bounds.{relative_into_absolute_info_bounds}
use motoko.Region.Access.Locate.{size_in_bytes}
use motoko.Region.Access.Load.{gather, region_load-gather, region_load_trap}
use motoko.Region.Access.Store.{Stored, region_store-Stored}
use motoko.Region.Access.RoundTrip.{load-store, load-store_other}
use motoko.Region.Grow.Outcome.{
  Bounded, region_grow-Owns, region_grow-Owns_other, region_grow_effect,
}

-- A platform that gives pages as long as it has any.
abbrev grants : ℕ → ℕ → Bool
grants have more = leb (have + more) max_stable_pages

grants-Bounded : Bounded grants
grants-Bounded have more h = leb→le (have + more) max_stable_pages h

-- A memory with no block in use, and 20 identifiers given out.
abbrev s0 : State
s0 = set_total_regions 20 (record {
  version = 6;
  pages = 16;
  block_base = base_low;
  total_blocks_mirror = 0;
  bytes = λ _. 0;
})

abbrev a0 : Region
a0 = record { id = 16; page_count = 0; vec_pages = [] }

abbrev b0 : Region
b0 = record { id = 17; page_count = 0; vec_pages = [] }

s0-total : total_blocks s0 ≡ 0
unfolding total_blocks set_total_regions read_word from_le_bytes read write_word write to_le_bytes
s0-total = refl

s0-pages : s0.pages ≡ 16
unfolding set_total_regions
s0-pages = refl

s0-base : s0.block_base ≡ base_low
unfolding set_total_regions
s0-base = refl

s0-IsState : IsState s0
s0-IsState = record {
  base = omega (arith, s0-base);
  room = λ h. absurd (omega (arith, s0-total));
  pages = omega (arith, s0-pages);
}

empty-Owns :
    (id : ℕ)
    → id ≤ 20
    → Owns s0.bytes (total_blocks s0) (record { id = id; page_count = 0; vec_pages = [] })
empty-Owns id small = record {
  id = omega arith;
  pages = omega arith;
  ranks = refl;
  block_lt = λ j h. absurd (omega arith);
  entry = λ j h. absurd (omega arith);
  complete = λ b e lt found own. absurd (omega (arith, s0-total));
}

-- Two blocks for the first region, then one for the second, then one more for the first.
abbrev run1 : ℕ × State × Region
run1 = region_grow grants s0 a0 130

abbrev run2 : ℕ × State × Region
run2 = region_grow grants run1.1 b0 5

abbrev run3 : ℕ × State × Region
run3 = region_grow grants run2.1 run1.2 127

run1-Owns : IsState run1.1 × Owns run1.1.bytes (total_blocks run1.1) run1.2
run1-Owns =
    region_grow-Owns grants grants-Bounded s0 a0 130 s0-IsState (empty-Owns 16 (omega arith))

run1_b0-Owns : Owns run1.1.bytes (total_blocks run1.1) b0
run1_b0-Owns =
    region_grow-Owns_other grants grants-Bounded s0 a0 b0 130 s0-IsState
      (empty-Owns 16 (omega arith)) (empty-Owns 17 (omega arith)) (omega arith)

run2-Owns : IsState run2.1 × Owns run2.1.bytes (total_blocks run2.1) run2.2
run2-Owns = region_grow-Owns grants grants-Bounded run1.1 b0 5 run1-Owns.0 run1_b0-Owns

-- What the three calls give.
run-results :
    (run1.2 ≡ record { id = 16; page_count = 130; vec_pages = 0 ∷ 1 ∷ [] })
    × (run2.2 ≡ record { id = 17; page_count = 5; vec_pages = 2 ∷ [] })
    × (run3.2 ≡ record { id = 16; page_count = 257; vec_pages = 0 ∷ 1 ∷ 3 ∷ [] })
    × (total_blocks run3.1 ≡ 4)
    × (total_regions run3.1 ≡ 20)
unfolding total_regions region_grow ensure_pages commit_grow update_last_block assign_blocks
    new_entry new_block_id total_blocks set_total_blocks set_total_regions read_word from_le_bytes
    read write_word write to_le_bytes table_set id_into_u64 block_page_count
run-results = (refl, refl, refl, refl, refl)

apart : run2.2.id ≢ run1.2.id
apart e = absurd (omega (arith, ap (λ r. r.id) run-results.0, ap (λ r. r.id) run-results.1))

run2_a-Owns : Owns run2.1.bytes (total_blocks run2.1) run1.2
run2_a-Owns =
    region_grow-Owns_other grants grants-Bounded run1.1 b0 run1.2 5 run1-Owns.0 run1_b0-Owns
      run1-Owns.1 (λ e. absurd (omega (arith, e, ap (λ r. r.id) run-results.0)))

run3-Owns : IsState run3.1 × Owns run3.1.bytes (total_blocks run3.1) run3.2
run3-Owns = region_grow-Owns grants grants-Bounded run2.1 run1.2 127 run2-Owns.0 run2_a-Owns

run3_b-Owns : Owns run3.1.bytes (total_blocks run3.1) run2.2
run3_b-Owns =
    region_grow-Owns_other grants grants-Bounded run2.1 run1.2 run2.2 127 run2-Owns.0 run2_a-Owns
      run2-Owns.1 apart

region_grow-Owns_example : IsState run3.1 × Owns run3.1.bytes (total_blocks run3.1) run3.2
region_grow-Owns_example =
    region_grow-Owns grants grants-Bounded run2.1 run1.2 127 run2-Owns.0 run2_a-Owns

region_grow-Owns_other_example : Owns run3.1.bytes (total_blocks run3.1) run2.2
region_grow-Owns_other_example =
    region_grow-Owns_other grants grants-Bounded run2.1 run1.2 run2.2 127 run2-Owns.0 run2_a-Owns
      run2-Owns.1 apart

-- The first growth of a region.
region_grow_effect_example :
    ((run2.0 ≡ u64_max) × (run2.1 ≡ run1.1) × (run2.2 ≡ b0))
    ⊎ ((run2.0 ≡ 0)
        × (run2.2.id ≡ 17)
        × (run2.2.page_count ≡ 0 + 5)
        × ((j : ℕ) → j < block_count 0 → block_id run2.2 j ≡ block_id b0 j)
        × ((a : ℕ) → index (2 ^ 16) ≤ a → run2.1.bytes a ≡ run1.1.bytes a))
region_grow_effect_example =
    region_grow_effect grants grants-Bounded run1.1 b0 5 run1-Owns.0 run1_b0-Owns

region_recover-eq_example : region_recover run3.1 run3.2.id ≡ ok run3.2
region_recover-eq_example =
    region_recover-eq run3.1 run3.2 run3-Owns.1
      (omega (arith, ap (λ r. r.id) run-results.2, run-results.4)) (omega (arith, run-results.3))

-- Eight bytes across the border of the second and the third block of the first region, which are not
-- neighbours in memory.
abbrev border : ℕ
border = 2 * block_in_bytes - 3

abbrev eight : List ℕ
eight = 1 ∷ 2 ∷ 3 ∷ 4 ∷ 5 ∷ 6 ∷ 7 ∷ 8 ∷ []

run3-apart : run2.2.id ≢ run3.2.id
run3-apart e = absurd (omega (arith, e, ap (λ r. r.id) run-results.1, ap (λ r. r.id) run-results.2))

a-fits : border + 8 ≤ size_in_bytes run3.2
a-fits = omega (arith, ap (λ r. r.page_count) run-results.2)

b-fits : 300 + 8 ≤ size_in_bytes run2.2
b-fits = omega (arith, ap (λ r. r.page_count) run-results.1)

load-store_example :
    (region_store run3.1 run3.2 border eight >>= λ s. region_load s run3.2 border 8) ≡ ok eight
load-store_example =
    load-store run3.1 run3.2 border eight run3-Owns.0 run3-Owns.1 (omega (arith, a-fits)) a-fits

load-store_other_example :
    (region_store run3.1 run3.2 border eight >>= λ s. region_load s run2.2 300 8)
    ≡ region_load run3.1 run2.2 300 8
load-store_other_example =
    load-store_other run3.1 run3.2 run2.2 border eight 300 8 run3-Owns.0 run3-Owns.1 run3_b-Owns
      run3-apart (omega (arith, a-fits)) a-fits (omega (arith, b-fits)) b-fits

region_store-Stored_example :
    (m : Bytes) × (region_store run3.1 run3.2 border eight ≡ ok (record run3.1 { bytes = m }))
    × Stored run3.1.block_base run3.2 border eight run3.1.bytes 8 m
region_store-Stored_example =
    region_store-Stored run3.1 run3.2 border eight run3-Owns.1 (omega (arith, a-fits)) a-fits

region_load-gather_example :
    region_load run3.1 run3.2 border 8 ≡ ok (gather run3.1.block_base run3.2 run3.1.bytes border 8)
region_load-gather_example =
    region_load-gather run3.1 run3.2 border 8 run3-Owns.1 (omega (arith, a-fits)) a-fits

-- Eight bytes from the seventh last on.
abbrev behind : ℕ
behind = 5 * page_size - 7

region_load_trap_example :
    ((8 ≤ 1) × (region_load run3.1 run2.2 behind 8 ≡ offset_out_of_bounds run2.2))
    ⊎ ((1 < 8)
        × (2 ^ 64 ≤ behind + 8)
        × (region_load run3.1 run2.2 behind 8 ≡ range_overflow run2.2))
    ⊎ ((1 < 8)
        × (behind + 8 < 2 ^ 64)
        × (region_load run3.1 run2.2 behind 8 ≡ range_out_of_bounds run2.2))
region_load_trap_example =
    region_load_trap run3.1 run2.2 behind 8 (omega arith) (omega arith)
      (omega (arith, ap (λ r. r.page_count) run-results.1))
      (inr (omega (arith, ap (λ r. r.page_count) run-results.1)))

-- The first byte of the third block of the first region, which is the fourth in memory.
abbrev third : ℕ
third = 2 * block_in_bytes

third-fits : third < size_in_bytes run3.2
third-fits = omega (arith, ap (λ r. r.page_count) run-results.2)

run3-base : run3.1.block_base ≡ base_low
unfolding region_grow ensure_pages commit_grow set_total_blocks set_total_regions total_blocks
    read_word from_le_bytes read write_word write to_le_bytes table_set
run3-base = refl

relative_into_absolute_info_bounds_example :
    let (address, block, left) = relative_into_absolute_info run3.1.block_base run3.2 third in
    (table_get block run3.1.bytes
      ≡ some (entry_of run3.2.id run3.2.page_count (third / block_in_bytes)))
    × (index (2 ^ 16) ≤ address)
    × (run3.1.block_base + block * block_in_bytes ≤ address)
    × (0 < left)
    × (address + left ≡ run3.1.block_base + (block + 1) * block_in_bytes)
    × (address + left ≤ run3.1.pages * page_size)
relative_into_absolute_info_bounds_example =
    relative_into_absolute_info_bounds run3.1 run3.2 third run3-Owns.0 run3-Owns.1
      (omega (arith, run3-base)) third-fits
