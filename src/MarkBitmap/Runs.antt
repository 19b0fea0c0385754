-- ===== src/MarkBitmap/Runs.antt =====
-- A bitmap at an address, and a mark in its last word.
use motoko.Prelude.{◌+◌, ◌^◌, ◌-◌, ◌≡◌, refl, true, false, arith}
use motoko.MarkBitmap.{MarkBitmap, partition_size, assign, mark, is_marked}
use motoko.StableMem.{read_word, read, from_le_bytes}
use motoko.MarkBitmap.Iterate.{iterate, next_marked, current_marked_offset}
use motoko.MarkBitmap.Order.{visit_all, marked_offsets, visit_all-marked_offsets}
use motoko.MarkBitmap.Laws.{mark_effect, assign-unmarked}

abbrev dirty : MarkBitmap
dirty = record { memory = λ _. 0x55; pointer = 4096 }

mark_effect_example :
    (is_marked (partition_size - 8) (mark (partition_size - 8) dirty) ≡ true)
    × (is_marked (partition_size - 16) (mark (partition_size - 8) dirty)
        ≡ is_marked (partition_size - 16) dirty)
mark_effect_example =
    mark_effect (partition_size - 8) (partition_size - 16) dirty refl refl
      (λ e. absurd (omega (arith, e)))

assign-unmarked_example : is_marked 1024 (assign 8192 dirty) ≡ false
assign-unmarked_example = assign-unmarked 8192 1024 dirty (omega arith)

-- More rounds than the bitmap has bits.
visit_all-marked_offsets_example : visit_all (2 ^ 23 + 1) dirty ≡ marked_offsets dirty
visit_all-marked_offsets_example =
    visit_all-marked_offsets dirty (λ _. omega arith) (2 ^ 23 + 1) (omega arith)

first_offset : current_marked_offset (next_marked dirty.memory (iterate dirty)) ≡ 16
unfolding iterate current_marked_offset read_word read from_le_bytes
first_offset = refl
