-- ===== src/ContinuationTable/Runs.antt =====
-- Small tables: one that is full, and one with a continuation and a free slot.
use motoko.Prelude.{
  ℕ, ◌+◌, ◌≡◌, refl, ◌⊎◌, [], ◌∷◌, none, some, true, false, length, ◌≤◌, ◌<◌, arith,
}
use motoko.Prelude.Result.{ok, trap}
use motoko.ContinuationTable.{
  scalar, pointer, Continuations, slots, table_initialized, remember_continuation,
  recall_continuation,
}
use motoko.ContinuationTable.Room.{IsTable, live}
use motoko.ContinuationTable.Laws.{
  remember_continuation_effect, recall_continuation_effect, recall_continuation_trap,
}

abbrev full : Continuations
full = record {
  table = some (pointer 1000 ∷ pointer 2000 ∷ []);
  n_continuations = 2;
  free_slot = 2;
}

full-IsTable : IsTable full
full-IsTable = record { free = []; chain = refl; count = refl; size = λ _. omega arith }

abbrev half : Continuations
half = record { table = some (pointer 1000 ∷ scalar 2 ∷ []); n_continuations = 1; free_slot = 1 }

half-IsTable : IsTable half
half-IsTable = record {
  free = 1 ∷ [];
  chain = (refl, omega arith, tt, (2, refl, refl));
  count = refl;
  size = λ _. omega arith;
}

remember_continuation_effect_example :
    (idx : ℕ) × (s : Continuations) × (remember_continuation (pointer 3000) full ≡ ok (idx, s))
    × IsTable s
    × (live full idx ≡ none)
    × (live s idx ≡ some 3000)
    × ((1 ≡ idx) ⊎ (live s 1 ≡ live full 1))
    × (s.n_continuations ≡ 3)
remember_continuation_effect_example =
    remember_continuation_effect full 3000 1 full-IsTable (omega arith)

recall_continuation_effect_example :
    (s : Continuations) × (recall_continuation 0 half ≡ ok (pointer 1000, s))
    × IsTable s
    × (live s 0 ≡ none)
    × ((◌≡◌ {A = ℕ} 1 0) ⊎ (live s 1 ≡ live half 1))
    × (s.n_continuations + 1 ≡ 1)
recall_continuation_effect_example =
    recall_continuation_effect half 0 1000 1 half-IsTable refl (omega arith)

-- Behind the end of the table.
recall_continuation_trap_example :
    ((table_initialized half ≡ false)
      × (recall_continuation 7 half
          ≡ trap "RTS error: recall_continuation: Continuation table not allocated"))
    ⊎ ((table_initialized half ≡ true)
        × (length (slots half) ≤ 7)
        × (recall_continuation 7 half
            ≡ trap "RTS error: recall_continuation: Continuation index out of range"))
    ⊎ ((table_initialized half ≡ true)
        × (7 < length (slots half))
        × (recall_continuation 7 half
            ≡ trap "RTS error: recall_continuation: Continuation index not in table"))
recall_continuation_trap_example = recall_continuation_trap half 7 refl
