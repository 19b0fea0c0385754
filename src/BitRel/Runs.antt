-- ===== src/BitRel/Runs.antt =====
-- The cache for two types on one side and three on the other.
use motoko.Prelude.{◌≡◌, refl, true, false, [], ◌∷◌, arith}
use motoko.Prelude.Result.{ok, ◌>>=◌}
use motoko.BitRel.{BitRel, init, visited, visit, related, disprove}
use motoko.BitRel.Laws.{init-fresh, visit_effect, disprove_effect}

abbrev small : BitRel
small = record { words = 240 ∷ []; size1 = 2; size2 = 3 }

-- Three words, of which the last is not used up.
abbrev large : BitRel
large = record { words = 7 ∷ 9 ∷ 11 ∷ []; size1 = 5; size2 = 7 }

init-fresh_example :
    ((init small >>= λ s. visited s true 1 2) ≡ ok false)
    × ((init small >>= λ s. related s true 1 2) ≡ ok true)
init-fresh_example = init-fresh small true 1 2 refl (omega arith, omega arith, omega arith)

visit_effect_example :
    ((visit large true 1 2 >>= λ s. visited s true 1 2) ≡ ok true)
    × ((visit large true 1 2 >>= λ s. related s true 1 2) ≡ related large true 1 2)
    × ((visit large true 1 2 >>= λ s. visited s false 2 2) ≡ visited large false 2 2)
    × ((visit large true 1 2 >>= λ s. related s false 2 2) ≡ related large false 2 2)
visit_effect_example =
    visit_effect large true 1 2 false 2 2 refl (omega arith, omega arith, omega arith)
      (omega arith, omega arith, omega arith) (λ (a, b, c). absurd (omega (arith, b)))

disprove_effect_example :
    ((disprove large true 1 2 >>= λ s. related s true 1 2) ≡ ok false)
    × ((disprove large true 1 2 >>= λ s. visited s true 1 2) ≡ visited large true 1 2)
    × ((disprove large true 1 2 >>= λ s. visited s false 2 2) ≡ visited large false 2 2)
    × ((disprove large true 1 2 >>= λ s. related s false 2 2) ≡ related large false 2 2)
disprove_effect_example =
    disprove_effect large true 1 2 false 2 2 refl (omega arith, omega arith, omega arith)
      (omega arith, omega arith, omega arith) (λ (a, b, c). absurd (omega (arith, b)))
