-- ===== src/Slices/Time.antt =====
-- When the time of an increment is over.
use motoko.Prelude.{
  ℕ, ◌+◌, ◌-◌, ◌^◌, ◌≤◌, ◌<◌, ◌≡◌, refl, sym, ◌∙◌, min, List, [], ◌∷◌, leb, arith, dec_le, le→leb,
  gt→leb,
}
use motoko.Slices.{BoundedTime, new_time, tick, advance_time, is_over}

-- Work of an increment: steps one by one, or several at once.
pub data Work : Type 0 where
  one : Work
  several : ℕ → Work

abbrev pub perform : List Work → BoundedTime → BoundedTime
perform [] t = t
perform (one ∷ ws) t = perform ws (tick t)
perform (several n ∷ ws) t = perform ws (advance_time n t)

abbrev pub total : List Work → ℕ
total [] = 0
total (one ∷ ws) = 1 + total ws
total (several n ∷ ws) = n + total ws

perform-steps :
    (ws : List Work) (t : BoundedTime)
    → t.steps ≤ 2 ^ 64 - 1
    → (perform ws t).steps ≡ min (t.steps + total ws) (2 ^ 64 - 1)
unfolding tick advance_time
perform-steps [] t h = omega arith
perform-steps (one ∷ ws) t h = perform-steps ws (tick t) (omega arith) ∙ omega arith
perform-steps (several n ∷ ws) t h = perform-steps ws (advance_time n t) (omega arith) ∙ omega arith

perform-limit : (ws : List Work) (t : BoundedTime) → (perform ws t).limit ≡ t.limit
unfolding tick advance_time
perform-limit [] t = refl
perform-limit (one ∷ ws) t = perform-limit ws (tick t)
perform-limit (several n ∷ ws) t = perform-limit ws (advance_time n t)

-- After any work the time is over exactly if the steps of the work, added up without saturation, reach
-- the limit, which is a word of 64 bits.
pub is_over-perform :
    (ws : List Work) (limit : ℕ)
    → limit < 2 ^ 64
    → is_over (perform ws (new_time limit)) ≡ leb limit (total ws)
unfolding is_over
is_over-perform ws limit h =
    let s = perform-steps ws (new_time limit) (omega arith) in
    let l = perform-limit ws (new_time limit) in
    elim (dec_le limit (total ws)) [
      | yes k ↦ le→leb _ _ (omega (arith, s, l, k)) ∙ sym (le→leb limit (total ws) k)
      | no k ↦ gt→leb _ _ (omega (arith, s, l, k)) ∙ sym (gt→leb limit (total ws) (omega arith))
    ]
