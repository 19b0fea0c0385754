-- ===== src/Region/Grow/Assign.antt =====
-- The loop of `region_grow` that assigns the new blocks: what it leaves in the table and in the
-- access vector.
use motoko.Prelude.{
  ℕ, zero, suc, ◌+◌, ◌-◌, ◌^◌, ◌≤◌, ◌<◌, ◌≡◌, refl, ap, ◌∙◌, ◌⊎◌, inl, inr, List, some, length,
  length-set, get_or, set, get_or-set_self, get_or-set_ne, arith,
}
use motoko.StableMem.{Bytes}
use motoko.Region.Meta.{table_get, table_set, index}
use motoko.Region.Meta.Table.{
  Fits, table_get-table_set_ne, table_get-table_set_self, table_set-outside,
}
use motoko.Region.Grow.{Region, new_block_id, new_entry, assign_blocks}

module _ (r : Region) (old_total old_count new_count : ℕ) where
  -- At rank `i` the loop gives out block `t`, as long as nothing is cut off.
  new_block_id-eq :
      (i t : ℕ)
      → old_count ≤ i
      → i < 2 ^ 15 + 1
      → t ≡ old_total + (i - old_count)
      → t < 2 ^ 16
      → new_block_id r old_total old_count new_count i ≡ t
  unfolding new_block_id
  new_block_id-eq i t a b e c = omega arith

  abbrev Runs : ℕ → ℕ → ℕ → Type 0
  Runs left i t =
      (old_count ≤ i)
      × (i + left ≤ 2 ^ 15)
      × (t ≡ old_total + (i - old_count))
      × (t + left ≤ 2 ^ 16)

  Runs-next : (left i t : ℕ) → Runs (suc left) i t → Runs left (i + 1) (suc t)
  Runs-next left i t h = omega arith

  block_at :
      (left i t : ℕ) → Runs (suc left) i t → new_block_id r old_total old_count new_count i ≡ t
  block_at left i t h = new_block_id-eq i t h.0 (omega arith) h.2 (omega arith)

  -- Blocks that are not given out keep their entries.
  pub table_get-assign_other :
      (left i t : ℕ) (m : Bytes) (vec : List ℕ) (b : ℕ)
      → Runs left i t
      → (b < t) ⊎ (t + left ≤ b)
      → table_get b (assign_blocks r old_total old_count new_count left i m vec).0 ≡ table_get b m
  unfolding assign_blocks
  table_get-assign_other zero i t m vec b h away = refl
  table_get-assign_other (suc left) i t m vec b h away =
      table_get-assign_other left (i + 1) (suc t) _ _ b (Runs-next left i t h) (omega arith)
      ∙ table_get-table_set_ne b _ _ m (rw (block_at left i t h) (omega arith))

  pub table_get-assign_new :
      (left i t : ℕ) (m : Bytes) (vec : List ℕ) (k : ℕ)
      → ((j : ℕ) → Fits (new_entry r old_total old_count new_count j))
      → Runs left i t
      → k < left
      → table_get (t + k) (assign_blocks r old_total old_count new_count left i m vec).0
        ≡ some (new_entry r old_total old_count new_count (i + k))
  unfolding assign_blocks
  table_get-assign_new zero i t m vec k f h lt = absurd (omega arith)
  table_get-assign_new (suc left) i t m vec zero f h lt =
      table_get-assign_other left (i + 1) (suc t) _ _ (t + 0) (Runs-next left i t h)
        (inl (omega arith))
      ∙ ap
          (λ b. table_get b (
            table_set (new_block_id r old_total old_count new_count i)
              (some (new_entry r old_total old_count new_count i)) m))
          (let e : t + 0 ≡ new_block_id r old_total old_count new_count i =
              omega (arith, block_at left i t h) in
            e)
      ∙ table_get-table_set_self _ _ m (f i)
      ∙ ap (λ j. some (new_entry r old_total old_count new_count j)) (omega arith)
  table_get-assign_new (suc left) i t m vec (suc k) f h lt =
      ap (λ b. table_get b (assign_blocks r old_total old_count new_count (suc left) i m vec).0)
        (let e : t + suc k ≡ suc t + k = omega arith in e)
      ∙ table_get-assign_new left (i + 1) (suc t) _ _ k f (Runs-next left i t h) (omega arith)
      ∙ ap (λ j. some (new_entry r old_total old_count new_count j)) (omega arith)

  pub length-assign :
      (left i : ℕ) (m : Bytes) (vec : List ℕ)
      → length (assign_blocks r old_total old_count new_count left i m vec).1 ≡ length vec
  unfolding assign_blocks
  length-assign zero i m vec = refl
  length-assign (suc left) i m vec = length-assign left (i + 1) _ _ ∙ length-set vec i _

  pub get_or-assign_other :
      (left i t : ℕ) (m : Bytes) (vec : List ℕ) (j : ℕ)
      → j < i
      → get_or (assign_blocks r old_total old_count new_count left i m vec).1 j 0 ≡ get_or vec j 0
  unfolding assign_blocks
  get_or-assign_other zero i t m vec j h = refl
  get_or-assign_other (suc left) i t m vec j h =
      get_or-assign_other left (i + 1) t _ _ j (omega arith)
      ∙ get_or-set_ne vec i j _ 0 (omega arith)

  pub get_or-assign_new :
      (left i t : ℕ) (m : Bytes) (vec : List ℕ) (k : ℕ)
      → Runs left i t
      → i + left ≤ length vec
      → k < left
      → get_or (assign_blocks r old_total old_count new_count left i m vec).1 (i + k) 0 ≡ t + k
  unfolding assign_blocks
  get_or-assign_new zero i t m vec k h len lt = absurd (omega arith)
  get_or-assign_new (suc left) i t m vec zero h len lt =
      get_or-assign_other left (i + 1) t _ _ (i + 0) (omega arith)
      ∙ ap (λ j. get_or (set vec i (new_block_id r old_total old_count new_count i)) j 0)
          (let e : i + 0 ≡ i = omega arith in e)
      ∙ get_or-set_self vec i _ 0 (omega arith)
      ∙ omega (arith, block_at left i t h)
  get_or-assign_new (suc left) i t m vec (suc k) h len lt =
      ap (λ j. get_or (assign_blocks r old_total old_count new_count (suc left) i m vec).1 j 0)
        (let e : i + suc k ≡ i + 1 + k = omega arith in e)
      ∙ get_or-assign_new left (i + 1) (suc t) _ _ k (Runs-next left i t h)
          (omega (arith, length-set vec i (new_block_id r old_total old_count new_count i)))
          (omega arith)
      ∙ omega arith

  -- Only the table is written.
  pub assign-outside :
      (left i : ℕ) (m : Bytes) (vec : List ℕ) (a : ℕ)
      → (a < index 0) ⊎ (index (2 ^ 16) ≤ a)
      → (assign_blocks r old_total old_count new_count left i m vec).0 a ≡ m a
  unfolding assign_blocks
  assign-outside zero i m vec a h = refl
  assign-outside (suc left) i m vec a h =
      assign-outside left (i + 1) _ _ a h ∙ table_set-outside _ _ m a (away h)
    where
      below : new_block_id r old_total old_count new_count i < 2 ^ 16
      below = unfold new_block_id in omega arith

      away :
          (a < index 0) ⊎ (index (2 ^ 16) ≤ a)
          → (a < index (new_block_id r old_total old_count new_count i))
            ⊎ (index (new_block_id r old_total old_count new_count i) + 11 ≤ a)
      away (inl h) = inl (omega arith)
      away (inr h) = inr (omega (arith, below))
