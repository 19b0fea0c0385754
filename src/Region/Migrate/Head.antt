-- ===== src/Region/Migrate/Head.antt =====
-- The move of the first block and the entries of region 0, in the migration of a stable memory that
-- holds data.
use motoko.Prelude.{
  ℕ, zero, suc, ◌+◌, ◌-◌, ◌*◌, ◌%◌, ◌^◌, ◌≤◌, ◌<◌, ◌≡◌, refl, sym, ap, ◌∙◌, ◌⊎◌, inl, inr, List, [],
  ◌∷◌, some, length, get_or, arith, dec_lt,
}
use motoko.StableMem.{Bytes, read, write}
use motoko.StableMem.Laws.{write-outside, write-inside, length-read, get_or-read}
use motoko.Region.Meta.{block_in_bytes, index, Entry, table_get, table_set}
use motoko.Region.Meta.Table.{
  Fits, table_get-table_set_self, table_get-table_set_ne, table_set-outside,
}
use motoko.Region.Grow.{Region, block_id, sub32, block_page_count}
use motoko.Region.Owns.{
  Owns, entry_of-eq, entry_unique, block_count, block_page_count-lt, max_pages_in_region,
}
use motoko.Region.Migrate.{write_zeros, enter_blocks, enter_region_0, move_head}

write_zeros-outside :
    (offset len : ℕ) (m : Bytes) (a : ℕ) → offset + len ≤ a → write_zeros offset len m a ≡ m a
unfolding write_zeros
write_zeros-outside offset len m a h = ground arith

-- The bytes behind the first block keep their places, and those of the first block come behind the
-- last, while that address fits 32 bits.
pub move_head-other :
    (n : ℕ) (m : Bytes) (a : ℕ)
    → n < 512
    → block_in_bytes ≤ a
    → a < n * block_in_bytes
    → move_head n m a ≡ m a
unfolding move_head
move_head-other n m a small lo hi =
    write_zeros-outside 0 block_in_bytes _ a (omega arith)
    ∙ write-outside _ (read 0 block_in_bytes m) m a (inl (omega arith))

pub move_head-head :
    (n : ℕ) (m : Bytes) (x : ℕ)
    → 0 < n
    → n < 512
    → x < block_in_bytes
    → move_head n m (n * block_in_bytes + x) ≡ m x
unfolding move_head
move_head-head n m x pos small h =
    write_zeros-outside 0 block_in_bytes _ _ (omega arith)
    ∙ ap (λ b. write b (read 0 block_in_bytes m) m (n * block_in_bytes + x)) cut
    ∙ write-inside (n * block_in_bytes) (read 0 block_in_bytes m) m x 0
        (omega (arith, length-read 0 block_in_bytes m))
    ∙ get_or-read 0 block_in_bytes m x 0 h
    ∙ ap m (omega arith)
  where
    cut : n * block_in_bytes % 2 ^ 32 ≡ n * block_in_bytes
    cut = omega arith

-- From 512 blocks (4 GiB) on the address does not fit 32 bits: the place behind the last block, where
-- region 0 will look for its first block, is never written.
pub move_head_too_far :
    (n : ℕ) (m : Bytes) (x : ℕ)
    → 512 ≤ n
    → x < block_in_bytes
    → move_head n m (n * block_in_bytes + x) ≡ m (n * block_in_bytes + x)
unfolding move_head
move_head_too_far n m x big h =
    write_zeros-outside 0 block_in_bytes _ _ (omega arith)
    ∙ write-outside _ (read 0 block_in_bytes m) m _
        (inr (omega (arith, length-read 0 block_in_bytes m)))

module _ (n pages : ℕ) where
  abbrev entry_at : ℕ → Entry
  entry_at j = record { region = 0; rank = j; page_count = block_page_count j n pages }

  entry_at-Fits : (j : ℕ) → j < 2 ^ 16 → Fits (entry_at j)
  entry_at-Fits j h = record {
    region = omega arith;
    rank = h;
    page_count = block_page_count-lt j n pages;
  }

  table_get-enter_other :
      (left i : ℕ) (m : Bytes) (b : ℕ)
      → (b < i) ⊎ (i + left ≤ b)
      → table_get b (enter_blocks n pages left i m) ≡ table_get b m
  unfolding enter_blocks
  table_get-enter_other zero i m b h = refl
  table_get-enter_other (suc left) i m b h =
      table_get-enter_other left (i + 1) _ b (omega arith)
      ∙ table_get-table_set_ne b i _ m (omega arith)

  table_get-enter_new :
      (left i : ℕ) (m : Bytes) (k : ℕ)
      → i + left < 2 ^ 16
      → k < left
      → table_get (i + k) (enter_blocks n pages left i m) ≡ some (entry_at (i + k + 1))
  unfolding enter_blocks
  table_get-enter_new zero i m k small h = absurd (omega arith)
  table_get-enter_new (suc left) i m zero small h =
      table_get-enter_other left (i + 1) _ (i + 0) (inl (omega arith))
      ∙ ap (λ b. table_get b (table_set i (some (entry_at (i + 1))) m))
          (let e : i + 0 ≡ i = omega arith in e)
      ∙ table_get-table_set_self i (entry_at (i + 1)) m (entry_at-Fits (i + 1) (omega arith))
      ∙ ap (λ j. some (entry_at j)) (omega arith)
  table_get-enter_new (suc left) i m (suc k) small h =
      ap (λ b. table_get b (enter_blocks n pages (suc left) i m))
        (let e : i + suc k ≡ i + 1 + k = omega arith in e)
      ∙ table_get-enter_new left (i + 1) _ k (omega arith) (omega arith)
      ∙ ap (λ j. some (entry_at j)) (omega arith)

  enter_blocks-outside :
      (left i : ℕ) (m : Bytes) (a : ℕ)
      → (a < index i) ⊎ (index (i + left) ≤ a)
      → enter_blocks n pages left i m a ≡ m a
  unfolding enter_blocks
  enter_blocks-outside zero i m a h = refl
  enter_blocks-outside (suc left) i m a h =
      enter_blocks-outside left (i + 1) _ a (omega arith) ∙ table_set-outside i _ m a (omega arith)

abbrev pub range : ℕ → ℕ → List ℕ
range i zero = []
range i (suc n) = i ∷ range (i + 1) n

length-range : (i n : ℕ) → length (range i n) ≡ n
length-range i zero = refl
length-range i (suc n) = ap suc (length-range (i + 1) n)

get_or-range : (i n k : ℕ) → k < n → get_or (range i n) k 0 ≡ i + k
get_or-range i zero k h = absurd (omega arith)
get_or-range i (suc n) zero h = omega arith
get_or-range i (suc n) (suc k) h = get_or-range (i + 1) n k (omega arith) ∙ omega arith

-- Region 0 after the migration of `pages` pages: its first block is physically the last.
abbrev pub region_0_of : ℕ → Region
region_0_of pages = record {
  id = 0;
  page_count = pages;
  vec_pages = (block_count pages - 1) ∷ range 0 (block_count pages - 1);
}

module _ (pages : ℕ) (pos : 0 < pages) (fits : pages ≤ max_pages_in_region) (m : Bytes) where
  abbrev n : ℕ
  n = block_count pages

  abbrev entered : Bytes
  entered = enter_region_0 n pages m

  last : sub32 n 1 % 2 ^ 16 ≡ n - 1
  last = omega arith

  entered-eq :
      entered ≡ enter_blocks n pages (n - 1) 0 (table_set (n - 1) (some (entry_at n pages 0)) m)
  unfolding enter_region_0
  entered-eq =
      λ i. enter_blocks n pages (last i) 0 (table_set (last i) (some (entry_at n pages 0)) m)

  table-head : table_get (n - 1) entered ≡ some (entry_at n pages 0)
  table-head =
      ap (table_get (n - 1)) entered-eq
      ∙ table_get-enter_other n pages (n - 1) 0 _ (n - 1) (inr (omega arith))
      ∙ table_get-table_set_self (n - 1) (entry_at n pages 0) m
          (entry_at-Fits n pages 0 (omega arith))

  table-other : (b : ℕ) → b < n - 1 → table_get b entered ≡ some (entry_at n pages (b + 1))
  table-other b h =
      ap (table_get b) entered-eq
      ∙ ap
          (λ c.
            table_get c
              (enter_blocks n pages (n - 1) 0 (table_set (n - 1) (some (entry_at n pages 0)) m)))
          (let e : b ≡ 0 + b = omega arith in e)
      ∙ table_get-enter_new n pages (n - 1) 0 _ b (omega arith) h
      ∙ ap (λ j. some (entry_at n pages j)) (omega arith)

  pub entered-outside : (a : ℕ) → (a < index 0) ⊎ (index (2 ^ 15) ≤ a) → entered a ≡ m a
  entered-outside a h =
      ap (λ (z : Bytes). z a) entered-eq
      ∙ enter_blocks-outside n pages (n - 1) 0 _ a (omega arith)
      ∙ table_set-outside (n - 1) _ m a (omega arith)

  pub block_id-region_0 : (j : ℕ) → j + 1 < n → block_id (region_0_of pages) (j + 1) ≡ j
  block_id-region_0 j h =
      ap (block_id (region_0_of pages)) (let e : j + 1 ≡ suc j = omega arith in e)
      ∙ get_or-range 0 (n - 1) j (omega arith)
      ∙ omega arith

  entry-region_0 :
      (j : ℕ)
      → j < n
      → (block_id (region_0_of pages) j < n)
        × (table_get (block_id (region_0_of pages) j) entered ≡ some (entry_at n pages j))
  entry-region_0 zero h = (omega arith, table-head)
  entry-region_0 (suc j) h = (
    omega (arith, get_or-range 0 (n - 1) j (omega arith)),
    ap (λ b. table_get b entered)
          (let e : get_or (range 0 (n - 1)) j 0 ≡ j =
              omega (arith, get_or-range 0 (n - 1) j (omega arith)) in
            e)
        ∙ table-other j (omega arith)
        ∙ ap (λ k. some (entry_at n pages k)) (omega arith),
  )

  size-region_0 : length (region_0_of pages).vec_pages ≡ n
  size-region_0 = omega (arith, length-range 0 (n - 1))

  -- The table agrees with region 0.
  pub Owns-region_0 : Owns entered n (region_0_of pages)
  Owns-region_0 = record {
    id = omega arith;
    pages = fits;
    ranks = size-region_0;
    block_lt = λ j h. (entry-region_0 j (omega (arith, size-region_0))).0;
    entry = λ j h.
        (entry-region_0 j (omega (arith, size-region_0))).1
        ∙ ap some (entry_of-eq 0 pages j (omega (arith, size-region_0, h)) fits);
    complete = λ b e lt found own. complete b e lt found (dec_lt b (n - 1));
  }
    where
      complete :
          (b : ℕ) (e : Entry)
          → b < n
          → table_get b entered ≡ some e
          → Dec (b < n - 1)
          → (e.rank < length (region_0_of pages).vec_pages)
            × (block_id (region_0_of pages) e.rank ≡ b)
      complete b e lt found (yes h) =
          let same : b + 1 ≡ e.rank =
            (entry_unique (table_get b entered) (entry_at n pages (b + 1)) e (table-other b h)
              found).1 in
          (
            omega (arith, size-region_0),
            ap (block_id (region_0_of pages)) (sym same) ∙ block_id-region_0 b (omega arith),
          )
      complete b e lt found (no h) =
          let at : b ≡ n - 1 = omega arith in
          let same : 0 ≡ e.rank =
            (entry_unique (table_get b entered) (entry_at n pages 0) e
              (ap (λ c. table_get c entered) at ∙ table-head) found).1 in
          (omega (arith, size-region_0), ap (block_id (region_0_of pages)) (sym same) ∙ sym at)
