-- ===== src/Region/Recover.antt =====
-- `region_recover`: a region object rebuilt from the block-region table.
pub mod Weights
pub mod Restores
use motoko.Prelude.{
  ℕ, zero, suc, ◌+◌, ◌%◌, ◌^◌, List, Option, none, some, Bool, replicate, set, ltb, ◌==◌,
  if◌then◌else◌,
}
use motoko.Prelude.Result.{Result, ok, ◌>>=◌, ◌>>◌, guard, assert}
use motoko.StableMem.{Bytes}
use motoko.Region.Meta.{State, Entry, total_blocks, total_regions, table_get}
use motoko.Region.Grow.{Region, blocks_of}

module _ (id : ℕ) (m : Bytes) where
  -- The pages that an entry adds, 0 if it is not the region's.
  pub pages_of : Option Entry → ℕ
  pages_of none = 0
  pages_of (some e) = if e.region == id then e.page_count else 0

  -- The first loop: from block `b` on, `left` blocks.
  pub count_pages : ℕ → ℕ → ℕ → ℕ
  unfolding pages_of
  count_pages zero b acc = acc
  count_pages (suc left) b acc =
      count_pages left (b + 1) ((acc + pages_of (table_get b m)) % 2 ^ 32)

  -- One round of the second loop, on the number of recovered blocks and the access vector.
  pub place : ℕ → Option Entry → ℕ × List ℕ → ℕ × List ℕ
  place b none (n, vec) = (n, vec)
  place b (some e) (n, vec) = if e.region == id then (n + 1, set vec e.rank b) else (n, vec)

  -- The second loop: `left` is what `block_id < tb` leaves.
  pub place_blocks : ℕ → ℕ → ℕ → ℕ × List ℕ → ℕ × List ℕ
  unfolding place
  place_blocks count zero b t = t
  place_blocks count (suc left) b t =
      let rest = place_blocks count left (b + 1) (place b (table_get b m) t) in
      if ltb t.0 count then rest else t

-- The new blob's content stands as 0 before it is written.
pub region_recover : State → ℕ → Result Region
unfolding count_pages place_blocks
region_recover s id = do
  guard (ltb id (total_regions s)) "Region error: cannot recover un-allocated region"
  let tb = total_blocks s
  let page_count = count_pages id s.bytes (tb % 2 ^ 16) 0 0
  let block_count = blocks_of page_count
  let placed = place_blocks id s.bytes block_count tb 0 (0, replicate block_count 0)
  assert (placed.0 == block_count)
  ok (record { id = id; page_count = page_count; vec_pages = placed.1 })
