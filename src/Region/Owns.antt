-- ===== src/Region/Owns.antt =====
-- When a region object, the block-region table and the counters agree.
use motoko.Prelude.{ℕ, ◌+◌, ◌-◌, ◌*◌, ◌/◌, ◌^◌, ◌≤◌, ◌<◌, ◌≡◌, Option, some, length, min, ap, arith}
use motoko.StableMem.{Bytes}
use motoko.Region.Meta.{
  max_blocks, max_regions, pages_in_block, total_required_pages, State, Entry, index, total_blocks,
  table_get,
}
use motoko.Region.Grow.{Region, block_id, block_page_count}

abbrev pub max_pages_in_region : ℕ
max_pages_in_region = max_blocks * pages_in_block

-- The most pages that stable memory has: 2 ^ 16 blocks, 512 GiB.
abbrev pub max_stable_pages : ℕ
max_stable_pages = 2 ^ 16 * pages_in_block

-- Blocks that hold `n` pages, where nothing is cut off.
abbrev pub block_count : ℕ → ℕ
block_count n = (n + 127) / 128

-- The pages that the block of rank `j` holds: what the blocks before leave, up to a full block.
abbrev pub pages_at_rank : ℕ → ℕ → ℕ
pages_at_rank pages j = min 128 (pages - 128 * j)

-- The entry of the table for rank `j` of a region with `pages` pages.
abbrev pub entry_of : ℕ → ℕ → ℕ → Entry
entry_of id pages j = record { region = id; rank = j; page_count = pages_at_rank pages j }

-- The blocks in use fit the memory, behind the meta data, which has room for 2 ^ 16 entries. A memory
-- with no block yet may be shorter than `block_base`.
pub record IsState (s : State) : Type 0 where
  pub base : index (2 ^ 16) ≤ s.block_base
  pub room : 0 < total_blocks s → total_required_pages s.block_base (total_blocks s) ≤ s.pages
  pub pages : s.pages ≤ max_stable_pages

-- The table gives the region exactly the blocks of its access vector, with their ranks and pages.
pub record Owns (m : Bytes) (total : ℕ) (r : Region) : Type 0 where
  pub id : r.id ≤ max_regions
  pub pages : r.page_count ≤ max_pages_in_region
  pub ranks : length r.vec_pages ≡ block_count r.page_count
  pub block_lt : (j : ℕ) → j < length r.vec_pages → block_id r j < total
  pub entry :
      (j : ℕ)
      → j < length r.vec_pages
      → table_get (block_id r j) m ≡ some (entry_of r.id r.page_count j)
  pub complete :
      (b : ℕ) (e : Entry)
      → b < total
      → table_get b m ≡ some e
      → e.region ≡ r.id
      → (e.rank < length r.vec_pages) × (block_id r e.rank ≡ b)

-- What the code computes for a rank, from the last rank and the pages.
pub block_page_count-eq :
    (j pages : ℕ)
    → j < block_count pages
    → pages ≤ max_pages_in_region
    → block_page_count j (block_count pages) pages ≡ pages_at_rank pages j
unfolding block_page_count
block_page_count-eq j pages h k = ground arith

pub entry_of-eq :
    (id pages j : ℕ)
    → j < block_count pages
    → pages ≤ max_pages_in_region
    → ◌≡◌ {A = Entry}
        (record {
          region = id;
          rank = j;
          page_count = block_page_count j (block_count pages) pages;
        })
        (entry_of id pages j)
entry_of-eq id pages j h k =
    ap (λ n. record { region = id; rank = j; page_count = n }) (block_page_count-eq j pages h k)

pub block_page_count-lt : (j n pages : ℕ) → block_page_count j n pages < 256
unfolding block_page_count
block_page_count-lt j n pages = ground arith

-- One lookup has one answer.
pub entry_unique :
    (x : Option Entry) (d e : Entry)
    → x ≡ some d
    → x ≡ some e
    → (d.region ≡ e.region) × (d.rank ≡ e.rank) × (d.page_count ≡ e.page_count)
entry_unique x d e h k = (cc, cc, cc)
