-- ===== src/Region/Access/Bounds.antt =====
-- Where the address computation of a load or a store leads: into the region's own blocks, and into
-- memory that has been granted.
use motoko.Prelude.{ℕ, ◌+◌, ◌*◌, ◌/◌, ◌%◌, ◌^◌, ◌≤◌, ◌<◌, ◌≡◌, ap, ◌∙◌, some, arith}
use motoko.StableMem.{page_size}
use motoko.Region.Meta.{State, index, block_in_bytes, total_blocks, table_get}
use motoko.Region.Grow.{Region, block_id}
use motoko.Region.Owns.{IsState, Owns, entry_of}
use motoko.Region.Access.{relative_into_absolute_info}
use motoko.Region.Access.Locate.{size_in_bytes, absolute, rank_lt}

-- In a consistent state whose blocks begin at a page, for an offset within the size of a region that
-- agrees with the table: the block that the address computation finds is the one that the table gives to
-- the region for the offset's rank; the address lies in this block, behind the meta data and the
-- table; and what is left of the block, from the address on, reaches to its end and lies in the pages
-- of stable memory, so that an access to it does not trap.
pub relative_into_absolute_info_bounds :
    (s : State) (r : Region) (offset : ℕ)
    → IsState s
    → Owns s.bytes (total_blocks s) r
    → s.block_base % page_size ≡ 0
    → offset < size_in_bytes r
    → let (address, block, left) = relative_into_absolute_info s.block_base r offset in
      (table_get block s.bytes ≡ some (entry_of r.id r.page_count (offset / block_in_bytes)))
      × (index (2 ^ 16) ≤ address)
      × (s.block_base + block * block_in_bytes ≤ address)
      × (0 < left)
      × (address + left ≡ s.block_base + (block + 1) * block_in_bytes)
      × (address + left ≤ s.pages * page_size)
relative_into_absolute_info_bounds s r offset is o aligned lt =
    let rank = absolute o s.block_base offset lt in
    let at = ap (block_id r) rank in
    let below = o.block_lt (offset / block_in_bytes) (rank_lt o s.block_base offset lt) in
    (
      ap (λ b. table_get b s.bytes) at
          ∙ o.entry (offset / block_in_bytes) (rank_lt o s.block_base offset lt),
      omega (arith, is.base),
      omega arith,
      omega arith,
      omega arith,
      omega (arith, is.room (omega (arith, below)), at, below),
    )
