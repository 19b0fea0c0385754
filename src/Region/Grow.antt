-- ===== src/Region/Grow.antt =====
-- Region objects and `region_grow`.
pub mod Assign
pub mod Commit
pub mod Keeps
pub mod Others
pub mod Outcome
use motoko.Prelude.{
  ℕ, zero, suc, ◌+◌, ◌-◌, ◌*◌, ◌/◌, ◌%◌, ◌^◌, List, ◌++◌, Option, none, some, Bool, not, take,
  replicate, get_or, set, ltb, ◌==◌, if◌then◌else◌,
}
use motoko.StableMem.{Bytes}
use motoko.Region.Meta.{
  u64_max, max_blocks, pages_in_block, total_required_pages, State, Entry, total_blocks,
  set_total_blocks, table_set,
}

-- The heap object of a region. `vec_pages` is the access vector: the block of each rank.
pub record Region : Type 0 where
  pub id : ℕ
  pub page_count : ℕ
  pub vec_pages : List ℕ

-- `get_ith_block_id`; the object's invariant keeps `i` in range.
abbrev pub block_id : Region → ℕ → ℕ
block_id r i = get_or r.vec_pages i 0

-- `u32` subtraction and the number of blocks that hold `n` pages.
abbrev pub sub32 : ℕ → ℕ → ℕ
sub32 a b = (a + 2 ^ 32 - b) % 2 ^ 32

abbrev pub blocks_of : ℕ → ℕ
blocks_of n = (n + (pages_in_block - 1)) % 2 ^ 32 / pages_in_block

unfoldable pub block_page_count : ℕ → ℕ → ℕ → ℕ
block_page_count rank block_count page_count =
    if rank == sub32 block_count 1
    then sub32 page_count (sub32 block_count 1 * pages_in_block % 2 ^ 32) % 2 ^ 8
    else pages_in_block

-- The loop that assigns the new blocks, at rank `i` with `left` ranks to go.
module _ (r : Region) (old_total old_count new_count : ℕ) where
  unfoldable pub new_block_id : ℕ → ℕ
  new_block_id i = (old_total + sub32 i old_count % 2 ^ 16) % 2 ^ 32 % 2 ^ 16

  unfoldable pub new_entry : ℕ → Entry
  new_entry i = record {
    region = r.id;
    rank = i % 2 ^ 16;
    page_count = block_page_count (i % 2 ^ 16) new_count (r.page_count % 2 ^ 32);
  }

  unfoldable pub assign_blocks : ℕ → ℕ → Bytes → List ℕ → Bytes × List ℕ
  unfolding new_block_id new_entry
  assign_blocks zero i m vec = (m, vec)
  assign_blocks (suc left) i m vec =
      assign_blocks left (i + 1) (table_set (new_block_id i) (some (new_entry i)) m)
        (set vec i (new_block_id i))

-- The last block so far takes pages too: its entry is updated.
unfoldable pub update_last_block : Region → ℕ → ℕ → Bytes → Bytes
update_last_block r old_count new_count m =
    if ltb 0 old_count
    then (let rank = sub32 old_count 1 % 2 ^ 16 in
        table_set (block_id r rank)
          (some (record {
            region = r.id;
            rank = rank;
            page_count = block_page_count rank new_count (r.page_count % 2 ^ 32);
          }))
          m)
    else m

-- From "Commit the allocation" on. The new blob starts with a copy of the old one; what follows is
-- written by the loop, and stands as 0 before.
unfoldable pub commit_grow : State → Region → ℕ → ℕ → ℕ → ℕ → State × Region
unfolding assign_blocks update_last_block
commit_grow s r new_pages old_count new_count new_total =
    let old_total = total_blocks s in
    let s' = set_total_blocks (new_total % 2 ^ 32) s in
    let r' : Region = record r { page_count = r.page_count + new_pages } in
    let m = update_last_block r' old_count new_count s'.bytes in
    let copied = take old_count r.vec_pages ++ replicate (new_count - old_count) 0 in
    let (m', vec) =
      assign_blocks r' old_total old_count new_count (new_count - old_count) old_count m copied in
    (record s' { bytes = m' }, record r' { vec_pages = vec })

-- `grants have more`: whether the platform gives `more` pages to a memory of `have` pages.
module _ (grants : ℕ → ℕ → Bool) where
  -- Adds the pages that are missing; nothing if the platform refuses.
  unfoldable pub ensure_pages : ℕ → State → Option State
  ensure_pages need s =
      if ltb s.pages need
      then (if grants s.pages (need - s.pages)
          then some (record s { pages = s.pages + (need - s.pages) })
          else none)
      else some s

  -- `region_grow`: the result, and the state and object after it.
  unfoldable pub region_grow : State → Region → ℕ → ℕ × State × Region
  unfolding commit_grow ensure_pages
  region_grow s r new_pages =
      if ltb ((max_blocks * pages_in_block + 2 ^ 64 - r.page_count) % 2 ^ 64) new_pages
      then (u64_max, s, r)
      else (let pages32 = new_pages % 2 ^ 32 in
          let old_count = blocks_of (r.page_count % 2 ^ 32) in
          let new_count = blocks_of (r.page_count % 2 ^ 32 + pages32) in
          let new_total = total_blocks s + sub32 new_count old_count in
          elim (ensure_pages (total_required_pages s.block_base new_total) s) [
            | none ↦ (u64_max, s, r)
            | some s1 ↦
                (let (s2, r') = commit_grow s1 r pages32 old_count new_count new_total in
                  (r.page_count, s2, r'))
          ])
