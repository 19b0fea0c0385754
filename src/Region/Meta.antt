-- ===== src/Region/Meta.antt =====
-- The meta data that the region manager keeps at the front of stable memory (`mod meta_data` of
-- region.rs), the static variables of the module, and the optional identifiers.
pub mod Table
use motoko.Prelude.{ℕ, ◌+◌, ◌-◌, ◌*◌, ◌/◌, ◌%◌, ◌^◌, Option, none, some, Bool, ◌==◌, if◌then◌else◌}
use motoko.StableMem.{Bytes, page_size, read_word, write_word}

abbrev pub u64_max : ℕ
u64_max = 2 ^ 64 - 1

-- meta_data::max
abbrev pub max_blocks : ℕ
max_blocks = 32768

abbrev pub max_regions : ℕ
max_regions = u64_max - 1

-- meta_data::size
abbrev pub block_region_table_entry : ℕ
block_region_table_entry = 11

abbrev pub pages_in_block : ℕ
pages_in_block = 128

abbrev pub block_in_bytes : ℕ
block_in_bytes = page_size * pages_in_block

abbrev pub static_mem_in_pages : ℕ → ℕ
static_mem_in_pages block_base = block_base / page_size

abbrev pub total_required_pages : ℕ → ℕ → ℕ
total_required_pages block_base total_blocks =
    static_mem_in_pages block_base + total_blocks * pages_in_block

-- meta_data::offset
abbrev pub offset_magic : ℕ
offset_magic = 0

abbrev pub offset_version : ℕ
offset_version = offset_magic + 8

abbrev pub offset_block_pages : ℕ
offset_block_pages = offset_version + 4

abbrev pub offset_block_base : ℕ
offset_block_base = offset_block_pages + 2

abbrev pub offset_total_blocks : ℕ
offset_total_blocks = offset_block_base + 8

abbrev pub offset_total_regions : ℕ
offset_total_regions = offset_total_blocks + 4

abbrev pub offset_table : ℕ
offset_table = offset_total_regions + 8

abbrev pub offset_free : ℕ
offset_free = offset_table + max_blocks * block_region_table_entry

abbrev pub base_low : ℕ
base_low = 16 * page_size

abbrev pub base_high : ℕ
base_high = block_in_bytes

-- `RegionId::from_u64` and `RegionId::into_u64`: 0 is no region.
unfoldable pub id_from_u64 : ℕ → Option ℕ
id_from_u64 u = if u == 0 then none else some (u - 1)

unfoldable pub id_into_u64 : Option ℕ → ℕ
id_into_u64 none = 0
id_into_u64 (some id) = (id + 1) % 2 ^ 64

-- What the static variables and the platform hold: `BLOCK_BASE`, `REGION_TOTAL_ALLOCATED_BLOCKS`,
-- the version and the size in pages of stable memory, and its content.
pub record State : Type 0 where
  pub version : ℕ
  pub pages : ℕ
  pub block_base : ℕ
  pub total_blocks_mirror : ℕ
  pub bytes : Bytes

-- A block in use: by which region, at which rank, with how many pages.
pub record Entry : Type 0 where
  pub region : ℕ
  pub rank : ℕ
  pub page_count : ℕ

-- total_allocated_blocks::{get, set}
unfoldable pub total_blocks : State → ℕ
total_blocks s = read_word 4 offset_total_blocks s.bytes

unfoldable pub set_total_blocks : ℕ → State → State
set_total_blocks n s = record s {
  total_blocks_mirror = n;
  bytes = write_word 4 offset_total_blocks n s.bytes;
}

-- total_allocated_regions::{get, set}
unfoldable pub total_regions : State → ℕ
total_regions s = read_word 8 offset_total_regions s.bytes

unfoldable pub set_total_regions : ℕ → State → State
set_total_regions n s = record s { bytes = write_word 8 offset_total_regions n s.bytes }

-- block_region_table::{index, get, set}
abbrev pub index : ℕ → ℕ
index b = offset_table + b * block_region_table_entry

make_entry : Option ℕ → ℕ → ℕ → Option Entry
make_entry none rank page_count = none
make_entry (some r) rank page_count =
    some (record { region = r; rank = rank; page_count = page_count })

unfoldable pub table_get : ℕ → Bytes → Option Entry
unfolding make_entry
table_get b m =
    make_entry (id_from_u64 (read_word 8 (index b) m)) (read_word 2 (index b + 8) m)
      (read_word 1 (index b + 8 + 2) m)

write_entry : ℕ → ℕ → ℕ → ℕ → Bytes → Bytes
write_entry b region rank page_count m =
    write_word 1 (index b + 8 + 2) page_count
      (write_word 2 (index b + 8) rank (write_word 8 (index b) region m))

unfoldable pub table_set : ℕ → Option Entry → Bytes → Bytes
unfolding write_entry id_into_u64
table_set b none m = write_entry b (id_into_u64 none) 0 0 m
table_set b (some e) m = write_entry b (id_into_u64 (some e.region)) e.rank e.page_count m
