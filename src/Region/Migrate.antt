-- ===== src/Region/Migrate.antt =====
-- `region_new`, the migrations of stable memory into regions, and `region_init`.
pub mod Head
pub mod New
pub mod Existing
use motoko.Prelude.{
  ℕ, zero, suc, ◌+◌, ◌-◌, ◌*◌, ◌/◌, ◌%◌, ◌^◌, List, [], ◌∷◌, Option, none, some, Bool, true, false,
  not, ◌&&◌, ◌||◌, ltb, leb, ◌==◌, if◌then◌else◌,
}
use motoko.Prelude.Result.{Result, ok, trap, ◌>>=◌, ◌>>◌, guard, assert}
use motoko.StableMem.{Bytes, page_size, read, write, read_word, write_word}
use motoko.Region.Meta.{
  max_blocks, max_regions, pages_in_block, block_in_bytes, offset_magic, offset_version,
  offset_block_pages, offset_block_base, offset_free, base_low, base_high, State, Entry,
  total_blocks, set_total_blocks, total_regions, set_total_regions, table_set,
}
use motoko.Region.Grow.{Region, blocks_of, sub32, block_page_count}
use motoko.Region.Recover.{region_recover}

abbrev pub version_graph_copy_no_regions : ℕ
version_graph_copy_no_regions = 3

abbrev pub version_graph_copy_regions : ℕ
version_graph_copy_regions = 4

abbrev pub version_stable_heap_no_regions : ℕ
version_stable_heap_no_regions = 5

abbrev pub version_stable_heap_regions : ℕ
version_stable_heap_regions = 6

abbrev pub last_reserved_region_id : ℕ
last_reserved_region_id = 15

-- "MOREGION"
abbrev pub magic : List ℕ
magic = 77 ∷ 79 ∷ 82 ∷ 69 ∷ 71 ∷ 73 ∷ 79 ∷ 78 ∷ []

-- meta_data::version::VERSION
abbrev pub region_version : ℕ
region_version = 2

abbrev pub no_regions : ℕ → Bool
no_regions v = v == version_stable_heap_no_regions || v == version_graph_copy_no_regions

abbrev pub with_regions : ℕ → Bool
with_regions v = v == version_stable_heap_regions || v == version_graph_copy_regions

-- A write of `len` zeros.
unfoldable pub write_zeros : ℕ → ℕ → Bytes → Bytes
write_zeros offset len m a = if leb offset a && ltb a (offset + len) then 0 else m a

abbrev pub header_bytes : ℕ → Bytes → Bytes
header_bytes block_base m = write_word 8 offset_block_base block_base (
    write_word 2 offset_block_pages (pages_in_block % 2 ^ 16)
      (write_word 4 offset_version region_version (write offset_magic magic m)))

pub write_magic : State → Result State
write_magic s = do
  assert (ltb 0 s.pages)
  assert (leb offset_free s.block_base)
  ok (record s { bytes = header_bytes s.block_base s.bytes })

-- `region_reserve_id_span`: reserves from `first` on, or checks that it has been done.
pub region_reserve_id_span : State → Option ℕ → ℕ → Result State
region_reserve_id_span s (some first) last = do
  assert (first == total_regions s)
  assert (leb first last)
  ok (set_total_regions (last + 1) s)
region_reserve_id_span s none last = do assert (ltb last (total_regions s)); ok s

pub upgrade_version_to_regions : State → Result State
upgrade_version_to_regions s =
    if s.version == version_stable_heap_no_regions
    then ok (record s { version = version_stable_heap_regions })
    else if s.version == version_graph_copy_no_regions
    then ok (record s { version = version_graph_copy_regions })
    else trap "unreachable"

-- `region_new` behind the migration.
pub new_region : State → Result (State × Region)
new_region s =
    if total_regions s == max_regions
    then trap "Region error: out of regions"
    else ok (
      set_total_regions (total_regions s + 1) s,
      record { id = total_regions s; page_count = 0; vec_pages = [] },
    )

-- The pages that hold the meta data.
abbrev pub meta_data_pages : ℕ
meta_data_pages = (offset_free - 1 + (page_size - 1)) / page_size

zero_pages : ℕ → ℕ → Bytes → Bytes
zero_pages zero i m = m
zero_pages (suc left) i m = zero_pages left (i + 1) (write_zeros (i * page_size) page_size m)

-- The blocks behind the head block, at `i`, with `left` to go.
pub enter_blocks : ℕ → ℕ → ℕ → ℕ → Bytes → Bytes
enter_blocks blocks pages zero i m = m
enter_blocks blocks pages (suc left) i m = enter_blocks blocks pages left (i + 1) (
    table_set i
      (some
        (record { region = 0; rank = i + 1; page_count = block_page_count (i + 1) blocks pages }))
      m)

-- The first block moves behind the last one (at an offset computed in 32 bits), and leaves zeros.
pub move_head : ℕ → Bytes → Bytes
move_head blocks m =
    write_zeros 0 block_in_bytes
      (write (blocks * block_in_bytes % 2 ^ 32) (read 0 block_in_bytes m) m)

-- The table entries of region 0, whose first block is physically the last.
pub enter_region_0 : ℕ → ℕ → Bytes → Bytes
unfolding enter_blocks
enter_region_0 blocks pages m = enter_blocks blocks pages (sub32 blocks 1 % 2 ^ 16) 0 (
    table_set (sub32 blocks 1 % 2 ^ 16)
      (some (record { region = 0; rank = 0; page_count = block_page_count 0 blocks pages })) m)

-- `==` on byte arrays.
same_bytes : List ℕ → List ℕ → Bool
same_bytes [] [] = true
same_bytes (x ∷ xs) (y ∷ ys) = x == y && same_bytes xs ys
same_bytes _ _ = false

module _ (grants : ℕ → ℕ → Bool) where
  -- `stable_mem::grow`, with the trap of the migrations.
  abbrev pub grow_or_trap : ℕ → State → Result State
  grow_or_trap more s =
      if grants s.pages more
      then ok (record s { pages = s.pages + more })
      else trap "Region error: migration failure (insufficient pages)"

  -- Each migration returns what `REGION_0` is set to. `new` is `region_new`.
  pub region_migration_from_no_stable_memory :
      (State → Result (State × Region)) → State → Result (State × Region)
  region_migration_from_no_stable_memory new s = do
    assert (no_regions s.version)
    assert (s.pages == 0)
    assert (leb meta_data_pages pages_in_block)
    s1 ← grow_or_trap meta_data_pages s
    s2 ←
        write_magic
          (record s1 { bytes = zero_pages meta_data_pages 0 s1.bytes; block_base = base_low })
    s3 ← upgrade_version_to_regions s2
    (s4, region_0) ← new s3
    assert (region_0.id == 0)
    s5 ← region_reserve_id_span s4 (some 1) last_reserved_region_id
    ok (s5, region_0)

  pub region_migration_from_some_stable_memory : State → Result (State × Region)
  region_migration_from_some_stable_memory s =
      if ltb (pages_in_block * max_blocks) s.pages
      then trap "Region error: migration failure (too many pages for region0 )"
      else (do
        let region0_pages = s.pages % 2 ^ 32
        let region0_blocks = blocks_of region0_pages
        assert (ltb 0 region0_blocks)
        s1 ← grow_or_trap (sub32 (pages_in_block + region0_blocks * pages_in_block) region0_pages) s
        s2 ←
            write_magic
              (record s1 { bytes = move_head region0_blocks s1.bytes; block_base = base_high })
        let s3 = set_total_regions 1 (set_total_blocks region0_blocks s2)
        let s4 : State = record s3 { bytes = enter_region_0 region0_blocks region0_pages s3.bytes }
        s5 ← upgrade_version_to_regions s4
        region_0 ← region_recover s5 0
        s6 ← region_reserve_id_span s5 (some 1) last_reserved_region_id
        ok (s6, region_0))

  -- `migrate_on_new_region`: `REGION_0`, if it was set.
  pub migrate_on_new_region :
      (State → Result (State × Region)) → State → Result (State × Option Region)
  migrate_on_new_region new s =
      if no_regions s.version
      then (do
        (s', region_0) ←
            if s.pages == 0
            then region_migration_from_no_stable_memory new s
            else region_migration_from_some_stable_memory s
        ok (s', some region_0))
      else if with_regions s.version
      then ok (s, none)
      else trap "assertion failed"

  -- `region_new`: the state, what `REGION_0` is set to if at all, and the new region. A migration
  -- calls it once more, and that call finds regions: two rounds are enough.
  pub region_new_rounds : ℕ → State → Result (State × Option Region × Region)
  region_new_rounds zero s = trap "out of fuel"
  region_new_rounds (suc fuel) s = do
    (s1, region_0) ←
        migrate_on_new_region (λ z. do (z1, _, r) ← region_new_rounds fuel z; ok (z1, r)) s
    (s2, r) ← new_region s1
    ok (s2, region_0, r)

  pub region_new : State → Result (State × Option Region × Region)
  unfolding region_new_rounds
  region_new = region_new_rounds 2

  -- `region_migration_from_regions_plus`: the meta data is there.
  pub region_migration_from_regions_plus : State → Result (State × Region)
  region_migration_from_regions_plus s = do
    assert (ltb 1 s.pages)
    guard (same_bytes (read offset_magic 8 s.bytes) magic)
        "Region error: migration failure (bad magic bytes)"
    guard (leb (read_word 4 offset_version s.bytes) region_version)
        "Region error: migration failure (unexpected higher version)"
    guard (read_word 2 offset_block_pages s.bytes == pages_in_block)
        "Region error: migration failure (unexpected block size)"
    guard (leb offset_free (read_word 8 offset_block_base s.bytes))
        "Region error: migration failure (base too low)"
    let s1 : State = record s { block_base = read_word 8 offset_block_base s.bytes }
    region_0 ← region_recover s1 0
    s2 ← region_reserve_id_span s1 none last_reserved_region_id
    ok (s2, region_0)

  -- `region_init`, at the start of each program version.
  pub region_init : State → ℕ → Result (State × Option Region)
  region_init s use_stable_regions =
      if no_regions s.version
      then if use_stable_regions == 0 then ok (s, none) else (do
        (s', region_0) ←
            if s.pages == 0
            then region_migration_from_no_stable_memory
                (λ z. do (z1, _, r) ← region_new z; ok (z1, r)) s
            else region_migration_from_some_stable_memory s
        ok (s', some region_0))
      else if with_regions s.version
      then (do (s', region_0) ← region_migration_from_regions_plus s; ok (s', some region_0))
      else trap "assertion failed"
