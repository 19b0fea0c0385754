-- ===== src/Region/Starts.antt =====
-- Runs of the migrations, on a memory of three pages and on one of 512 blocks, and of `region_new`.
use motoko.Prelude.{ℕ, ◌+◌, ◌*◌, ◌%◌, ◌≡◌, refl, [], none, Bool, leb, arith}
use motoko.Prelude.Result.{ok}
use motoko.StableMem.{read_word, from_le_bytes, read, write_word, write, to_le_bytes}
use motoko.Region.Meta.{
  State, Entry, block_in_bytes, total_blocks, total_regions, set_total_regions, base_low,
}
use motoko.Region.Grow.{Region}
use motoko.Region.Owns.{IsState, Owns, max_stable_pages}
use motoko.Region.Access.Locate.{locate}
use motoko.Region.Migrate.{region_new, region_migration_from_some_stable_memory}
use motoko.Region.Migrate.Existing.{migration_keeps, migration_loses}
use motoko.Region.Migrate.New.{IsCounted, region_new_fresh}

abbrev grants : ℕ → ℕ → Bool
grants have more = leb (have + more) max_stable_pages

-- A stable memory without regions, whose byte at `a` is `a % 251`.
abbrev old_memory : ℕ → State
old_memory pages = record {
  version = 5;
  pages = pages;
  block_base = 0;
  total_blocks_mirror = 0;
  bytes = λ a. a % 251;
}

migration_keeps_example :
    (s : State) × (r : Region) × (region_migration_from_some_stable_memory grants (old_memory 3)
      ≡ ok (s, r))
    × IsState s
    × Owns s.bytes (total_blocks s) r
    × (r.page_count ≡ 3)
    × (s.bytes (locate s.block_base r 70000) ≡ 70000 % 251)
migration_keeps_example =
    migration_keeps grants (old_memory 3) 70000 (omega arith) (omega arith) refl refl (omega arith)
      (omega arith)

migration_loses_example :
    (s : State) × (r : Region) × (region_migration_from_some_stable_memory grants (old_memory 65536)
      ≡ ok (s, r))
    × (s.bytes (locate s.block_base r 1000) ≡ (512 * block_in_bytes + 1000) % 251)
migration_loses_example =
    migration_loses grants (old_memory 65536) 1000 (omega arith) (omega arith) refl refl
      (omega arith) (omega arith)

-- A memory with regions, of which none has a block.
abbrev empty : State
empty =
    set_total_regions 16
      (record (old_memory 16) { version = 6; block_base = base_low; bytes = λ _. 0 })

abbrev region_0 : Region
region_0 = record { id = 0; page_count = 0; vec_pages = [] }

empty-counters : (total_blocks empty ≡ 0) × (total_regions empty ≡ 16)
unfolding total_blocks total_regions set_total_regions read_word from_le_bytes read write_word write
    to_le_bytes
empty-counters = (refl, refl)

empty-version : empty.version ≡ 6
unfolding set_total_regions
empty-version = refl

region_0-Owns : Owns empty.bytes (total_blocks empty) region_0
region_0-Owns = record {
  id = omega arith;
  pages = omega arith;
  ranks = refl;
  block_lt = λ j h. absurd (omega arith);
  entry = λ j h. absurd (omega arith);
  complete = λ b e lt found own. absurd (omega (arith, empty-counters.0));
}

region_new_fresh_example :
    (s : State) × (r : Region) × (region_new grants empty ≡ ok (s, none, r))
    × Owns s.bytes (total_blocks s) r
    × (r.id ≡ total_regions empty)
    × (total_regions s ≡ total_regions empty + 1)
    × IsCounted s
    × Owns s.bytes (total_blocks s) region_0
region_new_fresh_example =
    region_new_fresh grants empty region_0 (rw empty-version)
      (record { counted = λ b e lt found. absurd (omega (arith, empty-counters.0)) })
      (omega (arith, empty-counters.1)) region_0-Owns

abbrev entry : Entry
entry = record { region = 16; rank = 3; page_count = 128 }
