-- ===== src/Region/Migrate/Existing.antt =====
-- The migration of a stable memory that holds data: it succeeds, region 0 holds the old content byte
-- by byte, and the table agrees with it.
use motoko.Prelude.{
  ℕ, ◌+◌, ◌-◌, ◌*◌, ◌/◌, ◌%◌, ◌^◌, ◌≤◌, ◌<◌, ◌≡◌, refl, sym, ap, ◌∙◌, subst, inl, inr, some, Bool,
  true, arith, dec_lt, ◌==◌, if◌then◌else◌, lt→ltb, ge→ltb, le→leb,
}
use motoko.Prelude.Result.{ok}
use motoko.StableMem.{Bytes, page_size}
use motoko.StableMem.Laws.{write-outside}
use motoko.StableMem.Words.{write_word-outside}
use motoko.Region.Meta.{
  max_blocks, pages_in_block, block_in_bytes, offset_free, base_high, State, total_blocks,
  set_total_blocks, total_regions, set_total_regions,
}
use motoko.Region.Meta.Table.{
  total_blocks-set, total_blocks-set_total_regions, total_regions-set, table_get-set_total_regions,
  total_blocks_agree, total_regions_agree, set_total_regions-outside, set_total_blocks-outside,
}
use motoko.Region.Grow.{Region, block_id, blocks_of, sub32}
use motoko.Region.Owns.{IsState, Owns, block_count, max_pages_in_region}
use motoko.Region.Recover.{region_recover}
use motoko.Region.Recover.Restores.{region_recover-eq}
use motoko.Region.Access.Locate.{locate, size_in_bytes}
use motoko.Region.Migrate.{
  no_regions, version_stable_heap_no_regions, version_stable_heap_regions,
  version_graph_copy_regions, header_bytes, magic, write_magic, move_head, enter_region_0,
  upgrade_version_to_regions, region_reserve_id_span, region_migration_from_some_stable_memory,
}
use motoko.Region.Migrate.Head.{
  region_0_of, Owns-region_0, entered-outside, block_id-region_0, move_head-other, move_head-head,
  move_head_too_far,
}

abbrev new_version : ℕ → ℕ
new_version v =
    if v == version_stable_heap_no_regions
    then version_stable_heap_regions
    else version_graph_copy_regions

upgrade-ok :
    (s : State)
    → no_regions s.version ≡ true
    → upgrade_version_to_regions s ≡ ok (record s { version = new_version s.version })
unfolding upgrade_version_to_regions
upgrade-ok s h = ground arith

-- The writes of the counters leave the version alone.
version-counters :
    (k j : ℕ) (s : State) → (set_total_regions j (set_total_blocks k s)).version ≡ s.version
unfolding set_total_regions set_total_blocks
version-counters k j s = refl

write_magic-ok :
    (s : State)
    → 0 < s.pages
    → offset_free ≤ s.block_base
    → write_magic s ≡ ok (record s { bytes = header_bytes s.block_base s.bytes })
unfolding write_magic
write_magic-ok s p q = rw (lt→ltb 0 s.pages p, le→leb offset_free s.block_base q)

reserve-ok :
    (s : State)
    → total_regions s ≡ 1
    → region_reserve_id_span s (some 1) 15 ≡ ok (set_total_regions 16 s)
unfolding region_reserve_id_span
reserve-ok s e = rw e

header-outside : (base : ℕ) (m : Bytes) (a : ℕ) → 22 ≤ a → header_bytes base m a ≡ m a
header-outside base m a h =
    write_word-outside 8 14 base _ a (inr h)
    ∙ write_word-outside 2 12 (pages_in_block % 2 ^ 16) _ a (inr (omega arith))
    ∙ write_word-outside 4 8 2 _ a (inr (omega arith))
    ∙ write-outside 0 magic m a (inr (omega arith))

module _ (s : State) (pos : 0 < s.pages) (fits : s.pages ≤ max_pages_in_region) where
  abbrev n : ℕ
  n = block_count s.pages

  -- The pages that the migration asks for: a block for the meta data, and the rest of the last block.
  abbrev pub missing : ℕ
  missing = pages_in_block + n * pages_in_block - s.pages

  abbrev s2 : State
  s2 = record s {
    pages = s.pages + missing;
    block_base = base_high;
    bytes = header_bytes base_high (move_head n s.bytes);
  }

  abbrev s3 : State
  s3 = set_total_regions 1 (set_total_blocks n s2)

  abbrev s5 : State
  s5 = record s3 { bytes = enter_region_0 n s.pages s3.bytes; version = new_version s.version }

  abbrev pub migrated : State
  migrated = set_total_regions 16 s5

  total-s5 : total_blocks s5 ≡ n
  total-s5 =
      total_blocks_agree s5 s3
        (λ a p q. entered-outside s.pages pos fits s3.bytes a (inl (omega arith)))
      ∙ total_blocks-set_total_regions 1 (set_total_blocks n s2)
      ∙ total_blocks-set n s2 (omega arith)

  regions-s5 : total_regions s5 ≡ 1
  regions-s5 =
      total_regions_agree s5 s3
        (λ a p q. entered-outside s.pages pos fits s3.bytes a (inl (omega arith)))
      ∙ total_regions-set 1 (set_total_blocks n s2) (omega arith)

  Owns-s5 : Owns s5.bytes (total_blocks s5) (region_0_of s.pages)
  Owns-s5 =
      subst (λ k. Owns s5.bytes k (region_0_of s.pages)) (sym total-s5)
        (Owns-region_0 s.pages pos fits s3.bytes)

  recovered : region_recover s5 0 ≡ ok (region_0_of s.pages)
  recovered =
      region_recover-eq s5 (region_0_of s.pages) Owns-s5 (omega (arith, regions-s5))
        (omega (arith, total-s5))

  total-migrated : total_blocks migrated ≡ n
  total-migrated = total_blocks-set_total_regions 16 s5 ∙ total-s5

  pub Owns-migrated : Owns migrated.bytes (total_blocks migrated) (region_0_of s.pages)
  Owns-migrated = record {
    id = o.id;
    pages = o.pages;
    ranks = o.ranks;
    block_lt = λ j h. omega (arith, o.block_lt j h, total-migrated, total-s5);
    entry = λ j h. table_get-set_total_regions _ 16 s5 ∙ o.entry j h;
    complete = λ b e lt found own.
        o.complete b e (omega (arith, total-migrated, total-s5))
          (sym (table_get-set_total_regions b 16 s5) ∙ found) own;
  }
    where
      o : Owns s5.bytes (total_blocks s5) (region_0_of s.pages)
      o = Owns-s5

  -- Behind the meta data the bytes are those after the move of the head block.
  content : (a : ℕ) → base_high ≤ a → migrated.bytes a ≡ move_head n s.bytes a
  content a h =
      set_total_regions-outside 16 s5 a (inr (omega arith))
      ∙ entered-outside s.pages pos fits s3.bytes a (inr (omega arith))
      ∙ set_total_regions-outside 1 (set_total_blocks n s2) a (inr (omega arith))
      ∙ set_total_blocks-outside n s2 a (inr (omega arith))
      ∙ header-outside base_high (move_head n s.bytes) a (omega arith)

  locate-first :
      (x : ℕ)
      → x < block_in_bytes
      → locate base_high (region_0_of s.pages) x ≡ n * block_in_bytes + x
  unfolding locate
  locate-first x h = omega (
    arith,
    ap (block_id (region_0_of s.pages)) (let e : x / block_in_bytes ≡ 0 = omega arith in e),
  )

  locate-rest :
      (x : ℕ)
      → block_in_bytes ≤ x
      → x < size_in_bytes (region_0_of s.pages)
      → locate base_high (region_0_of s.pages) x ≡ x
  unfolding locate
  locate-rest x lo hi = omega (
    arith,
    ap (block_id (region_0_of s.pages))
        (let e : x / block_in_bytes ≡ x / block_in_bytes - 1 + 1 = omega arith in e),
    block_id-region_0 s.pages pos fits s.bytes (x / block_in_bytes - 1) (omega arith),
  )

  -- Region 0 holds what stable memory held.
  pub kept_content :
      n < 512
      → (x : ℕ) → x < size_in_bytes (region_0_of s.pages)
      → migrated.bytes (locate base_high (region_0_of s.pages) x) ≡ s.bytes x
  kept_content small x h = elim (dec_lt x block_in_bytes) [
    | yes p ↦
        ap migrated.bytes (locate-first x p)
        ∙ content (n * block_in_bytes + x) (omega arith)
        ∙ move_head-head n s.bytes x (omega arith) small p
    | no p ↦
        ap migrated.bytes (locate-rest x (omega arith) h)
        ∙ content x (omega arith)
        ∙ move_head-other n s.bytes x small (omega arith) (omega arith)
  ]

  -- Where the copy went astray, region 0's first block is what the grown memory held there.
  pub lost_content :
      512 ≤ n
      → (x : ℕ) → x < block_in_bytes
      → migrated.bytes (locate base_high (region_0_of s.pages) x) ≡ s.bytes (n * block_in_bytes + x)
  lost_content big x h =
      ap migrated.bytes (locate-first x h)
      ∙ content (n * block_in_bytes + x) (omega arith)
      ∙ move_head_too_far n s.bytes x big h

  module _ (grants : ℕ → ℕ → Bool) (fresh : no_regions s.version ≡ true)
      (given : grants s.pages missing ≡ true) where
    pub migrates :
        region_migration_from_some_stable_memory grants s ≡ ok (migrated, region_0_of s.pages)
    unfolding region_migration_from_some_stable_memory
    migrates = rw (
      ge→ltb (pages_in_block * max_blocks) s.pages (omega arith),
      cut,
      blocks,
      lt→ltb 0 n (omega arith),
      amount,
      given,
      write_magic-ok
          (record s {
            pages = s.pages + missing;
            block_base = base_high;
            bytes = move_head n s.bytes;
          })
          (omega arith) (omega arith),
      upgrade-ok (record s3 { bytes = enter_region_0 n s.pages s3.bytes })
          (ap no_regions (version-counters n 1 s2) ∙ fresh),
      version-counters n 1 s2,
      recovered,
      reserve-ok s5 regions-s5,
    )
      where
        cut : s.pages % 2 ^ 32 ≡ s.pages
        cut = omega arith

        blocks : blocks_of s.pages ≡ n
        blocks = omega arith

        amount : sub32 (pages_in_block + n * pages_in_block) s.pages ≡ missing
        amount = omega arith

memory-counters :
    (k j : ℕ) (s : State)
    → ((set_total_regions j (set_total_blocks k s)).pages ≡ s.pages)
      × ((set_total_regions j (set_total_blocks k s)).block_base ≡ s.block_base)
unfolding set_total_regions set_total_blocks
memory-counters k j s = (refl, refl)

memory-regions :
    (j : ℕ) (s : State)
    → ((set_total_regions j s).pages ≡ s.pages)
      × ((set_total_regions j s).block_base ≡ s.block_base)
unfolding set_total_regions
memory-regions j s = (refl, refl)

module _ (s : State) (pos : 0 < s.pages) (fits : s.pages ≤ max_pages_in_region) where
  memory-migrated :
      ((migrated s pos fits).pages ≡ s.pages + missing s pos fits)
      × ((migrated s pos fits).block_base ≡ base_high)
  memory-migrated = (
    (memory-regions 16 (s5 s pos fits)).0
        ∙ (memory-counters (block_count s.pages) 1 (s2 s pos fits)).0,
    (memory-regions 16 (s5 s pos fits)).1
        ∙ (memory-counters (block_count s.pages) 1 (s2 s pos fits)).1,
  )

  IsState-migrated : IsState (migrated s pos fits)
  IsState-migrated = record {
    base = omega (arith, memory-migrated.1);
    room = λ _. omega (
      arith,
      ap (λ b. b / page_size) memory-migrated.1,
      memory-migrated.0,
      total-migrated s pos fits,
    );
    pages = omega (arith, memory-migrated.0);
  }

-- The migration of a stable memory of at least one page and of up to 511 blocks, of a version without
-- regions, succeeds when the platform gives the missing pages. The state is then consistent, region 0
-- agrees with the table and has the old pages, and each old byte is at its offset in region 0.
pub migration_keeps :
    (grants : ℕ → ℕ → Bool) (s : State) (x : ℕ) (pos : 0 < s.pages)
    (fits : s.pages ≤ max_pages_in_region)
    → no_regions s.version ≡ true
    → grants s.pages (missing s pos fits) ≡ true
    → block_count s.pages < 512
    → x < s.pages * page_size
    → (s' : State) × (r : Region) × (region_migration_from_some_stable_memory grants s ≡ ok (s', r))
      × IsState s'
      × Owns s'.bytes (total_blocks s') r
      × (r.page_count ≡ s.pages)
      × (s'.bytes (locate s'.block_base r x) ≡ s.bytes x)
migration_keeps grants s x pos fits fresh given small h = (
  migrated s pos fits,
  region_0_of s.pages,
  migrates s pos fits grants fresh given,
  IsState-migrated s pos fits,
  Owns-migrated s pos fits,
  refl,
  ap (λ b. (migrated s pos fits).bytes (locate b (region_0_of s.pages) x))
        (memory-migrated s pos fits).1
      ∙ kept_content s pos fits small x h,
)

-- From 512 blocks on, up to the most pages of a region, the migration succeeds as well, but the first
-- block of region 0 does not hold the old memory's first block: each of its bytes is what lay at its
-- place behind the last old block before.
pub migration_loses :
    (grants : ℕ → ℕ → Bool) (s : State) (x : ℕ) (pos : 0 < s.pages)
    (fits : s.pages ≤ max_pages_in_region)
    → no_regions s.version ≡ true
    → grants s.pages (missing s pos fits) ≡ true
    → 512 ≤ block_count s.pages
    → x < block_in_bytes
    → (s' : State) × (r : Region) × (region_migration_from_some_stable_memory grants s ≡ ok (s', r))
      × (s'.bytes (locate s'.block_base r x) ≡ s.bytes (block_count s.pages * block_in_bytes + x))
migration_loses grants s x pos fits fresh given big h = (
  migrated s pos fits,
  region_0_of s.pages,
  migrates s pos fits grants fresh given,
  ap (λ b. (migrated s pos fits).bytes (locate b (region_0_of s.pages) x))
        (memory-migrated s pos fits).1
      ∙ lost_content s pos fits big x h,
)
