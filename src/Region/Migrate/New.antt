-- ===== src/Region/Migrate/New.antt =====
-- `region_new` once the meta data is there: a region with no page under an identifier that no block
-- carries.
use motoko.Prelude.{ℕ, ◌+◌, ◌<◌, ◌≡◌, ◌≢◌, refl, sym, ◌∙◌, [], none, some, Bool, true, arith, ne→==}
use motoko.Prelude.Result.{Result, ok}
use motoko.Region.Meta.{
  max_regions, State, Entry, total_blocks, total_regions, set_total_regions, table_get,
}
use motoko.Region.Meta.Table.{
  total_blocks-set_total_regions, total_regions-set, table_get-set_total_regions,
}
use motoko.Region.Grow.{Region}
use motoko.Region.Owns.{Owns}
use motoko.Region.Migrate.{
  with_regions, new_region, migrate_on_new_region, region_new_rounds, region_new,
}

-- Every block in use belongs to an identifier that has been given out.
pub record IsCounted (s : State) : Type 0 where
  pub counted :
      (b : ℕ) (e : Entry)
      → b < total_blocks s
      → table_get b s.bytes ≡ some e
      → e.region < total_regions s

-- The new region, and the state behind it.
abbrev pub fresh_region : State → Region
fresh_region s = record { id = total_regions s; page_count = 0; vec_pages = [] }

abbrev pub counted_up : State → State
counted_up s = set_total_regions (total_regions s + 1) s

new_region-ok :
    (s : State) → total_regions s ≢ max_regions → new_region s ≡ ok (counted_up s, fresh_region s)
unfolding new_region
new_region-ok s h = rw (ne→== (total_regions s) max_regions h)

migrate_on_new_region-none :
    (grants : ℕ → ℕ → Bool) (new : State → Result (State × Region)) (s : State)
    → with_regions s.version ≡ true
    → migrate_on_new_region grants new s ≡ ok (s, none)
unfolding migrate_on_new_region
migrate_on_new_region-none grants new s h = ground arith

keeps :
    (s : State) (q : Region)
    → Owns s.bytes (total_blocks s) q
    → Owns (counted_up s).bytes (total_blocks (counted_up s)) q
keeps s q o = record {
  id = o.id;
  pages = o.pages;
  ranks = o.ranks;
  block_lt =
      λ j h. omega (arith, o.block_lt j h, total_blocks-set_total_regions (total_regions s + 1) s);
  entry = λ j h. table_get-set_total_regions _ (total_regions s + 1) s ∙ o.entry j h;
  complete = λ b e lt found own.
      o.complete b e (omega (arith, total_blocks-set_total_regions (total_regions s + 1) s))
        (sym (table_get-set_total_regions b (total_regions s + 1) s) ∙ found) own;
}

-- With the meta data in place, identifiers left, and only identifiers that were given out in the
-- table, `region_new` does not migrate and does not trap. It returns a region of no page that
-- agrees with the table and whose identifier is the next one, counts it, keeps the table within
-- the identifiers given out, and keeps any other region that agrees with the table in agreement.
pub region_new_fresh :
    (grants : ℕ → ℕ → Bool) (s : State) (q : Region)
    → with_regions s.version ≡ true
    → IsCounted s
    → total_regions s < max_regions
    → Owns s.bytes (total_blocks s) q
    → (s' : State) × (r : Region) × (region_new grants s ≡ ok (s', none, r))
      × Owns s'.bytes (total_blocks s') r
      × (r.id ≡ total_regions s)
      × (total_regions s' ≡ total_regions s + 1)
      × IsCounted s'
      × Owns s'.bytes (total_blocks s') q
unfolding region_new region_new_rounds
region_new_fresh grants s q version c left oq = (
  counted_up s,
  fresh_region s,
  rw (migrate_on_new_region-none grants _ s version, new_region-ok s (omega arith)),
  record {
    id = omega arith;
    pages = omega arith;
    ranks = refl;
    block_lt = λ j h. absurd (omega arith);
    entry = λ j h. absurd (omega arith);
    complete =
        λ b e lt found own. absurd (omega (arith, c.counted b e (lt' b lt) (found' b e found)));
  },
  refl,
  total_regions-set (total_regions s + 1) s (omega arith),
  record {
    counted = λ b e lt found. omega (
      arith,
      c.counted b e (lt' b lt) (found' b e found),
      total_regions-set (total_regions s + 1) s (omega arith),
    );
  },
  keeps s q oq,
)
  where
    lt' : (b : ℕ) → b < total_blocks (counted_up s) → b < total_blocks s
    lt' b h = omega (arith, total_blocks-set_total_regions (total_regions s + 1) s)

    found' :
        (b : ℕ) (e : Entry)
        → table_get b (counted_up s).bytes ≡ some e
        → table_get b s.bytes ≡ some e
    found' b e h = sym (table_get-set_total_regions b (total_regions s + 1) s) ∙ h
