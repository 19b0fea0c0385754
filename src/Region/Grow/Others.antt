-- ===== src/Region/Grow/Others.antt =====
-- Committing a growth leaves every region with another identifier in agreement with the table.
use motoko.Prelude.{ℕ, ◌+◌, ◌-◌, ◌^◌, ◌≤◌, ◌<◌, ◌≡◌, ◌≢◌, sym, ap, ◌∙◌, some, arith, dec_lt}
use motoko.Region.Meta.{State, Entry, total_blocks, table_get}
use motoko.Region.Grow.{Region, block_id}
use motoko.Region.Grow.Commit
use motoko.Region.Owns.{Owns, entry_of, entry_unique, block_count, max_pages_in_region}

module _ (s : State) (r : Region) (new_pages : ℕ) (o : Owns s.bytes (total_blocks s) r)
    (fits : r.page_count + new_pages ≤ max_pages_in_region)
    (small : total_blocks s + (block_count (r.page_count + new_pages) - block_count r.page_count)
      ≤ 2 ^ 16)
    (q : Region) (oq : Owns s.bytes (total_blocks s) q) (other : q.id ≢ r.id) where
  abbrev after : State × Region
  after = Commit.after s r new_pages o fits small

  -- A block with an entry of another region is not the last block of `r`.
  not_last :
      (b : ℕ) (e : Entry)
      → table_get b s.bytes ≡ some e
      → e.region ≢ r.id
      → 0 < block_count r.page_count
      → b ≢ block_id r (block_count r.page_count - 1)
  not_last b e found foreign pos at =
      foreign
        (entry_unique (table_get b s.bytes) e
          (entry_of r.id r.page_count (block_count r.page_count - 1)) found
          (ap (λ c. table_get c s.bytes) at ∙ o.entry _ (omega (arith, o.ranks)))).0

  foreign_new :
      (b : ℕ) (e : Entry)
      → total_blocks s ≤ b
      → b < total_blocks after.0
      → table_get b after.0.bytes ≡ some e
      → e.region ≡ r.id
  foreign_new b e ge lt found =
      (entry_unique (table_get b after.0.bytes) e
        (entry_of r.id (r.page_count + new_pages) (block_count r.page_count + k)) found
        (ap (λ c. table_get c after.0.bytes) at
          ∙ Commit.table-new s r new_pages o fits small k
              (omega (arith, Commit.total_blocks-after s r new_pages o fits small)))).0
    where
      k : ℕ
      k = b - total_blocks s

      at : b ≡ total_blocks s + k
      at = omega arith

  foreign_last :
      (e : Entry) (b : ℕ)
      → 0 < block_count r.page_count
      → b ≡ block_id r (block_count r.page_count - 1)
      → table_get b after.0.bytes ≡ some e
      → e.region ≡ r.id
  foreign_last e b pos at found =
      (entry_unique (table_get b after.0.bytes) e
        (entry_of r.id (r.page_count + new_pages) (block_count r.page_count - 1)) found
        (ap (λ c. table_get c after.0.bytes) at
          ∙ Commit.table-last s r new_pages o fits small pos)).0

  before :
      (b : ℕ) (e : Entry)
      → b < total_blocks after.0
      → table_get b after.0.bytes ≡ some e
      → e.region ≡ q.id
      → (b < total_blocks s) × (table_get b s.bytes ≡ some e)
  before b e lt found own = elim (dec_lt b (total_blocks s)) [
    | no p ↦ absurd (other (sym own ∙ foreign_new b e (omega arith) lt found))
    | yes p ↦ (
      p,
      sym (
            Commit.table-kept s r new_pages o fits small b p
              (λ pos at. other (sym own ∙ foreign_last e b pos at found)))
          ∙ found,
    )
  ]

  pub Owns-other : Owns after.0.bytes (total_blocks after.0) q
  Owns-other = record {
    id = oq.id;
    pages = oq.pages;
    ranks = oq.ranks;
    block_lt =
        λ j h. omega (arith, oq.block_lt j h, Commit.total_blocks-after s r new_pages o fits small);
    entry = λ j h.
        Commit.table-kept s r new_pages o fits small (block_id q j) (oq.block_lt j h)
          (not_last (block_id q j) (entry_of q.id q.page_count j) (oq.entry j h) other)
        ∙ oq.entry j h;
    complete = λ b e lt found own.
        let (lt', found') = before b e lt found own in oq.complete b e lt' found' own;
  }
