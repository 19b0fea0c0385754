-- ===== src/Region/Grow/Commit.antt =====
-- What committing a growth leaves behind: counters, object, access vector and table.
use motoko.Prelude.{
  ℕ, ◌+◌, ◌-◌, ◌%◌, ◌^◌, ◌≤◌, ◌<◌, ◌≡◌, ◌≢◌, refl, ap, ◌∙◌, ◌⊎◌, inl, List, ◌++◌, some, length,
  length-append, length-take, length-replicate, take, replicate, get_or-append_left, get_or-take,
  arith, lt→ltb, ge→ltb, dec_lt,
}
use motoko.StableMem.{Bytes}
use motoko.StableMem.{read_word}
use motoko.StableMem.Words.{read_word_agree, write_word-outside}
use motoko.Region.Meta.{
  State, Entry, index, offset_table, offset_total_blocks, total_blocks, set_total_blocks, table_get,
  table_set,
}
use motoko.Region.Meta.Table.{
  Fits, table_get-table_set_ne, table_get-table_set_self, table_set-outside, total_blocks-set,
  table_get-set_total_blocks,
}
use motoko.Region.Grow.{
  Region, block_id, sub32, block_page_count, new_entry, assign_blocks, update_last_block,
  commit_grow,
}
use motoko.Region.Grow.Assign.{
  table_get-assign_other, table_get-assign_new, length-assign, get_or-assign_other,
  get_or-assign_new, assign-outside,
}
use motoko.Region.Owns.{
  Owns, entry_of, entry_of-eq, block_count, block_page_count-lt, max_pages_in_region,
}

module _ (s : State) (r : Region) (new_pages : ℕ) (o : Owns s.bytes (total_blocks s) r)
    (fits : r.page_count + new_pages ≤ max_pages_in_region)
    (small : total_blocks s + (block_count (r.page_count + new_pages) - block_count r.page_count)
      ≤ 2 ^ 16) where
  abbrev pub old : ℕ
  old = block_count r.page_count

  abbrev pub new : ℕ
  new = block_count (r.page_count + new_pages)

  abbrev pub pages' : ℕ
  pages' = r.page_count + new_pages

  abbrev pub after : State × Region
  after = commit_grow s r new_pages old new (total_blocks s + (new - old))

  abbrev r1 : Region
  r1 = record r { page_count = pages' }

  abbrev m1 : Bytes
  m1 =
      update_last_block r1 old new
        (set_total_blocks ((total_blocks s + (new - old)) % 2 ^ 32) s).bytes

  abbrev copied : List ℕ
  copied = take old r.vec_pages ++ replicate (new - old) 0

  abbrev looped : Bytes × List ℕ
  looped = assign_blocks r1 (total_blocks s) old new (new - old) old m1 copied

  new_blocks_bound : (j : ℕ) → Fits (new_entry r1 (total_blocks s) old new j)
  unfolding new_entry
  new_blocks_bound j = record {
    region = o.id;
    rank = omega arith;
    page_count = block_page_count-lt _ _ _;
  }

  length-copied : length copied ≡ new
  length-copied =
      length-append (take old r.vec_pages) (replicate (new - old) 0)
      ∙ omega (arith, length-take old r.vec_pages, length-replicate {A = ℕ} (new - old) 0, o.ranks)

  pub object :
      (after.1.id ≡ r.id) × (after.1.page_count ≡ pages') × (length after.1.vec_pages ≡ new)
  unfolding commit_grow
  object = (
    refl,
    refl,
    length-assign r1 (total_blocks s) old new (new - old) old m1 copied ∙ length-copied,
  )

  pub block_id-old : (j : ℕ) → j < old → block_id after.1 j ≡ block_id r j
  unfolding commit_grow
  block_id-old j h =
      get_or-assign_other r1 (total_blocks s) old new (new - old) old (total_blocks s) m1 copied j h
      ∙ get_or-append_left (take old r.vec_pages) _ j 0
          (omega (arith, length-take old r.vec_pages, o.ranks))
      ∙ get_or-take old r.vec_pages j 0 h

  pub block_id-new : (k : ℕ) → k < new - old → block_id after.1 (old + k) ≡ total_blocks s + k
  unfolding commit_grow
  block_id-new k h =
      get_or-assign_new r1 (total_blocks s) old new (new - old) old (total_blocks s) m1 copied k
        (omega arith) (omega (arith, length-copied)) h

  pub table-new :
      (k : ℕ)
      → k < new - old
      → table_get (total_blocks s + k) after.0.bytes ≡ some (entry_of r.id pages' (old + k))
  unfolding commit_grow
  table-new k h =
      table_get-assign_new r1 (total_blocks s) old new (new - old) old (total_blocks s) m1 copied k
        new_blocks_bound (omega arith) h
      ∙ (unfold new_entry in
          λ i. some (record {
            region = r.id;
            rank = rank_eq i;
            page_count = block_page_count (rank_eq i) new (pages_eq i);
          }))
      ∙ ap some (entry_of-eq r.id pages' (old + k) (omega arith) fits)
    where
      rank_eq : (old + k) % 2 ^ 16 ≡ old + k
      rank_eq = omega arith

      pages_eq : pages' % 2 ^ 32 ≡ pages'
      pages_eq = omega arith

  last_rank : 0 < old → sub32 old 1 % 2 ^ 16 ≡ old - 1
  last_rank h = omega arith

  abbrev last_entry : Entry
  last_entry = record {
    region = r.id;
    rank = sub32 old 1 % 2 ^ 16;
    page_count = block_page_count (sub32 old 1 % 2 ^ 16) new (pages' % 2 ^ 32);
  }

  m1-eq :
      0 < old
      → m1
        ≡ table_set
            (block_id r (old - 1))
            (some last_entry)
            (set_total_blocks ((total_blocks s + (new - old)) % 2 ^ 32) s).bytes
  unfolding update_last_block
  m1-eq h = rw (lt→ltb 0 old h) (
      ap
        (λ j.
          table_set (block_id r j) (some last_entry)
            (set_total_blocks ((total_blocks s + (new - old)) % 2 ^ 32) s).bytes)
        (last_rank h))

  m1-none : old ≡ 0 → m1 ≡ (set_total_blocks ((total_blocks s + (new - old)) % 2 ^ 32) s).bytes
  unfolding update_last_block
  m1-none h = rw (ge→ltb 0 old (omega arith))

  table-looped : (b : ℕ) → b < total_blocks s → table_get b after.0.bytes ≡ table_get b m1
  unfolding commit_grow
  table-looped b h =
      table_get-assign_other r1 (total_blocks s) old new (new - old) old (total_blocks s) m1 copied
        b (omega arith) (inl h)

  -- The last block of before, which may take more pages.
  pub table-last :
      0 < old
      → table_get (block_id r (old - 1)) after.0.bytes ≡ some (entry_of r.id pages' (old - 1))
  table-last h =
      table-looped (block_id r (old - 1)) (o.block_lt (old - 1) (omega (arith, o.ranks)))
      ∙ ap (table_get (block_id r (old - 1))) (m1-eq h)
      ∙ table_get-table_set_self (block_id r (old - 1)) last_entry _
          (record { region = o.id; rank = omega arith; page_count = block_page_count-lt _ _ _ })
      ∙ (λ i. some (record {
        region = r.id;
        rank = last_rank h i;
        page_count = block_page_count (last_rank h i) new (pages_eq i);
      }))
      ∙ ap some (entry_of-eq r.id pages' (old - 1) (omega arith) fits)
    where
      pages_eq : pages' % 2 ^ 32 ≡ pages'
      pages_eq = omega arith

  -- Every other block of before.
  pub table-kept :
      (b : ℕ)
      → b < total_blocks s
      → (0 < old → b ≢ block_id r (old - 1))
      → table_get b after.0.bytes ≡ table_get b s.bytes
  table-kept b h ne = elim (dec_lt 0 old) [
    | yes p ↦
        table-looped b h
        ∙ ap (table_get b) (m1-eq p)
        ∙ table_get-table_set_ne b _ _ _ (ne p)
        ∙ table_get-set_total_blocks b _ s
    | no p ↦
        table-looped b h
        ∙ ap (table_get b) (m1-none (omega arith))
        ∙ table_get-set_total_blocks b _ s
  ]

  -- Outside the counters and the table nothing is written.
  m1-outside :
      (a : ℕ)
      → (a < offset_table) × ((a < offset_total_blocks) ⊎ (offset_total_blocks + 4 ≤ a))
        ⊎ (index (2 ^ 16) ≤ a)
      → m1 a ≡ s.bytes a
  unfolding set_total_blocks
  m1-outside a away = elim (dec_lt 0 old) [
    | yes p ↦
        ap (λ (m : Bytes). m a) (m1-eq p)
        ∙ table_set-outside _ _ _ a (omega (arith, in_table p))
        ∙ write_word-outside 4 offset_total_blocks _ s.bytes a (omega arith)
    | no p ↦
        ap (λ (m : Bytes). m a) (m1-none (omega arith))
        ∙ write_word-outside 4 offset_total_blocks _ s.bytes a (omega arith)
  ]
    where
      in_table : 0 < old → block_id r (old - 1) < 2 ^ 16
      in_table p = omega (arith, o.block_lt (old - 1) (omega (arith, o.ranks)))

  pub bytes-outside :
      (a : ℕ)
      → (a < offset_table) × ((a < offset_total_blocks) ⊎ (offset_total_blocks + 4 ≤ a))
        ⊎ (index (2 ^ 16) ≤ a)
      → after.0.bytes a ≡ s.bytes a
  unfolding commit_grow
  bytes-outside a away =
      assign-outside r1 (total_blocks s) old new (new - old) old m1 copied a (omega arith)
      ∙ m1-outside a away

  counted : (n : ℕ) → n < 2 ^ 32 → read_word 4 offset_total_blocks (set_total_blocks n s).bytes ≡ n
  unfolding total_blocks
  counted n h = total_blocks-set n s h

  m1-total : read_word 4 offset_total_blocks m1 ≡ total_blocks s + (new - old)
  m1-total = elim (dec_lt 0 old) [
    | yes p ↦
        ap (read_word 4 offset_total_blocks) (m1-eq p)
        ∙ read_word_agree 4 offset_total_blocks _ _
            (λ a p q. table_set-outside _ _ _ a (inl (omega arith)))
        ∙ counter
    | no p ↦ ap (read_word 4 offset_total_blocks) (m1-none (omega arith)) ∙ counter
  ]
    where
      counter :
          read_word 4 offset_total_blocks
            (set_total_blocks ((total_blocks s + (new - old)) % 2 ^ 32) s).bytes
          ≡ total_blocks s + (new - old)
      counter = counted ((total_blocks s + (new - old)) % 2 ^ 32) (omega arith) ∙ omega arith

  read_total : (z : State) → total_blocks z ≡ read_word 4 offset_total_blocks z.bytes
  unfolding total_blocks
  read_total z = refl

  counter_kept : read_word 4 offset_total_blocks after.0.bytes ≡ read_word 4 offset_total_blocks m1
  unfolding commit_grow
  counter_kept = read_word_agree 4 offset_total_blocks _ m1 (λ a p q.
      assign-outside r1 (total_blocks s) old new (new - old) old m1 copied a (inl (omega arith)))

  pub total_blocks-after : total_blocks after.0 ≡ total_blocks s + (new - old)
  total_blocks-after = read_total after.0 ∙ counter_kept ∙ m1-total

  pub fields :
      (after.0.pages ≡ s.pages)
      × (after.0.block_base ≡ s.block_base)
      × (after.0.version ≡ s.version)
  unfolding commit_grow set_total_blocks
  fields = (refl, refl, refl)
