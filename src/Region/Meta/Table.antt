-- ===== src/Region/Meta/Table.antt =====
-- The block-region table and the counters as independent cells: a lookup after an update.
use motoko.Prelude.{ℕ, ◌+◌, ◌%◌, ◌^◌, ◌≤◌, ◌<◌, ◌≡◌, ◌≢◌, refl, ap, ◌∙◌, ◌⊎◌, inl, inr}
use motoko.Prelude.{Option, none, some, arith}
use motoko.StableMem.{Bytes, read_word}
use motoko.StableMem.Words.{read_word-write_word, read_word-write_word_apart, write_word-outside}
use motoko.StableMem.Words.{read_word_agree}
use motoko.Region.Meta.{
  max_regions, State, Entry, index, offset_total_blocks, offset_total_regions, id_from_u64,
  id_into_u64, total_blocks, set_total_blocks, total_regions, set_total_regions, table_get,
  table_set, make_entry, write_entry,
}

-- What the fields of an entry can hold.
pub record Fits (e : Entry) : Type 0 where
  pub region : e.region ≤ max_regions
  pub rank : e.rank < 65536
  pub page_count : e.page_count < 256

-- An identifier is never confused with the 0 that stands for no region.
pub id_from_u64-id_into_u64 :
    (r : Option ℕ) → ((id : ℕ) → r ≡ some id → id ≤ max_regions) → id_from_u64 (id_into_u64 r) ≡ r
unfolding id_from_u64 id_into_u64
id_from_u64-id_into_u64 none h = refl
id_from_u64-id_into_u64 (some id) h = ground (arith, h id refl)

module _ (b region rank page_count : ℕ) (m : Bytes) where
  region-write_entry :
      region < 2 ^ 64 → read_word 8 (index b) (write_entry b region rank page_count m) ≡ region
  unfolding write_entry
  region-write_entry h =
      read_word-write_word_apart 8 (index b) 1 (index b + 8 + 2) page_count _ (inl (omega arith))
      ∙ read_word-write_word_apart 8 (index b) 2 (index b + 8) rank _ (inl (omega arith))
      ∙ read_word-write_word 8 (index b) region m (omega arith)

  rank-write_entry :
      rank < 65536 → read_word 2 (index b + 8) (write_entry b region rank page_count m) ≡ rank
  unfolding write_entry
  rank-write_entry h =
      read_word-write_word_apart 2 (index b + 8) 1 (index b + 8 + 2) page_count _
        (inl (omega arith))
      ∙ read_word-write_word 2 (index b + 8) rank _ (omega arith)

  page_count-write_entry :
      page_count < 256
      → read_word 1 (index b + 8 + 2) (write_entry b region rank page_count m) ≡ page_count
  unfolding write_entry
  page_count-write_entry h = read_word-write_word 1 (index b + 8 + 2) page_count _ (omega arith)

  write_entry-outside :
      (a : ℕ) → (a < index b) ⊎ (index b + 11 ≤ a) → write_entry b region rank page_count m a ≡ m a
  unfolding write_entry
  write_entry-outside a h =
      write_word-outside 1 (index b + 8 + 2) page_count _ a (omega arith)
      ∙ write_word-outside 2 (index b + 8) rank _ a (omega arith)
      ∙ write_word-outside 8 (index b) region m a (omega arith)

-- An update writes the eleven bytes of its entry only.
pub table_set-outside :
    (b : ℕ) (e : Option Entry) (m : Bytes) (a : ℕ)
    → (a < index b) ⊎ (index b + 11 ≤ a)
    → table_set b e m a ≡ m a
unfolding table_set
table_set-outside b none m a h = write_entry-outside b _ _ _ m a h
table_set-outside b (some e) m a h = write_entry-outside b _ _ _ m a h

pub table_get_agree :
    (b : ℕ) (m m' : Bytes)
    → ((a : ℕ) → index b ≤ a → a < index b + 11 → m a ≡ m' a)
    → table_get b m ≡ table_get b m'
unfolding table_get
table_get_agree b m m' h = λ i.
    make_entry
      (id_from_u64 (read_word_agree 8 (index b) m m' (λ a p q. h a (omega arith) (omega arith)) i))
      (read_word_agree 2 (index b + 8) m m' (λ a p q. h a (omega arith) (omega arith)) i)
      (read_word_agree 1 (index b + 8 + 2) m m' (λ a p q. h a (omega arith) (omega arith)) i)

-- Writing or clearing the entry of a block leaves the entry of every other block as it was.
pub table_get-table_set_ne :
    (b c : ℕ) (e : Option Entry) (m : Bytes) → b ≢ c → table_get b (table_set c e m) ≡ table_get b m
table_get-table_set_ne b c e m ne =
    table_get_agree b _ m (λ a p q. table_set-outside c e m a (omega arith))

-- The entry that is written to the table for a block is read back, if its identifier, rank and
-- pages fit their fields, whatever the memory holds.
pub table_get-table_set_self :
    (b : ℕ) (e : Entry) (m : Bytes) → Fits e → table_get b (table_set b (some e) m) ≡ some e
unfolding table_get table_set
table_get-table_set_self b e m f =
    (λ i.
      make_entry (id_from_u64 (region-write_entry b id e.rank e.page_count m (omega arith) i))
        (rank-write_entry b id e.rank e.page_count m f.rank i)
        (page_count-write_entry b id e.rank e.page_count m f.page_count i))
    ∙ ap (λ r. make_entry r e.rank e.page_count)
        (id_from_u64-id_into_u64 (some e.region) (λ id h. ground (arith, f.region)))
  where
    id : ℕ
    id = (e.region + 1) % 2 ^ 64

-- The counters lie in front of the table.
pub total_blocks-table_set :
    (s : State) (b : ℕ) (e : Option Entry)
    → total_blocks (record s { bytes = table_set b e s.bytes }) ≡ total_blocks s
unfolding total_blocks
total_blocks-table_set s b e =
    read_word_agree 4 offset_total_blocks _ s.bytes
      (λ a p q. table_set-outside b e s.bytes a (inl (omega arith)))

pub total_blocks-set : (n : ℕ) (s : State) → n < 2 ^ 32 → total_blocks (set_total_blocks n s) ≡ n
unfolding total_blocks set_total_blocks
total_blocks-set n s h = read_word-write_word 4 offset_total_blocks n s.bytes (omega arith)

pub table_get-set_total_blocks :
    (b n : ℕ) (s : State) → table_get b (set_total_blocks n s).bytes ≡ table_get b s.bytes
unfolding set_total_blocks
table_get-set_total_blocks b n s =
    table_get_agree b _ s.bytes
      (λ a p q. write_word-outside 4 offset_total_blocks n s.bytes a (inr (omega arith)))

pub total_regions-set : (n : ℕ) (s : State) → n < 2 ^ 64 → total_regions (set_total_regions n s) ≡ n
unfolding total_regions set_total_regions
total_regions-set n s h = read_word-write_word 8 offset_total_regions n s.bytes (omega arith)

pub table_get-set_total_regions :
    (b n : ℕ) (s : State) → table_get b (set_total_regions n s).bytes ≡ table_get b s.bytes
unfolding set_total_regions
table_get-set_total_regions b n s =
    table_get_agree b _ s.bytes
      (λ a p q. write_word-outside 8 offset_total_regions n s.bytes a (inr (omega arith)))

pub total_blocks-set_total_regions :
    (n : ℕ) (s : State) → total_blocks (set_total_regions n s) ≡ total_blocks s
unfolding total_blocks set_total_regions
total_blocks-set_total_regions n s =
    read_word_agree 4 offset_total_blocks _ s.bytes
      (λ a p q. write_word-outside 8 offset_total_regions n s.bytes a (inl (omega arith)))

-- The counters and the table depend on their own bytes only.
pub total_blocks_agree :
    (s t : State)
    → ((a : ℕ) → offset_total_blocks ≤ a → a < offset_total_blocks + 4 → s.bytes a ≡ t.bytes a)
    → total_blocks s ≡ total_blocks t
unfolding total_blocks
total_blocks_agree s t h = read_word_agree 4 offset_total_blocks s.bytes t.bytes h

pub total_regions_agree :
    (s t : State)
    → ((a : ℕ) → offset_total_regions ≤ a → a < offset_total_regions + 8 → s.bytes a ≡ t.bytes a)
    → total_regions s ≡ total_regions t
unfolding total_regions
total_regions_agree s t h = read_word_agree 8 offset_total_regions s.bytes t.bytes h

pub set_total_regions-outside :
    (n : ℕ) (s : State) (a : ℕ)
    → (a < offset_total_regions) ⊎ (offset_total_regions + 8 ≤ a)
    → (set_total_regions n s).bytes a ≡ s.bytes a
unfolding set_total_regions
set_total_regions-outside n s a h = write_word-outside 8 offset_total_regions n s.bytes a h

pub set_total_blocks-outside :
    (n : ℕ) (s : State) (a : ℕ)
    → (a < offset_total_blocks) ⊎ (offset_total_blocks + 4 ≤ a)
    → (set_total_blocks n s).bytes a ≡ s.bytes a
unfolding set_total_blocks
set_total_blocks-outside n s a h = write_word-outside 4 offset_total_blocks n s.bytes a h
