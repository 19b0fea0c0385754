-- ===== src/Region/Grow/Keeps.antt =====
-- Committing a growth keeps the agreement of objects and table: for the region that grows, and for
-- every other one.
use motoko.Prelude.{
  ℕ, ◌+◌, ◌-◌, ◌^◌, ◌≤◌, ◌<◌, ◌≡◌, ◌≢◌, sym, ap, ap₂, ◌∙◌, some, length, arith, dec_lt, ℕ_discrete,
}
use motoko.Region.Meta.{State, Entry, total_blocks, table_get}
use motoko.Region.Grow.{Region, block_id}
use motoko.Region.Grow.Commit
use motoko.Region.Owns.{
  Owns, entry_of, entry_unique, block_count, pages_at_rank, max_pages_in_region,
}

-- An internal block is full, so a growth of the region does not change its entry.
entry_of-full :
    (id pages more j : ℕ)
    → j + 1 < block_count pages
    → pages + more ≤ max_pages_in_region
    → entry_of id pages j ≡ entry_of id (pages + more) j
entry_of-full id pages more j h k =
    ap (λ n. record { region = id; rank = j; page_count = n })
      (let e : pages_at_rank pages j ≡ pages_at_rank (pages + more) j = omega arith in e)

module _ (s : State) (r : Region) (new_pages : ℕ) (o : Owns s.bytes (total_blocks s) r)
    (fits : r.page_count + new_pages ≤ max_pages_in_region)
    (small : total_blocks s + (block_count (r.page_count + new_pages) - block_count r.page_count)
      ≤ 2 ^ 16) where
  abbrev old : ℕ
  old = block_count r.page_count

  abbrev new : ℕ
  new = block_count (r.page_count + new_pages)

  abbrev after : State × Region
  after = Commit.after s r new_pages o fits small

  -- Ranks of a region lie in different blocks.
  block_id-injective : (i j : ℕ) → i < old → j < old → block_id r i ≡ block_id r j → i ≡ j
  block_id-injective i j hi hj e =
      (entry_unique (table_get (block_id r i) s.bytes) (entry_of r.id r.page_count i)
        (entry_of r.id r.page_count j) (o.entry i (omega (arith, o.ranks)))
        (ap (λ b. table_get b s.bytes) e ∙ o.entry j (omega (arith, o.ranks)))).1

  entry-old :
      (j : ℕ)
      → j < old
      → table_get (block_id r j) after.0.bytes ≡ some (entry_of r.id (r.page_count + new_pages) j)
  entry-old j h = elim (dec_lt (j + 1) old) [
    | yes p ↦
        Commit.table-kept s r new_pages o fits small (block_id r j)
          (o.block_lt j (omega (arith, o.ranks)))
          (λ q e. absurd (omega (arith, block_id-injective j (old - 1) h (omega arith) e)))
        ∙ o.entry j (omega (arith, o.ranks))
        ∙ ap some (entry_of-full r.id r.page_count new_pages j p fits)
    | no p ↦
        ap (λ k. table_get (block_id r k) after.0.bytes) (last p)
        ∙ Commit.table-last s r new_pages o fits small (omega arith)
        ∙ ap (λ k. some (entry_of r.id (r.page_count + new_pages) k)) (sym (last p))
  ]
    where
      last : ¬ (j + 1 < old) → j ≡ old - 1
      last p = omega arith

  entry-after :
      (j : ℕ)
      → j < new
      → table_get (block_id after.1 j) after.0.bytes
        ≡ some (entry_of r.id (r.page_count + new_pages) j)
  entry-after j h = elim (dec_lt j old) [
    | yes p ↦
        ap (λ b. table_get b after.0.bytes) (Commit.block_id-old s r new_pages o fits small j p)
        ∙ entry-old j p
    | no p ↦
        ap (λ b. table_get b after.0.bytes)
          (ap (block_id after.1) (split p)
            ∙ Commit.block_id-new s r new_pages o fits small (j - old) (omega arith))
        ∙ Commit.table-new s r new_pages o fits small (j - old) (omega arith)
        ∙ ap (λ k. some (entry_of r.id (r.page_count + new_pages) k)) (sym (split p))
  ]
    where
      split : ¬ (j < old) → j ≡ old + (j - old)
      split p = omega arith

  block_lt-after : (j : ℕ) → j < new → block_id after.1 j < total_blocks s + (new - old)
  block_lt-after j h = elim (dec_lt j old) [
    | yes p ↦ omega (
      arith,
      Commit.block_id-old s r new_pages o fits small j p,
      o.block_lt j (omega (arith, o.ranks)),
    )
    | no p ↦
        rw (let e : j ≡ old + (j - old) = omega arith in e)
          (omega (arith, Commit.block_id-new s r new_pages o fits small (j - old) (omega arith)))
  ]

  -- A block that the table gives to the region is one of its old blocks or a new one.
  complete-after :
      (b : ℕ) (e : Entry)
      → b < total_blocks s + (new - old)
      → table_get b after.0.bytes ≡ some e
      → e.region ≡ r.id
      → (e.rank < new) × (block_id after.1 e.rank ≡ b)
  complete-after b e h found own = elim (dec_lt b (total_blocks s)) [
    | no p ↦
        let at : b ≡ total_blocks s + (b - total_blocks s) = omega arith in
        let k : ℕ = b - total_blocks s in
        let same : old + k ≡ e.rank =
          (entry_unique (table_get b after.0.bytes)
            (entry_of r.id (r.page_count + new_pages) (old + k)) e
            (ap (λ c. table_get c after.0.bytes) at
              ∙ Commit.table-new s r new_pages o fits small k (omega arith))
            found).1 in
        (
          omega arith,
          ap (block_id after.1) (sym same)
              ∙ Commit.block_id-new s r new_pages o fits small k (omega arith)
              ∙ sym at,
        )
    | yes p ↦ elim (ℕ_discrete old 0) [
      | yes none_yet ↦ absurd (omega (arith, o.ranks, old_block p (λ q. absurd (omega arith))))
      | no some_old ↦ elim (ℕ_discrete b (block_id r (old - 1))) [
        | yes is_last ↦
            let same : old - 1 ≡ e.rank =
              (entry_unique (table_get b after.0.bytes)
                (entry_of r.id (r.page_count + new_pages) (old - 1)) e
                (ap (λ c. table_get c after.0.bytes) is_last
                  ∙ Commit.table-last s r new_pages o fits small (omega arith))
                found).1 in
            (
              omega arith,
              ap (block_id after.1) (sym same)
                  ∙ Commit.block_id-old s r new_pages o fits small (old - 1) (omega arith)
                  ∙ sym is_last,
            )
        | no other ↦
            let (lt, at) = old_block p (λ _. other) in
            (
              omega (arith, o.ranks),
              Commit.block_id-old s r new_pages o fits small e.rank (omega (arith, o.ranks)) ∙ at,
            )
      ]
    ]
  ]
    where
      old_block :
          b < total_blocks s
          → (0 < old → b ≢ block_id r (old - 1))
          → (e.rank < length r.vec_pages) × (block_id r e.rank ≡ b)
      old_block p ne =
          o.complete b e p (sym (Commit.table-kept s r new_pages o fits small b p ne) ∙ found) own

  pub Owns-after : Owns after.0.bytes (total_blocks after.0) after.1
  Owns-after = record {
    id = omega (arith, object.0, o.id);
    pages = omega (arith, object.1);
    ranks = object.2 ∙ ap block_count (sym object.1);
    block_lt = λ j h. omega (arith, block_lt-after j (omega (arith, object.2)), counted);
    entry = λ j h.
        entry-after j (omega (arith, object.2))
        ∙ ap₂ (λ id pages. some (entry_of id pages j)) (sym object.0) (sym object.1);
    complete = λ b e h found own.
        let (lt, at) = complete-after b e (omega (arith, counted)) found (own ∙ object.0) in
        (omega (arith, object.2), at);
  }
    where
      object :
          (after.1.id ≡ r.id)
          × (after.1.page_count ≡ r.page_count + new_pages)
          × (length after.1.vec_pages ≡ new)
      object = Commit.object s r new_pages o fits small

      counted : total_blocks after.0 ≡ total_blocks s + (new - old)
      counted = Commit.total_blocks-after s r new_pages o fits small
