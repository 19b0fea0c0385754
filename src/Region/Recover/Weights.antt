-- ===== src/Region/Recover/Weights.antt =====
-- Sums over the blocks that the table gives to a region, as sums over its ranks.
use motoko.Prelude.{
  ℕ, suc, ◌-◌, ◌<◌, ◌≡◌, ◌≢◌, sym, ap, ◌∙◌, Option, none, some, inl, inr, length, arith, ℕ_discrete,
  ◌==◌, if◌then◌else◌, Option-cases, eq→==, ne→==,
}
use motoko.Prelude.Sums.{sum, sum_agree, sum_const, sum_snoc, sum_swap, sum_pick}
use motoko.StableMem.{Bytes}
use motoko.Region.Meta.{Entry, table_get}
use motoko.Region.Grow.{Region, block_id}
use motoko.Region.Owns.{Owns, entry_of, entry_unique, pages_at_rank}

-- What an entry counts for: `v` of its rank, if it is the region's.
abbrev pub weight : ℕ → (ℕ → ℕ) → Option Entry → ℕ
weight id v none = 0
weight id v (some e) = if e.region == id then v e.rank else 0

module _ {m : Bytes} {total : ℕ} {r : Region} (o : Owns m total r) where
  pub block_id-injective :
      (i j : ℕ)
      → i < length r.vec_pages
      → j < length r.vec_pages
      → block_id r i ≡ block_id r j
      → i ≡ j
  block_id-injective i j hi hj e =
      (entry_unique (table_get (block_id r i) m) (entry_of r.id r.page_count i)
        (entry_of r.id r.page_count j) (o.entry i hi) (ap (λ b. table_get b m) e ∙ o.entry j hj)).1

  module _ (v : ℕ → ℕ) where
    -- The ranks that block `b` has, weighted: one or none.
    abbrev ranks_of : ℕ → ℕ → ℕ
    ranks_of b j = if block_id r j == b then v j else 0

    none_of :
        (b : ℕ)
        → ((j : ℕ) → j < length r.vec_pages → block_id r j ≢ b)
        → 0 ≡ sum (ranks_of b) 0 (length r.vec_pages)
    none_of b h = omega (
      arith,
      sum_const (ranks_of b) 0 0 (length r.vec_pages)
          (λ j p q. rw (ne→== (block_id r j) b (h j (omega arith)))),
    )

    one_of :
        (b k : ℕ)
        → k < length r.vec_pages
        → block_id r k ≡ b
        → v k ≡ sum (ranks_of b) 0 (length r.vec_pages)
    one_of b k h at =
        sym (sum_pick v k 0 (length r.vec_pages) (omega arith) (omega arith))
        ∙ sum_agree _ (ranks_of b) 0 (length r.vec_pages) (λ j p q. same j (omega arith))
      where
        same : (j : ℕ) → j < length r.vec_pages → (if k == j then v j else 0) ≡ ranks_of b j
        same j hj = elim (ℕ_discrete k j) [
          | yes e ↦ rw (eq→== k j e, eq→== (block_id r j) b (ap (block_id r) (sym e) ∙ at))
          | no ne ↦ rw (
            ne→== k j ne,
            ne→== (block_id r j) b (λ e. ne (block_id-injective k j h hj (at ∙ sym e))),
          )
        ]

    -- What the table says of a block is what the ranks say of it.
    weight-ranks :
        (b : ℕ)
        → b < total
        → weight r.id v (table_get b m) ≡ sum (ranks_of b) 0 (length r.vec_pages)
    weight-ranks b lt = elim (Option-cases (table_get b m)) [
      | inl free ↦ rw free (none_of b (λ j h e. absurd_free j h e free))
      | inr (e, found) ↦ elim (ℕ_discrete e.region r.id) [
        | yes own ↦
            let (k, at) = o.complete b e lt found own in
            rw (found, eq→== e.region r.id own) (one_of b e.rank k at)
        | no foreign ↦
            rw (found, ne→== e.region r.id foreign)
              (none_of b (λ j h at.
                foreign
                  (entry_unique (table_get b m) e (entry_of r.id r.page_count j) found
                    (ap (λ c. table_get c m) (sym at) ∙ o.entry j h)).0))
      ]
    ]
      where
        absurd_free : (j : ℕ) → j < length r.vec_pages → block_id r j ≡ b → table_get b m ≡ none → ⊥
        absurd_free j h e free = cc (o.entry j h, ap (λ c. table_get c m) e, free)

    -- Summed over all blocks: the sum over the ranks.
    pub sum-weight : sum (λ b. weight r.id v (table_get b m)) 0 total ≡ sum v 0 (length r.vec_pages)
    sum-weight =
        sum_agree _ (λ b. sum (ranks_of b) 0 (length r.vec_pages)) 0 total
          (λ b p q. weight-ranks b (omega arith))
        ∙ sum_swap ranks_of 0 total 0 (length r.vec_pages)
        ∙ sum_agree _ v 0 (length r.vec_pages) (λ j p q. column j (omega arith))
      where
        column : (j : ℕ) → j < length r.vec_pages → sum (λ b. ranks_of b j) 0 total ≡ v j
        column j h =
            sum_pick (λ _. v j) (block_id r j) 0 total (omega arith) (omega (arith, o.block_lt j h))

  -- The pages of the ranks add up to the pages of the region.
  pub sum-pages_at_rank :
      sum (λ j. pages_at_rank r.page_count j) 0 (length r.vec_pages) ≡ r.page_count
  unfolding sum
  sum-pages_at_rank = elim (ℕ_discrete (length r.vec_pages) 0) [
    | yes e ↦ rw e (omega (arith, o.ranks))
    | no ne ↦
        ap (sum pages 0) (count ne)
        ∙ sum_snoc pages 0 (length r.vec_pages - 1)
        ∙ omega (
          arith,
          sum_const pages 128 0 (length r.vec_pages - 1) (λ j p q. omega (arith, o.ranks)),
          o.ranks,
        )
  ]
    where
      pages : ℕ → ℕ
      pages j = pages_at_rank r.page_count j

      count : ¬ (length r.vec_pages ≡ 0) → length r.vec_pages ≡ suc (length r.vec_pages - 1)
      count ne = omega arith
