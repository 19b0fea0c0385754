-- ===== src/Region/Recover/Restores.antt =====
-- Recovery gives back the object that the table agrees with.
use motoko.Prelude.{
  ℕ, zero, suc, ◌+◌, ◌%◌, ◌^◌, ◌≤◌, ◌<◌, ◌≡◌, ◌≢◌, refl, sym, ap, ◌∙◌, List, inl, inr, length,
  length-set, length-replicate, replicate, get_or, set, get_or-set_self, get_or-set_ne, get_or_ext,
  arith, ℕ_discrete, dec_lt, lt→ltb, ge→ltb, Option-cases, eq→==, ne→==, ==-refl,
}
use motoko.Prelude.Sums.{sum, sum_agree, sum_const, le-sum}
use motoko.Prelude.Result.{ok}
use motoko.StableMem.{Bytes}
use motoko.Region.Meta.{State, total_blocks, total_regions, table_get}
use motoko.Region.Grow.{Region, block_id, blocks_of}
use motoko.Region.Owns.{Owns, entry_of, entry_unique, pages_at_rank}
use motoko.Region.Recover.{pages_of, count_pages, place, place_blocks, region_recover}
use motoko.Region.Recover.Weights.{weight, sum-weight, sum-pages_at_rank, block_id-injective}

module _ {m : Bytes} {total : ℕ} {r : Region} (o : Owns m total r) where
  abbrev rank_pages : ℕ → ℕ
  rank_pages j = pages_at_rank r.page_count j

  -- An entry of the region has the pages of its rank.
  pages_of-weight :
      (b : ℕ) → b < total → pages_of r.id m (table_get b m) ≡ weight r.id rank_pages (table_get b m)
  unfolding pages_of
  pages_of-weight b lt = elim (Option-cases (table_get b m)) [
    | inl free ↦ rw free
    | inr (e, found) ↦ elim (ℕ_discrete e.region r.id) [
      | no foreign ↦ rw (found, ne→== e.region r.id foreign)
      | yes own ↦
          let (h, at) = o.complete b e lt found own in
          rw (found, eq→== e.region r.id own)
            (entry_unique (table_get b m) e (entry_of r.id r.page_count e.rank) found
              (ap (λ c. table_get c m) (sym at) ∙ o.entry e.rank h)).2
    ]
  ]

  count_pages-sum :
      (left b acc : ℕ)
      → acc + sum (λ b. pages_of r.id m (table_get b m)) b left < 2 ^ 32
      → count_pages r.id m left b acc ≡ acc + sum (λ b. pages_of r.id m (table_get b m)) b left
  unfolding count_pages sum
  count_pages-sum zero b acc h = omega arith
  count_pages-sum (suc left) b acc h =
      count_pages-sum left (b + 1) ((acc + pages_of r.id m (table_get b m)) % 2 ^ 32) (omega arith)
      ∙ omega arith

  pub count_pages-eq : count_pages r.id m total 0 0 ≡ r.page_count
  count_pages-eq = count_pages-sum total 0 0 (omega (arith, pages, o.pages)) ∙ omega (arith, pages)
    where
      pages : sum (λ b. pages_of r.id m (table_get b m)) 0 total ≡ r.page_count
      pages =
          sum_agree _ _ 0 total (λ b p q. pages_of-weight b (omega arith))
          ∙ sum-weight o rank_pages
          ∙ sum-pages_at_rank o

  abbrev mine : ℕ → ℕ
  mine b = weight r.id (λ _. 1) (table_get b m)

  abbrev n : ℕ
  n = length r.vec_pages

  -- The blocks below `b` have been placed.
  record Placed (left b : ℕ) (t : ℕ × List ℕ) : Type 0 where
    at : b + left ≡ total
    found : t.0 + sum mine b left ≡ n
    size : length t.1 ≡ n
    done : (j : ℕ) → j < n → block_id r j < b → get_or t.1 j 0 ≡ block_id r j

  mine-block_id : (j : ℕ) → j < n → mine (block_id r j) ≡ 1
  mine-block_id j h = rw (o.entry j h, ==-refl r.id)

  Placed-complete : (left b : ℕ) (t : ℕ × List ℕ) → Placed left b t → n ≤ t.0 → t ≡ (n, r.vec_pages)
  Placed-complete left b t p enough = λ i. (
    (let e : t.0 ≡ n = omega (arith, p.found) in e) i,
    get_or_ext 0 t.1 r.vec_pages p.size
        (λ j h. p.done j (omega (arith, p.size)) (below j (omega (arith, p.size)))) i,
  )
    where
      below : (j : ℕ) → j < n → block_id r j < b
      below j h = elim (dec_lt (block_id r j) b) [
        | yes q ↦ q
        | no q ↦ absurd (
            omega (
              arith,
              p.found,
              p.at,
              mine-block_id j h,
              le-sum mine b left (block_id r j) (omega arith) (omega (arith, o.block_lt j h, p.at)),
            ))
      ]

  Placed-place :
      (left b : ℕ) (t : ℕ × List ℕ)
      → Placed (suc left) b t
      → Placed left (b + 1) (place r.id m b (table_get b m) t)
  unfolding place sum
  Placed-place left b t p = elim (Option-cases (table_get b m)) [
    | inl free ↦
        rw free (skip (λ j h e. cc (o.entry j h, ap (λ c. table_get c m) e, free)) (rw free))
    | inr (e, found) ↦ elim (ℕ_discrete e.region r.id) [
      | no foreign ↦
          rw (found, ne→== e.region r.id foreign)
            (skip
              (λ j h at.
                foreign
                  (entry_unique (table_get b m) e (entry_of r.id r.page_count j) found
                    (ap (λ c. table_get c m) (sym at) ∙ o.entry j h)).0)
              (rw (found, ne→== e.region r.id foreign)))
      | yes own ↦
          let (h, at) = o.complete b e (omega (arith, p.at)) found own in
          rw (found, eq→== e.region r.id own)
            (take_it e.rank h at (rw (found, eq→== e.region r.id own)))
    ]
  ]
    where
      skip : ((j : ℕ) → j < n → block_id r j ≢ b) → mine b ≡ 0 → Placed left (b + 1) t
      skip away none_here = record {
        at = omega (arith, p.at);
        found = omega (arith, p.found, none_here);
        size = p.size;
        done = λ j h lt. p.done j h (omega (arith, away j h));
      }

      take_it :
          (k : ℕ)
          → k < n
          → block_id r k ≡ b
          → mine b ≡ 1
          → Placed left (b + 1) (t.0 + 1, set t.1 k b)
      take_it k h at one_here = record {
        at = omega (arith, p.at);
        found = omega (arith, p.found, one_here);
        size = length-set t.1 k b ∙ p.size;
        done = λ j hj lt. elim (ℕ_discrete k j) [
          | yes e ↦
              ap (get_or (set t.1 k b) j) refl
              ∙ ap (λ z. get_or (set t.1 k b) z 0) (sym e)
              ∙ get_or-set_self t.1 k b 0 (omega (arith, p.size))
              ∙ sym at
              ∙ ap (block_id r) e
          | no ne ↦
              get_or-set_ne t.1 k j b 0 ne
              ∙ p.done j hj (
                  omega (
                    arith,
                    λ (e : block_id r k ≡ block_id r j). ne (block_id-injective o k j h hj e),
                  ))
        ];
      }

  place_blocks-eq :
      (left b : ℕ) (t : ℕ × List ℕ)
      → Placed left b t
      → place_blocks r.id m n left b t ≡ (n, r.vec_pages)
  unfolding place_blocks sum
  place_blocks-eq zero b t p = Placed-complete zero b t p (omega (arith, p.found))
  place_blocks-eq (suc left) b t p = elim (dec_lt t.0 n) [
    | yes h ↦ rw (lt→ltb t.0 n h) (place_blocks-eq left (b + 1) _ (Placed-place left b t p))
    | no h ↦ rw (ge→ltb t.0 n (omega arith)) (Placed-complete (suc left) b t p (omega arith))
  ]

-- Recovery after an upgrade, of a region that agrees with the table, that has an identifier given
-- out, and in a memory of less than 2 ^ 16 blocks: it does not trap, and gives the very object
-- (size, and block of each rank) that there was.
pub region_recover-eq :
    (s : State) (r : Region)
    → Owns s.bytes (total_blocks s) r
    → r.id < total_regions s
    → total_blocks s < 2 ^ 16
    → region_recover s r.id ≡ ok r
unfolding region_recover
region_recover-eq s r o known small = rw (
  lt→ltb r.id (total_regions s) known,
  cut,
  count_pages-eq o,
  blocks,
  restored,
  ==-refl (length r.vec_pages),
)
  where
    cut : total_blocks s % 2 ^ 16 ≡ total_blocks s
    cut = omega arith

    blocks : blocks_of r.page_count ≡ length r.vec_pages
    blocks = omega (arith, o.ranks, o.pages)

    restored :
        place_blocks r.id s.bytes
          (length r.vec_pages)
          (total_blocks s)
          0
          (0, replicate (length r.vec_pages) 0)
        ≡ (length r.vec_pages, r.vec_pages)
    restored = place_blocks-eq o (total_blocks s) 0 _ (record {
      at = omega arith;
      found = omega (
        arith,
        sum-weight o (λ _. 1),
        sum_const (λ _. 1) 1 0 (length r.vec_pages) (λ i p q. refl),
      );
      size = length-replicate (length r.vec_pages) 0;
      done = λ j h lt. absurd (omega arith);
    })
