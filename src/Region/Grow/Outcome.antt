-- ===== src/Region/Grow/Outcome.antt =====
-- `region_grow` as a whole: it refuses and changes nothing, or it commits and keeps the agreement.
use motoko.Prelude.{
  ℕ, ◌+◌, ◌-◌, ◌*◌, ◌%◌, ◌^◌, ◌≤◌, ◌<◌, ◌≡◌, ◌≢◌, refl, sym, ap, subst, ◌⊎◌, inl, inr, Option, none,
  some, Bool, true, false, arith, Bool-cases, ltb, ltb→lt, ltb→ge, ltb,
}
use motoko.Region.Meta.{
  u64_max, max_blocks, pages_in_block, total_required_pages, State, total_blocks, index,
  static_mem_in_pages,
}
use motoko.Region.Grow.{Region, block_id, sub32, blocks_of, commit_grow, ensure_pages, region_grow}
use motoko.Region.Grow.Commit
use motoko.Region.Grow.Keeps
use motoko.Region.Grow.Others
use motoko.Region.Owns.{IsState, Owns, block_count, max_pages_in_region, max_stable_pages}

-- The platform never gives more pages than it has.
abbrev pub Bounded : (ℕ → ℕ → Bool) → Type 0
Bounded grants = (have more : ℕ) → grants have more ≡ true → have + more ≤ max_stable_pages

module _ (grants : ℕ → ℕ → Bool) where
  abbrev Ensured : ℕ → State → Option State → Type 0
  Ensured need s o =
      (o ≡ none)
      ⊎ ((p : ℕ) × (o ≡ some (record s { pages = p }))
          × (need ≤ p)
          × (p ≤ max_stable_pages)
          × (s.pages ≤ p))

  ensured :
      (need : ℕ) (s : State)
      → Bounded grants
      → s.pages ≤ max_stable_pages
      → Ensured need s (ensure_pages grants need s)
  unfolding ensure_pages
  ensured need s bounded small = elim (Bool-cases (ltb s.pages need)) [
    | inr enough ↦ rw enough (inr (s.pages, refl, ltb→ge _ _ enough, small, omega arith))
    | inl short ↦ elim (Bool-cases (grants s.pages (need - s.pages))) [
      | inr refused ↦ rw (short, refused) (inl refl)
      | inl given ↦
          rw (short, given)
            (inr (
              s.pages + (need - s.pages),
              refl,
              omega (arith, ltb→lt _ _ short),
              bounded s.pages (need - s.pages) given,
              omega arith,
            ))
    ]
  ]

  -- A commit of `n` pages on `p` pages of stable memory.
  record Commits (s : State) (r : Region) (n p : ℕ) : Type 0 where
    fits : r.page_count + n ≤ max_pages_in_region
    room :
        total_required_pages s.block_base
          (total_blocks s + (block_count (r.page_count + n) - block_count r.page_count))
        ≤ p
    pages : p ≤ max_stable_pages
    grown : s.pages ≤ p
    result : region_grow grants s r n ≡ (
      r.page_count,
      (commit_grow
          (record s { pages = p })
          r
          n
          (block_count r.page_count)
          (block_count (r.page_count + n))
          (total_blocks s + (block_count (r.page_count + n) - block_count r.page_count))).0,
      (commit_grow
          (record s { pages = p })
          r
          n
          (block_count r.page_count)
          (block_count (r.page_count + n))
          (total_blocks s + (block_count (r.page_count + n) - block_count r.page_count))).1,
    )

  module _ (bounded : Bounded grants) where
    grow-cases :
        (s : State) (r : Region) (n : ℕ)
        → IsState s
        → Owns s.bytes (total_blocks s) r
        → (region_grow grants s r n ≡ (u64_max, s, r)) ⊎ ((p : ℕ) × Commits s r n p)
    unfolding region_grow
    grow-cases s r n is o =
        elim (Bool-cases (ltb ((max_blocks * pages_in_block + 2 ^ 64 - r.page_count) % 2 ^ 64) n)) [
          | inl over ↦ inl (rw over)
          | inr fits ↦ elim (ensured need s bounded is.pages) [
            | inl refused ↦ inl (rw (fits, refused))
            | inr (p, e, room, small, grown) ↦ inr (
              p,
              record {
                fits = within fits;
                room =
                    subst (λ k. total_required_pages s.block_base (total_blocks s + k) ≤ p)
                      (counts (within fits)) room;
                pages = small;
                grown = grown;
                result =
                    rw (fits, e)
                      (λ i.
                        let c : State × Region =
                          commit_grow (record s { pages = p }) r (cut (within fits) i) (old_eq i)
                            (new_eq (within fits) i) (total_blocks s + counts (within fits) i) in
                        (r.page_count, c.0, c.1));
              },
            )
          ]
        ]
      where
        need : ℕ
        need = total_required_pages s.block_base (
            total_blocks s
            + sub32 (blocks_of (r.page_count % 2 ^ 32 + n % 2 ^ 32))
                (blocks_of (r.page_count % 2 ^ 32)))

        within :
            ltb ((max_blocks * pages_in_block + 2 ^ 64 - r.page_count) % 2 ^ 64) n ≡ false
            → r.page_count + n ≤ max_pages_in_region
        within h = omega (arith, ltb→ge _ _ h, o.pages)

        cut : r.page_count + n ≤ max_pages_in_region → n % 2 ^ 32 ≡ n
        cut h = omega arith

        old_eq : blocks_of (r.page_count % 2 ^ 32) ≡ block_count r.page_count
        old_eq = omega (arith, o.pages)

        new_eq :
            r.page_count + n ≤ max_pages_in_region
            → blocks_of (r.page_count % 2 ^ 32 + n % 2 ^ 32) ≡ block_count (r.page_count + n)
        new_eq h = omega arith

        counts :
            r.page_count + n ≤ max_pages_in_region
            → sub32
                (blocks_of (r.page_count % 2 ^ 32 + n % 2 ^ 32))
                (blocks_of (r.page_count % 2 ^ 32))
              ≡ block_count (r.page_count + n) - block_count r.page_count
        counts h = omega arith

    -- More pages of memory alone change no table.
    Owns-pages :
        (s : State) (r : Region) (p : ℕ)
        → Owns s.bytes (total_blocks s) r
        → Owns s.bytes (total_blocks (record s { pages = p })) r
    unfolding total_blocks
    Owns-pages s r p o = o

    total_blocks-pages :
        (s : State) (p : ℕ) → total_blocks (record s { pages = p }) ≡ total_blocks s
    unfolding total_blocks
    total_blocks-pages s p = refl

    abbrev Committed : (s : State) (r : Region) (n p : ℕ) → State × Region
    Committed s r n p =
        commit_grow (record s { pages = p }) r n (block_count r.page_count)
          (block_count (r.page_count + n))
          (total_blocks s + (block_count (r.page_count + n) - block_count r.page_count))

    module _ (s : State) (r : Region) (n p : ℕ) (is : IsState s)
        (o : Owns s.bytes (total_blocks s) r) (c : Commits s r n p) where
      small : total_blocks s + (block_count (r.page_count + n) - block_count r.page_count) ≤ 2 ^ 16
      small = omega (arith, c.room, c.pages, is.base)

      committed-Owns : let (s', r') = Committed s r n p in Owns s'.bytes (total_blocks s') r'
      unfolding total_blocks
      committed-Owns = Keeps.Owns-after (record s { pages = p }) r n o c.fits small

      committed-IsState : IsState (Committed s r n p).0
      unfolding total_blocks
      committed-IsState = record {
        base = omega (arith, is.base, (Commit.fields s1 r n o c.fits small).1);
        room = λ _. omega (
          arith,
          c.room,
          (Commit.fields s1 r n o c.fits small).0,
          ap static_mem_in_pages (Commit.fields s1 r n o c.fits small).1,
          Commit.total_blocks-after s1 r n o c.fits small,
        );
        pages = omega (arith, c.pages, (Commit.fields s1 r n o c.fits small).0);
      }
        where
          s1 : State
          s1 = record s { pages = p }

      committed-Owns_other :
          (q : Region)
          → Owns s.bytes (total_blocks s) q
          → q.id ≢ r.id
          → let (s', r') = Committed s r n p in Owns s'.bytes (total_blocks s') q
      unfolding total_blocks
      committed-Owns_other q oq ne =
          Others.Owns-other (record s { pages = p }) r n o c.fits small q oq ne

      committed_effect :
          ((Committed s r n p).1.id ≡ r.id)
          × ((Committed s r n p).1.page_count ≡ r.page_count + n)
          × ((j : ℕ)
              → j < block_count r.page_count
              → block_id (Committed s r n p).1 j ≡ block_id r j)
          × ((a : ℕ) → index (2 ^ 16) ≤ a → (Committed s r n p).0.bytes a ≡ s.bytes a)
      unfolding total_blocks
      committed_effect = (
        (Commit.object s1 r n o c.fits small).0,
        (Commit.object s1 r n o c.fits small).1,
        Commit.block_id-old s1 r n o c.fits small,
        λ a h. Commit.bytes-outside s1 r n o c.fits small a (inr h),
      )
        where
          s1 : State
          s1 = record s { pages = p }

    -- On a platform that never gives more than 512 GiB, and from a state and a region that agree with
    -- the table, `region_grow` by any number of pages, whether it succeeds or not, ends in a state and a
    -- region that agree again: every block of the region has its entry, with its rank and pages.
    pub region_grow-Owns :
        (s : State) (r : Region) (n : ℕ)
        → IsState s
        → Owns s.bytes (total_blocks s) r
        → let (_, s', r') = region_grow grants s r n in
          IsState s' × Owns s'.bytes (total_blocks s') r'
    region_grow-Owns s r n is o = elim (grow-cases s r n is o) [
      | inl e ↦ subst Good (sym e) (is, o)
      | inr (p, c) ↦
          subst Good (sym c.result)
            (committed-IsState s r n p is o c, committed-Owns s r n p is o c)
    ]
      where
        Good : ℕ × State × Region → Type 0
        Good t = IsState t.1 × Owns t.1.bytes (total_blocks t.1) t.2

    -- On a platform that never gives more than 512 GiB, from a consistent state and a region that
    -- agrees with the table, `region_grow` of that region by any number of pages keeps every
    -- region of another identifier that agrees with the table in agreement.
    pub region_grow-Owns_other :
        (s : State) (r q : Region) (n : ℕ)
        → IsState s
        → Owns s.bytes (total_blocks s) r
        → Owns s.bytes (total_blocks s) q
        → q.id ≢ r.id
        → let (_, s', r') = region_grow grants s r n in Owns s'.bytes (total_blocks s') q
    region_grow-Owns_other s r q n is o oq ne = elim (grow-cases s r n is o) [
      | inl e ↦ subst Good (sym e) oq
      | inr (p, c) ↦ subst Good (sym c.result) (committed-Owns_other s r n p is o c q oq ne)
    ]
      where
        Good : ℕ × State × Region → Type 0
        Good t = Owns t.1.bytes (total_blocks t.1) q

    -- On a platform that never gives more than 512 GiB, from a consistent state and a region that
    -- agrees with the table, either the result of `region_grow` is `u64::MAX` and nothing changes,
    -- or the result is the old size, and the region has its identifier, exactly `n` pages more and
    -- its old blocks at their ranks, and no byte behind the meta data changes.
    pub region_grow_effect :
        (s : State) (r : Region) (n : ℕ)
        → IsState s
        → Owns s.bytes (total_blocks s) r
        → let (result, s', r') = region_grow grants s r n in
          ((result ≡ u64_max) × (s' ≡ s) × (r' ≡ r))
          ⊎ ((result ≡ r.page_count)
              × (r'.id ≡ r.id)
              × (r'.page_count ≡ r.page_count + n)
              × ((j : ℕ) → j < block_count r.page_count → block_id r' j ≡ block_id r j)
              × ((a : ℕ) → index (2 ^ 16) ≤ a → s'.bytes a ≡ s.bytes a))
    region_grow_effect s r n is o = elim (grow-cases s r n is o) [
      | inl e ↦ inl (ap (λ t. t.0) e, ap (λ t. t.1) e, ap (λ t. t.2) e)
      | inr (p, c) ↦
          let (id, pages, blocks, bytes) = committed_effect s r n p is o c in
          subst Effect (sym c.result) (inr (refl, id, pages, blocks, bytes))
    ]
      where
        Effect : ℕ × State × Region → Type 0
        Effect t =
            ((t.0 ≡ u64_max) × (t.1 ≡ s) × (t.2 ≡ r))
            ⊎ ((t.0 ≡ r.page_count)
                × (t.2.id ≡ r.id)
                × (t.2.page_count ≡ r.page_count + n)
                × ((j : ℕ) → j < block_count r.page_count → block_id t.2 j ≡ block_id r j)
                × ((a : ℕ) → index (2 ^ 16) ≤ a → t.1.bytes a ≡ s.bytes a))
