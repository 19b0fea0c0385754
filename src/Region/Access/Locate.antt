-- ===== src/Region/Access/Locate.antt =====
-- Where a byte of a region lies: one place for each, apart from other regions and the meta data.
use motoko.Prelude.{ℕ, ◌+◌, ◌*◌, ◌/◌, ◌%◌, ◌^◌, ◌≤◌, ◌<◌, ◌≡◌, ◌≢◌, ap, ◌∙◌, length, arith}
use motoko.StableMem.{Bytes, page_size}
use motoko.Region.Meta.{block_in_bytes, table_get}
use motoko.Region.Grow.{Region, block_id}
use motoko.Region.Owns.{Owns, entry_of, entry_unique}
use motoko.Region.Recover.Weights.{block_id-injective}

unfoldable pub locate : ℕ → Region → ℕ → ℕ
locate base r x = base + block_id r (x / block_in_bytes) * block_in_bytes + x % block_in_bytes

-- The bytes that a region has.
abbrev pub size_in_bytes : Region → ℕ
size_in_bytes r = r.page_count * page_size

pub locate-add :
    (base : ℕ) (r : Region) (x k : ℕ)
    → x % block_in_bytes + k < block_in_bytes
    → locate base r (x + k) ≡ locate base r x + k
unfolding locate
locate-add base r x k h = omega (
  arith,
  ap (block_id r) (let e : (x + k) / block_in_bytes ≡ x / block_in_bytes = omega arith in e),
)

module _ {m : Bytes} {total : ℕ} {r : Region} (o : Owns m total r) (base : ℕ) where
  pub rank_lt : (x : ℕ) → x < size_in_bytes r → x / block_in_bytes < length r.vec_pages
  rank_lt x h = omega (arith, o.ranks)

  -- What the code computes, the cut of the rank to 32 bits included, is `locate`.
  pub absolute : (x : ℕ) → x < size_in_bytes r → x / block_in_bytes % 2 ^ 32 ≡ x / block_in_bytes
  absolute x h = omega (arith, o.pages)

  pub locate-injective :
      (x y : ℕ)
      → x < size_in_bytes r
      → y < size_in_bytes r
      → locate base r x ≡ locate base r y
      → x ≡ y
  unfolding locate
  locate-injective x y hx hy e =
      let same_block : block_id r (x / block_in_bytes) ≡ block_id r (y / block_in_bytes) =
        omega arith in
      omega (
        arith,
        block_id-injective o (x / block_in_bytes) (y / block_in_bytes) (rank_lt x hx) (rank_lt y hy)
            same_block,
      )

  -- Two bytes in one block are as far apart as their offsets.
  pub same_rank :
      (x y : ℕ)
      → x < size_in_bytes r
      → y < size_in_bytes r
      → block_id r (x / block_in_bytes) ≡ block_id r (y / block_in_bytes)
      → x / block_in_bytes ≡ y / block_in_bytes
  same_rank x y hx hy e = block_id-injective o _ _ (rank_lt x hx) (rank_lt y hy) e

  -- Two regions of different identifiers that agree with the same table do not overlap: no offset
  -- within the size of one has the address of an offset within the size of the other.
  pub locate_apart :
      {q : Region} (oq : Owns m total q)
      → q.id ≢ r.id
      → (x y : ℕ) → x < size_in_bytes r
      → y < size_in_bytes q
      → locate base r x ≢ locate base q y
  unfolding locate
  locate_apart {q} oq ne x y hx hy e =
      let same_block : block_id q (y / block_in_bytes) ≡ block_id r (x / block_in_bytes) =
        omega arith in
      ne
        (entry_unique (table_get (block_id q (y / block_in_bytes)) m)
          (entry_of q.id q.page_count (y / block_in_bytes))
          (entry_of r.id r.page_count (x / block_in_bytes)) (oq.entry _ (omega (arith, oq.ranks)))
          (ap (λ b. table_get b m) same_block ∙ o.entry _ (rank_lt x hx))).0

  -- Every byte lies behind the meta data and within the blocks in use.
  pub locate_bounds :
      (x : ℕ)
      → x < size_in_bytes r
      → (base ≤ locate base r x) × (locate base r x < base + total * block_in_bytes)
  unfolding locate
  locate_bounds x h = (omega arith, omega (arith, o.block_lt _ (rank_lt x h)))
