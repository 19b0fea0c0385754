-- ===== src/Region/Access/Load.antt =====
-- A load gives the bytes of the range in order, whatever blocks they lie in, or traps.
use motoko.Prelude.{
  ℕ, zero, suc, ◌+◌, ◌-◌, ◌*◌, ◌/◌, ◌%◌, ◌^◌, ◌≤◌, ◌<◌, ◌≡◌, ◌≢◌, refl, sym, ap, ap₂, ◌∙◌, ◌⊎◌,
  List, [], ◌∷◌, ◌++◌, arith, dec_lt, dec_le, ℕ_discrete, eq→==, ne→==, lt→ltb, ge→ltb, le→leb,
  gt→leb,
}
use motoko.Prelude.Result.{ok}
use motoko.StableMem.{Bytes, read}
use motoko.Region.Meta.{State, block_in_bytes, total_blocks}
use motoko.Region.Grow.{Region, block_id}
use motoko.Region.Owns.{Owns, max_pages_in_region}
use motoko.Region.Access.{
  check_relative_range, offset_out_of_bounds, range_out_of_bounds, range_overflow,
  relative_into_absolute_info, load_blocks, region_load,
}
use motoko.Region.Access.Locate.{locate, size_in_bytes, locate-add, absolute, same_rank}

-- The bytes at `n` offsets of the region from `x` on.
unfoldable pub gather : ℕ → Region → Bytes → ℕ → ℕ → List ℕ
gather base r m x zero = []
gather base r m x (suc n) = m (locate base r x) ∷ gather base r m (x + 1) n

pub check-ok :
    (r : Region) (offset len : ℕ)
    → r.page_count ≤ max_pages_in_region
    → offset < size_in_bytes r
    → offset + len ≤ size_in_bytes r
    → check_relative_range r offset len ≡ ok tt
unfolding check_relative_range
check-ok r offset len p h k = ground arith

module _ (base : ℕ) (r : Region) (m : Bytes) where
  pub gather-add :
      (x a b : ℕ) → gather base r m x (a + b) ≡ gather base r m x a ++ gather base r m (x + a) b
  unfolding gather
  gather-add x zero b =
      ap₂ (gather base r m) (let e : x ≡ x + 0 = omega arith in e)
        (let e : 0 + b ≡ b = omega arith in e)
  gather-add x (suc a) b =
      ap (gather base r m x) (let e : suc a + b ≡ suc (a + b) = omega arith in e)
      ∙ ap (λ l. m (locate base r x) ∷ l)
          (gather-add (x + 1) a b
            ∙ ap (λ y. gather base r m (x + 1) a ++ gather base r m y b) (omega arith))

  -- Within a block one read does it.
  pub read-gather :
      (x n : ℕ)
      → x % block_in_bytes + n ≤ block_in_bytes
      → read (locate base r x) n m ≡ gather base r m x n
  unfolding read gather
  read-gather x zero h = refl
  read-gather x (suc zero) h = refl
  read-gather x (suc (suc n)) h =
      ap (λ l. m (locate base r x) ∷ l)
        (ap (λ a. read a (suc n) m) (sym (locate-add base r x 1 (omega arith)))
          ∙ read-gather (x + 1) (suc n) (omega arith))

module _ {m : Bytes} {total : ℕ} {r : Region} (o : Owns m total r) (base : ℕ) where
  -- The address that the code computes.
  pub info_at :
      (x : ℕ) → x < size_in_bytes r → (relative_into_absolute_info base r x).0 ≡ locate base r x
  unfolding locate
  info_at x h =
      ap (λ k. base + block_id r k * block_in_bytes + x % block_in_bytes) (absolute o base x h)

  load_blocks-gather :
      (offset len fuel i : ℕ)
      → offset + len ≤ size_in_bytes r
      → (i < len → (offset + i) % block_in_bytes ≡ 0)
      → len - i < fuel
      → load_blocks base r m offset len fuel i ≡ ok (gather base r m (offset + i) (len - i))
  unfolding load_blocks gather
  load_blocks-gather offset len zero i fits start h = absurd (omega arith)
  load_blocks-gather offset len (suc fuel) i fits start h = elim (dec_le len i) [
    | yes done ↦
        rw (le→leb len i done)
          (ap (λ n. ok (gather base r m (offset + i) n)) (let e : 0 ≡ len - i = omega arith in e))
    | no more ↦ elim (dec_lt len (i + (block_in_bytes - (offset + i) % block_in_bytes))) [
      | yes last ↦
          rw (gt→leb len i (omega arith), lt→ltb _ _ last, lt→ltb i len (omega arith))
            (ap (λ a. ok (read a (len - i) m)) (info_at (offset + i) (omega arith))
              ∙ ap ok (
                  read-gather base r m (offset + i) (len - i) (omega (arith, start (omega arith)))))
      | no full ↦
          rw
            (
              gt→leb len i (omega arith),
              ge→ltb len (i + (block_in_bytes - (offset + i) % block_in_bytes)) (omega arith),
              load_blocks-gather offset len fuel (i + block_in_bytes) fits
                  (λ q. omega (arith, start (omega arith))) (omega arith),
            )
            (ap ok
              (joined (omega arith) (start (omega arith)) (omega (arith, start (omega arith)))))
    ]
  ]
    where
      joined :
          offset + i < size_in_bytes r
          → (offset + i) % block_in_bytes ≡ 0
          → i + block_in_bytes ≤ len
          → read (relative_into_absolute_info base r (offset + i)).0 block_in_bytes m
              ++ gather base r m (offset + (i + block_in_bytes)) (len - (i + block_in_bytes))
            ≡ gather base r m (offset + i) (len - i)
      joined lt start le =
          ap₂ ◌++◌
            (ap (λ a. read a block_in_bytes m) (info_at (offset + i) lt)
              ∙ read-gather base r m (offset + i) block_in_bytes (omega arith))
            (ap (λ x. gather base r m x (len - (i + block_in_bytes)))
              (let e : offset + (i + block_in_bytes) ≡ offset + i + block_in_bytes = omega arith in
                e))
          ∙ sym (gather-add base r m (offset + i) block_in_bytes (len - (i + block_in_bytes)))
          ∙ ap (gather base r m (offset + i)) (omega arith)

-- The block that the code finds at an offset.
abbrev pub block_at : Region → ℕ → ℕ
block_at r x = block_id r (x / block_in_bytes % 2 ^ 32)

-- Where the first and the last byte lie in one block, so does the range.
pub one_block :
    {m : Bytes} {total : ℕ} {r : Region} (o : Owns m total r) (base offset len : ℕ)
    → offset < size_in_bytes r
    → offset + len ≤ size_in_bytes r
    → ¬ (len ≡ 0)
    → block_at r offset ≡ block_at r (offset + len - 1)
    → offset / block_in_bytes ≡ (offset + len - 1) / block_in_bytes
one_block {r} o base offset len lt fits ne same =
    same_rank o base offset (offset + len - 1) lt (omega arith) (
      ap (block_id r) (sym (absolute o base offset lt))
      ∙ same
      ∙ ap (block_id r) (absolute o base (offset + len - 1) (omega arith)))

-- Else it reaches over the end of the first block.
pub several_blocks :
    (r : Region) (offset len : ℕ)
    → ¬ (len ≡ 0)
    → block_at r offset ≢ block_at r (offset + len - 1)
    → block_in_bytes - offset % block_in_bytes ≤ len
several_blocks r offset len ne different =
    elim (ℕ_discrete (offset / block_in_bytes) ((offset + len - 1) / block_in_bytes)) [
      | yes e ↦ absurd (different (ap (λ k. block_id r (k % 2 ^ 32)) e))
      | no far ↦ omega arith
    ]

-- A load within the size of a region that agrees with the table gives the bytes at the addresses
-- of the offsets of the range, one by one: neither the border of a block nor the loop over blocks
-- shows, and the fuel of the loop is enough.
pub region_load-gather :
    (s : State) (r : Region) (offset len : ℕ)
    → Owns s.bytes (total_blocks s) r
    → offset < size_in_bytes r
    → offset + len ≤ size_in_bytes r
    → region_load s r offset len ≡ ok (gather s.block_base r s.bytes offset len)
unfolding region_load
region_load-gather s r offset len o lt fits = elim (ℕ_discrete len 0) [
  | yes e ↦ rw (check-ok r offset len o.pages lt fits, eq→== len 0 e) (unfold gather in rw e)
  | no ne ↦ elim (ℕ_discrete (block offset) (block (offset + len - 1))) [
    | yes same ↦
        rw (check-ok r offset len o.pages lt fits, ne→== len 0 ne, eq→== (block offset) _ same)
          (ap ok (
            ap (λ a. read a len s.bytes) (info_at o s.block_base offset lt)
            ∙ read-gather s.block_base r s.bytes offset len
                (omega (arith, one_block o s.block_base offset len lt fits ne same))))
    | no different ↦
        rw
          (
            check-ok r offset len o.pages lt fits,
            ne→== len 0 ne,
            ne→== (block offset) _ different,
            load_blocks-gather o s.block_base offset len (len + 1)
                (block_in_bytes - offset % block_in_bytes) fits (λ q. omega arith) (omega arith),
          )
          (ap ok (joined (several_blocks r offset len ne different)))
  ]
]
  where
    block : ℕ → ℕ
    block = block_at r

    first : ℕ
    first = block_in_bytes - offset % block_in_bytes

    joined :
        first ≤ len
        → read (relative_into_absolute_info s.block_base r offset).0 first s.bytes
            ++ gather s.block_base r s.bytes (offset + first) (len - first)
          ≡ gather s.block_base r s.bytes offset len
    joined le =
        ap (λ l. l ++ gather s.block_base r s.bytes (offset + first) (len - first))
          (ap (λ a. read a first s.bytes) (info_at o s.block_base offset lt)
            ∙ read-gather s.block_base r s.bytes offset first (omega arith))
        ∙ sym (gather-add s.block_base r s.bytes offset first (len - first))
        ∙ ap (gather s.block_base r s.bytes offset) (omega arith)

-- A load of a range that does not lie in the region traps, for an offset and a length that are words of
-- 64 bits and a region of at most the most pages. The message says why: for at most one byte, that the
-- offset is out of bounds; else, that the end of the range is no word of 64 bits any more, or that it
-- is one, but lies behind the region.
pub region_load_trap :
    (s : State) (r : Region) (offset len : ℕ)
    → offset < 2 ^ 64
    → len < 2 ^ 64
    → r.page_count ≤ max_pages_in_region
    → (size_in_bytes r ≤ offset) ⊎ (size_in_bytes r < offset + len)
    → ((len ≤ 1) × (region_load s r offset len ≡ offset_out_of_bounds r))
      ⊎ ((1 < len) × (2 ^ 64 ≤ offset + len) × (region_load s r offset len ≡ range_overflow r))
      ⊎ ((1 < len) × (offset + len < 2 ^ 64) × (region_load s r offset len ≡ range_out_of_bounds r))
unfolding region_load check_relative_range
region_load_trap s r offset len word u64 p out = ground arith
