-- ===== src/Region/Access.antt =====
-- Loads from and stores to a region: the range check, the address computation and the copies block
-- by block.
pub mod Locate
pub mod Load
pub mod Store
pub mod RoundTrip
pub mod Bounds
use motoko.Prelude.{
  ℕ, zero, suc, ◌+◌, ◌-◌, ◌*◌, ◌/◌, ◌%◌, ◌^◌, List, [], ◌∷◌, ◌++◌, Bool, length, take, drop, ltb,
  leb, ◌==◌, if◌then◌else◌,
}
use Prim.Native.String.{String}
use motoko.Prelude.Result.{Result, ok, trap, ◌>>=◌, ◌>>◌, assert}
use motoko.StableMem.{Bytes, page_size, read, write, to_le_bytes, from_le_bytes}
use motoko.Region.Meta.{State, u64_max, block_in_bytes}
use motoko.Region.Grow.{Region, block_id}

-- `RegionObject::trap_with`, given the message with either prefix: region 0 is the classic stable
-- memory.
abbrev pub trap_with : {A : Type 0} → Region → String → String → Result A
trap_with r stable_memory region = if r.id == 0 then trap stable_memory else trap region

abbrev pub offset_out_of_bounds : {A : Type 0} → Region → Result A
offset_out_of_bounds r =
    trap_with r "StableMemory offset out of bounds" "Region error: offset out of bounds"

abbrev pub range_overflow : {A : Type 0} → Region → Result A
range_overflow r = trap_with r "StableMemory range overflow" "Region error: range overflow"

abbrev pub range_out_of_bounds : {A : Type 0} → Region → Result A
range_out_of_bounds r =
    trap_with r "StableMemory range out of bounds" "Region error: range out of bounds"

unfoldable pub check_relative_range : Region → ℕ → ℕ → Result (Unit {0})
check_relative_range r offset len =
    if leb len 1
    then (if leb (r.page_count * page_size % 2 ^ 64) offset then offset_out_of_bounds r else ok tt)
    else if ltb (u64_max - len) offset
    then range_overflow r
    else if ltb (r.page_count * page_size % 2 ^ 64) ((offset + len) % 2 ^ 64)
    then range_out_of_bounds r
    else ok tt

module _ (base : ℕ) (r : Region) where
  -- The absolute offset, the block, and what is left of the block.
  abbrev pub relative_into_absolute_info : ℕ → ℕ × ℕ × ℕ
  relative_into_absolute_info offset =
      let block = block_id r (offset / block_in_bytes % 2 ^ 32) in
      let intra = offset % block_in_bytes in
      (base + block * block_in_bytes + intra, block, block_in_bytes - intra)

  -- The same for the first byte, and the block of the last one.
  abbrev pub relative_into_absolute_span : ℕ → ℕ → ℕ × ℕ × ℕ × ℕ
  relative_into_absolute_span offset len =
      let (off, b1, b1_len) = relative_into_absolute_info offset in
      if len == 0
      then (off, b1, b1_len, b1)
      else (off, b1, b1_len, (relative_into_absolute_info (offset + len - 1)).1)

  -- The loop of `region_load` over the blocks behind the first, with `i` bytes loaded.
  pub load_blocks : Bytes → ℕ → ℕ → ℕ → ℕ → Result (List ℕ)
  load_blocks m offset len zero i = trap "out of fuel"
  load_blocks m offset len (suc fuel) i =
      let (s, _, b_len) = relative_into_absolute_info (offset + i) in
      let rest = load_blocks m offset len fuel (i + block_in_bytes) in
      if leb len i
      then ok []
      else if ltb len (i + b_len)
      then ok (if ltb i len then read s (len - i) m else [])
      else (do bytes ← rest; ok (read s block_in_bytes m ++ bytes))

  -- The loop of `region_store`: `src` is the whole source.
  pub store_blocks : ℕ → List ℕ → ℕ → ℕ → Bytes → Result Bytes
  store_blocks offset src zero i m = trap "out of fuel"
  store_blocks offset src (suc fuel) i m =
      let (d, _, b_len) = relative_into_absolute_info (offset + i) in
      let rest =
        store_blocks offset src fuel (i + block_in_bytes)
          (write d (take block_in_bytes (drop i src)) m) in
      if leb (length src) i
      then ok m
      else if ltb (length src) (i + b_len)
      then ok (if ltb i (length src) then write d (take (length src - i) (drop i src)) m else m)
      else rest

-- Each round of a loop takes a byte at least, so the length and one are enough rounds.
pub region_load : State → Region → ℕ → ℕ → Result (List ℕ)
unfolding load_blocks check_relative_range
region_load s r offset len = do
  check_relative_range r offset len
  if len == 0
      then ok []
      else (let (b1_off, b1, b1_len, b2) = relative_into_absolute_span s.block_base r offset len in
          if b1 == b2 then ok (read b1_off len s.bytes) else do
            rest ← load_blocks s.block_base r s.bytes offset len (len + 1) b1_len
            ok (read b1_off b1_len s.bytes ++ rest))

pub region_store : State → Region → ℕ → List ℕ → Result State
unfolding store_blocks check_relative_range
region_store s r offset src = do
  check_relative_range r offset (length src)
  if length src == 0
      then ok s
      else (let (b1_off, b1, b1_len, b2) =
            relative_into_absolute_span s.block_base r offset (length src) in
          if b1 == b2 then ok (record s { bytes = write b1_off src s.bytes }) else do
            m ←
                store_blocks s.block_base r offset src (length src + 1) b1_len
                  (write b1_off (take b1_len src) s.bytes)
            ok (record s { bytes = m }))

-- `region_load_word8` to `region_load_word64`, for 1, 2, 4 and 8 bytes; so for the stores, which cut
-- the value to the width.
pub region_load_word : ℕ → State → Region → ℕ → Result ℕ
region_load_word n s r offset = do bytes ← region_load s r offset n; ok (from_le_bytes bytes)

pub region_store_word : ℕ → State → Region → ℕ → ℕ → Result State
region_store_word n s r offset val = region_store s r offset (to_le_bytes n val)

-- `region_load_blob` and `region_store_blob`, on the content of the blob: one too long for a slice is
-- taken in halves.
abbrev pub isize_max : ℕ
isize_max = 2 ^ 63 - 1

pub region_load_blob : State → Region → ℕ → ℕ → Result (List ℕ)
unfolding region_load
region_load_blob s r offset len = if ltb len isize_max then region_load s r offset len else (do
  assert (ltb (len / 2) isize_max)
  low ← region_load s r offset (len / 2)
  high ← region_load s r ((offset + len / 2) % 2 ^ 64) (len - len / 2)
  ok (low ++ high))

pub region_store_blob : State → Region → ℕ → List ℕ → Result State
unfolding region_store
region_store_blob s r offset blob =
    let len = length blob in
    if ltb len isize_max then region_store s r offset blob else (do
      assert (ltb (len / 2) isize_max)
      s1 ← region_store s r offset (take (len / 2) blob)
      region_store s1 r ((offset + len / 2) % 2 ^ 64) (drop (len / 2) blob))

-- `region_size`
abbrev pub region_size : Region → ℕ
region_size r = r.page_count
