-- ===== src/PartitionedHeap/Memory.antt =====
-- rts/motoko-rts/src/memory/ic/enhanced_memory.rs: the growth of the Wasm memory. What the system
-- grants, whether it asks for a reserve, and the reserve that the collector asks for are parameters.
use motoko.Prelude.{ℕ, ◌+◌, ◌-◌, ◌/◌, ◌%◌, ◌^◌, Bool, true, ◌&&◌, ltb, if◌then◌else◌}
use motoko.Prelude.Result.{Result, ok, trap}
use motoko.StableMem.{page_size}

-- `grants present more`: the answer of `memory.grow`.
pub record Platform : Type 0 where
  pub keep_memory_reserve : Bool
  pub memory_reserve : ℕ
  pub grants : ℕ → ℕ → Bool

-- 4 GB less the last page.
abbrev pub guaranteed_memory_capacity : ℕ
guaranteed_memory_capacity = 2 ^ 32 - page_size

abbrev pub last_page_limit : ℕ
last_page_limit = 2 ^ 64 - page_size

abbrev pub total_pages_needed : ℕ → ℕ
total_pages_needed memory_size = (memory_size + page_size - 1) / page_size

-- The result is false, or the pages that there are now.
unfoldable pub probe_wasm_memory : Platform → ℕ → ℕ → Bool × ℕ
probe_wasm_memory p memory_size current_pages =
    if ltb current_pages (total_pages_needed memory_size)
    then if p.grants current_pages (total_pages_needed memory_size - current_pages)
      then (true, total_pages_needed memory_size)
      else (Bool.false, current_pages)
    else (true, current_pages)

unfoldable pub allocate_wasm_memory : Platform → ℕ → ℕ → Result ℕ
unfolding probe_wasm_memory
allocate_wasm_memory p memory_size current_pages =
    if ltb last_page_limit memory_size
    then trap "Cannot grow memory"
    else let (granted, pages) = probe_wasm_memory p memory_size current_pages in
      if granted then ok pages else trap "Cannot grow memory"

unfoldable pub grow_pages : Platform → ℕ → ℕ → Result ℕ
unfolding allocate_wasm_memory
grow_pages p ptr current_pages =
    if p.keep_memory_reserve
      && ltb ((guaranteed_memory_capacity + 2 ^ 64 - p.memory_reserve) % 2 ^ 64) ptr
    then if ltb (2 ^ 64 - 1 - p.memory_reserve) ptr
      then trap "Cannot grow memory"
      else allocate_wasm_memory p (ptr + p.memory_reserve) current_pages
    else allocate_wasm_memory p ptr current_pages
