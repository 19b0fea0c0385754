-- ===== src/Lib.antt =====
-- The runtime system of Motoko (rts/motoko-rts): what it keeps in stable memory, and the data structures
-- of its candid decoder and its incremental collector. Numbers are natural numbers; where the code
-- computes in words of 16, 32 or 64 bits, the remainder is written out, as the release build computes,
-- without overflow checks. A pointer is a number, memory a function from addresses to bytes. A call that
-- can trap gives a result or the message of the trap, and a trap undoes every change, as it does for a
-- canister.
--
-- Parts, and the files that model them:
--
--   * StableMem: rts/motoko-rts/src/stable_mem.rs. Stable memory as bytes by address, `read`, `write` and
--     the little-endian words (`read_word 4` is `read_u32`). The platform's version and size are fields of
--     the region manager's state; its grow call is the parameter `grants`, a test of the present size and
--     the pages asked for, of which the theorems need at most that it never exceeds 512 GiB. The platform's
--     accesses trap behind the memory's pages and `read` and `write` do not: Region/Access/Bounds shows that
--     the accesses to a region lie within the pages.
--   * Region: rts/motoko-rts/src/region.rs. Meta has the layout of the meta data (`mod meta_data`), the
--     static variables and the block-region table; Grow the region object (types.rs) and `region_grow`;
--     Owns the invariant that an object, the table and the counters agree; Recover `region_recover`;
--     Access the range check, the address computation, `region_load`, `region_store`, and the
--     accesses of words and blobs;
--     Migrate `region_new`, the three migrations and `region_init`. The loops over blocks go by fuel of
--     the length and one, since each round takes a byte; a theorem that a load or a store succeeds shows
--     that it is enough. Not modelled: the accesses of floats, and the heap allocation of the object.
--   * BitRel: rts/motoko-rts/src/bitrel.rs, the cache of the candid subtype check, two bits for each
--     direction and pair of types, in words of 64 bits. The indices are not cut off, which is the same
--     as long as the bits of the relation are fewer than 2 ^ 64.
--   * Buf: rts/motoko-rts/src/buf.rs, the read buffer of the candid decoder.
--   * Leb128: rts/motoko-rts/src/leb128.rs, on that buffer. A signed word is its two's complement. Encoding
--     takes ten rounds at most; decoding goes by fuel of the bytes left and one, since each round reads a
--     byte or traps.
--   * ContinuationTable: rts/motoko-rts/src/continuation_table.rs. A heap word is a scalar or a pointer; the
--     barriers of the collector are not modelled.
--   * MarkBitmap: rts/motoko-rts/src/gc/incremental/mark_bitmap.rs; Iterate has its iterator, whose
--     loop goes by fuel of the words of the bitmap and two, since each round reads a word or returns.
--   * MarkStack: rts/motoko-rts/src/gc/incremental/mark_stack.rs. A table goes by its number in the order of
--     allocation.
--   * Slices: rts/motoko-rts/src/gc/incremental/array_slicing.rs with the array tags of types.rs, and
--     rts/motoko-rts/src/gc/incremental/time.rs.
--   * Sort: rts/motoko-rts/src/gc/incremental/sort.rs, on an array as a list, with fuel of its length.
--   * PartitionedHeap: rts/motoko-rts/src/gc/incremental/partitioned_heap.rs. The partitions' extension
--     tables are a list of lists of 128 partitions, and an object is its address. Addresses and sizes are
--     not cut off, since the invariant allows fewer than 2 ^ 38 partitions of 2 ^ 26 bytes. Memory is
--     rts/motoko-rts/src/memory/ic/enhanced_memory.rs: the settings of the memory reserve and the answer to
--     memory.grow are parameters, of which the theorems need that memory stays below 2 ^ 63 bytes, and, where
--     an allocation succeeds, that the platform gives what is asked for. BlockSize is `block_size` and what it
--     calls in types.rs; Tables the tables and `PartitionedHeap::new`; Allocate `allocate` with the
--     allocation of partitions and bitmaps; Large the marking and collection of large objects; Marking
--     `mark_object`; Collect the start of a collection, the choice of partitions to evacuate and the end of a
--     collection; Iterate the heap's iterator. The survival rate is compared as a fraction, 17 / 20, with
--     the same answer as the float. The array of ranked partitions is a list beside the blob that is
--     allocated for it. Loops over partitions go by their number. Debug assertions and the code of
--     the feature memory_check are not modelled.
--
-- The region manager calls the stable memory accessors, and the LEB128 decoder the buffer. The partitioned
-- heap calls the mark bitmap, the sort and the bounded time, and reads memory words as stable memory does. The
-- other parts stand alone. The compiler (src/, in OCaml), the phases of the collector, texts, big numbers (a C
-- library), persistence, the graph copy and the test tools are not modelled.
--
-- Prelude passes the libraries' names on and has lists and tests over native numbers, bits, sums and the
-- result type. The modules Runs, MarkRuns, SweepRuns and Starts have runs on concrete
-- inputs.
pub mod Prelude
pub mod BitRel
pub mod Buf
pub mod ContinuationTable
pub mod Leb128
pub mod MarkBitmap
pub mod MarkStack
pub mod PartitionedHeap
pub mod Region
pub mod Slices
pub mod Sort
pub mod StableMem
