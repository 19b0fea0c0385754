-- ===== src/PartitionedHeap/BlockSize.antt =====
-- `block_size` of rts/motoko-rts/src/types.rs: the size of an object in words, by its tag.
use motoko.Prelude.{ℕ, ◌+◌, ◌*◌, ◌/◌, ◌%◌, ◌^◌, ◌||◌, ◌==◌, if◌then◌else◌}
use motoko.Prelude.Result.{Result, ok, trap}
use motoko.StableMem.{Bytes, read_word}

-- The word `i` of the object at an address.
abbrev pub object_word : Bytes → ℕ → ℕ → ℕ
object_word memory address i = read_word 8 (address + 8 * i) memory

-- `Bytes::to_words`, which rounds up.
abbrev pub to_words : ℕ → ℕ
to_words bytes = (bytes + 7) % 2 ^ 64 / 8

-- `Value::get_ptr` takes the skew off; the blob is the end of its forwarding.
abbrev pub unskew : ℕ → ℕ
unskew value = (value + 1) % 2 ^ 64

abbrev pub as_blob : Bytes → ℕ → ℕ
as_blob memory value = unskew (object_word memory (unskew value) 1)

abbrev pub object_size : Bytes → ℕ → ℕ
object_size memory address =
    object_word memory (as_blob memory (object_word memory address 2)) 2 / 8

-- `mp_int::alloc`, the second half of the word, digits of eight bytes.
abbrev pub bigint_len : Bytes → ℕ → ℕ
bigint_len memory address = read_word 4 (address + 20) memory * 8 % 2 ^ 64

abbrev pub free_space_size : Bytes → ℕ → ℕ
free_space_size memory address = object_word memory address 1 + 2

-- The headers have the sizes of the structs of types.rs.
unfoldable pub block_size : Bytes → ℕ → Result ℕ
block_size memory address =
    let tag = object_word memory address 0 in
    if tag == 1
    then ok ((3 + object_size memory address) % 2 ^ 64)
    else if tag == 45
    then ok 3
    else if tag == 3 || tag == 5 || tag == 7 || tag == 9
    then ok ((3 + object_word memory address 2) % 2 ^ 64)
    else if tag == 11 || tag == 13 || tag == 15
    then ok 3
    else if tag == 17
    then ok 3
    else if tag == 19
    then ok ((4 + object_word memory address 3) % 2 ^ 64)
    else if tag == 21
    then ok 3
    else if tag == 23
    then ok 4
    else if tag == 25 || tag == 27 || tag == 29 || tag == 31
    then ok ((3 + to_words (object_word memory address 2)) % 2 ^ 64)
    else if tag == 33
    then trap "object_size: forwarding pointer"
    else if tag == 35
    then ok ((5 + to_words (bigint_len memory address)) % 2 ^ 64)
    else if tag == 37
    then ok 5
    else if tag == 41
    then ok 1
    else if tag == 43
    then ok (free_space_size memory address % 2 ^ 64)
    else if tag == 39
    then ok 5
    else trap "object_size: invalid object tag"
