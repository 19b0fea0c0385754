-- ===== src/Leb128/Runs.antt =====
-- Numbers of one, two and ten bytes.
use motoko.Prelude.{
  ap, ℕ, ◌+◌, ◌-◌, ◌^◌, ◌≡◌, refl, [], ◌∷◌, some, length, arith, ltb, lt→ltb, if◌then◌else◌,
}
use motoko.Prelude.Result.{ok}
use motoko.StableMem.{write}
use motoko.Buf.{Buf, read_byte, skip_leb128}
use motoko.Leb128.{
  leb128_bytes, leb128_encode, decode_rounds, leb128_decode, leb128_decode_checked, sleb128_bytes,
  sleb128_encode, sleb128_decode, sleb128_decode_checked,
}
use motoko.Leb128.SignedRoundTrip.{sleb128_decode-encode}
use motoko.Leb128.Overlong.{sleb128_decode_overlong}
use motoko.Leb128.RoundTrip.{advanced, leb128_decode-encode}
use motoko.Leb128.Skip.{skip_leb128-decode}

length-ten : length (leb128_bytes 10 (2 ^ 64 - 1)) ≡ 10
unfolding leb128_bytes
length-ten = refl

abbrev ten : Buf
ten = record { memory = leb128_encode (2 ^ 64 - 1) 100 (λ _. 255); ptr = 100; end = 115 }

leb128_decode-encode_example :
    leb128_decode ten ≡ ok (2 ^ 64 - 1, advanced ten (length (leb128_bytes 10 (2 ^ 64 - 1))))
leb128_decode-encode_example =
    leb128_decode-encode (2 ^ 64 - 1) (λ _. 255) 100 115 (omega arith) (omega (arith, length-ten))

-- 624485 in three bytes.
abbrev three : Buf
three = record { memory = write 0 (0xe5 ∷ 0x8e ∷ 0x26 ∷ []) (λ _. 0); ptr = 0; end = 20 }

three-decode : leb128_decode_checked three ≡ ok (some 624485, record three { ptr = 3 })
unfolding leb128_decode_checked decode_rounds read_byte write
three-decode = refl

skip_leb128-decode_example : skip_leb128 three ≡ ok (record three { ptr = 3 })
skip_leb128-decode_example = skip_leb128-decode 624485 three (record three { ptr = 3 }) three-decode

-- -2 ^ 63, in ten bytes.
abbrev lowest : Buf
lowest = record { memory = sleb128_encode (2 ^ 63) 100 (λ _. 255); ptr = 100; end = 115 }

length-lowest : length (sleb128_bytes 10 (2 ^ 63)) ≡ 10
unfolding sleb128_bytes
length-lowest = refl

sleb128_decode-encode_example :
    sleb128_decode lowest ≡ ok (2 ^ 63, advanced lowest (length (sleb128_bytes 10 (2 ^ 63))))
sleb128_decode-encode_example =
    sleb128_decode-encode (2 ^ 63) (λ _. 255) 100 115 (omega arith) (omega (arith, length-lowest))

abbrev overlong : Buf
overlong = record { memory = λ a. if ltb a 10 then 0x80 else 0x01; ptr = 0; end = 11 }

sleb128_decode_overlong_example :
    sleb128_decode_checked overlong ≡ ok (some 64, record overlong { ptr = 11 })
sleb128_decode_overlong_example =
    sleb128_decode_overlong 1 overlong (omega arith)
      (λ i h. ap (λ c. if◌then◌else◌ {A = ℕ} c 0x80 0x01) (lt→ltb (0 + i) 10 (omega arith))) refl
      (omega arith)
