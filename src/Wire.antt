-- ===== src/Wire.antt =====
-- The encodings of src/utils.rs: `read_u32` and `encode_string_response`, and its comparison in
-- constant time.
pub mod Encodings
use app_zcash.Base.{
  ℕ, ◌+◌, ◌*◌, ◌/◌, ◌%◌, ◌^◌, Bool, true, false, List, [], ◌∷◌, ◌++◌, if◌then◌else◌, ltb, length,
  take, not, ◌==◌, Result, ok, err,
}
use Prim.Native.Nat.{bit_or, bit_xor}
use app_zcash.Base.Bytes.{Bytes, from_be_bytes, from_le_bytes}
use app_zcash.Status.{AppSw, incorrect_data, technical_problem}

pub data Endianness : Type 0 where
  big little : Endianness

-- `u32::from_be_bytes` or `u32::from_le_bytes`.
unfoldable pub word_of : Endianness → Bytes → ℕ
word_of big buffer4 = from_be_bytes buffer4
word_of little buffer4 = from_le_bytes buffer4

-- `word &= 0x7FFF_FFFF` is `word % 2 ^ 31`.
unfoldable pub read_u32 : Bytes → Endianness → Bool → Result AppSw ℕ
unfolding word_of
read_u32 buffer endianness skip_sign =
    if ltb (length buffer) 4
    then err incorrect_data
    else (let word = word_of endianness (take 4 buffer) in
        if skip_sign then ok (word % 2 ^ 31) else ok word)

-- `u16::try_from`, and `to_be_bytes` of what it gives.
unfoldable pub encode_string_response : Bytes → Result AppSw Bytes
encode_string_response value =
    let len = length value in
    if ltb 0xFFFF len then err technical_problem else ok (len / 256 % 256 ∷ len % 256 ∷ value)

-- The loop of `secure_memcmp`, on buffers of one length.
unfoldable pub memcmp_error : ℕ → Bytes → Bytes → ℕ
memcmp_error error (x ∷ xs) (y ∷ ys) = memcmp_error (bit_or error (bit_xor x y)) xs ys
memcmp_error error _ _ = error

unfoldable pub secure_memcmp : Bytes → Bytes → Bool
unfolding memcmp_error
secure_memcmp buf1 buf2 =
    if not (length buf1 == length buf2) then false else memcmp_error 0 buf1 buf2 == 0
