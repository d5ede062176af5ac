-- ===== src/Wire/Encodings.antt =====
-- What the encodings of src/utils.rs read and write.
use app_zcash.Base.{
  ℕ, ◌↔◌, ◌/◌, ◌%◌, ◌^◌, ◌≤◌, ◌<◌, ◌≡◌, ◌⊎◌, inl, inr, refl, Bool, true, false, [], ◌∷◌, ◌++◌,
  if◌then◌else◌, ltb, length, ok, err, arith, Bool-cases,
}
use Prim.Native.Nat.{bit_or, bit_xor}
use app_zcash.Base.Bits.{bit_or-zero, bit_xor-zero, bit_xor-same}
use app_zcash.Base.Bytes.{Bytes, IsU32, from_be_bytes, to_be_u32, to_le_bytes}
use app_zcash.Status.{technical_problem}
use app_zcash.Wire.{
  Endianness, big, little, word_of, read_u32, encode_string_response, memcmp_error, secure_memcmp,
}

-- A word in either order.
abbrev pub bytes_of : Endianness → ℕ → Bytes
bytes_of big w = to_be_u32 w
bytes_of little w = to_le_bytes 4 w

-- A 32-bit word is read back from its four bytes in either order, whatever follows them, and without
-- its top bit when that is to be skipped.
pub read_u32-bytes_of :
    (e : Endianness) (w : ℕ) (rest : Bytes) (skip_sign : Bool)
    → IsU32 w
    → read_u32 (bytes_of e w ++ rest) e skip_sign ≡ ok (if skip_sign then w % 2 ^ 31 else w)
unfolding read_u32 word_of
read_u32-bytes_of big w rest true h = ground arith
read_u32-bytes_of big w rest false h = ground arith
read_u32-bytes_of little w rest true h = ground arith
read_u32-bytes_of little w rest false h = ground arith

-- A response that is encoded starts with the length of the string, as a number of two bytes, and goes
-- on with the string; a string that is too long for that is refused.
pub encode_string_response_lem :
    (value : Bytes)
    → ((length value < 2 ^ 16)
        × ((hi : ℕ) × (lo : ℕ) × (hi < 256)
            × (lo < 256)
            × (from_be_bytes (hi ∷ lo ∷ []) ≡ length value)
            × (encode_string_response value ≡ ok (hi ∷ lo ∷ value))))
      ⊎ ((2 ^ 16 ≤ length value) × (encode_string_response value ≡ err technical_problem))
unfolding encode_string_response
encode_string_response_lem value = elim (Bool-cases (ltb 0xFFFF (length value))) [
  | inl long ↦ inr (ground arith, rw long)
  | inr short ↦
      let fits : length value < 2 ^ 16 = ground arith in
      inl (
        fits,
        (
          length value / 256 % 256,
          length value % 256,
          omega arith,
          omega arith,
          omega arith,
          rw short,
        ),
      )
]

memcmp_error-zero :
    (error : ℕ) (xs ys : Bytes)
    → length xs ≡ length ys
    → memcmp_error error xs ys ≡ 0
    → (error ≡ 0) × (xs ≡ ys)
unfolding memcmp_error
memcmp_error-zero error [] [] h e = (e, refl)
memcmp_error-zero error [] (y ∷ ys) h e = absurd (omega arith)
memcmp_error-zero error (x ∷ xs) [] h e = absurd (omega arith)
memcmp_error-zero error (x ∷ xs) (y ∷ ys) h e =
    let (none_yet, rest) = memcmp_error-zero (bit_or error (bit_xor x y)) xs ys (omega arith) e in
    let (before, here) = bit_or-zero error (bit_xor x y) none_yet in
    (before, rw (bit_xor-zero x y here, rest))

memcmp_error-same : (xs : Bytes) → memcmp_error 0 xs xs ≡ 0
unfolding memcmp_error
memcmp_error-same [] = refl
memcmp_error-same (x ∷ xs) = rw (bit_xor-same x) (memcmp_error-same xs)

-- The comparison in constant time, which gathers the differences of all bytes, says yes exactly to
-- equal buffers.
pub secure_memcmp_iff : (buf1 buf2 : Bytes) → (secure_memcmp buf1 buf2 ≡ true) ↔ (buf1 ≡ buf2)
unfolding secure_memcmp
secure_memcmp_iff buf1 buf2 = (
  (λ e. (memcmp_error-zero 0 buf1 buf2 (ground arith) (ground arith)).1),
  (λ e. rw e (ground (arith, memcmp_error-same buf2))),
)
