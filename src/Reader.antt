-- ===== src/Reader.antt =====
-- src/parser/reader.rs: the cursor over the data of one APDU.
pub mod Unread
use app_zcash.Base.{
  ℕ, zero, suc, ◌+◌, ◌-◌, min, Bool, true, false, List, [], ◌∷◌, if◌then◌else◌, ltb, ◌==◌, length,
  take, drop, Result, ok, err, ◌>>=◌,
}
use app_zcash.Base.Bytes.{Bytes, from_le_bytes}

pub record ByteReader : Type 0 where
  pub buf : Bytes
  pub pos : ℕ

-- The one error of the cursor.
pub data IoErrorKind : Type 0 where
  unexpected_eof : IoErrorKind

unfoldable pub new : Bytes → ByteReader
new buf = record { buf = buf; pos = 0 }

unfoldable pub remaining_len : ByteReader → ℕ
remaining_len r = length r.buf - r.pos

unfoldable pub remaining_slice : ByteReader → Bytes
remaining_slice r = drop r.pos r.buf

unfoldable pub advance : ByteReader → ℕ → Result IoErrorKind ByteReader
advance r n =
    let remaining = length r.buf - r.pos in
    if ltb remaining n then err unexpected_eof else ok (record r { pos = r.pos + n })

-- `Read::read` into a buffer of `len` bytes: what it writes there, and the cursor after it.
unfoldable pub read : ByteReader → ℕ → Bytes × ByteReader
read r len =
    let to_read = min (length r.buf - r.pos) len in
    (take to_read (drop r.pos r.buf), record r { pos = r.pos + to_read })

-- `Read::read_exact`. A `read` above is short only at the end of the data, where the next one gives
-- nothing, so the loop of `read_exact` makes one effective call.
unfoldable pub read_exact : ByteReader → ℕ → Result IoErrorKind (Bytes × ByteReader)
unfolding read
read_exact r n =
    let (bytes, r') = read r n in if length bytes == n then ok (bytes, r') else err unexpected_eof

unfoldable pub read_u8 : ByteReader → Result IoErrorKind (ℕ × ByteReader)
unfolding read_exact
read_u8 r = do (bytes, r') ← read_exact r 1; ok (from_le_bytes bytes, r')

unfoldable pub read_u32_le : ByteReader → Result IoErrorKind (ℕ × ByteReader)
unfolding read_exact
read_u32_le r = do (bytes, r') ← read_exact r 4; ok (from_le_bytes bytes, r')

unfoldable pub read_u64_le : ByteReader → Result IoErrorKind (ℕ × ByteReader)
unfolding read_exact
read_u64_le r = do (bytes, r') ← read_exact r 8; ok (from_le_bytes bytes, r')
