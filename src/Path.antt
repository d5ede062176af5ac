-- ===== src/Path.antt =====
-- src/utils/bip32_path.rs: derivation paths as they come in an APDU.
pub mod Codec
pub mod Compliance
pub mod Accepted
use app_zcash.Base.{
  ℕ, zero, suc, ◌+◌, ◌-◌, ◌*◌, ◌/◌, ◌%◌, ◌^◌, ◌<◌, Bool, true, false, ◌&&◌, ◌||◌, List, [], ◌∷◌,
  ltb, leb, ◌==◌, if◌then◌else◌, length, take, drop, replicate, copy_prefix, Result, ok, err, ◌>>=◌,
}
use app_zcash.Base.Bytes.{Bytes, be_u32}
use app_zcash.Status.{AppSw, wrong_apdu_length}

abbrev pub max_zcash_bip32_path : ℕ
max_zcash_bip32_path = 10

abbrev pub bip32_bytes_per_segment : ℕ
bip32_bytes_per_segment = 4

-- `path` has room for ten components, of which the first `path_len` are in use.
pub record Bip32Path : Type 0 where
  pub path : List ℕ
  pub path_len : ℕ

unfoldable pub as_slice : Bip32Path → List ℕ
as_slice p = take p.path_len p.path

-- `as_chunks::<4>`, each chunk read by `u32::from_be_bytes`; what is left over is dropped.
unfoldable pub as_chunks : Bytes → List ℕ
as_chunks (a ∷ b ∷ c ∷ d ∷ rest) = be_u32 a b c d ∷ as_chunks rest
as_chunks _ = []

unfoldable pub from_dpath : ℕ → Bytes → Result AppSw Bip32Path
from_dpath dpath_len dpath =
    if ltb (length dpath) (dpath_len * bip32_bytes_per_segment)
      || ltb max_zcash_bip32_path dpath_len
    then err wrong_apdu_length
    else ok (record {
      path =
          copy_prefix (as_chunks (take (dpath_len * bip32_bytes_per_segment) dpath))
            (replicate max_zcash_bip32_path 0);
      path_len = dpath_len % 256;
    })

unfoldable pub from_prefixed_bytes : Bytes → Result AppSw (Bip32Path × Bytes)
from_prefixed_bytes [] = err wrong_apdu_length
from_prefixed_bytes (path_len ∷ rest) =
    let encoded_len = 1 + path_len * bip32_bytes_per_segment in
    if ltb (suc (length rest)) encoded_len || ltb max_zcash_bip32_path path_len
    then err wrong_apdu_length
    else do
      path ← from_dpath path_len (take (encoded_len - 1) rest)
      ok (path, drop (encoded_len - 1) rest)

-- `TryFrom<&[u8]>`: nothing may follow the path.
unfoldable pub try_from_bytes : Bytes → Result AppSw Bip32Path
try_from_bytes bytes = do
  (path, remaining) ← from_prefixed_bytes bytes
  if length remaining == 0 then ok path else err wrong_apdu_length

-- `TryFrom<&[u32]>`.
unfoldable pub try_from_components : List ℕ → Result AppSw Bip32Path
try_from_components components =
    if ltb max_zcash_bip32_path (length components)
    then err wrong_apdu_length
    else ok (record {
      path = copy_prefix components (replicate max_zcash_bip32_path 0);
      path_len = length components % 256;
    })
