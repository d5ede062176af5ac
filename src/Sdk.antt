-- ===== src/Sdk.antt =====
-- What the application calls and does not implement: the hashes of the device SDK, the encodings
-- of the `zcash_encoding`, `zcash_protocol`, `zcash_primitives` and `bs58` crates.
-- Each is a field; a failure is `none`.
use app_zcash.Base.{ℕ, ◌≤◌, ◌<◌, ◌≡◌, Option, some, length}
use app_zcash.Base.Bytes.{Bytes}

-- `HashInit` of the SDK for `Sha2_256` and `Ripemd160`, one shot, and `bs58::encode(..).onto`.
-- A Rust string is its UTF-8 bytes throughout the model.
pub record AddressOps : Type 0 where
  pub sha256 : Bytes → Option Bytes
  pub ripemd160 : Bytes → Option Bytes
  pub bs58_encode : Bytes → Option Bytes

-- A streaming hash of the SDK with the states `H`: `init_with_perso` starts it under a
-- personalization, `update` feeds it, `finalize` gives the digest and the state that it leaves.
pub record HashOps (H : Type 0) : Type 0 where
  pub fresh : H
  pub init_with_perso : Bytes → Option H
  pub update : H → Bytes → Option H
  pub finalize : H → Option (Bytes × H)

-- `Blake2b_256` and `Sha2_256`, over one type of states.
pub record Hashing (H : Type 0) : Type 0 where
  pub blake : HashOps H
  pub sha : HashOps H

-- The wire encodings of the Zcash crates. A reader gives what it read and the bytes behind it; a
-- writer gives the bytes that it feeds to its hash.
pub record Wire : Type 0 where
  -- `CompactSize::read_t::<usize>` and `CompactSize::write`.
  pub read_compact_size : Bytes → Option (ℕ × Bytes)
  pub write_compact_size : ℕ → Bytes
  -- `Zatoshis::from_nonnegative_i64_le_bytes(..)`, as `into_u64()` gives it.
  pub zatoshis : Bytes → Option ℕ
  -- `Script::write`.
  pub write_script : Bytes → Bytes

-- `CompactSize::read_t`: a reading takes a byte at least. `Zatoshis` holds at most `MAX_MONEY`.
pub record IsWire (w : Wire) : Type 0 where
  pub compact_size_takes :
      (bs : Bytes) (n : ℕ) (rest : Bytes)
      → w.read_compact_size bs ≡ some (n, rest)
      → length rest < length bs
  pub zatoshis_bounded : (bs : Bytes) (n : ℕ) → w.zatoshis bs ≡ some n → n ≤ 2_100_000_000_000_000
