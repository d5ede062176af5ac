-- ===== src/Address.antt =====
-- src/utils/base58_address.rs, src/utils/hashers.rs and
-- ledger_zcash_crypto/src/transparent_address.rs: Base58Check addresses of the mainnet build.
pub mod Payee
use app_zcash.Base.{
  ℕ, ◌+◌, Bool, true, false, ◌||◌, not, Option, some, none, List, [], ◌∷◌, ◌++◌, if◌then◌else◌,
  length, take, drop, Result, ok, err, ◌>>=◌, ok_or, map_err,
}
use app_zcash.Base.Bytes.{Bytes}
use app_zcash.Status.{AppSw, incorrect_data, deny, not_enough_memory_space, technical_problem}
use app_zcash.Sdk.{AddressOps}
use app_zcash.Script.{output_script_is_op_return, output_script_is_regular, output_script_is_p2sh}

abbrev pub transparent_address_prefix : Bytes
transparent_address_prefix = 0x1C ∷ 0xB8 ∷ []

abbrev pub p2sh_address_prefix : Bytes
p2sh_address_prefix = 0x1C ∷ 0xBD ∷ []

abbrev pub p2pkh_prefix_len : ℕ
p2pkh_prefix_len = 2

abbrev pub p2pkh_hash_len : ℕ
p2pkh_hash_len = 20

-- The errors of the crypto crate that these functions meet.
pub data CryptoError : Type 0 where
  hash_error base58_encode_failed invalid_key_discarded out_of_memory : CryptoError

unfoldable pub map_ledger_crypto_error : CryptoError → AppSw
map_ledger_crypto_error invalid_key_discarded = deny
map_ledger_crypto_error out_of_memory = not_enough_memory_space
map_ledger_crypto_error _ = technical_problem

unfoldable pub output_script_to_transparent_payload : Bytes → Result AppSw Bytes
output_script_to_transparent_payload script =
    if output_script_is_p2sh script
    then ok (p2sh_address_prefix ++ take p2pkh_hash_len (drop 2 script))
    else if output_script_is_op_return script || not (output_script_is_regular script)
    then err incorrect_data
    else ok (transparent_address_prefix ++ take p2pkh_hash_len (drop 3 script))

module _ (ops : AddressOps) where
  open ops use {sha256, ripemd160, bs58_encode}

  unfoldable pub double_sha256_checksum : Bytes → Result CryptoError Bytes
  double_sha256_checksum input = do
    o1 ← ok_or (sha256 input) hash_error
    o2 ← ok_or (sha256 o1) hash_error
    ok (take 4 o2)

  unfoldable pub base58check_transparent_address : Bytes → Bytes → Result CryptoError Bytes
  unfolding double_sha256_checksum
  base58check_transparent_address prefix hash160 = do
    checksum ← double_sha256_checksum (prefix ++ hash160)
    ok_or (bs58_encode ((prefix ++ hash160) ++ checksum)) base58_encode_failed

  unfoldable pub from_p2pkh_payload : Bytes → Result AppSw Bytes
  unfolding base58check_transparent_address
  from_p2pkh_payload payload = map_err map_ledger_crypto_error (
      base58check_transparent_address (take p2pkh_prefix_len payload)
        (drop p2pkh_prefix_len payload))

  unfoldable pub from_public_key_hash : Bytes → Result AppSw Bytes
  unfolding from_p2pkh_payload
  from_public_key_hash hash160 = from_p2pkh_payload (transparent_address_prefix ++ hash160)

  unfoldable pub from_output_script : Bytes → Result AppSw Bytes
  unfolding from_p2pkh_payload output_script_to_transparent_payload
  from_output_script script = do
    payload ← output_script_to_transparent_payload script
    from_p2pkh_payload payload

  -- `<[u8] as ToHash160>::hash160`.
  unfoldable pub hash160 : Bytes → Result AppSw Bytes
  hash160 bytes = do
    digest ← ok_or (sha256 bytes) incorrect_data
    ok_or (ripemd160 digest) incorrect_data
