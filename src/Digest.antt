-- ===== src/Digest.antt =====
-- src/parser/compute.rs: the digests of ZIP-244 and ZIP-229 that are signed, and the transaction ID.
pub mod Tree
pub mod Zip244
pub mod Total
pub mod Tests
use app_zcash.Base.{
  ℕ, ◌+◌, ◌*◌, Bool, true, false, List, [], ◌∷◌, ◌++◌, Option, none, some, if◌then◌else◌, ◌==◌, ok,
  err, ◌>>=◌, replicate, length,
}
use app_zcash.Base.Bytes.{Bytes, to_le_bytes, bytes_eq}
use app_zcash.Sdk.{HashOps, Hashing, Wire}
use app_zcash.Tx.{
  TxInfo, TxVersion, v4, v5, v6, other_version, SupportedTxVersion, supported_v4, supported_v5,
  supported_v6, Hashers, TrustedInputInfo,
}
use app_zcash.ParserError.{ParserSourceError, Parsed, try_ok, io, hash, panicked}
use app_zcash.Personalization.{
  zcash_tx_personalization_prefix, zcash_headers_hash_personalization,
  zcash_transparent_hash_personalization, zcash_sapling_hash_personalization,
  zcash_transparent_input_hash_personalization, zcash_ironwood_hash_personalization,
  zcash_orchard_hash_personalization_v6,
}

abbrev pub sighash_all : ℕ
sighash_all = 0x01

abbrev pub overwintered_flag : ℕ
overwintered_flag = 0x8000_0000

abbrev pub v6_tx_version : ℕ
v6_tx_version = 6

abbrev pub v6_version_group_id : ℕ
v6_version_group_id = 0xD884_B698

-- `u32::to_le_bytes`.
abbrev pub le32 : ℕ → Bytes
le32 n = to_le_bytes 4 n

-- `Option::expect`.
abbrev pub expect : {A : Type 0} → Option A → Parsed A
expect o = try_ok o panicked

-- What a hasher is fed, with the error that a failure gives: `update` fails as a hash does, and a
-- write through `as_writer` as a writer does.
abbrev pub hashed : Bytes → Bytes × ParserSourceError
hashed b = (b, hash)

abbrev pub written : Bytes → Bytes × ParserSourceError
written b = (b, io)

-- `TxInfo::tx_version`: a version that the header parser refuses panics here.
abbrev pub as_supported : TxVersion → Parsed SupportedTxVersion
as_supported v4 = ok supported_v4
as_supported v5 = ok supported_v5
as_supported v6 = err panicked
as_supported other_version = err panicked

unfoldable pub supported_tx_version : TxInfo → Parsed SupportedTxVersion
supported_tx_version info =
    if info.is_v6 then ok supported_v6 else (expect info.tx_version >>= as_supported)

pub data SighHashComputeMode : Type 0 where
  no_transparent_inputs_or_outputs no_transparent_inputs : SighHashComputeMode
  some_transparent_inputs : Bytes → SighHashComputeMode

module _ {H : Type 0} (blake : HashOps H) where
  -- A run of `update`s and writes.
  unfoldable pub feed : H → List (Bytes × ParserSourceError) → Parsed H
  feed h [] = ok h
  feed h ((b, e) ∷ parts) = try_ok (blake.update h b) e >>= λ h'. feed h' parts

  -- A hasher from its personalization to its digest.
  unfoldable pub digest : Bytes → List (Bytes × ParserSourceError) → Parsed Bytes
  unfolding feed
  digest perso parts = do
    h ← try_ok (blake.init_with_perso perso) hash
    h' ← feed h parts
    (d, _) ← try_ok (blake.finalize h') hash
    ok d

  unfoldable pub empty_digest : Bytes → Parsed Bytes
  unfolding digest
  empty_digest personalization = digest personalization []

  unfoldable pub empty_txin_signature_digest : Parsed Bytes
  unfolding empty_digest
  empty_txin_signature_digest = empty_digest zcash_transparent_input_hash_personalization

  unfoldable pub transparent_signature_digest : TxInfo → SighHashComputeMode → ℕ → Parsed Bytes
  unfolding digest
  transparent_signature_digest info no_transparent_inputs_or_outputs sighash_type =
      digest zcash_transparent_hash_personalization []
  transparent_signature_digest info no_transparent_inputs sighash_type =
      digest zcash_transparent_hash_personalization
        (hashed info.prevouts_hash ∷ hashed info.sequence_hash ∷ hashed info.outputs_hash ∷ [])
  transparent_signature_digest info (some_transparent_inputs txin_sig_digest) sighash_type =
      digest zcash_transparent_hash_personalization (
        hashed (sighash_type ∷ [])
        ∷ hashed info.prevouts_hash
        ∷ hashed info.amounts_hash
        ∷ hashed info.scripts_hash
        ∷ hashed info.sequence_hash
        ∷ hashed info.outputs_hash
        ∷ hashed txin_sig_digest
        ∷ [])

  -- The digest of one transparent input, over the script as `write_transparent_script` writes it.
  unfoldable pub transparent_input_txin_signature_digest :
      Wire → Bytes → Bytes → Bytes → ℕ → Parsed Bytes
  unfolding digest
  transparent_input_txin_signature_digest wire prevout amount script_pubkey sequence =
      digest zcash_transparent_input_hash_personalization (
        hashed prevout
        ∷ hashed amount
        ∷ written (wire.write_compact_size (length script_pubkey))
        ∷ written script_pubkey
        ∷ hashed (le32 sequence)
        ∷ [])

  module _ (write_version : TxVersion → Bytes) (zcash_orchard_v5_hash_personalization : Bytes) where
    -- The version and the branch of a header: `compute_header_digest` takes a v6 branch as it came.
    unfoldable pub header_prefix : TxInfo → TxVersion → ℕ → List (Bytes × ParserSourceError)
    header_prefix info version branch_id =
        if info.is_v6
        then hashed (le32 (v6_tx_version + overwintered_flag))
          ∷ hashed (le32 v6_version_group_id)
          ∷ hashed (le32 info.branch_id_raw)
          ∷ []
        else written (write_version version) ∷ hashed (le32 branch_id) ∷ []

    unfoldable pub compute_header_digest : TxInfo → Parsed TxInfo
    unfolding digest header_prefix
    compute_header_digest info = do
      version ← expect info.tx_version
      branch_id ← expect info.branch_id
      d ← digest zcash_headers_hash_personalization (
          header_prefix info version branch_id
          ++ hashed (le32 info.locktime) ∷ hashed (le32 info.expiry_height) ∷ [])
      ok (record info { header_digest = d })

    unfoldable pub orchard_digest_or_empty : TxInfo → Parsed Bytes
    unfolding empty_digest
    orchard_digest_or_empty info =
        if bytes_eq info.orchard_digest (replicate 32 0)
        then empty_digest (
            if info.is_v6
            then zcash_orchard_hash_personalization_v6
            else zcash_orchard_v5_hash_personalization)
        else ok info.orchard_digest

    -- What a v6 digest has after the Orchard one.
    unfoldable pub ironwood_part : TxInfo → Parsed (List (Bytes × ParserSourceError))
    unfolding empty_digest
    ironwood_part info =
        if info.is_v6
        then ((if info.has_ironwood_bundle
              then ok info.ironwood_digest
              else empty_digest zcash_ironwood_hash_personalization)
            >>= λ d. ok (hashed d ∷ []))
        else ok []

    unfoldable pub finalize_signature_hash_from_transparent_digest : TxInfo → Bytes → Parsed TxInfo
    unfolding digest empty_digest orchard_digest_or_empty ironwood_part
    finalize_signature_hash_from_transparent_digest info transparent_digest = do
      branch_id ← expect info.branch_id
      sapling_digest ← empty_digest zcash_sapling_hash_personalization
      orchard_digest ← orchard_digest_or_empty info
      ironwood ← ironwood_part info
      d ← digest (zcash_tx_personalization_prefix ++ le32 branch_id) (
          hashed info.header_digest
          ∷ hashed transparent_digest
          ∷ hashed sapling_digest
          ∷ hashed orchard_digest
          ∷ ironwood)
      ok (record info { signature_digest = d })

    unfoldable pub finalize_signature_hash : TxInfo → SighHashComputeMode → ℕ → Parsed TxInfo
    unfolding compute_header_digest transparent_signature_digest
        finalize_signature_hash_from_transparent_digest
    finalize_signature_hash info mode sighash_type = do
      info1 ← compute_header_digest info
      transparent_digest ← transparent_signature_digest info1 mode sighash_type
      finalize_signature_hash_from_transparent_digest info1 transparent_digest

    unfoldable pub compute_no_transparent_input_signature_digest : TxInfo → ℕ → ℕ → Parsed TxInfo
    unfolding finalize_signature_hash
    compute_no_transparent_input_signature_digest info transparent_output_count sighash =
        finalize_signature_hash (record info { sighash_type = sighash })
          (if transparent_output_count == 0
            then no_transparent_inputs_or_outputs
            else no_transparent_inputs)
          sighash

    unfoldable pub compute_transparent_input_signature_digest : TxInfo → Bytes → ℕ → Parsed TxInfo
    unfolding finalize_signature_hash
    compute_transparent_input_signature_digest info txin_sig_digest sighash =
        finalize_signature_hash (record info { sighash_type = sighash })
          (some_transparent_inputs txin_sig_digest) sighash

    unfoldable pub compute_shielded_signature_digest : TxInfo → ℕ → ℕ → Parsed TxInfo
    unfolding compute_no_transparent_input_signature_digest
        compute_transparent_input_signature_digest empty_txin_signature_digest
    compute_shielded_signature_digest info transparent_input_count transparent_output_count =
        if transparent_input_count == 0
        then compute_no_transparent_input_signature_digest info transparent_output_count sighash_all
        else (empty_txin_signature_digest >>= λ d.
            compute_transparent_input_signature_digest info d sighash_all)
