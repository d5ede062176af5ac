-- ===== src/Digest/Tree.antt =====
-- The digest tree of ZIP-244 and ZIP-229, as the two documents write it down: what the digests of
-- src/parser/compute.rs are compared with.
use app_zcash.Base.{ℕ, zero, suc, ◌+◌, [], ◌∷◌, ◌++◌, if◌then◌else◌, replicate}
use app_zcash.Base.Bytes.{Bytes, bytes_eq}
use app_zcash.Tx.{TxInfo, TxVersion}
use app_zcash.Personalization.{
  zcash_tx_personalization_prefix, zcash_headers_hash_personalization,
  zcash_transparent_hash_personalization, zcash_sapling_hash_personalization,
  zcash_transparent_input_hash_personalization, zcash_ironwood_hash_personalization,
  zcash_orchard_hash_personalization_v6,
}
use app_zcash.Digest.{
  sighash_all, overwintered_flag, v6_tx_version, v6_version_group_id, le32, SighHashComputeMode,
  no_transparent_inputs_or_outputs, no_transparent_inputs, some_transparent_inputs,
}

-- The tree of the digests, as ZIP-244 and ZIP-229 write it down.
module _ (blake : Bytes → Bytes → Bytes) where
  unfoldable pub header_node : (TxVersion → Bytes) → TxInfo → TxVersion → ℕ → Bytes
  header_node write_version info version branch_id = blake zcash_headers_hash_personalization (
      (if info.is_v6
        then le32 (v6_tx_version + overwintered_flag)
          ++ (le32 v6_version_group_id ++ le32 info.branch_id_raw)
        else write_version version ++ le32 branch_id)
      ++ (le32 info.locktime ++ le32 info.expiry_height))

  -- S.2 for SIGHASH_ALL, the only type of signature that the program accepts: of a transaction without
  -- transparent inputs the inputs and outputs of T.2; else the type of the signature, the whole spent
  -- outputs, and the digest of the input that is signed.
  unfoldable pub transparent_node : TxInfo → SighHashComputeMode → Bytes
  transparent_node info no_transparent_inputs_or_outputs =
      blake zcash_transparent_hash_personalization []
  transparent_node info no_transparent_inputs =
      blake zcash_transparent_hash_personalization
        (info.prevouts_hash ++ (info.sequence_hash ++ info.outputs_hash))
  transparent_node info (some_transparent_inputs txin) =
      blake zcash_transparent_hash_personalization (
        sighash_all
        ∷ (info.prevouts_hash
            ++ (info.amounts_hash
                ++ (info.scripts_hash ++ (info.sequence_hash ++ (info.outputs_hash ++ txin))))))

  -- A digest of 32 zeros stands for the bundle that is absent, as in the program: a transaction keeps
  -- no other record of it.
  unfoldable pub orchard_node : Bytes → TxInfo → Bytes
  orchard_node v5_personalization info =
      if bytes_eq info.orchard_digest (replicate 32 0)
      then blake (if info.is_v6 then zcash_orchard_hash_personalization_v6 else v5_personalization)
          []
      else info.orchard_digest

  unfoldable pub ironwood_node : TxInfo → Bytes
  ironwood_node info =
      if info.is_v6
      then (if info.has_ironwood_bundle
          then info.ironwood_digest
          else blake zcash_ironwood_hash_personalization [])
      else []

  unfoldable pub signature_root : Bytes → TxInfo → ℕ → Bytes → Bytes → Bytes
  signature_root v5_personalization info branch_id header transparent =
      blake (zcash_tx_personalization_prefix ++ le32 branch_id) (
        header
        ++ (transparent
            ++ (blake zcash_sapling_hash_personalization []
                ++ (orchard_node v5_personalization info ++ ironwood_node info))))

  -- The transaction with the digest that is signed, for SIGHASH_ALL.
  unfoldable pub signed :
      (TxVersion → Bytes) → Bytes → TxInfo → TxVersion → ℕ → SighHashComputeMode → TxInfo
  signed write_version v5_personalization info version branch_id mode =
      let header = header_node write_version info version branch_id in
      record info {
        sighash_type = sighash_all;
        header_digest = header;
        signature_digest =
            signature_root v5_personalization info branch_id header (transparent_node info mode);
      }

  -- S.2 for a shielded signature: no input is the one that is signed.
  unfoldable pub shielded_mode : ℕ → ℕ → SighHashComputeMode
  shielded_mode zero zero = no_transparent_inputs_or_outputs
  shielded_mode zero (suc outputs) = no_transparent_inputs
  shielded_mode (suc inputs) outputs =
      some_transparent_inputs (blake zcash_transparent_input_hash_personalization [])
