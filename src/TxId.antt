-- ===== src/TxId.antt =====
-- src/parser/compute.rs, `tx_id`: the ID of a transaction whose trusted input is computed, and the
-- digests that the first pass of a signature keeps; src/tx.rs, `init_v5_tx_hashers`.
pub mod Root
pub mod Total
mod Tests
use app_zcash.Base.{
  ℕ, ◌+◌, Bool, true, false, List, [], ◌∷◌, ◌++◌, Option, none, some, if◌then◌else◌, ok, err, ◌>>=◌,
}
use app_zcash.Base.Bytes.{Bytes}
use app_zcash.Sdk.{HashOps, Hashing}
use app_zcash.Tx.{
  TxInfo, TxVersion, SupportedTxVersion, supported_v4, supported_v5, supported_v6, Hashers,
  TrustedInputInfo, TxSigningState,
}
use app_zcash.ParserError.{ParserSourceError, Parsed, try_ok, hash}
use app_zcash.Personalization.{
  zcash_tx_personalization_prefix, zcash_headers_hash_personalization,
  zcash_transparent_hash_personalization, zcash_sapling_hash_personalization,
  zcash_ironwood_hash_personalization, zcash_prevouts_hash_personalization,
  zcash_sequence_hash_personalization, zcash_transparent_amounts_hash_personalization,
  zcash_transparent_scripts_hash_personalization,
}
use app_zcash.Output.{zcash_outputs_hash_personalization}
use app_zcash.Digest.{
  le32, v6_tx_version, overwintered_flag, v6_version_group_id, expect, hashed, written,
  supported_tx_version, feed, digest,
}

pub record LegacyParserCtx (H : Type 0) : Type 0 where
  pub tx_state : TxSigningState
  pub tx_info : TxInfo
  pub trusted_input_info : TrustedInputInfo
  pub hashers : Hashers H

module _ {H : Type 0} (hashing : Hashing H) where
  unfoldable pub init_v5_tx_hashers : Bytes → Hashers H → Parsed (Hashers H)
  init_v5_tx_hashers zcash_orchard_v5_hash_personalization hs = do
    prevouts ← try_ok (hashing.blake.init_with_perso zcash_prevouts_hash_personalization) hash
    sequence ← try_ok (hashing.blake.init_with_perso zcash_sequence_hash_personalization) hash
    outputs ← try_ok (hashing.blake.init_with_perso zcash_outputs_hash_personalization) hash
    amounts ←
        try_ok (hashing.blake.init_with_perso zcash_transparent_amounts_hash_personalization) hash
    scripts ←
        try_ok (hashing.blake.init_with_perso zcash_transparent_scripts_hash_personalization) hash
    sapling ← try_ok (hashing.blake.init_with_perso zcash_sapling_hash_personalization) hash
    orchard ← try_ok (hashing.blake.init_with_perso zcash_orchard_v5_hash_personalization) hash
    ironwood ← try_ok (hashing.blake.init_with_perso zcash_ironwood_hash_personalization) hash
    ok (record hs {
      prevouts_hasher = prevouts;
      sequence_hasher = sequence;
      outputs_hasher = outputs;
      amounts_hasher = amounts;
      scripts_hasher = scripts;
      sapling_hasher = sapling;
      orchard_hasher = orchard;
      ironwood_hasher = ironwood;
    })

  -- `finalize_and_log_hash` of src/parser.rs, and every other `finalize` into a digest.
  unfoldable pub finalize_and_log_hash : H → Parsed (Bytes × H)
  finalize_and_log_hash hasher = try_ok (hashing.blake.finalize hasher) hash

  unfoldable pub write_header_version :
      (TxVersion → Bytes) → TxInfo → Bool → Parsed (List (Bytes × ParserSourceError))
  write_header_version write_version info true =
      ok
        (hashed (le32 (v6_tx_version + overwintered_flag)) ∷ hashed (le32 v6_version_group_id) ∷ [])
  write_header_version write_version info false = do
    tx_version ← expect info.tx_version
    ok (written (write_version tx_version) ∷ [])

  -- The last child of a v6 root.
  unfoldable pub ironwood_child :
      Bool → Hashers H → Parsed (List (Bytes × ParserSourceError) × Hashers H)
  unfolding finalize_and_log_hash
  ironwood_child false hs = ok ([], hs)
  ironwood_child true hs = do
    (d, h) ← finalize_and_log_hash hs.ironwood_hasher
    ok (hashed d ∷ [], record hs { ironwood_hasher = h })

  unfoldable pub tx_id_v5_v6 :
      (TxVersion → Bytes) → LegacyParserCtx H → ℕ → Bool → Parsed (LegacyParserCtx H)
  tx_id_v5_v6 write_version ctx branch_id is_v6 = do
    (prevouts_hash, prevouts) ← finalize_and_log_hash ctx.hashers.prevouts_hasher
    (sequence_hash, sequence) ← finalize_and_log_hash ctx.hashers.sequence_hasher
    (outputs_hash, outputs) ← finalize_and_log_hash ctx.hashers.outputs_hasher
    version ← write_header_version write_version ctx.tx_info is_v6
    header_hash ← digest hashing.blake zcash_headers_hash_personalization (
        version
        ++ hashed (le32 branch_id)
          ∷ hashed (le32 ctx.tx_info.locktime)
          ∷ hashed (le32 ctx.tx_info.expiry_height)
          ∷ [])
    transparent_hash ←
        digest hashing.blake zcash_transparent_hash_personalization
          (hashed prevouts_hash ∷ hashed sequence_hash ∷ hashed outputs_hash ∷ [])
    (sapling_hash, sapling) ← finalize_and_log_hash ctx.hashers.sapling_hasher
    (orchard_hash, orchard) ← finalize_and_log_hash ctx.hashers.orchard_hasher
    (ironwood, hs) ← ironwood_child is_v6 (record (ctx.hashers) {
      prevouts_hasher = prevouts;
      sequence_hasher = sequence;
      outputs_hasher = outputs;
      sapling_hasher = sapling;
      orchard_hasher = orchard;
    })
    id ← digest hashing.blake (zcash_tx_personalization_prefix ++ le32 branch_id) (
        hashed header_hash
        ∷ hashed transparent_hash
        ∷ hashed sapling_hash
        ∷ hashed orchard_hash
        ∷ ironwood)
    ok (record ctx {
      trusted_input_info = record (ctx.trusted_input_info) { tx_id = id };
      hashers = hs;
    })

  -- The arm for V4: SHA-256 twice.
  unfoldable pub tx_id_v4 : LegacyParserCtx H → Parsed (LegacyParserCtx H)
  tx_id_v4 ctx = do
    (first_round_hash, h) ← try_ok (hashing.sha.finalize ctx.hashers.v4_tx_hasher) hash
    second_round ← try_ok (hashing.sha.update hashing.sha.fresh first_round_hash) hash
    (id, _) ← try_ok (hashing.sha.finalize second_round) hash
    ok (record ctx {
      trusted_input_info = record (ctx.trusted_input_info) { tx_id = id };
      hashers = record (ctx.hashers) { v4_tx_hasher = h };
    })

  unfoldable pub tx_id_of :
      SupportedTxVersion → (TxVersion → Bytes) → LegacyParserCtx H → ℕ → Parsed (LegacyParserCtx H)
  unfolding tx_id_v5_v6 tx_id_v4
  tx_id_of supported_v4 write_version ctx branch_id = tx_id_v4 ctx
  tx_id_of supported_v5 write_version ctx branch_id = tx_id_v5_v6 write_version ctx branch_id false
  tx_id_of supported_v6 write_version ctx branch_id = tx_id_v5_v6 write_version ctx branch_id true

  unfoldable pub compute_tx_id :
      (TxVersion → Bytes) → LegacyParserCtx H → Parsed (LegacyParserCtx H)
  unfolding tx_id_of supported_tx_version
  compute_tx_id write_version ctx = do
    branch_id ← expect ctx.tx_info.branch_id
    version ← supported_tx_version ctx.tx_info
    tx_id_of version write_version ctx branch_id

  unfoldable pub finalize_signature_input_hash : LegacyParserCtx H → Parsed (LegacyParserCtx H)
  unfolding finalize_and_log_hash
  finalize_signature_input_hash ctx = do
    (prevouts, h1) ← finalize_and_log_hash ctx.hashers.prevouts_hasher
    (sequence, h2) ← finalize_and_log_hash ctx.hashers.sequence_hasher
    (amounts, h3) ← finalize_and_log_hash ctx.hashers.amounts_hasher
    (scripts, h4) ← finalize_and_log_hash ctx.hashers.scripts_hasher
    ok (record ctx {
      tx_info = record (ctx.tx_info) {
        prevouts_hash = prevouts;
        sequence_hash = sequence;
        amounts_hash = amounts;
        scripts_hash = scripts;
      };
      hashers = record (ctx.hashers) {
        prevouts_hasher = h1;
        sequence_hasher = h2;
        amounts_hasher = h3;
        scripts_hasher = h4;
      };
    })
