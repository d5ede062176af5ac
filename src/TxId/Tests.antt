-- ===== src/TxId/Tests.antt =====
-- The transaction ID over hashes that keep what they are fed.
use app_zcash.Base.{◌≡◌, refl, true, false, [], ◌∷◌, some, ok}
use app_zcash.Base.Bytes.{Bytes}
use app_zcash.Sdk.{Hashing}
use app_zcash.Tx.{v4, v5, Hashers, supported_v4, supported_v5}
use app_zcash.Digest.{supported_tx_version}
use app_zcash.Digest.Tests.{transcript, joined, transcript_streams, v5_bytes, on_branch}
use app_zcash.TxId.{LegacyParserCtx, compute_tx_id, finalize_signature_input_hash}
use app_zcash.TxId.Root.{
  id_root, with_id, compute_tx_id_lem, compute_tx_id_v4_lem, finalize_signature_input_hash_lem,
}

abbrev hashing : Hashing (Bytes × Bytes)
hashing = record { blake = transcript; sha = transcript }

-- Hashers that were fed a byte each.
abbrev fed_hashers : Hashers (Bytes × Bytes)
fed_hashers = record {
  prevouts_hasher = ([], 1 ∷ []);
  sequence_hasher = ([], 2 ∷ []);
  outputs_hasher = ([], 3 ∷ []);
  amounts_hasher = ([], 4 ∷ []);
  scripts_hasher = ([], 5 ∷ []);
  orchard_hasher = ([], 6 ∷ []);
  sapling_hasher = ([], 7 ∷ []);
  tx_memo_hasher = ([], []);
  tx_compact_hasher = ([], []);
  tx_non_compact_hasher = ([], []);
  v4_tx_hasher = ([], 8 ∷ []);
  ironwood_hasher = ([], 9 ∷ []);
}

abbrev fed_ctx : LegacyParserCtx (Bytes × Bytes)
fed_ctx = record {
  tx_state = record {
    is_tx_parsed_once = false;
    already_signed_input_count = 0;
    total_input_count = 0;
  };
  tx_info = on_branch;
  trusted_input_info = record {
    input_idx = some 0;
    is_input_processed = true;
    amount = 50;
    tx_id = [];
  };
  hashers = fed_hashers;
}

abbrev fed_v4 : LegacyParserCtx (Bytes × Bytes)
fed_v4 = record fed_ctx { tx_info = record on_branch { tx_version = some v4 } }

is_v5 : supported_tx_version on_branch ≡ ok supported_v5
unfolding supported_tx_version
is_v5 = refl

is_v4 : supported_tx_version fed_v4.tx_info ≡ ok supported_v4
unfolding supported_tx_version
is_v4 = refl

compute_tx_id_lem_example :
    (hs : Hashers (Bytes × Bytes)) × (compute_tx_id hashing v5_bytes fed_ctx
      ≡ ok (
          with_id hashing joined joined transcript_streams transcript_streams v5_bytes fed_ctx
            (id_root hashing joined joined transcript_streams transcript_streams v5_bytes false v5
              on_branch 0xC8E7_1055 fed_hashers)
            hs))
compute_tx_id_lem_example =
    compute_tx_id_lem hashing joined joined transcript_streams transcript_streams v5_bytes fed_ctx
      v5 0xC8E7_1055 false refl refl is_v5

compute_tx_id_v4_lem_example :
    (hs : Hashers (Bytes × Bytes)) × (compute_tx_id hashing v5_bytes fed_v4
      ≡ ok (
          with_id hashing joined joined transcript_streams transcript_streams v5_bytes fed_v4
            (8 ∷ [])
            hs))
compute_tx_id_v4_lem_example =
    compute_tx_id_v4_lem hashing joined joined transcript_streams transcript_streams v5_bytes fed_v4
      0xC8E7_1055 refl is_v4 refl

finalize_signature_input_hash_lem_example :
    (hs : Hashers (Bytes × Bytes)) × (finalize_signature_input_hash hashing fed_ctx
      ≡ ok (record fed_ctx {
        tx_info = record on_branch {
          prevouts_hash = 1 ∷ [];
          sequence_hash = 2 ∷ [];
          amounts_hash = 4 ∷ [];
          scripts_hash = 5 ∷ [];
        };
        hashers = hs;
      }))
finalize_signature_input_hash_lem_example =
    finalize_signature_input_hash_lem hashing joined joined transcript_streams transcript_streams
      v5_bytes fed_ctx
