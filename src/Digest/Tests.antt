-- ===== src/Digest/Tests.antt =====
-- The signature digests over a hash that keeps what it is fed.
use app_zcash.Base.{◌≡◌, refl, false, [], ◌∷◌, ◌++◌, none, some, ok}
use app_zcash.Base.Bytes.{Bytes}
use app_zcash.Sdk.{HashOps}
use app_zcash.Tx.{TxInfo, TxVersion, v5}
use app_zcash.Digest.{
  some_transparent_inputs, compute_transparent_input_signature_digest,
  compute_shielded_signature_digest,
}
use app_zcash.Digest.Tree.{signed, shielded_mode}
use app_zcash.Digest.Zip244.{
  IsStreaming, compute_shielded_signature_digest_lem,
  compute_transparent_input_signature_digest_lem,
}

abbrev pub transcript : HashOps (Bytes × Bytes)
transcript = record {
  fresh = ([], []);
  init_with_perso = λ p. some (p, []);
  update = λ h b. some (h.0, h.1 ++ b);
  finalize = λ h. some (h.0 ++ h.1, h);
}

abbrev pub joined : Bytes → Bytes → Bytes
joined p d = p ++ d

abbrev pub transcript_streams : IsStreaming transcript joined
transcript_streams = record {
  fed = λ h. h;
  starts = λ p. ((p, []), refl, refl);
  feeds = λ h b. ((h.0, h.1 ++ b), refl, refl);
  ends = λ h. (h, refl);
}

abbrev pub v5_bytes : TxVersion → Bytes
v5_bytes version = 5 ∷ 0 ∷ 0 ∷ 0x80 ∷ []

-- A transaction of version 5 on a branch.
abbrev pub on_branch : TxInfo
on_branch = record {
  tx_version = some v5;
  branch_id = some 0xC8E7_1055;
  locktime = 0;
  sighash_type = 0x81;
  expiry_height = 7;
  total_amount = 100;
  fees = 10;
  outputs = [];
  retained_memo_bytes = 0;
  displayed_shielded_outputs = 0;
  is_change_found = false;
  change_pk_hash = none;
  change_account = none;
  prevouts_hash = 1 ∷ [];
  sequence_hash = 2 ∷ [];
  outputs_hash = 3 ∷ [];
  amounts_hash = 4 ∷ [];
  scripts_hash = 5 ∷ [];
  header_digest = [];
  orchard_digest = 6 ∷ [];
  signature_digest = [];
  ironwood_digest = [];
  is_v6 = false;
  has_ironwood_bundle = false;
  branch_id_raw = 0;
}

compute_shielded_signature_digest_lem_example :
    compute_shielded_signature_digest transcript v5_bytes (9 ∷ []) on_branch 2 1
    ≡ ok (signed joined v5_bytes (9 ∷ []) on_branch v5 0xC8E7_1055 (shielded_mode joined 2 1))
compute_shielded_signature_digest_lem_example =
    compute_shielded_signature_digest_lem transcript joined transcript_streams v5_bytes (9 ∷ [])
      on_branch v5 0xC8E7_1055 2 1 refl refl

compute_transparent_input_signature_digest_lem_example :
    compute_transparent_input_signature_digest transcript v5_bytes (9 ∷ []) on_branch (7 ∷ []) 1
    ≡ ok (
        signed joined v5_bytes (9 ∷ []) on_branch v5 0xC8E7_1055 (some_transparent_inputs (7 ∷ [])))
compute_transparent_input_signature_digest_lem_example =
    compute_transparent_input_signature_digest_lem transcript joined transcript_streams v5_bytes
      (9 ∷ []) on_branch v5 0xC8E7_1055 (7 ∷ []) refl refl
