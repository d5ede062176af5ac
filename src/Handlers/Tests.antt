-- ===== src/Handlers/Tests.antt =====
-- A transaction with one trusted input of 100, an output of 60 and change of 30, from its first packet
-- to its signature.
use app_zcash.Base.{
  ℕ, ◌+◌, length, ◌≡◌, refl, true, false, [], ◌∷◌, ◌++◌, none, some, ok, err, arith, replicate,
  Result, All,
}
use app_zcash.Base.Bytes.{Bytes}
use app_zcash.Status.{AppSw}
use app_zcash.Sdk.{HashOps}
use app_zcash.Session.{
  signature, init_in_place, default_tx_info, reset, reset_for_new_transaction,
  note_signature_released, set_finished, set_extra_header_data,
}
use app_zcash.Script.{
  check_output_displayable, output_script_is_op_return, output_script_is_regular,
  output_script_is_p2sh, pays_change,
}
use app_zcash.Address.{
  from_output_script, from_p2pkh_payload, base58check_transparent_address, double_sha256_checksum,
  output_script_to_transparent_payload,
}
use app_zcash.Tx.{v5, transparent, classify, check_change_returns_to_signing_account}
use app_zcash.Path.{Bip32Path, try_from_bytes, from_prefixed_bytes, from_dpath, as_slice, as_chunks}
use app_zcash.Path.Compliance.{
  check_bip44_compliance, derivation_account, check_mode, check_prefix, check_shaped,
  is_zip32_shape, mode_admits, check_zip32, check_bip44, check_full, is_declared_purpose,
}
use app_zcash.Wire.{secure_memcmp, memcmp_error}
use app_zcash.Digest.{
  digest, feed, empty_digest, supported_tx_version, header_prefix, compute_header_digest,
  orchard_digest_or_empty, ironwood_part, transparent_signature_digest,
  finalize_signature_hash_from_transparent_digest, finalize_signature_hash,
  compute_transparent_input_signature_digest,
}
use app_zcash.TxId.{init_v5_tx_hashers, finalize_and_log_hash, finalize_signature_input_hash}
use app_zcash.Output as Output
use app_zcash.Legacy.{
  LegacyOps, IsLegacyOps, transaction_presign_ready, new, set_transparent_output_count,
  is_presign_ready, is_ready_to_sign, feed_by_version,
}
use app_zcash.Legacy.Transparent.{
  trusted_input_mode, read_trusted_input_mode, fill_script, read_script_size, check_trusted_input,
  open_trusted_input, read_trusted_input, feed_signed_amount, parse_input_signature_mode,
  feed_signed_script, finish_signature_inputs, finish_inputs, close_input, parse_input_script,
}
use app_zcash.Legacy.Parse.{
  note_input_count, header_v5, header_hashers, no_inputs, header_ctx, parse_header, parse_input_by,
  step_from, parse_loop, parse,
}
use app_zcash.Legacy.Total.Tests.{ops, is_ops}
use app_zcash.Handlers.{
  HandlerOps, Context, parsers, parse_legacy, begin_input_start, handler_hash_input_start,
  install_change, parse_outputs, handler_hash_input_finalize_full, parse_extra_data, review_tx,
  finish_header, with_parity, append_signature, count_signature, sign_input, handler_hash_sign,
}
use app_zcash.Handlers.Safe.{Approved}
use app_zcash.Handlers.Signing.{IsSignature, IsReleased}
use app_zcash.Handlers.Life.{
  Served, declares_in_time, opened, started_inputs, finalized_inputs, signed_input,
  handler_hash_sign-Approved, IsHome, handler_hash_sign-IsHome,
}

-- A hash that counts what it is fed, which keeps the run small.
abbrev count_all : HashOps ℕ
count_all = record {
  fresh = 0;
  init_with_perso = λ p. some 0;
  update = λ h b. some (h + length b);
  finalize = λ h. some (h ∷ [], 0);
}

abbrev counting : LegacyOps ℕ
counting = record {
  hashing = record { blake = count_all; sha = count_all };
  wire = ops.wire;
  read_tx_version = ops.read_tx_version;
  write_tx_version = ops.write_tx_version;
  branch_id = ops.branch_id;
  read_outpoint = ops.read_outpoint;
  zat_balance = ops.zat_balance;
  hmac_sha256 = ops.hmac_sha256;
  trusted_input_key = ops.trusted_input_key;
  zcash_orchard_v5_hash_personalization = [];
  zcash_orchard_actions_compact_hash_personalization = [];
  zcash_orchard_actions_memos_hash_personalization = [];
  zcash_orchard_actions_noncompact_hash_personalization = [];
}

is_counting : IsLegacyOps counting
is_counting = record {
  is_wire = is_ops.is_wire;
  version_takes = is_ops.version_takes;
  outpoint_takes = is_ops.outpoint_takes;
  sha_updates = λ h b. (h + length b, refl);
}

abbrev device : HandlerOps ℕ (Unit {0})
device = record {
  legacy = counting;
  address = record { sha256 = λ b. some b; ripemd160 = λ b. some b; bs58_encode = λ b. some b };
  new_pczt = tt;
  is_session_active = λ z. false;
  public_key_hash = λ path. ok (replicate 20 4);
  ui_display_tx = λ outputs fees transfer locktime expiry. ok true;
  deterministic_sign = λ path digest. some (0x30 ∷ 0x44 ∷ [], 1);
}

abbrev Device : Type 0
Device = Context device

-- The header, a trusted input under the key of the device, no script, and the sequence.
abbrev inputs : Bytes
inputs =
    5
    ∷ 0
    ∷ 0
    ∷ 0
    ∷ 0
    ∷ 1
    ∷ 1
    ∷ 56
    ∷ 0x32
    ∷ 0
    ∷ 9
    ∷ 9
    ∷ (replicate 36 7
        ++ 100 ∷ 0 ∷ 0 ∷ 0 ∷ 0 ∷ 0 ∷ 0 ∷ 0 ∷ 1 ∷ 2 ∷ 3 ∷ 4 ∷ 5 ∷ 6 ∷ 7 ∷ 8 ∷ 0 ∷ 255 ∷ 255 ∷ 255
          ∷ 255 ∷ [])

-- The key hash of the device is twenty fours.
abbrev script_of : Bytes → Bytes
script_of key_hash = 25 ∷ 0x76 ∷ 0xA9 ∷ 0x14 ∷ (key_hash ++ 0x88 ∷ 0xAC ∷ [])

abbrev outputs : Bytes
outputs =
    2
    ∷ 60
    ∷ 0
    ∷ 0
    ∷ 0
    ∷ 0
    ∷ 0
    ∷ 0
    ∷ 0
    ∷ (script_of (replicate 20 3) ++ (30 ∷ 0 ∷ 0 ∷ 0 ∷ 0 ∷ 0 ∷ 0 ∷ 0 ∷ script_of (replicate 20 4)))

-- 44' / 133' / 0' / 1 / 2.
abbrev change_info : Bytes
change_info =
    5 ∷ 0x80 ∷ 0 ∷ 0 ∷ 44 ∷ 0x80 ∷ 0 ∷ 0 ∷ 133 ∷ 0x80 ∷ 0 ∷ 0 ∷ 0 ∷ 0 ∷ 0 ∷ 0 ∷ 1 ∷ 0 ∷ 0 ∷ 0 ∷ 2
    ∷ []

-- Locktime, sighash type and expiry height behind two unused bytes.
abbrev header : Bytes
header = 0 ∷ 0 ∷ 0 ∷ 0 ∷ 0 ∷ 7 ∷ 1 ∷ 0 ∷ 0 ∷ 0 ∷ 9 ∷ []

-- 44' / 133' / 0' / 0 / 0.
abbrev path : Bytes
path =
    5 ∷ 0x80 ∷ 0 ∷ 0 ∷ 44 ∷ 0x80 ∷ 0 ∷ 0 ∷ 133 ∷ 0x80 ∷ 0 ∷ 0 ∷ 0 ∷ 0 ∷ 0 ∷ 0 ∷ 0 ∷ 0 ∷ 0 ∷ 0 ∷ 0
    ∷ []

abbrev or_else : Result AppSw (Bytes × Device) → Device → Device
or_else (ok (reply, c)) d = c
or_else (err e) d = d

abbrev c0 : Device
c0 = init_in_place counting.hashing (parsers device) none signature

abbrev c1 : Device
c1 = or_else (handler_hash_input_start device (some inputs) true false c0) c0

abbrev c2 : Device
c2 = or_else (handler_hash_input_finalize_full device (some change_info) true c1) c1

abbrev c3 : Device
c3 = or_else (handler_hash_input_finalize_full device (some outputs) false c2) c2

-- The context behind the review.
abbrev c4 : Device
c4 = record c0 {
  is_extra_header_data_set = true;
  tx_signing_state = record {
    is_tx_parsed_once = true;
    already_signed_input_count = 0;
    total_input_count = 1;
  };
  tx_info = record default_tx_info {
    tx_version = some v5;
    branch_id = some 0;
    locktime = 7;
    sighash_type = 1;
    expiry_height = 9;
    total_amount = 100;
    fees = 10;
    outputs =
        record {
          amount = 60;
          address = 28 ∷ 184 ∷ (replicate 20 3 ++ 28 ∷ 184 ∷ 3 ∷ 3 ∷ []);
          is_change = false;
          memo = none;
          pool = transparent;
        }
        ∷ record {
          amount = 30;
          address = 28 ∷ 184 ∷ (replicate 20 4 ++ 28 ∷ 184 ∷ 4 ∷ 4 ∷ []);
          is_change = true;
          memo = none;
          pool = transparent;
        }
        ∷ [];
    is_change_found = true;
    change_pk_hash = some (replicate 20 4);
    change_account = some 0x8000_0000;
    prevouts_hash = 36 ∷ [];
    sequence_hash = 4 ∷ [];
    outputs_hash = 68 ∷ [];
    amounts_hash = 8 ∷ [];
    scripts_hash = 1 ∷ [];
  };
  legacy_parser = record (new signature) {
    state = transaction_presign_ready;
    input_count = 1;
    input_parsed_count = 1;
  };
  legacy_output_parser = record {
    state = Output.output_processing_done;
    output_count = 2;
    total_output_amount = 90;
    output_parsed_count = 2;
    current_output_amount = 30;
    script_bytes = [];
  };
}

abbrev c5 : Device
c5 = or_else (handler_hash_input_start device (some inputs) false true c4) c4

abbrev c6 : Device
c6 = or_else (handler_hash_sign device (some path) c5) c5

abbrev Reviewed : Type 0
Reviewed =
    (handler_hash_input_start device (some inputs) true false c0 ≡ ok ([], c1))
    × (handler_hash_input_finalize_full device (some change_info) true c1 ≡ ok ([], c2))
    × (handler_hash_input_finalize_full device (some outputs) false c2 ≡ ok ([], c3))
    × (handler_hash_sign device (some header) c3 ≡ ok ([], c4))
    × (c1.tx_info.is_change_found ≡ false)

abbrev Signed : Type 0
Signed =
    (handler_hash_input_start device (some inputs) false true c4 ≡ ok ([], c5))
    × (handler_hash_sign device (some path) c5 ≡ ok (0x31 ∷ 0x44 ∷ 1 ∷ [], c6))

reviewed : Reviewed
unfolding init_in_place new set_transparent_output_count is_presign_ready is_ready_to_sign
    feed_by_version trusted_input_mode read_trusted_input_mode fill_script read_script_size
    check_trusted_input open_trusted_input read_trusted_input feed_signed_amount
    parse_input_signature_mode feed_signed_script finish_signature_inputs finish_inputs close_input
    parse_input_script note_input_count header_v5 header_hashers no_inputs header_ctx parse_header
    parse_input_by step_from parse_loop parse reset reset_for_new_transaction
    note_signature_released set_finished set_extra_header_data check_output_displayable
    output_script_is_op_return output_script_is_regular output_script_is_p2sh pays_change
    from_output_script from_p2pkh_payload base58check_transparent_address double_sha256_checksum
    output_script_to_transparent_payload classify check_change_returns_to_signing_account
    derivation_account check_mode check_prefix check_shaped is_zip32_shape mode_admits check_zip32
    check_bip44 check_full is_declared_purpose as_chunks try_from_bytes from_prefixed_bytes
    from_dpath as_slice check_bip44_compliance secure_memcmp memcmp_error digest feed empty_digest
    supported_tx_version header_prefix compute_header_digest orchard_digest_or_empty ironwood_part
    transparent_signature_digest finalize_signature_hash_from_transparent_digest
    finalize_signature_hash compute_transparent_input_signature_digest init_v5_tx_hashers
    finalize_and_log_hash finalize_signature_input_hash Output.parse Output.parse_loop
    Output.step_from Output.parse_count Output.parse_output Output.parse_script Output.new
    Output.is_finished Output.close_script Output.review_output Output.push_output
    Output.finish_output Output.finalize_outputs Output.settle_fees Output.reveal_self_transfer
    Output.checked_sub parse_legacy begin_input_start handler_hash_input_start install_change
    parse_outputs handler_hash_input_finalize_full parse_extra_data review_tx finish_header
    with_parity append_signature count_signature sign_input handler_hash_sign
reviewed = (refl, refl, refl, refl, refl)

signed : Signed
unfolding init_in_place new set_transparent_output_count is_presign_ready is_ready_to_sign
    feed_by_version trusted_input_mode read_trusted_input_mode fill_script read_script_size
    check_trusted_input open_trusted_input read_trusted_input feed_signed_amount
    parse_input_signature_mode feed_signed_script finish_signature_inputs finish_inputs close_input
    parse_input_script note_input_count header_v5 header_hashers no_inputs header_ctx parse_header
    parse_input_by step_from parse_loop parse reset reset_for_new_transaction
    note_signature_released set_finished set_extra_header_data check_output_displayable
    output_script_is_op_return output_script_is_regular output_script_is_p2sh pays_change
    from_output_script from_p2pkh_payload base58check_transparent_address double_sha256_checksum
    output_script_to_transparent_payload classify check_change_returns_to_signing_account
    derivation_account check_mode check_prefix check_shaped is_zip32_shape mode_admits check_zip32
    check_bip44 check_full is_declared_purpose as_chunks try_from_bytes from_prefixed_bytes
    from_dpath as_slice check_bip44_compliance secure_memcmp memcmp_error digest feed empty_digest
    supported_tx_version header_prefix compute_header_digest orchard_digest_or_empty ironwood_part
    transparent_signature_digest finalize_signature_hash_from_transparent_digest
    finalize_signature_hash compute_transparent_input_signature_digest init_v5_tx_hashers
    finalize_and_log_hash finalize_signature_input_hash Output.parse Output.parse_loop
    Output.step_from Output.parse_count Output.parse_output Output.parse_script Output.new
    Output.is_finished Output.close_script Output.review_output Output.push_output
    Output.finish_output Output.finalize_outputs Output.settle_fees Output.reveal_self_transfer
    Output.checked_sub parse_legacy begin_input_start handler_hash_input_start install_change
    parse_outputs handler_hash_input_finalize_full parse_extra_data review_tx finish_header
    with_parity append_signature count_signature sign_input handler_hash_sign
signed = (refl, refl)

abbrev life : Served device c5
life =
    started_inputs (some inputs) false true c4 c5 []
      (signed_input (some header) c3 c4 []
        (finalized_inputs (some outputs) false c2 c3 []
          (finalized_inputs (some change_info) true c1 c2 []
            (started_inputs (some inputs) true false c0 c1 [] (opened none signature) reviewed.0)
            reviewed.1)
          reviewed.2)
        reviewed.3)
      signed.0

handler_hash_sign-Approved_example :
    IsReleased device c5 (0x31 ∷ 0x44 ∷ 1 ∷ [], c6)
    × Approved device c5
    × (Output.is_finished c5.legacy_output_parser ≡ true)
handler_hash_sign-Approved_example =
    handler_hash_sign-Approved device is_counting c5 c6 (some path) (0x31 ∷ 0x44 ∷ 1 ∷ []) life
      signed.1 (λ e. ground (arith, e))

-- One output of two is hidden, and all change information came in time.
timely : declares_in_time device life ≡ true
timely = rw reviewed.4 refl

handler_hash_sign-IsHome_example :
    (signing_path : Bip32Path) × IsSignature device c5 signing_path (0x31 ∷ 0x44 ∷ 1 ∷ [])
    × All (IsHome device (declares_in_time device life) signing_path) c5.tx_info.outputs
handler_hash_sign-IsHome_example =
    handler_hash_sign-IsHome device is_counting c5 c6 (some path) (0x31 ∷ 0x44 ∷ 1 ∷ []) life
      signed.1 (λ e. ground (arith, e))
