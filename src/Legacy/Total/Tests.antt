-- ===== src/Legacy/Total/Tests.antt =====
-- A v5 transaction that is fed in two pieces, over a model of the libraries.
use app_zcash.Base.{
  ℕ, ◌≤◌, ◌<◌, ◌≡◌, refl, true, [], ◌∷◌, ◌++◌, Option, none, some, length, replicate, ok, err,
  arith, if◌then◌else◌, ltb, leb, ◌==◌,
}
use app_zcash.Base.Bytes.{Bytes, from_le_bytes}
use app_zcash.Sdk.{HashOps}
use app_zcash.Tx.{TxVersion, v4, v5, v6, other_version}
use app_zcash.Reader.Unread.{take_exact}
use app_zcash.Session.{
  trusted_input, default_tx_info, default_trusted_input_info, default_signing_state,
}
use app_zcash.ParserError.{Ensures}
use app_zcash.TxId.{
  LegacyParserCtx, init_v5_tx_hashers, compute_tx_id, tx_id_of, tx_id_v5_v6, write_header_version,
  ironwood_child, finalize_and_log_hash,
}
use app_zcash.Digest.{digest, feed, supported_tx_version}
use app_zcash.Legacy.{
  LegacyRun, LegacyOps, IsLegacyOps, new, set_transparent_output_count, is_finished,
  feed_by_version,
}
use app_zcash.Legacy.Actions.{enter_next_action_bundle, enter_bundle, next_bundle}
use app_zcash.Legacy.Transparent.{
  fill_script, read_bounded_shielded_count, read_script_size, parse_input, close_input,
  parse_input_script, feed_signed_script, finish_inputs, parse_input_hashing_done, match_index,
  parse_output, close_output, parse_output_script, read_ironwood_count, enter_shielded,
  parse_output_hashing_done,
}
use app_zcash.Legacy.Parse.{
  note_input_count, header_v5, header_hashers, no_inputs, header_ctx, parse_header, feed_extra,
  parse_process_extra, parse_input_by, step_from, parse_loop, parse,
}
use app_zcash.Legacy.Invariant.{new-IsRun, none_found, frame_of}
use app_zcash.Legacy.Steps.{take_exact_rest}
use app_zcash.Legacy.Total.{Ended, unfed, fed, parse-Ensures, IsPurpose, parse-IsPurpose}

-- A hash that keeps what it is fed.
abbrev keep_all : HashOps Bytes
keep_all = record {
  fresh = [];
  init_with_perso = λ p. some [];
  update = λ h b. some (h ++ b);
  finalize = λ h. some (h, []);
}

-- Compact sizes of one byte.
abbrev short_size : Bytes → Option (ℕ × Bytes)
short_size [] = none
short_size (b ∷ bs) = if ltb b 253 then some (b, bs) else none

abbrev money : Bytes → Option ℕ
money bs = if leb (from_le_bytes bs) 2_100_000_000_000_000 then some (from_le_bytes bs) else none

abbrev version_of : ℕ → TxVersion
version_of n =
    if n == 4 then v4 else (if n == 5 then v5 else (if n == 6 then v6 else other_version))

-- Versions of one byte.
abbrev short_version : Bytes → Option (TxVersion × Bytes)
short_version [] = none
short_version (b ∷ bs) = some (version_of b, bs)

abbrev pub ops : LegacyOps Bytes
ops = record {
  hashing = record { blake = keep_all; sha = keep_all };
  wire = record {
    read_compact_size = short_size;
    write_compact_size = λ n. n ∷ [];
    zatoshis = money;
    write_script = λ s. length s ∷ s;
  };
  read_tx_version = short_version;
  write_tx_version = λ v. 5 ∷ [];
  branch_id = λ n. some n;
  read_outpoint = λ bs. take_exact 36 bs;
  zat_balance = λ bs. some (from_le_bytes bs);
  hmac_sha256 = λ key m. some key;
  trusted_input_key = some (1 ∷ 2 ∷ 3 ∷ 4 ∷ 5 ∷ 6 ∷ 7 ∷ 8 ∷ []);
  zcash_orchard_v5_hash_personalization = [];
  zcash_orchard_actions_compact_hash_personalization = [];
  zcash_orchard_actions_memos_hash_personalization = [];
  zcash_orchard_actions_noncompact_hash_personalization = [];
}

short_size_takes :
    (bs : Bytes) (n : ℕ) (rest : Bytes) → short_size bs ≡ some (n, rest) → length rest < length bs
short_size_takes [] n rest e = ground arith
short_size_takes (b ∷ bs) n rest e =
    let is : (ltb b 253 ≡ true) × (bs ≡ rest) = ground arith in rw (← is.1) (omega arith)

short_version_takes :
    (bs : Bytes) (v : TxVersion) (rest : Bytes)
    → short_version bs ≡ some (v, rest)
    → length rest ≤ length bs
short_version_takes [] v rest e = ground arith
short_version_takes (b ∷ bs) v rest e = let is : bs ≡ rest = ground arith in rw (← is) (omega arith)

pub is_ops : IsLegacyOps ops
is_ops = record {
  is_wire = record {
    compact_size_takes = short_size_takes;
    zatoshis_bounded = λ bs n e. ground arith;
  };
  version_takes = short_version_takes;
  outpoint_takes = λ bs p rest e. omega (arith, take_exact_rest 36 bs (p, rest) e);
  sha_updates = λ h b. (h ++ b, refl);
}

-- The second output is asked for.
abbrev pub asking : LegacyParserCtx Bytes
asking = record {
  tx_state = default_signing_state;
  tx_info = default_tx_info;
  trusted_input_info = record default_trusted_input_info { input_idx = some 1 };
  hashers = record {
    prevouts_hasher = [];
    sequence_hasher = [];
    outputs_hasher = [];
    amounts_hasher = [];
    scripts_hasher = [];
    orchard_hasher = [];
    sapling_hasher = [];
    tx_memo_hasher = [];
    tx_compact_hasher = [];
    tx_non_compact_hasher = [];
    v4_tx_hasher = [];
    ironwood_hasher = [];
  };
}

abbrev start : LegacyRun Bytes
start = record { parser = set_transparent_output_count 0 (new trusted_input); ctx = asking }

-- An input, cut inside its script of two bytes.
abbrev first_piece : Bytes
first_piece = 5 ∷ 0 ∷ 0 ∷ 0 ∷ 0 ∷ 1 ∷ (replicate 36 7 ++ 2 ∷ 0x51 ∷ [])

-- Two outputs, of 60 and 40; no shielded components; and the end.
abbrev second_piece : Bytes
second_piece =
    0x52 ∷ 9 ∷ 9 ∷ 9 ∷ 9 ∷ 2 ∷ 60 ∷ 0 ∷ 0 ∷ 0 ∷ 0 ∷ 0 ∷ 0 ∷ 0 ∷ 1 ∷ 0x53 ∷ 40 ∷ 0 ∷ 0 ∷ 0 ∷ 0 ∷ 0
    ∷ 0 ∷ 0 ∷ 0 ∷ 0 ∷ 0 ∷ 0 ∷ 1 ∷ 0 ∷ 0 ∷ 0 ∷ 4 ∷ 2 ∷ 0 ∷ 0 ∷ 0 ∷ []

abbrev run_or : LegacyRun Bytes → Bytes → LegacyRun Bytes
run_or r piece = elim (parse ops r piece) [ ok (s, _) ↦ s | err e ↦ r ]

abbrev halfway : LegacyRun Bytes
halfway = run_or start first_piece

abbrev parsed : LegacyRun Bytes
parsed = run_or halfway second_piece

first_run : parse ops start first_piece ≡ ok (halfway, [])
unfolding parse parse_loop step_from new set_transparent_output_count parse_header header_ctx
    header_hashers header_v5 init_v5_tx_hashers note_input_count no_inputs parse_input_by
    parse_input read_script_size feed_by_version supported_tx_version parse_input_script fill_script
first_run = refl

second_run :
    (parse ops halfway second_piece ≡ ok (parsed, []))
    × (is_finished parsed.parser ≡ true)
    × (parsed.ctx.trusted_input_info.amount ≡ 40)
unfolding parse parse_loop step_from new set_transparent_output_count parse_header header_ctx
    header_hashers header_v5 init_v5_tx_hashers note_input_count no_inputs parse_input_by
    parse_input read_script_size feed_by_version supported_tx_version parse_input_script fill_script
    close_input feed_signed_script finish_inputs parse_input_hashing_done parse_output match_index
    close_output parse_output_script parse_output_hashing_done read_bounded_shielded_count
    read_ironwood_count enter_shielded enter_next_action_bundle next_bundle enter_bundle
    parse_process_extra feed_extra compute_tx_id tx_id_of tx_id_v5_v6 write_header_version
    ironwood_child finalize_and_log_hash digest feed is_finished
second_run = (refl, refl, refl)

parse-Ensures_example :
    Ensures (Ended ops is_ops (frame_of trusted_input asking)) (parse ops start first_piece)
parse-Ensures_example =
    parse-Ensures ops is_ops start first_piece
      (new-IsRun trusted_input 0 asking refl (none_found asking.trusted_input_info refl))

parse-IsPurpose_example : IsPurpose parsed
parse-IsPurpose_example = parse-IsPurpose ops is_ops trusted_input 0 asking parsed refl refl (
    fed halfway parsed second_piece [] (fed start halfway first_piece [] unfed first_run)
      second_run.0)
