-- ===== src/Legacy/Parse.antt =====
-- src/parser/legacy/mod.rs: the header and the end of a transaction, and the loop over the states.
use app_zcash.Base.{
  ℕ, zero, suc, ◌+◌, ◌*◌, Bool, true, false, not, some, if◌then◌else◌, ◌==◌, ok, err, ◌>>=◌, ◌>>◌,
  ensure, ◌∷◌, [], length,
}
use app_zcash.Base.Bytes.{Bytes}
use app_zcash.Personalization.{
  zcash_transparent_input_hash_personalization, zcash_transparent_scripts_hash_personalization,
  zcash_orchard_hash_personalization_v6,
}
use app_zcash.Tx.{TxVersion, v4, v5, v6, other_version, TxSigningState}
use app_zcash.ParserError.{
  Parsed, try_ok, io, custom, stuck, unknown_branch_id, unsupported_transaction_version,
  invalid_extra_data_length,
}
use app_zcash.Session.{LegacyParserMode, trusted_input, signature}
use app_zcash.Digest.{
  le32, feed, hashed, expect, supported_tx_version, compute_no_transparent_input_signature_digest,
}
use app_zcash.TxId.{
  LegacyParserCtx, init_v5_tx_hashers, compute_tx_id, finalize_signature_input_hash,
}
use app_zcash.Legacy.{
  LegacyParserState, LegacyRun, LegacyOps, next_number, started, at, state_none, wait_input,
  process_input_script, input_hashing_done, wait_output, process_output_script, output_hashing_done,
  process_sapling, process_sapling_spends, process_sapling_spends_hashing,
  process_sapling_outputs_compact, process_sapling_outputs_memo,
  process_sapling_outputs_non_compact, process_sapling_output_hashing, process_actions_compact,
  process_actions_memo, process_actions_non_compact, process_actions_hashing, process_extra,
  transaction_parsed, transaction_presign_ready, transaction_ready_to_sign,
}
use app_zcash.Legacy.Actions.{
  parse_actions_compact, parse_actions_memo, parse_actions_noncompact, parse_actions_hashing,
}
use app_zcash.Legacy.Sapling.{
  parse_sapling, parse_sapling_spends, parse_sapling_spends_hashing, parse_sapling_outputs_compact,
  parse_sapling_outputs_memo, parse_sapling_outputs_non_compact, parse_sapling_output_hashing,
}
use app_zcash.Legacy.Transparent.{
  is_v4, parse_input, parse_input_signature_mode, parse_input_script, parse_input_hashing_done,
  parse_output, parse_output_script, parse_output_hashing_done,
}

-- `if let Signature = self.mode && !ctx.tx_state.is_tx_parsed_once`.
unfoldable pub note_input_count : LegacyParserMode → ℕ → TxSigningState → TxSigningState
note_input_count trusted_input input_count s = s
note_input_count signature input_count s =
    if not s.is_tx_parsed_once then record s { total_input_count = input_count } else s

-- The states that break the loop.
abbrev pub is_last : LegacyParserState → Bool
is_last s = elim s [
  | transaction_parsed ↦ true
  | transaction_presign_ready ↦ true
  | transaction_ready_to_sign ↦ true
  | _ ↦ false
]

module _ {H : Type 0} (ops : LegacyOps H) where
  -- `init_v5_tx_hashers` on the context.
  unfoldable pub header_v5 : LegacyParserCtx H → Parsed (LegacyParserCtx H)
  header_v5 ctx = do
    hs ← init_v5_tx_hashers ops.hashing ops.zcash_orchard_v5_hash_personalization ctx.hashers
    ok (record ctx { hashers = hs })

  -- The `match (self.mode, version, ctx.tx_state.is_tx_parsed_once)`.
  unfoldable pub header_hashers :
      LegacyParserMode → TxVersion → Bool → ℕ → LegacyParserCtx H → Parsed (LegacyParserCtx H)
  header_hashers trusted_input v6 parsed_once input_count ctx = do
    ctx' ← header_v5 ctx
    h ← started ops zcash_orchard_hash_personalization_v6
    ok (record ctx' {
      tx_info = record (ctx'.tx_info) { is_v6 = true };
      hashers = record (ctx'.hashers) { orchard_hasher = h };
    })
  header_hashers trusted_input v5 parsed_once input_count ctx = header_v5 ctx
  header_hashers trusted_input v4 parsed_once input_count ctx = do
    h ← expect (ops.hashing.sha.update ops.hashing.sha.fresh (ops.write_tx_version v4))
    h' ← expect (ops.hashing.sha.update h (ops.wire.write_compact_size input_count))
    ok (record ctx { hashers = record (ctx.hashers) { v4_tx_hasher = h' } })
  header_hashers trusted_input other_version parsed_once input_count ctx =
      err (custom unsupported_transaction_version)
  header_hashers signature v5 false input_count ctx = header_v5 ctx
  header_hashers signature v5 true input_count ctx =
      if not (input_count == 0)
      then (started ops zcash_transparent_input_hash_personalization >>= λ prevouts.
          started ops zcash_transparent_scripts_hash_personalization >>= λ scripts. ok (record ctx {
            hashers = record (ctx.hashers) { prevouts_hasher = prevouts; scripts_hasher = scripts };
          }))
      else ok ctx
  header_hashers signature v4 parsed_once input_count ctx =
      err (custom unsupported_transaction_version)
  header_hashers signature v6 parsed_once input_count ctx =
      err (custom unsupported_transaction_version)
  header_hashers signature other_version parsed_once input_count ctx =
      err (custom unsupported_transaction_version)

  -- A header that declares no input.
  unfoldable pub no_inputs : LegacyParserMode → Bool → LegacyRun H → Parsed (LegacyRun H)
  no_inputs signature false r = do
    ctx ← finalize_signature_input_hash ops.hashing r.ctx
    ok (at transaction_presign_ready (record r { ctx = ctx }))
  no_inputs signature true r = do
    info ←
        compute_no_transparent_input_signature_digest ops.hashing.blake ops.write_tx_version
          ops.zcash_orchard_v5_hash_personalization r.ctx.tx_info r.parser.output_count
          r.ctx.tx_info.sighash_type
    ok (at transaction_ready_to_sign (record r { ctx = record (r.ctx) { tx_info = info } }))
  no_inputs trusted_input parsed_once r = ok (at input_hashing_done r)

  -- The context of a header: its version and branch, and the hashers that it starts.
  unfoldable pub header_ctx :
      LegacyParserMode → TxVersion → ℕ → ℕ → LegacyParserCtx H → Parsed (LegacyParserCtx H)
  header_ctx mode version consensus_branch_id input_count ctx = do
    ctx' ← header_hashers mode version ctx.tx_state.is_tx_parsed_once input_count (record ctx {
      tx_info = record (ctx.tx_info) {
        tx_version = some version;
        branch_id = some consensus_branch_id;
      };
    })
    ok (record ctx' {
      tx_info = record (ctx'.tx_info) { total_amount = 0 };
      tx_state = note_input_count mode input_count ctx'.tx_state;
    })

  unfoldable pub parse_header : LegacyRun H → Bytes → Parsed (LegacyRun H × Bytes)
  parse_header r unread = do
    (version, unread1) ← try_ok (ops.read_tx_version unread) io
    (value, unread2) ← next_number 4 unread1
    consensus_branch_id ← try_ok (ops.branch_id value) (custom unknown_branch_id)
    (input_count, rest) ← try_ok (ops.wire.read_compact_size unread2) io
    ctx ← header_ctx r.parser.mode version consensus_branch_id input_count r.ctx
    let r' = record r { parser = record (r.parser) { input_count = input_count }; ctx = ctx }
    if input_count == 0
        then (no_inputs r.parser.mode ctx.tx_state.is_tx_parsed_once r' >>= λ r''. ok (r'', rest))
        else ok (at wait_input r', rest)

  -- `if let V4`.
  unfoldable pub feed_extra : Bool → LegacyParserCtx H → Bytes → Parsed (LegacyParserCtx H)
  feed_extra true ctx rest = do
    h ← feed ops.hashing.sha ctx.hashers.v4_tx_hasher (
        hashed (le32 ctx.tx_info.locktime)
        ∷ hashed (le32 ctx.tx_info.expiry_height)
        ∷ hashed rest
        ∷ [])
    ok (record ctx { hashers = record (ctx.hashers) { v4_tx_hasher = h } })
  feed_extra false ctx rest = ok ctx

  unfoldable pub parse_process_extra : LegacyRun H → Bytes → Parsed (LegacyRun H × Bytes)
  parse_process_extra r unread = do
    (locktime, unread1) ← next_number 4 unread
    (extra_data_len, unread2) ← try_ok (ops.wire.read_compact_size unread1) io
    ensure (extra_data_len == length unread2) (custom invalid_extra_data_length)
    (expiry_height, rest) ← next_number 4 unread2
    let ctx = record (r.ctx) {
      tx_info = record (r.ctx.tx_info) { locktime = locktime; expiry_height = expiry_height };
    }
    version ← supported_tx_version ctx.tx_info
    ctx' ← feed_extra (is_v4 version) ctx rest
    ctx'' ← compute_tx_id ops.hashing ops.write_tx_version ctx'
    ok (at transaction_parsed (record r { ctx = ctx'' }), rest)

  -- `WaitInput`, in either mode.
  unfoldable pub parse_input_by :
      LegacyParserMode → LegacyRun H → Bytes → Parsed (LegacyRun H × Bytes)
  parse_input_by signature r unread = parse_input_signature_mode ops r unread
  parse_input_by trusted_input r unread = parse_input ops r unread

  -- The `match` of the loop; the `break` of its last arm is in `parse_loop`.
  unfoldable pub step_from : LegacyParserState → LegacyRun H → Bytes → Parsed (LegacyRun H × Bytes)
  step_from state_none r unread = parse_header r unread
  step_from wait_input r unread = parse_input_by r.parser.mode r unread
  step_from (process_input_script size remaining_size) r unread =
      parse_input_script ops size remaining_size r unread
  step_from input_hashing_done r unread = parse_input_hashing_done ops r unread
  step_from wait_output r unread = parse_output ops r unread
  step_from (process_output_script size remaining_size) r unread =
      parse_output_script ops size remaining_size r unread
  step_from output_hashing_done r unread = parse_output_hashing_done ops r unread
  step_from process_sapling r unread = parse_sapling ops r unread
  step_from (process_sapling_spends anchor) r unread = parse_sapling_spends ops anchor r unread
  step_from process_sapling_spends_hashing r unread =
      parse_sapling_spends_hashing ops r >>= λ r'. ok (r', unread)
  step_from process_sapling_outputs_compact r unread = parse_sapling_outputs_compact ops r unread
  step_from (process_sapling_outputs_memo size remaining_size) r unread =
      parse_sapling_outputs_memo ops size remaining_size r unread
  step_from process_sapling_outputs_non_compact r unread =
      parse_sapling_outputs_non_compact ops r unread
  step_from process_sapling_output_hashing r unread =
      parse_sapling_output_hashing ops r >>= λ r'. ok (r', unread)
  step_from (process_actions_compact bundle) r unread = parse_actions_compact ops bundle r unread
  step_from (process_actions_memo bundle size remaining_size) r unread =
      parse_actions_memo ops bundle size remaining_size r unread
  step_from (process_actions_non_compact bundle) r unread =
      parse_actions_noncompact ops bundle r unread
  step_from (process_actions_hashing bundle) r unread = parse_actions_hashing ops bundle r unread
  step_from process_extra r unread = parse_process_extra r unread
  step_from transaction_parsed r unread = ok (r, unread)
  step_from transaction_presign_ready r unread = ok (r, unread)
  step_from transaction_ready_to_sign r unread = ok (r, unread)

  -- `while reader.remaining_len() > 0`: the run, and the bytes that the loop leaves unread.
  unfoldable pub parse_loop : ℕ → LegacyRun H → Bytes → Parsed (LegacyRun H × Bytes)
  parse_loop zero r [] = ok (r, [])
  parse_loop zero r (b ∷ bs) = err stuck
  parse_loop (suc fuel) r [] = ok (r, [])
  parse_loop (suc fuel) r (b ∷ bs) =
      if is_last r.parser.state
      then ok (r, b ∷ bs)
      else (step_from r.parser.state r (b ∷ bs) >>= λ s. parse_loop fuel s.0 s.1)

  -- Two steps take a byte at least, and one more finds the end.
  unfoldable pub parse : LegacyRun H → Bytes → Parsed (LegacyRun H × Bytes)
  parse r unread = parse_loop (2 * length unread + 2) r unread
