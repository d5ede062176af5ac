-- ===== src/Legacy/Total.antt =====
-- src/parser/legacy/mod.rs: `parse` over any data and any number of pieces of it.
pub mod Tests
use app_zcash.Base.{
  ℕ, zero, suc, ◌+◌, ◌*◌, ◌≤◌, ◌<◌, ◌≡◌, ◌≢◌, refl, sym, ◌∙◌, ap, Bool, true, false, Option, none,
  some, ltb, length, [], ◌∷◌, ok, arith, ◌⊎◌, inl, inr,
}
use app_zcash.Base.Bytes.{Bytes}
use app_zcash.Session.{LegacyParserMode, trusted_input, signature}
use app_zcash.ParserError.{Ensures, Ensures-bind, Ensures-if}
use app_zcash.TxId.{LegacyParserCtx}
use app_zcash.Tx.{v4}
use app_zcash.Legacy.{
  LegacyParserState, LegacyParser, LegacyRun, LegacyOps, IsLegacyOps, usize_max, new,
  set_transparent_output_count, is_finished, is_presign_ready, is_ready_to_sign, state_none,
  wait_input, process_input_script, input_hashing_done, wait_output, process_output_script,
  output_hashing_done, process_sapling, process_sapling_spends, process_sapling_spends_hashing,
  process_sapling_outputs_compact, process_sapling_outputs_memo,
  process_sapling_outputs_non_compact, process_sapling_output_hashing, process_actions_compact,
  process_actions_memo, process_actions_non_compact, process_actions_hashing, process_extra,
  transaction_parsed, transaction_presign_ready, transaction_ready_to_sign,
}
use app_zcash.Legacy.Parse.{step_from, is_last, parse_loop, parse}
use app_zcash.Legacy.Invariant.{Frame, Keeps, IsRun, IsRunAt, slack, new-IsRun, none_found}
use app_zcash.Legacy.Steps.{Shorter}
use app_zcash.Legacy.Steps.Actions.{
  parse_actions_compact_kept, parse_actions_memo_kept, parse_actions_noncompact_kept,
  parse_actions_hashing_kept,
}
use app_zcash.Legacy.Steps.Sapling.{
  parse_sapling_kept, parse_sapling_spends_kept, parse_sapling_spends_hashing_kept,
}
use app_zcash.Legacy.Steps.SaplingOutputs.{
  parse_sapling_outputs_compact_kept, parse_sapling_outputs_memo_kept,
  parse_sapling_outputs_non_compact_kept, parse_sapling_output_hashing_kept,
}
use app_zcash.Legacy.Steps.Outputs.{
  parse_input_hashing_done_kept, parse_output_kept, parse_output_script_kept,
}
use app_zcash.Legacy.Steps.Counts.{parse_output_hashing_done_kept}
use app_zcash.Legacy.Steps.Inputs.{parse_input_by_kept}
use app_zcash.Legacy.Steps.InputScripts.{parse_input_script_kept}
use app_zcash.Legacy.Steps.Header.{parse_header_kept, parse_process_extra_kept}

slack_bound : (s : LegacyParserState) → slack s ≤ 1
slack_bound s = ground arith

module _ {H : Type 0} (ops : LegacyOps H) (is_ops : IsLegacyOps ops) where
  step_from_kept :
      {pass : Frame} (at : LegacyParserState) (r : LegacyRun H) (unread : Bytes)
      → r.parser.state ≡ at
      → IsRunAt pass at r.parser r.ctx
      → is_last at ≡ false
      → 0 < length unread
      → Ensures (Shorter pass at unread) (step_from ops at r unread)
  unfolding step_from
  step_from_kept state_none r unread e is going more = parse_header_kept ops is_ops r unread is
  step_from_kept wait_input r unread e is going more =
      parse_input_by_kept ops is_ops r.parser.mode r unread is
  step_from_kept (process_input_script size remaining) r unread e is going more =
      parse_input_script_kept ops size remaining r unread is more
  step_from_kept input_hashing_done r unread e is going more =
      parse_input_hashing_done_kept ops is_ops r unread is
  step_from_kept wait_output r unread e is going more = parse_output_kept ops is_ops r unread is
  step_from_kept (process_output_script size remaining) r unread e is going more =
      parse_output_script_kept ops is_ops size remaining r unread is more
  step_from_kept output_hashing_done r unread e is going more =
      parse_output_hashing_done_kept ops is_ops r unread is
  step_from_kept process_sapling r unread e is going more = parse_sapling_kept ops r unread is
  step_from_kept (process_sapling_spends anchor) r unread e is going more =
      parse_sapling_spends_kept ops anchor r unread e is
  step_from_kept process_sapling_spends_hashing r unread e is going more =
      parse_sapling_spends_hashing_kept ops r unread is
  step_from_kept process_sapling_outputs_compact r unread e is going more =
      parse_sapling_outputs_compact_kept ops r unread e is
  step_from_kept (process_sapling_outputs_memo size remaining) r unread e is going more =
      parse_sapling_outputs_memo_kept ops size remaining r unread is more
  step_from_kept process_sapling_outputs_non_compact r unread e is going more =
      parse_sapling_outputs_non_compact_kept ops r unread e is
  step_from_kept process_sapling_output_hashing r unread e is going more =
      parse_sapling_output_hashing_kept ops r unread is
  step_from_kept (process_actions_compact bundle) r unread e is going more =
      parse_actions_compact_kept ops bundle r unread e is
  step_from_kept (process_actions_memo bundle size remaining) r unread e is going more =
      parse_actions_memo_kept ops bundle size remaining r unread is more
  step_from_kept (process_actions_non_compact bundle) r unread e is going more =
      parse_actions_noncompact_kept ops bundle r unread e is
  step_from_kept (process_actions_hashing bundle) r unread e is going more =
      parse_actions_hashing_kept ops bundle r unread is
  step_from_kept process_extra r unread e is going more =
      parse_process_extra_kept ops is_ops r unread is
  step_from_kept transaction_parsed r unread e is going more = absurd (ground arith)
  step_from_kept transaction_presign_ready r unread e is going more = absurd (ground arith)
  step_from_kept transaction_ready_to_sign r unread e is going more = absurd (ground arith)

  -- A run that is well-formed, and is unread to its end or in a last state.
  abbrev pub Ended : Frame → LegacyRun H × Bytes → Type 0
  Ended pass s = IsRun pass s.0 × ((is_last s.0.parser.state ≡ true) ⊎ (s.1 ≡ []))

  parse_loop-Ended :
      {pass : Frame} (fuel : ℕ) (r : LegacyRun H) (unread : Bytes)
      → IsRun pass r
      → 2 * length unread + slack r.parser.state < fuel
      → Ensures (Ended pass) (parse_loop ops fuel r unread)
  unfolding parse_loop
  parse_loop-Ended zero r unread is enough = absurd (omega arith)
  parse_loop-Ended (suc fuel) r [] is enough = (is, inr refl)
  parse_loop-Ended {pass = pass} (suc fuel) r (b ∷ bs) is enough =
      Ensures-if (Ended pass) (is_last r.parser.state) _ _ (λ last. (is, inl last))
        λ going.
          Ensures-bind (Shorter pass r.parser.state (b ∷ bs)) (Ended pass)
            (step_from ops r.parser.state r (b ∷ bs)) _
            (step_from_kept r.parser.state r (b ∷ bs) refl is going (omega arith))
            λ s es next. parse_loop-Ended fuel s.0 s.1 next.0 (omega (arith, next.1, enough))

  -- Where the readers make no data and SHA-256 takes what it is fed: from a well-formed run, the legacy
  -- parser reads the data to its end or to the end of the transaction, whatever they are; it neither
  -- panics nor loops, and the run it gives is well-formed: a script is in its buffer and a buffer in its
  -- bound, every counter is below what the transaction declares, which is 10,000 at most for a shielded
  -- component, a v4 transaction has no shielded component and only a v6 one has Ironwood actions.
  pub parse-Ensures :
      {pass : Frame} (r : LegacyRun H) (unread : Bytes)
      → IsRun pass r
      → Ensures (Ended pass) (parse ops r unread)
  unfolding parse
  parse-Ensures r unread is =
      parse_loop-Ended (2 * length unread + 2) r unread is
        (omega (arith, slack_bound r.parser.state))

module _ {H : Type 0} (ops : LegacyOps H) where
  -- The pieces of data that the parser is fed, from a start to a run.
  pub data Fed (r : LegacyRun H) : LegacyRun H → Type 0 where
    unfed : Fed r r
    fed :
        (s t : LegacyRun H) (piece rest : Bytes)
        → Fed r s
        → parse ops s piece ≡ ok (t, rest)
        → Fed r t

-- What a parser is for: in the mode `trusted_input` it ends with a transaction parsed, all whose
-- declared outputs were read, and the trusted input is marked exactly when there is an output of the
-- index that is asked for; only in the mode `signature` it is ready for the outputs, and ready to sign
-- only behind the review.
pub record IsPurpose {H : Type 0} (r : LegacyRun H) : Type 0 where
  pub parsed : is_finished r.parser ≡ true → r.parser.mode ≡ trusted_input
  pub all_read : is_finished r.parser ≡ true → r.parser.output_count ≡ r.parser.output_parsed_count
  pub found :
      is_finished r.parser ≡ true
      → (i : ℕ) → r.ctx.trusted_input_info.input_idx ≡ some i
      → i < usize_max
      → r.ctx.trusted_input_info.is_input_processed ≡ ltb i r.parser.output_count
  pub before_review : is_presign_ready r.parser ≡ true → r.parser.mode ≡ signature
  pub behind_review :
      is_ready_to_sign r.parser ≡ true
      → (r.parser.mode ≡ signature) × (r.ctx.tx_state.is_tx_parsed_once ≡ true)

parsed_state : (p : LegacyParser) → is_finished p ≡ true → p.state ≡ transaction_parsed
unfolding is_finished
parsed_state p h = ground arith

pub presign_state :
    (p : LegacyParser) → is_presign_ready p ≡ true → p.state ≡ transaction_presign_ready
unfolding is_presign_ready
presign_state p h = ground arith

pub ready_state :
    (p : LegacyParser) → is_ready_to_sign p ≡ true → p.state ≡ transaction_ready_to_sign
unfolding is_ready_to_sign
ready_state p h = ground arith

pub IsRun-IsPurpose : {pass : Frame} {H : Type 0} (r : LegacyRun H) → IsRun pass r → IsPurpose r
IsRun-IsPurpose r is = record {
  parsed = λ h. (rw (parsed_state r.parser h) at is.place).0;
  all_read = λ h. (rw (parsed_state r.parser h) at is.place).1;
  found = λ h i ei hi.
      let all = (rw (parsed_state r.parser h) at is.place).1 in
      (rw (parsed_state r.parser h) at is.sought) i ei hi ∙ ap (λ n. ltb i n) (sym all);
  before_review = λ h. rw (presign_state r.parser h) at is.place;
  behind_review = λ h. rw (ready_state r.parser h) at is.place;
}

module _ {H : Type 0} (ops : LegacyOps H) (is_ops : IsLegacyOps ops) where
  Fed-IsRun : {pass : Frame} (r s : LegacyRun H) → Fed ops r s → IsRun pass r → IsRun pass s
  Fed-IsRun r s unfed is = is
  Fed-IsRun r s (fed m t piece rest before e) is =
      let h = parse-Ensures ops is_ops m piece (Fed-IsRun r m before is) in (rw e at h).0

  -- Where the readers make no data and SHA-256 takes what it is fed: a new parser, on a transaction
  -- without the flag of v6 and a trusted input that is not found, whatever the pieces of data it is fed,
  -- serves its purpose: in the mode `trusted_input` it ends with a transaction parsed, all whose
  -- declared outputs were read, and the trusted input is marked exactly when there is an output of the
  -- index that is asked for, below 2 ^ 32 - 1; only in the mode `signature` it is ready for the outputs,
  -- and ready to sign only behind the review.
  pub parse-IsPurpose :
      (mode : LegacyParserMode) (cnt : ℕ) (ctx : LegacyParserCtx H) (s : LegacyRun H)
      → ctx.tx_info.is_v6 ≡ false
      → ctx.trusted_input_info.is_input_processed ≡ false
      → Fed ops (record { parser = set_transparent_output_count cnt (new mode); ctx = ctx }) s
      → IsPurpose s
  parse-IsPurpose mode cnt ctx s not_v6 unprocessed pieces = IsRun-IsPurpose s (
      Fed-IsRun (record { parser = set_transparent_output_count cnt (new mode); ctx = ctx }) s
        pieces (new-IsRun mode cnt ctx not_v6 (none_found ctx.trusted_input_info unprocessed)))
