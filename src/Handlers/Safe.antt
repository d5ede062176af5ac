-- ===== src/Handlers/Safe.antt =====
-- src/handlers: the invariant of the context between two APDUs of the legacy flow.
use app_zcash.Base.{
  ℕ, ◌≡◌, refl, sym, ap, ◌∙◌, ◌⊎◌, inl, inr, true, false, ◌&&◌, List, Option, none, Result, ok, err,
  map_err, arith,
}
use app_zcash.Base.Gives.{Gives, Gives-bind, Gives-if}
use app_zcash.Base.Bytes.{Bytes}
use app_zcash.Tx.{TxInfo, TxOutput, TxSigningState, classify}
use app_zcash.ParserError.{ParserSourceError, Parsed, Ensures}
use app_zcash.Swap.{CreateTxParams}
use app_zcash.Session.{
  LegacyParserMode, signature, is_swap, init_in_place, reset, reset_for_new_transaction,
}
use app_zcash.TxId.{LegacyParserCtx}
use app_zcash.Output.{OutputRun, LegacyOutputParser}
use app_zcash.Output.Header.{IsOfHeader}
use app_zcash.Output as Output
use app_zcash.Legacy.{
  LegacyParserState, LegacyParser, IsLegacyOps, new, set_transparent_output_count, state_none,
  wait_input, process_input_script, input_hashing_done, wait_output, process_output_script,
  output_hashing_done, process_sapling, process_sapling_spends, process_sapling_spends_hashing,
  process_sapling_outputs_compact, process_sapling_outputs_memo,
  process_sapling_outputs_non_compact, process_sapling_output_hashing, process_actions_compact,
  process_actions_memo, process_actions_non_compact, process_actions_hashing, process_extra,
  transaction_parsed, transaction_presign_ready, transaction_ready_to_sign,
}
use app_zcash.Legacy.Parse.{parse}
use app_zcash.Legacy.Invariant.{
  Frame, frame_of, IsHeader, HeaderAt, PlaceAt, IsRunAt, IsRun, new-IsRun, none_found,
}
use app_zcash.Legacy.Total.{Ended, parse-Ensures}
use app_zcash.Handlers.{HandlerOps, parse_status, Context, parsers, run_of, parse_legacy}

-- A result of the parser, through a change of its error.
pub Gives-Ensures :
    {A F : Type 0} (P : A → Type 0) (g : ParserSourceError → F) (m : Parsed A)
    → Ensures P m
    → Gives P (map_err g m)
Gives-Ensures P g (ok a) h = h
Gives-Ensures P g (err e) h = tt

pub Gives-map_err :
    {A E F : Type 0} (P : A → Type 0) (g : E → F) (m : Result E A)
    → Gives P m
    → Gives P (map_err g m)
Gives-map_err P g (ok a) h = h
Gives-map_err P g (err e) h = tt

-- The frame of a run is its own.
reframed :
    {H : Type 0} (f : Frame) (s : LegacyParserState) (p : LegacyParser) (ctx : LegacyParserCtx H)
    → IsRunAt f s p ctx
    → IsRunAt (frame_of p.mode ctx) s p ctx
reframed f s p ctx is = record {
  header = is.header;
  kept = (refl, refl, refl, refl, (λ h. (refl, refl)), refl);
  bounded = is.bounded;
  place = is.place;
  sought = is.sought;
}

pub same_header :
    (mode : LegacyParserMode) (info info' : TxInfo)
    → IsOfHeader info info'
    → IsHeader mode info
    → IsHeader mode info'
same_header mode info info' same has = record {
  version = has.version;
  has_version = same.version ∙ has.has_version;
  branch = has.branch;
  has_branch = same.branch ∙ has.has_branch;
  supports = rw same.v6_flag has.supports;
}

pub header_at_same :
    (s : LegacyParserState) (mode : LegacyParserMode) (info info' : TxInfo)
    → IsOfHeader info info'
    → HeaderAt s mode info
    → HeaderAt s mode info'
header_at_same state_none mode info info' same h = same.v6_flag ∙ h
header_at_same wait_input mode info info' same h = same_header mode info info' same h
header_at_same (process_input_script a b) mode info info' same h =
    same_header mode info info' same h
header_at_same input_hashing_done mode info info' same h = same_header mode info info' same h
header_at_same wait_output mode info info' same h = same_header mode info info' same h
header_at_same (process_output_script a b) mode info info' same h =
    same_header mode info info' same h
header_at_same output_hashing_done mode info info' same h = same_header mode info info' same h
header_at_same process_sapling mode info info' same h = same_header mode info info' same h
header_at_same (process_sapling_spends a) mode info info' same h =
    same_header mode info info' same h
header_at_same process_sapling_spends_hashing mode info info' same h =
    same_header mode info info' same h
header_at_same process_sapling_outputs_compact mode info info' same h =
    same_header mode info info' same h
header_at_same (process_sapling_outputs_memo a b) mode info info' same h =
    same_header mode info info' same h
header_at_same process_sapling_outputs_non_compact mode info info' same h =
    same_header mode info info' same h
header_at_same process_sapling_output_hashing mode info info' same h =
    same_header mode info info' same h
header_at_same (process_actions_compact a) mode info info' same h =
    same_header mode info info' same h
header_at_same (process_actions_memo a b c) mode info info' same h =
    same_header mode info info' same h
header_at_same (process_actions_non_compact a) mode info info' same h =
    same_header mode info info' same h
header_at_same (process_actions_hashing a) mode info info' same h =
    same_header mode info info' same h
header_at_same process_extra mode info info' same h = same_header mode info info' same h
header_at_same transaction_parsed mode info info' same h = same_header mode info info' same h
header_at_same transaction_presign_ready mode info info' same h = same_header mode info info' same h
header_at_same transaction_ready_to_sign mode info info' same h = same_header mode info info' same h

-- A review, and the validity window that comes with it, change nothing that a state counts on.
pub PlaceAt-window :
    (s : LegacyParserState) (p : LegacyParser) (info : TxInfo) (st : TxSigningState) (l t e : ℕ)
    → PlaceAt s p info st
    → PlaceAt s p
        (record info { locktime = l; sighash_type = t; expiry_height = e })
        (record st { is_tx_parsed_once = true })
PlaceAt-window state_none p info st l t e h = h
PlaceAt-window wait_input p info st l t e h = h
PlaceAt-window (process_input_script a b) p info st l t e h = h
PlaceAt-window input_hashing_done p info st l t e h = h
PlaceAt-window wait_output p info st l t e h = h
PlaceAt-window (process_output_script a b) p info st l t e h = h
PlaceAt-window output_hashing_done p info st l t e h = h
PlaceAt-window process_sapling p info st l t e h = h
PlaceAt-window (process_sapling_spends a) p info st l t e h = h
PlaceAt-window process_sapling_spends_hashing p info st l t e h = h
PlaceAt-window process_sapling_outputs_compact p info st l t e h = h
PlaceAt-window (process_sapling_outputs_memo a b) p info st l t e h = h
PlaceAt-window process_sapling_outputs_non_compact p info st l t e h = h
PlaceAt-window process_sapling_output_hashing p info st l t e h = h
PlaceAt-window (process_actions_compact a) p info st l t e h = h
PlaceAt-window (process_actions_memo a b c) p info st l t e h = h
PlaceAt-window (process_actions_non_compact a) p info st l t e h = h
PlaceAt-window (process_actions_hashing a) p info st l t e h = h
PlaceAt-window process_extra p info st l t e h = h
PlaceAt-window transaction_parsed p info st l t e h = h
PlaceAt-window transaction_presign_ready p info st l t e h = h
PlaceAt-window transaction_ready_to_sign p info st l t e h = (h.0, refl)

module _ {H Z : Type 0} (ops : HandlerOps H Z) where
  -- What stands behind a signature: the approval of a swap, or a review that showed exactly the
  -- outputs, the fee and the validity window that the context holds.
  abbrev pub Approved : Context ops → Type 0
  Approved c =
      (is_swap c.swap_params ≡ true)
      ⊎ (ops.ui_display_tx c.tx_info.outputs c.tx_info.fees (classify true false c.tx_info.outputs)
            c.tx_info.locktime c.tx_info.expiry_height
          ≡ ok true)

  -- The invariant of the context between two APDUs.
  pub record IsSafe (c : Context ops) : Type 0 where
    pub run : IsRun (frame_of c.legacy_parser.mode (run_of ops c).ctx) (run_of ops c)
    pub untrusted : c.legacy_parser.mode ≡ signature → c.trusted_input_info.input_idx ≡ none
    pub settled :
        Output.is_finished c.legacy_output_parser ≡ true → c.legacy_parser.mode ≡ signature
    pub reviewed :
        c.tx_signing_state.is_tx_parsed_once ≡ true
        → Approved c × (Output.is_finished c.legacy_output_parser ≡ true)

  pub approved_same :
      (o o' : List TxOutput) (f f' l l' e e' : ℕ)
      → o' ≡ o
      → f' ≡ f
      → l' ≡ l
      → e' ≡ e
      → ops.ui_display_tx o f (classify true false o) l e ≡ ok true
      → ops.ui_display_tx o' f' (classify true false o') l' e' ≡ ok true
  approved_same o o' f f' l l' e e' eo ef el ee h = rw (eo, ef, el, ee) h

  module _ (is_ops : IsLegacyOps ops.legacy) where
    pub parse_legacy-IsSafe :
        (bytes : Bytes) (c : Context ops) → IsSafe c → Gives IsSafe (parse_legacy ops bytes c)
    unfolding parse_legacy
    parse_legacy-IsSafe bytes c is =
        let f = frame_of c.legacy_parser.mode (run_of ops c).ctx in
        Gives-bind (Ended ops.legacy is_ops f) IsSafe
          (map_err parse_status (parse ops.legacy (run_of ops c) bytes)) _
          (Gives-Ensures (Ended ops.legacy is_ops f) parse_status
            (parse ops.legacy (run_of ops c) bytes)
            (parse-Ensures ops.legacy is_ops (run_of ops c) bytes is.run))
          λ s es end.
            let kept = end.0.kept in
            record {
              run = reframed f s.0.parser.state s.0.parser s.0.ctx end.0;
              untrusted = λ m. kept.1 ∙ is.untrusted (sym kept.5 ∙ m);
              settled = λ fin. kept.5 ∙ is.settled fin;
              reviewed = λ once.
                  let old = is.reviewed (sym kept.0 ∙ once) in
                  let window = kept.4 (kept.5 ∙ is.settled old.1) in
                  (
                    elim old.0 [
                      | inl swap ↦ inl swap
                      | inr shown ↦ inr (
                          approved_same c.tx_info.outputs s.0.ctx.tx_info.outputs c.tx_info.fees
                            s.0.ctx.tx_info.fees c.tx_info.locktime s.0.ctx.tx_info.locktime
                            c.tx_info.expiry_height s.0.ctx.tx_info.expiry_height
                            (ap (λ d. d.0) kept.2) kept.3 window.0 window.1 shown)
                    ],
                    old.1,
                  );
            }

  -- A context that was reset.
  pub reset-IsSafe :
      (mode : LegacyParserMode) (c : Context ops)
      → IsSafe (reset ops.legacy.hashing (parsers ops) mode c)
  unfolding reset new set_transparent_output_count Output.new Output.is_finished
  reset-IsSafe mode c = record {
    run =
        new-IsRun mode 0 (run_of ops (reset ops.legacy.hashing (parsers ops) mode c)).ctx refl
          (none_found (reset ops.legacy.hashing (parsers ops) mode c).trusted_input_info refl);
    untrusted = λ m. refl;
    settled = λ fin. absurd (ground (arith, fin));
    reviewed = λ once. absurd (ground (arith, once));
  }

  pub init_in_place-IsSafe :
      (swap : Option CreateTxParams) (mode : LegacyParserMode)
      → IsSafe (init_in_place ops.legacy.hashing (parsers ops) swap mode)
  unfolding init_in_place new set_transparent_output_count Output.new Output.is_finished
  init_in_place-IsSafe swap mode = record {
    run =
        new-IsRun mode 0 (run_of ops (init_in_place ops.legacy.hashing (parsers ops) swap mode)).ctx
          refl
          (none_found (init_in_place ops.legacy.hashing (parsers ops) swap mode).trusted_input_info
            refl);
    untrusted = λ m. refl;
    settled = λ fin. absurd (ground (arith, fin));
    reviewed = λ once. absurd (ground (arith, once));
  }

  pub renewed-IsSafe :
      (mode : LegacyParserMode) (c : Context ops)
      → Gives IsSafe (reset_for_new_transaction ops.legacy.hashing (parsers ops) mode c)
  unfolding reset_for_new_transaction
  renewed-IsSafe mode c =
      Gives-if IsSafe (is_swap c.swap_params && c.has_released_signature) _ _ (λ spent. tt)
        λ fresh. reset-IsSafe mode c
