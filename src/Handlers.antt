-- ===== src/Handlers.antt =====
-- src/handlers/sign_tx.rs and src/handlers/get_trusted_input.rs: the handlers of the legacy flow, from
-- the data of an APDU and the context to the reply and the context that follows. After an error the
-- main loop resets the context, so an error carries none.
pub mod Safe
pub mod Start
pub mod Outputs
pub mod Signing
pub mod Change
pub mod Life
mod Tests
use app_zcash.Base.{
  ℕ, zero, suc, ◌*◌, ◌+◌, max, min, Bool, true, false, not, ◌&&◌, ◌||◌, List, [], ◌∷◌, ◌++◌, Option,
  none, some, if◌then◌else◌, ltb, ◌==◌, length, take, drop, Result, ok, err, ok_or, ◌>>=◌, ◌>>◌,
  ensure, map_err, get_or,
}
use Prim.Native.Nat.{bit_or}
use app_zcash.Base.Bytes.{Bytes, from_be_bytes, to_le_bytes}
use app_zcash.Status.{
  AppSw, wrong_apdu_length, incorrect_data, deny, conditions_of_use_not_satisfied,
  technical_problem, bad_state,
}
use app_zcash.Sdk.{AddressOps}
use app_zcash.Wire.{big, read_u32}
use app_zcash.Path.{Bip32Path, try_from_bytes}
use app_zcash.Path.Compliance.{full, only_coin_type, check_bip44_compliance, derivation_account}
use app_zcash.Tx.{
  TxInfo, TxOutput, TransferType, classify, TxSigningState, check_change_returns_to_signing_account,
}
use app_zcash.ParserError.{
  ParserSourceError, Parsed, hash, app_sw, user_denied, io, hmac, balance, custom, swap, stuck,
  panicked,
}
use app_zcash.Session.{
  LegacyParserMode, trusted_input, signature, Parsers, TxContext, is_swap,
  reset_for_new_transaction, note_signature_released, set_transaction_trusted_input_idx,
  set_finished, set_extra_header_data,
}
use app_zcash.TxId.{LegacyParserCtx}
use app_zcash.Output.{OutputRun, LegacyOutputParser}
use app_zcash.Legacy.{
  LegacyParser, LegacyRun, LegacyOps, new, set_transparent_output_count, is_finished,
  is_presign_ready, is_ready_to_sign, usize_max,
}
use app_zcash.Legacy.Parse.{parse}
use app_zcash.Legacy.Transparent.{trusted_input_size}
use app_zcash.Digest.{le32, sighash_all}
use app_zcash.Output as Output

-- What the handlers call: the parsers, the PCZT parser's state `Z` with `new` and `is_session_active`,
-- the public key hash of a path, the review on the screen, and `deterministic_sign` of the key of a
-- path, with the parity that it reports.
pub record HandlerOps (H Z : Type 0) : Type 0 where
  pub legacy : LegacyOps H
  pub address : AddressOps
  pub new_pczt : Z
  pub is_session_active : Z → Bool
  pub public_key_hash : Bip32Path → Result AppSw Bytes
  pub ui_display_tx : List TxOutput → ℕ → TransferType → ℕ → ℕ → Result AppSw Bool
  pub deterministic_sign : Bip32Path → Bytes → Option (Bytes × ℕ)

-- The status of a parser's error.
unfoldable pub parse_status : ParserSourceError → AppSw
parse_status e = elim e [ hash ↦ technical_problem | _ ↦ incorrect_data ]

unfoldable pub output_status : ParserSourceError → AppSw
output_status e = elim e [
  | hash ↦ technical_problem
  | app_sw sw ↦ sw
  | user_denied ↦ deny
  | _ ↦ incorrect_data
]

module _ {H Z : Type 0} (ops : HandlerOps H Z) where
  abbrev pub Context : Type 0
  Context = TxContext H LegacyParser Z

  abbrev pub parsers : Parsers LegacyParser Z
  parsers = record { new_legacy = new; new_pczt = ops.new_pczt }

  -- The parser and what the handlers lend it, and the way back.
  abbrev pub run_of : Context → LegacyRun H
  run_of c = record {
    parser = c.legacy_parser;
    ctx = record {
      tx_state = c.tx_signing_state;
      tx_info = c.tx_info;
      trusted_input_info = c.trusted_input_info;
      hashers = c.hashers;
    };
  }

  abbrev pub with_run : LegacyRun H → Context → Context
  with_run r c = record c {
    legacy_parser = r.parser;
    tx_signing_state = r.ctx.tx_state;
    tx_info = r.ctx.tx_info;
    trusted_input_info = r.ctx.trusted_input_info;
    hashers = r.ctx.hashers;
  }

  -- `ctx.legacy_parser.parse(..).map_err(..)`.
  unfoldable pub parse_legacy : Bytes → Context → Result AppSw Context
  parse_legacy bytes c = do
    (r, _) ← map_err parse_status (parse ops.legacy (run_of c) bytes)
    ok (with_run r c)

  -- `if first` of GET_TRUSTED_INPUT: a fresh context with the index, and the data behind it.
  unfoldable pub begin_trusted_input : Bool → Bytes → Context → Result AppSw (Context × Bytes)
  begin_trusted_input true bytes c = do
    c' ← reset_for_new_transaction ops.legacy.hashing parsers trusted_input c
    idx ← read_u32 bytes big false
    ok (set_transaction_trusted_input_idx idx c', drop 4 bytes)
  begin_trusted_input false bytes c = ok (c, bytes)

  -- Magic, nonce, ID, index and amount, as `comm.append` gathers them.
  unfoldable pub trusted_input_body : Bytes → Bytes → ℕ → ℕ → Bytes
  trusted_input_body nonce tx_id input_idx amount =
      (0x32 ∷ 0x00 ∷ [])
      ++ (drop 2 nonce ++ (tx_id ++ (to_le_bytes 4 input_idx ++ to_le_bytes 8 amount)))

  -- The reply with its code. `input_idx.expect` panics on none, which stands for its error.
  unfoldable pub trusted_input_reply : Result AppSw Bytes → Context → Result AppSw Bytes
  trusted_input_reply rng c = do
    ensure c.trusted_input_info.is_input_processed incorrect_data
    nonce ← rng
    input_idx ← ok_or c.trusted_input_info.input_idx technical_problem
    let body =
        trusted_input_body nonce c.trusted_input_info.tx_id input_idx c.trusted_input_info.amount
    key ← ok_or ops.legacy.trusted_input_key technical_problem
    mac ← ok_or (ops.legacy.hmac_sha256 key (take trusted_input_size body)) technical_problem
    ok (body ++ mac)

  -- `comm_data` is what `comm.get_data()` gives, and `rng` the 4 bytes of `rng::fill_bytes`.
  unfoldable pub handler_get_trusted_input :
      Option Bytes → Result AppSw Bytes → Bool → Context → Result AppSw (Bytes × Context)
  handler_get_trusted_input comm_data rng first c = do
    bytes ← ok_or comm_data wrong_apdu_length
    ensure (first || not (ops.is_session_active c.pczt_parser)) bad_state
    ensure (first || not c.is_finished) bad_state
    (c1, unread) ← begin_trusted_input first bytes c
    c2 ← parse_legacy unread c1
    (if is_finished c2.legacy_parser
        then (trusted_input_reply rng c2 >>= λ reply. ok (reply, c2))
        else ok ([], c2))

  -- The resets of HASH_INPUT_START.
  unfoldable pub begin_input_start : Bool → Bool → Context → Result AppSw Context
  begin_input_start first true c = do
    ensure (not c.tx_info.is_v6) bad_state
    ensure c.tx_signing_state.is_tx_parsed_once bad_state
    ok (record c {
      legacy_parser =
          set_transparent_output_count c.legacy_output_parser.output_count (new signature);
    })
  begin_input_start true false c = reset_for_new_transaction ops.legacy.hashing parsers signature c
  begin_input_start false false c = ok c

  unfoldable pub handler_hash_input_start :
      Option Bytes → Bool → Bool → Context → Result AppSw (Bytes × Context)
  handler_hash_input_start comm_data first continue_hashing c = do
    let resets_context = first && not continue_hashing
    ensure (resets_context || not (ops.is_session_active c.pczt_parser)) bad_state
    ensure (resets_context || not c.is_finished) bad_state
    c1 ← begin_input_start first continue_hashing c
    bytes ← ok_or comm_data wrong_apdu_length
    c2 ← parse_legacy bytes c1
    ok ([], c2)

  -- `if is_change_info`.
  unfoldable pub install_change : Bytes → Context → Result AppSw Context
  install_change bytes c = do
    path ← try_from_bytes bytes
    ensure (check_bip44_compliance path (full true)) conditions_of_use_not_satisfied
    change_pk_hash ← ops.public_key_hash path
    ok (record c {
      tx_info = record (c.tx_info) {
        change_pk_hash = some change_pk_hash;
        change_account = derivation_account path;
      };
    })

  unfoldable pub parse_outputs : Bytes → Context → Result AppSw Context
  parse_outputs bytes c = do
    (r, _) ← map_err output_status (
        Output.parse ops.legacy.hashing ops.legacy.wire ops.address c.swap_params
          (record { parser = c.legacy_output_parser; tx_info = c.tx_info; hashers = c.hashers })
          bytes)
    ok (record c { legacy_output_parser = r.parser; tx_info = r.tx_info; hashers = r.hashers })

  unfoldable pub handler_hash_input_finalize_full :
      Option Bytes → Bool → Context → Result AppSw (Bytes × Context)
  handler_hash_input_finalize_full comm_data is_change_info c = do
    bytes ← ok_or comm_data wrong_apdu_length
    ensure (not (length bytes == 0)) wrong_apdu_length
    ensure (is_presign_ready c.legacy_parser && not (Output.is_finished c.legacy_output_parser))
        conditions_of_use_not_satisfied
    c' ← (if is_change_info then install_change bytes c else parse_outputs bytes c)
    ok ([], c')

  -- Locktime, sighash type and expiry height.
  unfoldable pub parse_extra_data : Bytes → Result AppSw (ℕ × ℕ × ℕ)
  parse_extra_data buf = do
    ensure (not (ltb (length buf) 9)) wrong_apdu_length
    let sighash_type = get_or buf 4 0
    ensure (sighash_type == sighash_all) incorrect_data
    ok (from_be_bytes (take 4 buf), sighash_type, from_be_bytes (take 4 (drop 5 buf)))

  -- The review, unless the approval of a swap stands in for it.
  unfoldable pub review_tx : ℕ → ℕ → Context → Result AppSw (Unit {0})
  review_tx locktime expiry_height c =
      if is_swap c.swap_params
      then ok tt
      else (ops.ui_display_tx c.tx_info.outputs c.tx_info.fees
            (classify true false c.tx_info.outputs) locktime expiry_height
          >>= λ approved. ensure approved deny)

  -- The header of a transaction whose outputs are all in.
  unfoldable pub finish_header : Bytes → Context → Result AppSw Context
  finish_header bytes c = do
    ensure (length bytes == 11) wrong_apdu_length
    (locktime, sighash_type, expiry_height) ← parse_extra_data (drop 2 bytes)
    let c1 = set_extra_header_data (record c {
      tx_info = record (c.tx_info) {
        locktime = locktime;
        sighash_type = sighash_type;
        expiry_height = expiry_height;
      };
    })
    review_tx locktime expiry_height c1
    ok (record c1 { tx_signing_state = record (c1.tx_signing_state) { is_tx_parsed_once = true } })

  -- `sig[0] |= 0x01` on an odd y.
  unfoldable pub with_parity : ℕ → Bytes → Bytes
  with_parity zero sig = sig
  with_parity (suc info) [] = []
  with_parity (suc info) (b ∷ sig) = bit_or b 0x01 ∷ sig

  unfoldable pub append_signature : Bytes → Bip32Path → ℕ → Result AppSw Bytes
  append_signature sig_hash path sighash_type = do
    (sig, info) ← ok_or (ops.deterministic_sign path sig_hash) technical_problem
    ok (with_parity info sig ++ sighash_type ∷ [])

  -- The count of a signature, and the end of the transaction.
  unfoldable pub count_signature : Context → Context
  count_signature c =
      let signed = min (c.tx_signing_state.already_signed_input_count + 1) usize_max in
      let expected_signatures = max c.tx_signing_state.total_input_count 1 in
      let c' = record c {
        tx_signing_state = record (c.tx_signing_state) { already_signed_input_count = signed };
      } in
      if signed == expected_signatures then set_finished c' else c'

  unfoldable pub sign_input : Bytes → Context → Result AppSw (Bytes × Context)
  sign_input bytes c = do
    ensure (is_ready_to_sign c.legacy_parser) conditions_of_use_not_satisfied
    let path_len = get_or bytes 0 0 * 4 + 1
    ensure (not (ltb (length bytes) path_len)) wrong_apdu_length
    path ← try_from_bytes (take path_len bytes)
    ensure (check_bip44_compliance path only_coin_type) conditions_of_use_not_satisfied
    check_change_returns_to_signing_account c.tx_info path
    reply ← append_signature c.tx_info.signature_digest path c.tx_info.sighash_type
    ok (reply, count_signature (note_signature_released c))

  unfoldable pub handler_hash_sign : Option Bytes → Context → Result AppSw (Bytes × Context)
  handler_hash_sign comm_data c = do
    ensure (not (ops.is_session_active c.pczt_parser)) bad_state
    bytes ← ok_or comm_data wrong_apdu_length
    ensure (not (length bytes == 0)) wrong_apdu_length
    (if Output.is_finished c.legacy_output_parser && not c.is_extra_header_data_set
        then (finish_header bytes c >>= λ c'. ok ([], c'))
        else sign_input bytes c)
