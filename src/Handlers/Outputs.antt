-- ===== src/Handlers/Outputs.antt =====
-- src/handlers/sign_tx.rs: HASH_INPUT_FINALIZE_FULL keeps the invariant.
use app_zcash.Base.{
  ◌≡◌, refl, sym, subst, ◌∙◌, Bool, true, false, not, ◌&&◌, Option, some, if◌then◌else◌, ◌==◌,
  length, ok_or, map_err, arith,
}
use app_zcash.Base.Gives.{Gives, Gives-bind, Gives-past, Gives-ensure, Gives-if}
use app_zcash.Base.Bytes.{Bytes}
use app_zcash.Status.{wrong_apdu_length, conditions_of_use_not_satisfied}
use app_zcash.Path.{try_from_bytes}
use app_zcash.Path.Compliance.{full, check_bip44_compliance, derivation_account}
use app_zcash.Tx.{TxInfo, TxOutput, Hashers}
use app_zcash.TxId.{LegacyParserCtx}
use app_zcash.Output.{OutputRun, LegacyOutputParser}
use app_zcash.Output.Header.{IsOfHeader, IsKept, parse-Kept}
use app_zcash.Output as Output
use app_zcash.Legacy.{is_presign_ready, transaction_presign_ready}
use app_zcash.Legacy.Invariant.{frame_of, IsRunAt}
use app_zcash.Legacy.Total.{presign_state}
use app_zcash.Handlers.{
  HandlerOps, output_status, Context, run_of, install_change, parse_outputs,
  handler_hash_input_finalize_full,
}
use app_zcash.Handlers.Safe.{Gives-map_err, same_header, IsSafe}

module _ {H Z : Type 0} (ops : HandlerOps H Z) where
  -- What the outputs change of a context that waits for them.
  with_outputs : TxInfo → LegacyOutputParser → Hashers H → Context ops → Context ops
  with_outputs info p hs c = record c { tx_info = info; legacy_output_parser = p; hashers = hs }

  with_outputs-IsSafe :
      (info : TxInfo) (p : LegacyOutputParser) (hs : Hashers H) (c : Context ops)
      → is_presign_ready c.legacy_parser ≡ true
      → Output.is_finished c.legacy_output_parser ≡ false
      → IsOfHeader c.tx_info info
      → IsSafe ops c
      → IsSafe ops (with_outputs info p hs c)
  unfolding with_outputs
  with_outputs-IsSafe info p hs c ready open_outputs same is =
      let at_presign = presign_state c.legacy_parser ready in
      let f = frame_of c.legacy_parser.mode (run_of ops c).ctx in
      let run : IsRunAt f transaction_presign_ready c.legacy_parser (run_of ops c).ctx =
        subst (λ s. IsRunAt f s c.legacy_parser (run_of ops c).ctx) at_presign is.run in
      let ctx' : LegacyParserCtx H = record (run_of ops c).ctx { tx_info = info; hashers = hs } in
      let run' : IsRunAt (frame_of c.legacy_parser.mode ctx') transaction_presign_ready
          c.legacy_parser ctx' =
        record {
          header = same_header c.legacy_parser.mode c.tx_info info same run.header;
          kept = (refl, refl, refl, refl, (λ h. (refl, refl)), refl);
          bounded = (
            run.bounded.0,
            run.bounded.1,
            run.bounded.2,
            run.bounded.3,
            (λ h. same.v6_flag ∙ run.bounded.4 h),
            run.bounded.5,
          );
          place = run.place;
          sought = run.sought;
        } in
      record {
        run =
            subst (λ s. IsRunAt (frame_of c.legacy_parser.mode ctx') s c.legacy_parser ctx')
              (sym at_presign) run';
        untrusted = is.untrusted;
        settled = λ fin. run.place;
        reviewed = λ once. absurd (ground (arith, sym (is.reviewed once).1 ∙ open_outputs));
      }

  install_change-IsSafe :
      (bytes : Bytes) (c : Context ops)
      → is_presign_ready c.legacy_parser ≡ true
      → Output.is_finished c.legacy_output_parser ≡ false
      → IsSafe ops c
      → Gives (IsSafe ops) (install_change ops bytes c)
  unfolding install_change with_outputs
  install_change-IsSafe bytes c ready open_outputs is =
      Gives-past (IsSafe ops) (try_from_bytes bytes) _ λ path ep.
        Gives-ensure (IsSafe ops) (check_bip44_compliance path (full true))
          conditions_of_use_not_satisfied _
          λ complies. Gives-past (IsSafe ops) (ops.public_key_hash path) _ λ key_hash ek.
            with_outputs-IsSafe
              (record (c.tx_info) {
                change_pk_hash = some key_hash;
                change_account = derivation_account path;
              })
              c.legacy_output_parser c.hashers c ready open_outputs
              (record { version = refl; branch = refl; v6_flag = refl }) is

  parse_outputs-IsSafe :
      (bytes : Bytes) (c : Context ops)
      → is_presign_ready c.legacy_parser ≡ true
      → Output.is_finished c.legacy_output_parser ≡ false
      → IsSafe ops c
      → Gives (IsSafe ops) (parse_outputs ops bytes c)
  unfolding parse_outputs with_outputs
  parse_outputs-IsSafe bytes c ready open_outputs is =
      let start : OutputRun H = record {
        parser = c.legacy_output_parser;
        tx_info = c.tx_info;
        hashers = c.hashers;
      } in
      let Any : TxOutput → Type 0 = λ o. Unit in
      let P : OutputRun H × Bytes → Type 0 = λ s. IsKept ops.address Any c.tx_info s.0.tx_info in
      let parsed =
        Output.parse ops.legacy.hashing ops.legacy.wire ops.address c.swap_params start bytes in
      Gives-bind P (IsSafe ops) (map_err output_status parsed) _
        (Gives-map_err P output_status parsed
          (parse-Kept ops.legacy.hashing ops.legacy.wire ops.address c.swap_params Any start bytes))
        λ s es same.
          with_outputs-IsSafe s.0.tx_info s.0.parser s.0.hashers c ready open_outputs same.header is

  pub handler_hash_input_finalize_full-IsSafe :
      (comm_data : Option Bytes) (is_change_info : Bool) (c : Context ops)
      → IsSafe ops c
      → Gives
          (λ s. IsSafe ops s.1)
          (handler_hash_input_finalize_full ops comm_data is_change_info c)
  unfolding handler_hash_input_finalize_full
  handler_hash_input_finalize_full-IsSafe comm_data is_change_info c is =
      let Q : Bytes × Context ops → Type 0 = λ s. IsSafe ops s.1 in
      Gives-past Q (ok_or comm_data wrong_apdu_length) _ λ bytes eb.
        Gives-ensure Q (not (length bytes == 0)) wrong_apdu_length _ λ h.
          Gives-ensure Q
            (is_presign_ready c.legacy_parser && not (Output.is_finished c.legacy_output_parser))
            conditions_of_use_not_satisfied _
            λ waits.
              let ready : is_presign_ready c.legacy_parser ≡ true = ground (arith, waits) in
              let open_outputs : Output.is_finished c.legacy_output_parser ≡ false =
                ground (arith, waits) in
              Gives-bind (IsSafe ops) Q
                (if is_change_info then install_change ops bytes c else parse_outputs ops bytes c) _
                (Gives-if (IsSafe ops) is_change_info _ _
                  (λ change. install_change-IsSafe bytes c ready open_outputs is)
                  λ outputs. parse_outputs-IsSafe bytes c ready open_outputs is)
                λ c' ec is'. is'
