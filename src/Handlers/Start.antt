-- ===== src/Handlers/Start.antt =====
-- src/handlers: GET_TRUSTED_INPUT and HASH_INPUT_START keep the invariant.
use app_zcash.Base.{
  ℕ, refl, sym, ◌∙◌, Bool, true, false, not, ◌&&◌, ◌||◌, Option, Result, ok_or, arith,
}
use app_zcash.Base.Gives.{Gives, Gives-bind, Gives-past, Gives-ensure, Gives-if}
use app_zcash.Base.Bytes.{Bytes}
use app_zcash.Status.{AppSw, wrong_apdu_length, bad_state}
use app_zcash.Wire.{big, read_u32}
use app_zcash.Session.{
  trusted_input, signature, is_swap, reset, reset_for_new_transaction,
  set_transaction_trusted_input_idx,
}
use app_zcash.Output.{OutputRun, LegacyOutputParser}
use app_zcash.Output as Output
use app_zcash.Legacy.{IsLegacyOps, new, set_transparent_output_count, is_finished}
use app_zcash.Legacy.Invariant.{new-IsRun, none_found}
use app_zcash.Handlers.{
  HandlerOps, Context, parsers, run_of, parse_legacy, begin_trusted_input, trusted_input_reply,
  handler_get_trusted_input, begin_input_start, handler_hash_input_start,
}
use app_zcash.Handlers.Safe.{IsSafe, parse_legacy-IsSafe, renewed-IsSafe}

module _ {H Z : Type 0} (ops : HandlerOps H Z) where
  indexed-IsSafe :
      (c : Context ops)
      → Gives
          (λ c'. (idx : ℕ) → IsSafe ops (set_transaction_trusted_input_idx idx c'))
          (reset_for_new_transaction ops.legacy.hashing (parsers ops) trusted_input c)
  unfolding reset_for_new_transaction reset set_transaction_trusted_input_idx new
      set_transparent_output_count Output.new Output.is_finished
  indexed-IsSafe c =
      let Q : Context ops → Type 0 =
        λ c'. (idx : ℕ) → IsSafe ops (set_transaction_trusted_input_idx idx c') in
      Gives-if Q (is_swap c.swap_params && c.has_released_signature) _ _ (λ spent. tt)
        λ fresh idx. record {
          run =
              new-IsRun trusted_input 0
                (run_of ops (
                  set_transaction_trusted_input_idx idx
                    (reset ops.legacy.hashing (parsers ops) trusted_input c))).ctx
                refl
                (none_found
                  (set_transaction_trusted_input_idx idx
                    (reset ops.legacy.hashing (parsers ops) trusted_input c)).trusted_input_info
                  refl);
          untrusted = λ m. absurd (ground (arith, m));
          settled = λ fin. absurd (ground (arith, fin));
          reviewed = λ once. absurd (ground (arith, once));
        }

  pub begin_trusted_input-IsSafe :
      (first : Bool) (bytes : Bytes) (c : Context ops)
      → IsSafe ops c
      → Gives (λ s. IsSafe ops s.0) (begin_trusted_input ops first bytes c)
  unfolding begin_trusted_input
  begin_trusted_input-IsSafe true bytes c is =
      let Q : Context ops × Bytes → Type 0 = λ s. IsSafe ops s.0 in
      Gives-bind (λ c'. (idx : ℕ) → IsSafe ops (set_transaction_trusted_input_idx idx c')) Q
        (reset_for_new_transaction ops.legacy.hashing (parsers ops) trusted_input c) _
        (indexed-IsSafe c)
        λ c' ec safe. Gives-past Q (read_u32 bytes big false) _ λ idx ei. safe idx
  begin_trusted_input-IsSafe false bytes c is = is

  module _ (is_ops : IsLegacyOps ops.legacy) where
    pub handler_get_trusted_input-IsSafe :
        (comm_data : Option Bytes) (rng : Result AppSw Bytes) (first : Bool) (c : Context ops)
        → IsSafe ops c
        → Gives (λ s. IsSafe ops s.1) (handler_get_trusted_input ops comm_data rng first c)
    unfolding handler_get_trusted_input
    handler_get_trusted_input-IsSafe comm_data rng first c is =
        let Q : Bytes × Context ops → Type 0 = λ s. IsSafe ops s.1 in
        Gives-past Q (ok_or comm_data wrong_apdu_length) _ λ bytes eb.
          Gives-ensure Q (first || not (ops.is_session_active c.pczt_parser)) bad_state _ λ h.
            Gives-ensure Q (first || not c.is_finished) bad_state _ λ h'.
              Gives-bind (λ s. IsSafe ops s.0) Q (begin_trusted_input ops first bytes c) _
                (begin_trusted_input-IsSafe first bytes c is)
                λ s es is1.
                  Gives-bind (IsSafe ops) Q (parse_legacy ops s.1 s.0) _
                    (parse_legacy-IsSafe ops is_ops s.1 s.0 is1)
                    λ c2 e2 is2.
                      Gives-if Q (is_finished c2.legacy_parser) _ _
                        (λ done. Gives-past Q (trusted_input_reply ops rng c2) _ λ reply er. is2)
                        λ going. is2

  pub begin_input_start-IsSafe :
      (first continue_hashing : Bool) (c : Context ops)
      → IsSafe ops c
      → Gives (IsSafe ops) (begin_input_start ops first continue_hashing c)
  unfolding begin_input_start set_transparent_output_count new
  begin_input_start-IsSafe first true c is =
      Gives-ensure (IsSafe ops) (not c.tx_info.is_v6) bad_state _ λ not_v6.
        Gives-ensure (IsSafe ops) c.tx_signing_state.is_tx_parsed_once bad_state _ λ once.
          let old = is.reviewed once in
          let no_index = is.untrusted (is.settled old.1) in
          record {
            run =
                new-IsRun signature c.legacy_output_parser.output_count (run_of ops c).ctx
                  (ground (arith, not_v6)) λ i e h. absurd (ground (arith, sym no_index ∙ e));
            untrusted = λ m. no_index;
            settled = λ fin. refl;
            reviewed = is.reviewed;
          }
  begin_input_start-IsSafe true false c is = renewed-IsSafe ops signature c
  begin_input_start-IsSafe false false c is = is

  module _ (is_ops : IsLegacyOps ops.legacy) where
    pub handler_hash_input_start-IsSafe :
        (comm_data : Option Bytes) (first continue_hashing : Bool) (c : Context ops)
        → IsSafe ops c
        → Gives
            (λ s. IsSafe ops s.1)
            (handler_hash_input_start ops comm_data first continue_hashing c)
    unfolding handler_hash_input_start
    handler_hash_input_start-IsSafe comm_data first continue_hashing c is =
        let Q : Bytes × Context ops → Type 0 = λ s. IsSafe ops s.1 in
        let resets = first && not continue_hashing in
        Gives-ensure Q (resets || not (ops.is_session_active c.pczt_parser)) bad_state _ λ h.
          Gives-ensure Q (resets || not c.is_finished) bad_state _ λ h'.
            Gives-bind (IsSafe ops) Q (begin_input_start ops first continue_hashing c) _
              (begin_input_start-IsSafe first continue_hashing c is)
              λ c1 e1 is1. Gives-past Q (ok_or comm_data wrong_apdu_length) _ λ bytes eb.
                Gives-bind (IsSafe ops) Q (parse_legacy ops bytes c1) _
                  (parse_legacy-IsSafe ops is_ops bytes c1 is1) λ c2 e2 is2. is2
