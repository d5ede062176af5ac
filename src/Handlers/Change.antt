-- ===== src/Handlers/Change.antt =====
-- src/handlers: what is known of the outputs that are hidden as change, over the legacy handlers.
use app_zcash.Base.{
  ℕ, ◌≡◌, ◌≢◌, refl, sym, subst, ◌⊎◌, inl, inr, Bool, true, false, not, ◌&&◌, ◌||◌, ◌==◌, List, [],
  ◌∷◌, ◌+◌, ◌*◌, take, drop, get_or, ltb, Option, none, some, Result, ok, ok_or, map_err,
  if◌then◌else◌, length, min, max, All, arith, Bool-cases,
}
use app_zcash.Base.Gives.{Gives, Gives-bind, Gives-both-bind, Gives-past, Gives-ensure, Gives-if}
use app_zcash.Base.Bytes.{Bytes}
use app_zcash.Status.{AppSw, wrong_apdu_length, conditions_of_use_not_satisfied, bad_state}
use app_zcash.Wire.{big, read_u32}
use app_zcash.Path.{Bip32Path, try_from_bytes}
use app_zcash.Path.Compliance.{full, only_coin_type, check_bip44_compliance, derivation_account}
use app_zcash.Script.{check_output_displayable, change, pays_change}
use app_zcash.Address.{from_output_script}
use app_zcash.Tx.{TxOutput, check_change_returns_to_signing_account}
use app_zcash.Tx.Declared.{Declared, declared_of}
use app_zcash.Session.{
  trusted_input, signature, is_swap, LegacyParserMode, reset, reset_for_new_transaction,
  set_transaction_trusted_input_idx, note_signature_released, set_finished, set_extra_header_data,
  init_in_place,
}
use app_zcash.Swap.{CreateTxParams}
use app_zcash.Output.{OutputRun, LegacyOutputParser}
use app_zcash.Output.Header.{IsOwned, IsEarned, IsKept, parse-Kept}
use app_zcash.Output as Output
use app_zcash.Legacy.{IsLegacyOps, is_presign_ready, is_ready_to_sign, is_finished, usize_max}
use app_zcash.Legacy.Parse.{parse}
use app_zcash.Legacy.Invariant.{frame_of}
use app_zcash.Legacy.Total.{Ended, parse-Ensures}
use app_zcash.Handlers.{
  HandlerOps, parse_status, output_status, Context, parsers, run_of, parse_legacy,
  begin_trusted_input, trusted_input_reply, handler_get_trusted_input, begin_input_start,
  handler_hash_input_start, install_change, parse_outputs, handler_hash_input_finalize_full,
  parse_extra_data, review_tx, finish_header, append_signature, count_signature, sign_input,
  handler_hash_sign,
}
use app_zcash.Handlers.Safe.{Gives-Ensures, Gives-map_err, IsSafe}
use app_zcash.Handlers.Start.{begin_trusted_input-IsSafe, begin_input_start-IsSafe}

-- Without a declared key hash nothing is change.
undeclared : (script : Bytes) (amount : ℕ) → check_output_displayable script amount none ≢ change
unfolding check_output_displayable pays_change
undeclared script amount e = ground (arith, e)

module _ {H Z : Type 0} (ops : HandlerOps H Z) where
  -- A hidden output pays the key of the device at a path that passed the check of a change path;
  -- where `once` holds, the account of that path is the one in the context.
  abbrev pub IsReturned : Bool → Option ℕ → TxOutput → Type 0
  IsReturned once change_account o =
      (path : Bip32Path) × (key_hash : Bytes) × (script : Bytes) × (check_bip44_compliance path
          (full true)
        ≡ true)
      × (ops.public_key_hash path ≡ ok key_hash)
      × (check_output_displayable script o.amount (some key_hash) ≡ change)
      × (from_output_script ops.address script ≡ ok o.address)
      × (once ≡ true → change_account ≡ derivation_account path)

  -- The declared change: none, or a path that passed its check.
  abbrev IsDeclared : Option Bytes → Option ℕ → Type 0
  IsDeclared change_pk_hash change_account =
      (change_pk_hash ≡ none)
      ⊎ ((path : Bip32Path) × (key_hash : Bytes) × (check_bip44_compliance path (full true) ≡ true)
          × (ops.public_key_hash path ≡ ok key_hash)
          × (change_pk_hash ≡ some key_hash)
          × (change_account ≡ derivation_account path))

  pub record IsReturning (once : Bool) (d : Declared) : Type 0 where
    pub declared : IsDeclared d.1 d.2
    pub hidden : All (IsOwned (IsReturned once d.2) d.3) d.0

  earned :
      (once : Bool) (change_pk_hash : Option Bytes) (change_account : Option ℕ)
      → IsDeclared change_pk_hash change_account
      → IsEarned ops.address (IsReturned once change_account) change_pk_hash
  earned once change_pk_hash change_account (inl unset) o script pays shown =
      absurd (undeclared script o.amount (rw unset at pays))
  earned once change_pk_hash change_account (inr (path, key_hash, ok_path, at_path, set, acc)) o
        script pays shown =
      (path, key_hash, script, ok_path, at_path, rw set at pays, shown, λ h. acc)

  -- New change information. What was hidden before it may be of another account.
  redeclared :
      (once : Bool) (old new : Option ℕ) (found : Bool) (os : List TxOutput)
      → All (IsOwned (IsReturned once old) found) os
      → All (IsOwned (IsReturned (not found && once) new) found) os
  redeclared once old new found [] h = tt
  redeclared once old new found (o ∷ os) h = (
    (λ is_hidden.
        let (was, (path, key_hash, script, a, b, c, d, same)) = h.0 is_hidden in
        (was, (path, key_hash, script, a, b, c, d, λ g. absurd (ground (arith, was, g))))),
    redeclared once old new found os h.1,
  )

  abbrev pub Returning : Bool → Context ops → Type 0
  Returning once c = IsReturning once (declared_of c.tx_info)

  pub init_in_place-Returning :
      (once : Bool) (swap : Option CreateTxParams) (mode : LegacyParserMode)
      → Returning once (init_in_place ops.legacy.hashing (parsers ops) swap mode)
  unfolding init_in_place
  init_in_place-Returning once swap mode = record { declared = inl refl; hidden = tt }

  pub reset-Returning :
      (once : Bool) (mode : LegacyParserMode) (c : Context ops)
      → Returning once (reset ops.legacy.hashing (parsers ops) mode c)
  unfolding reset
  reset-Returning once mode c = record { declared = inl refl; hidden = tt }

  renewed-Returning :
      (once : Bool) (mode : LegacyParserMode) (c : Context ops)
      → Gives (Returning once) (reset_for_new_transaction ops.legacy.hashing (parsers ops) mode c)
  unfolding reset_for_new_transaction
  renewed-Returning once mode c =
      Gives-if (Returning once) (is_swap c.swap_params && c.has_released_signature) _ _
        (λ spent. tt) λ fresh. reset-Returning once mode c

  begin_trusted_input-Returning :
      (once first : Bool) (bytes : Bytes) (c : Context ops)
      → Returning once c
      → Gives (λ s. Returning once s.0) (begin_trusted_input ops first bytes c)
  unfolding begin_trusted_input set_transaction_trusted_input_idx
  begin_trusted_input-Returning once true bytes c is =
      let Q : Context ops × Bytes → Type 0 = λ s. Returning once s.0 in
      Gives-bind (Returning once) Q
        (reset_for_new_transaction ops.legacy.hashing (parsers ops) trusted_input c) _
        (renewed-Returning once trusted_input c)
        λ c' ec is'. Gives-past Q (read_u32 bytes big false) _ λ idx ei. is'
  begin_trusted_input-Returning once false bytes c is = is

  begin_input_start-Returning :
      (once first continue_hashing : Bool) (c : Context ops)
      → Returning once c
      → Gives (Returning once) (begin_input_start ops first continue_hashing c)
  unfolding begin_input_start
  begin_input_start-Returning once first true c is =
      let Q = Returning once in
      Gives-ensure Q (not c.tx_info.is_v6) bad_state _
        λ h. Gives-ensure Q c.tx_signing_state.is_tx_parsed_once bad_state _ λ h'. is
  begin_input_start-Returning once true false c is = renewed-Returning once signature c
  begin_input_start-Returning once false false c is = is

  module _ (is_ops : IsLegacyOps ops.legacy) where
    parse_legacy-Returning :
        (once : Bool) (bytes : Bytes) (c : Context ops)
        → IsSafe ops c
        → Returning once c
        → Gives (Returning once) (parse_legacy ops bytes c)
    unfolding parse_legacy
    parse_legacy-Returning once bytes c is returning =
        let f = frame_of c.legacy_parser.mode (run_of ops c).ctx in
        Gives-bind (Ended ops.legacy is_ops f) (Returning once)
          (map_err parse_status (parse ops.legacy (run_of ops c) bytes)) _
          (Gives-Ensures (Ended ops.legacy is_ops f) parse_status
            (parse ops.legacy (run_of ops c) bytes)
            (parse-Ensures ops.legacy is_ops (run_of ops c) bytes is.run))
          λ s es end. subst (IsReturning once) (sym end.0.kept.2) returning

    pub handler_get_trusted_input-Returning :
        (once : Bool) (comm_data : Option Bytes) (rng : Result AppSw Bytes) (first : Bool)
        (c : Context ops)
        → IsSafe ops c
        → Returning once c
        → Gives (λ s. Returning once s.1) (handler_get_trusted_input ops comm_data rng first c)
    unfolding handler_get_trusted_input
    handler_get_trusted_input-Returning once comm_data rng first c safe is =
        let Q : Bytes × Context ops → Type 0 = λ s. Returning once s.1 in
        Gives-past Q (ok_or comm_data wrong_apdu_length) _ λ bytes eb.
          Gives-ensure Q (first || not (ops.is_session_active c.pczt_parser)) bad_state _ λ h.
            Gives-ensure Q (first || not c.is_finished) bad_state _ λ h'.
              Gives-both-bind (λ s. IsSafe ops s.0) (λ s. Returning once s.0) Q
                (begin_trusted_input ops first bytes c) _
                (begin_trusted_input-IsSafe ops first bytes c safe)
                (begin_trusted_input-Returning once first bytes c is)
                λ s safe1 is1.
                  Gives-bind (Returning once) Q (parse_legacy ops s.1 s.0) _
                    (parse_legacy-Returning once s.1 s.0 safe1 is1)
                    λ c2 e2 is2.
                      Gives-if Q (is_finished c2.legacy_parser) _ _
                        (λ done. Gives-past Q (trusted_input_reply ops rng c2) _ λ reply er. is2)
                        λ going. is2

    pub handler_hash_input_start-Returning :
        (once : Bool) (comm_data : Option Bytes) (first continue_hashing : Bool) (c : Context ops)
        → IsSafe ops c
        → Returning once c
        → Gives
            (λ s. Returning once s.1)
            (handler_hash_input_start ops comm_data first continue_hashing c)
    unfolding handler_hash_input_start
    handler_hash_input_start-Returning once comm_data first continue_hashing c safe is =
        let Q : Bytes × Context ops → Type 0 = λ s. Returning once s.1 in
        let resets = first && not continue_hashing in
        Gives-ensure Q (resets || not (ops.is_session_active c.pczt_parser)) bad_state _ λ h.
          Gives-ensure Q (resets || not c.is_finished) bad_state _ λ h'.
            Gives-both-bind (IsSafe ops) (Returning once) Q
              (begin_input_start ops first continue_hashing c) _
              (begin_input_start-IsSafe ops first continue_hashing c safe)
              (begin_input_start-Returning once first continue_hashing c is)
              λ c1 safe1 is1. Gives-past Q (ok_or comm_data wrong_apdu_length) _ λ bytes eb.
                Gives-bind (Returning once) Q (parse_legacy ops bytes c1) _
                  (parse_legacy-Returning once bytes c1 safe1 is1) λ c2 e2 is2. is2

  install_change-Returning :
      (once : Bool) (bytes : Bytes) (c : Context ops)
      → Returning once c
      → Gives (Returning (not c.tx_info.is_change_found && once)) (install_change ops bytes c)
  unfolding install_change
  install_change-Returning once bytes c is =
      let Q = Returning (not c.tx_info.is_change_found && once) in
      Gives-past Q (try_from_bytes bytes) _ λ path ep.
        Gives-ensure Q (check_bip44_compliance path (full true)) conditions_of_use_not_satisfied _
          λ complies. Gives-past Q (ops.public_key_hash path) _ λ key_hash ek. record {
            declared = inr (path, key_hash, complies, ek, refl, refl);
            hidden =
                redeclared once c.tx_info.change_account (derivation_account path)
                  c.tx_info.is_change_found c.tx_info.outputs is.hidden;
          }

  parse_outputs-Returning :
      (once : Bool) (bytes : Bytes) (c : Context ops)
      → Returning once c
      → Gives (Returning once) (parse_outputs ops bytes c)
  unfolding parse_outputs
  parse_outputs-Returning once bytes c is =
      let start : OutputRun H = record {
        parser = c.legacy_output_parser;
        tx_info = c.tx_info;
        hashers = c.hashers;
      } in
      let Paid = IsReturned once c.tx_info.change_account in
      let P : OutputRun H × Bytes → Type 0 = λ s. IsKept ops.address Paid c.tx_info s.0.tx_info in
      let parsed =
        Output.parse ops.legacy.hashing ops.legacy.wire ops.address c.swap_params start bytes in
      Gives-bind P (Returning once) (map_err output_status parsed) _
        (Gives-map_err P output_status parsed (
          parse-Kept ops.legacy.hashing ops.legacy.wire ops.address c.swap_params Paid start bytes))
        λ s es same. record {
          declared =
              subst (λ a. IsDeclared s.0.tx_info.change_pk_hash a) (sym same.change_account)
                (subst (λ k. IsDeclared k c.tx_info.change_account) (sym same.change_pk_hash)
                  is.declared);
          hidden =
              subst
                (λ a.
                  All (IsOwned (IsReturned once a) s.0.tx_info.is_change_found) s.0.tx_info.outputs)
                (sym same.change_account)
                (same.owning
                  (earned once c.tx_info.change_pk_hash c.tx_info.change_account is.declared)
                  is.hidden);
        }

  -- Whether change information comes while no output was hidden yet.
  abbrev pub in_time : Bool → Context ops → Bool
  in_time is_change_info c = not (is_change_info && c.tx_info.is_change_found)

  pub handler_hash_input_finalize_full-Returning :
      (once : Bool) (comm_data : Option Bytes) (is_change_info : Bool) (c : Context ops)
      → Returning once c
      → Gives
          (λ s. Returning (in_time is_change_info c && once) s.1)
          (handler_hash_input_finalize_full ops comm_data is_change_info c)
  unfolding handler_hash_input_finalize_full
  handler_hash_input_finalize_full-Returning once comm_data is_change_info c is =
      let once' = in_time is_change_info c && once in
      let Q : Bytes × Context ops → Type 0 = λ s. Returning once' s.1 in
      Gives-past Q (ok_or comm_data wrong_apdu_length) _ λ bytes eb.
        Gives-ensure Q (not (length bytes == 0)) wrong_apdu_length _ λ h.
          Gives-ensure Q
            (is_presign_ready c.legacy_parser && not (Output.is_finished c.legacy_output_parser))
            conditions_of_use_not_satisfied _
            λ waits.
              Gives-bind (Returning once') Q
                (if is_change_info then install_change ops bytes c else parse_outputs ops bytes c) _
                (Gives-if (Returning once') is_change_info _ _
                  (λ yes_info. rw yes_info (install_change-Returning once bytes c is))
                  λ no_info. rw no_info (parse_outputs-Returning once bytes c is))
                λ c' ec is'. is'

  counted-declared :
      (c : Context ops)
      → declared_of (count_signature ops (note_signature_released c)).tx_info
        ≡ declared_of c.tx_info
  unfolding count_signature note_signature_released set_finished
  counted-declared c =
      elim (Bool-cases (
        min (c.tx_signing_state.already_signed_input_count + 1) usize_max
        == max c.tx_signing_state.total_input_count 1)) [
          | inl last ↦ rw last refl
          | inr more ↦ rw more refl
        ]

  -- A signature or a header leaves what was declared.
  pub handler_hash_sign-declared :
      (comm_data : Option Bytes) (c : Context ops)
      → Gives
          (λ s. declared_of s.1.tx_info ≡ declared_of c.tx_info)
          (handler_hash_sign ops comm_data c)
  unfolding handler_hash_sign finish_header sign_input set_extra_header_data
  handler_hash_sign-declared comm_data c =
      let R : Context ops → Type 0 = λ c'. declared_of c'.tx_info ≡ declared_of c.tx_info in
      let Q : Bytes × Context ops → Type 0 = λ s. R s.1 in
      Gives-ensure Q (not (ops.is_session_active c.pczt_parser)) bad_state _ λ h.
        Gives-past Q (ok_or comm_data wrong_apdu_length) _ λ bytes eb.
          Gives-ensure Q (not (length bytes == 0)) wrong_apdu_length _ λ h'.
            Gives-if Q (Output.is_finished c.legacy_output_parser && not c.is_extra_header_data_set)
              _ _
              (λ header.
                Gives-bind R Q (finish_header ops bytes c) _
                  (Gives-ensure R (length bytes == 11) wrong_apdu_length _ λ h1.
                    Gives-past R (parse_extra_data ops (drop 2 bytes)) _
                      λ x ex. Gives-past R (review_tx ops x.0 x.2 _) _ λ u eu. refl)
                  λ c' ec same. same)
              λ signing.
                Gives-ensure Q (is_ready_to_sign c.legacy_parser) conditions_of_use_not_satisfied _
                  λ ready.
                    Gives-ensure Q (not (ltb (length bytes) (get_or bytes 0 0 * 4 + 1)))
                      wrong_apdu_length _
                      λ enough.
                        Gives-past Q (try_from_bytes (take (get_or bytes 0 0 * 4 + 1) bytes)) _
                          λ path ep.
                            Gives-ensure Q (check_bip44_compliance path only_coin_type)
                              conditions_of_use_not_satisfied _
                              λ complies.
                                Gives-past Q
                                  (check_change_returns_to_signing_account c.tx_info path) _
                                  λ u eu.
                                    Gives-past Q
                                      (append_signature ops c.tx_info.signature_digest path
                                        c.tx_info.sighash_type)
                                      _ λ reply er. counted-declared c
