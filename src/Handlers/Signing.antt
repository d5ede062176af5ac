-- ===== src/Handlers/Signing.antt =====
-- src/handlers/sign_tx.rs: HASH_SIGN keeps the invariant, and what it gives.
use app_zcash.Base.{
  ℕ, ◌+◌, ◌*◌, ◌≡◌, refl, sym, ap, subst, ◌∙◌, ◌⊎◌, inl, inr, true, false, not, ◌&&◌, [], ◌∷◌, ◌++◌,
  Option, none, some, ltb, ◌==◌, length, take, drop, ok, ok_or, arith, Bool-cases, get_or, min, max,
}
use app_zcash.Base.Gives.{Gives, Gives-bind, Gives-past, Gives-map, Gives-ensure, Gives-if}
use app_zcash.Base.Bytes.{Bytes}
use app_zcash.Status.{
  wrong_apdu_length, conditions_of_use_not_satisfied, bad_state, technical_problem,
}
use app_zcash.Path.{Bip32Path, try_from_bytes}
use app_zcash.Path.Compliance.{only_coin_type, check_bip44_compliance, derivation_account}
use app_zcash.Tx.{classify, check_change_returns_to_signing_account}
use app_zcash.Tx.Review.{check_change_iff}
use app_zcash.Session.{is_swap, note_signature_released, set_finished, set_extra_header_data}
use app_zcash.TxId.{LegacyParserCtx}
use app_zcash.Output.{OutputRun, LegacyOutputParser}
use app_zcash.Output as Output
use app_zcash.Legacy.{is_ready_to_sign, usize_max, transaction_ready_to_sign}
use app_zcash.Legacy.Invariant.{frame_of, IsRunAt}
use app_zcash.Legacy.Total.{ready_state}
use app_zcash.Handlers.{
  HandlerOps, Context, run_of, parse_extra_data, review_tx, finish_header, append_signature,
  with_parity, count_signature, sign_input, handler_hash_sign,
}
use app_zcash.Handlers.Safe.{header_at_same, PlaceAt-window, Approved, IsSafe, approved_same}

ok_or-some : {A E : Type 0} (o : Option A) (e : E) (a : A) → ok_or o e ≡ ok a → o ≡ some a
ok_or-some none e a h = absurd (ground (arith, h))
ok_or-some (some b) e a h = ground (arith, h)

module _ {H Z : Type 0} (ops : HandlerOps H Z) where
  review_tx-Approved :
      (locktime expiry_height : ℕ) (c : Context ops)
      → c.tx_info.locktime ≡ locktime
      → c.tx_info.expiry_height ≡ expiry_height
      → Gives (λ u. Approved ops c) (review_tx ops locktime expiry_height c)
  unfolding review_tx
  review_tx-Approved locktime expiry_height c el ee =
      let Q : Unit {0} → Type 0 = λ u. Approved ops c in
      Gives-if Q (is_swap c.swap_params) _ _ (λ swap. inl swap)
        λ no_swap.
          Gives-past Q
            (ops.ui_display_tx c.tx_info.outputs c.tx_info.fees
              (classify true false c.tx_info.outputs) locktime expiry_height)
            _
            λ approved shown. elim (Bool-cases approved) [
              | inl yes_it_is ↦ rw yes_it_is (
                  inr (
                    approved_same ops c.tx_info.outputs c.tx_info.outputs c.tx_info.fees
                      c.tx_info.fees locktime c.tx_info.locktime expiry_height
                      c.tx_info.expiry_height refl refl el ee (shown ∙ ap ok yes_it_is)))
              | inr refused ↦ rw refused tt
            ]

  finish_header-IsSafe :
      (bytes : Bytes) (c : Context ops)
      → Output.is_finished c.legacy_output_parser ≡ true
      → IsSafe ops c
      → Gives (IsSafe ops) (finish_header ops bytes c)
  unfolding finish_header set_extra_header_data
  finish_header-IsSafe bytes c outputs_in is =
      Gives-ensure (IsSafe ops) (length bytes == 11) wrong_apdu_length _ λ h.
        Gives-past (IsSafe ops) (parse_extra_data ops (drop 2 bytes)) _ λ x ex.
          let info = record (c.tx_info) {
            locktime = x.0;
            sighash_type = x.1;
            expiry_height = x.2;
          } in
          let c1 : Context ops = record c { tx_info = info; is_extra_header_data_set = true } in
          Gives-bind (λ u. Approved ops c1) (IsSafe ops) (review_tx ops x.0 x.2 c1) _
            (review_tx-Approved x.0 x.2 c1 refl refl)
            λ u eu approved. record {
              run = record {
                header =
                    header_at_same c.legacy_parser.state c.legacy_parser.mode c.tx_info info
                      (record { version = refl; branch = refl; v6_flag = refl }) is.run.header;
                kept = (refl, refl, refl, refl, (λ h. (refl, refl)), refl);
                bounded = is.run.bounded;
                place =
                    PlaceAt-window c.legacy_parser.state c.legacy_parser c.tx_info
                      c.tx_signing_state x.0 x.1 x.2 is.run.place;
                sought = is.run.sought;
              };
              untrusted = is.untrusted;
              settled = is.settled;
              reviewed = λ once. (approved, outputs_in);
            }

  -- A context whose signature was released.
  counted-IsSafe :
      (c : Context ops)
      → is_ready_to_sign c.legacy_parser ≡ true
      → IsSafe ops c
      → IsSafe ops (count_signature ops (note_signature_released c))
  unfolding count_signature note_signature_released set_finished
  counted-IsSafe c ready is =
      let signed = min (c.tx_signing_state.already_signed_input_count + 1) usize_max in
      let st = record (c.tx_signing_state) { already_signed_input_count = signed } in
      let at_ready = ready_state c.legacy_parser ready in
      let f = frame_of c.legacy_parser.mode (run_of ops c).ctx in
      let run : IsRunAt f transaction_ready_to_sign c.legacy_parser (run_of ops c).ctx =
        subst (λ s. IsRunAt f s c.legacy_parser (run_of ops c).ctx) at_ready is.run in
      let ctx' : LegacyParserCtx H = record (run_of ops c).ctx { tx_state = st } in
      let run' : IsRunAt (frame_of c.legacy_parser.mode ctx') transaction_ready_to_sign
          c.legacy_parser ctx' =
        record {
          header = run.header;
          kept = (refl, refl, refl, refl, (λ h. (refl, refl)), refl);
          bounded = run.bounded;
          place = run.place;
          sought = run.sought;
        } in
      let run'' =
        subst (λ s. IsRunAt (frame_of c.legacy_parser.mode ctx') s c.legacy_parser ctx')
          (sym at_ready) run' in
      elim (Bool-cases (signed == max c.tx_signing_state.total_input_count 1)) [
        | inl last ↦ rw last (record {
          run = run'';
          untrusted = is.untrusted;
          settled = is.settled;
          reviewed = is.reviewed;
        })
        | inr more ↦ rw more (record {
          run = run'';
          untrusted = is.untrusted;
          settled = is.settled;
          reviewed = is.reviewed;
        })
      ]

  -- A signature by the key of a path, over the digest of the context and with its type behind it; the
  -- path passed the signing check and the rule on the account of the change.
  abbrev pub IsSignature : Context ops → Bip32Path → Bytes → Type 0
  IsSignature c path reply =
      (check_bip44_compliance path only_coin_type ≡ true)
      × ((c.tx_info.change_account ≡ none) ⊎ (derivation_account path ≡ c.tx_info.change_account))
      × ((sig : Bytes) × (parity : ℕ) × (ops.deterministic_sign path c.tx_info.signature_digest
            ≡ some (sig, parity))
          × (reply ≡ with_parity ops parity sig ++ c.tx_info.sighash_type ∷ []))

  append_signature-IsSignature :
      (c : Context ops) (path : Bip32Path)
      → check_bip44_compliance path only_coin_type ≡ true
      → check_change_returns_to_signing_account c.tx_info path ≡ ok tt
      → Gives
          (IsSignature c path)
          (append_signature ops c.tx_info.signature_digest path c.tx_info.sighash_type)
  unfolding append_signature
  append_signature-IsSignature c path complies returns =
      Gives-past (IsSignature c path)
        (ok_or (ops.deterministic_sign path c.tx_info.signature_digest) technical_problem) _
        λ s es. (
          complies,
          (check_change_iff c.tx_info path).0 returns,
          (s.0, s.1, ok_or-some _ technical_problem s es, refl),
        )

  -- A signature and what it was released for: the digest of the context, behind its review.
  abbrev pub IsReleased : Context ops → Bytes × Context ops → Type 0
  IsReleased c s =
      (is_ready_to_sign c.legacy_parser ≡ true)
      × (s.1.has_released_signature ≡ true)
      × ((path : Bip32Path) × IsSignature c path s.0)

  counted_released :
      (c : Context ops)
      → (count_signature ops (note_signature_released c)).has_released_signature ≡ true
  unfolding count_signature note_signature_released set_finished
  counted_released c =
      elim (Bool-cases (
        min (c.tx_signing_state.already_signed_input_count + 1) usize_max
        == max c.tx_signing_state.total_input_count 1)) [
          | inl last ↦ rw last refl
          | inr more ↦ rw more refl
        ]

  sign_input-IsReleased :
      (bytes : Bytes) (c : Context ops)
      → IsSafe ops c
      → Gives (λ s. IsSafe ops s.1 × IsReleased c s) (sign_input ops bytes c)
  unfolding sign_input
  sign_input-IsReleased bytes c is =
      let Q : Bytes × Context ops → Type 0 = λ s. IsSafe ops s.1 × IsReleased c s in
      Gives-ensure Q (is_ready_to_sign c.legacy_parser) conditions_of_use_not_satisfied _ λ ready.
        let path_len = get_or bytes 0 0 * 4 + 1 in
        Gives-ensure Q (not (ltb (length bytes) path_len)) wrong_apdu_length _ λ enough.
          Gives-past Q (try_from_bytes (take path_len bytes)) _ λ path ep.
            Gives-ensure Q (check_bip44_compliance path only_coin_type)
              conditions_of_use_not_satisfied _
              λ complies.
                Gives-past Q (check_change_returns_to_signing_account c.tx_info path) _ λ u eu.
                  Gives-bind (IsSignature c path) Q
                    (append_signature ops c.tx_info.signature_digest path c.tx_info.sighash_type) _
                    (append_signature-IsSignature c path complies eu)
                    λ reply er signed.
                      (counted-IsSafe c ready is, (ready, counted_released c, (path, signed)))

  -- What HASH_SIGN gives: an empty reply, or a signature.
  pub handler_hash_sign-IsReleased :
      (comm_data : Option Bytes) (c : Context ops)
      → IsSafe ops c
      → Gives
          (λ s. IsSafe ops s.1 × ((s.0 ≡ []) ⊎ IsReleased c s))
          (handler_hash_sign ops comm_data c)
  unfolding handler_hash_sign
  handler_hash_sign-IsReleased comm_data c is =
      let Q : Bytes × Context ops → Type 0 = λ s. IsSafe ops s.1 × ((s.0 ≡ []) ⊎ IsReleased c s) in
      Gives-ensure Q (not (ops.is_session_active c.pczt_parser)) bad_state _ λ h.
        Gives-past Q (ok_or comm_data wrong_apdu_length) _ λ bytes eb.
          Gives-ensure Q (not (length bytes == 0)) wrong_apdu_length _ λ h'.
            Gives-if Q (Output.is_finished c.legacy_output_parser && not c.is_extra_header_data_set)
              _ _
              (λ header.
                Gives-bind (IsSafe ops) Q (finish_header ops bytes c) _
                  (finish_header-IsSafe bytes c (ground (arith, header)) is)
                  λ c' ec is'. (is', inl refl))
              λ signing.
                Gives-map (λ s. IsSafe ops s.1 × IsReleased c s) Q (sign_input ops bytes c)
                  (sign_input-IsReleased bytes c is) λ s both. (both.0, inr both.1)
