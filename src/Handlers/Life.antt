-- ===== src/Handlers/Life.antt =====
-- src/handlers: what a signature is released for, over any sequence of the legacy handlers.
use app_zcash.Base.{
  ◌≡◌, ◌≢◌, ◌⊎◌, refl, sym, ◌∙◌, inl, inr, Bool, true, false, ◌&&◌, List, [], ◌∷◌, Option, some,
  Result, ok, All, subst, Bool-cases,
}
use app_zcash.Base.Gives.{Gives-ok}
use app_zcash.Base.Bytes.{Bytes}
use app_zcash.Status.{AppSw}
use app_zcash.Swap.{CreateTxParams}
use app_zcash.Session.{LegacyParserMode, init_in_place, reset}
use app_zcash.Output.{OutputRun, LegacyOutputParser}
use app_zcash.Output as Output
use app_zcash.Legacy.{IsLegacyOps}
use app_zcash.Legacy.Total.{ready_state}
use app_zcash.Handlers.{
  HandlerOps, Context, parsers, handler_get_trusted_input, handler_hash_input_start,
  handler_hash_input_finalize_full, handler_hash_sign,
}
use app_zcash.Handlers.Safe.{Approved, IsSafe, reset-IsSafe, init_in_place-IsSafe}
use app_zcash.Handlers.Start.{handler_get_trusted_input-IsSafe, handler_hash_input_start-IsSafe}
use app_zcash.Handlers.Outputs.{handler_hash_input_finalize_full-IsSafe}
use app_zcash.Handlers.Signing.{IsSignature, IsReleased, handler_hash_sign-IsReleased}
use app_zcash.Handlers.Change.{
  IsReturned, IsReturning, Returning, init_in_place-Returning, reset-Returning,
  handler_get_trusted_input-Returning, handler_hash_input_start-Returning, in_time,
  handler_hash_input_finalize_full-Returning, handler_hash_sign-declared,
}
use app_zcash.Path.{Bip32Path, as_slice}
use app_zcash.Path.Compliance.{full, check_bip44_compliance, component, derivation_account}
use app_zcash.Script.{check_output_displayable, change}
use app_zcash.Address.{from_output_script}
use app_zcash.Tx.{TxOutput}
use app_zcash.Tx.Declared.{declared_of}
use app_zcash.Tx.Review.{same_component, full-has_account}
use app_zcash.Output.Header.{IsOwned}

module _ {H Z : Type 0} (ops : HandlerOps H Z) where
  -- The life of a context of the legacy flow: it is initialised, reset after an error, and served by
  -- the four handlers in any order.
  pub data Served : Context ops → Type 0 where
    opened :
        (swap : Option CreateTxParams) (mode : LegacyParserMode)
        → Served (init_in_place ops.legacy.hashing (parsers ops) swap mode)
    was_reset :
        (mode : LegacyParserMode) (c : Context ops)
        → Served c
        → Served (reset ops.legacy.hashing (parsers ops) mode c)
    got_trusted_input :
        (comm_data : Option Bytes) (rng : Result AppSw Bytes) (first : Bool) (c d : Context ops)
        (reply : Bytes)
        → Served c
        → handler_get_trusted_input ops comm_data rng first c ≡ ok (reply, d)
        → Served d
    started_inputs :
        (comm_data : Option Bytes) (first continue_hashing : Bool) (c d : Context ops)
        (reply : Bytes)
        → Served c
        → handler_hash_input_start ops comm_data first continue_hashing c ≡ ok (reply, d)
        → Served d
    finalized_inputs :
        (comm_data : Option Bytes) (is_change_info : Bool) (c d : Context ops) (reply : Bytes)
        → Served c
        → handler_hash_input_finalize_full ops comm_data is_change_info c ≡ ok (reply, d)
        → Served d
    signed_input :
        (comm_data : Option Bytes) (c d : Context ops) (reply : Bytes)
        → Served c
        → handler_hash_sign ops comm_data c ≡ ok (reply, d)
        → Served d

  -- Whether all change information of a life came before an output was hidden.
  abbrev pub declares_in_time : {c : Context ops} → Served c → Bool
  declares_in_time (opened swap mode) = true
  declares_in_time (was_reset mode c before) = declares_in_time before
  declares_in_time (got_trusted_input comm_data rng first c d reply before e) =
      declares_in_time before
  declares_in_time (started_inputs comm_data first continue_hashing c d reply before e) =
      declares_in_time before
  declares_in_time (finalized_inputs comm_data is_change_info c d reply before e) =
      in_time ops is_change_info c && declares_in_time before
  declares_in_time (signed_input comm_data c d reply before e) = declares_in_time before

  -- An output of a transaction that the key of a path signs is shown, or it pays the key of the device at a
  -- path that passed the check of a change path, and where change was declared in time, that path has
  -- the account of the signing path, the hardening bit included.
  abbrev pub IsHome : Bool → Bip32Path → TxOutput → Type 0
  IsHome timely path o =
      (o.is_change ≡ false)
      ⊎ ((change_path : Bip32Path) × (key_hash : Bytes) × (script : Bytes) × (check_bip44_compliance
              change_path (full true)
            ≡ true)
          × (ops.public_key_hash change_path ≡ ok key_hash)
          × (check_output_displayable script o.amount (some key_hash) ≡ change)
          × (from_output_script ops.address script ≡ ok o.address)
          × ((timely ≡ false) ⊎ (component (as_slice path) 2 ≡ component (as_slice change_path) 2)))

module _ {H Z : Type 0} (ops : HandlerOps H Z) (is_ops : IsLegacyOps ops.legacy) where
  Served-IsSafe : (c : Context ops) → Served ops c → IsSafe ops c
  Served-IsSafe _ (opened swap mode) = init_in_place-IsSafe ops swap mode
  Served-IsSafe _ (was_reset mode c before) = reset-IsSafe ops mode c
  Served-IsSafe d (got_trusted_input comm_data rng first c _ reply before e) =
      Gives-ok (λ s. IsSafe ops s.1) (handler_get_trusted_input ops comm_data rng first c)
        (reply, d)
        (handler_get_trusted_input-IsSafe ops is_ops comm_data rng first c (Served-IsSafe c before))
        e
  Served-IsSafe d (started_inputs comm_data first continue_hashing c _ reply before e) =
      Gives-ok (λ s. IsSafe ops s.1)
        (handler_hash_input_start ops comm_data first continue_hashing c) (reply, d)
        (handler_hash_input_start-IsSafe ops is_ops comm_data first continue_hashing c
          (Served-IsSafe c before))
        e
  Served-IsSafe d (finalized_inputs comm_data is_change_info c _ reply before e) =
      Gives-ok (λ s. IsSafe ops s.1)
        (handler_hash_input_finalize_full ops comm_data is_change_info c) (reply, d)
        (handler_hash_input_finalize_full-IsSafe ops comm_data is_change_info c
          (Served-IsSafe c before))
        e
  Served-IsSafe d (signed_input comm_data c _ reply before e) =
      (Gives-ok (λ s. IsSafe ops s.1 × ((s.0 ≡ []) ⊎ IsReleased ops c s))
        (handler_hash_sign ops comm_data c) (reply, d)
        (handler_hash_sign-IsReleased ops comm_data c (Served-IsSafe c before)) e).0

  Served-Returning :
      (c : Context ops) (life : Served ops c) → Returning ops (declares_in_time ops life) c
  Served-Returning _ (opened swap mode) = init_in_place-Returning ops true swap mode
  Served-Returning _ (was_reset mode c before) =
      reset-Returning ops (declares_in_time ops before) mode c
  Served-Returning d (got_trusted_input comm_data rng first c _ reply before e) =
      let once = declares_in_time ops before in
      Gives-ok (λ s. Returning ops once s.1) (handler_get_trusted_input ops comm_data rng first c)
        (reply, d)
        (handler_get_trusted_input-Returning ops is_ops once comm_data rng first c
          (Served-IsSafe c before) (Served-Returning c before))
        e
  Served-Returning d (started_inputs comm_data first continue_hashing c _ reply before e) =
      let once = declares_in_time ops before in
      Gives-ok (λ s. Returning ops once s.1)
        (handler_hash_input_start ops comm_data first continue_hashing c) (reply, d)
        (handler_hash_input_start-Returning ops is_ops once comm_data first continue_hashing c
          (Served-IsSafe c before) (Served-Returning c before))
        e
  Served-Returning d (finalized_inputs comm_data is_change_info c _ reply before e) =
      let once = declares_in_time ops before in
      Gives-ok (λ s. Returning ops (in_time ops is_change_info c && once) s.1)
        (handler_hash_input_finalize_full ops comm_data is_change_info c) (reply, d)
        (handler_hash_input_finalize_full-Returning ops once comm_data is_change_info c
          (Served-Returning c before))
        e
  Served-Returning d (signed_input comm_data c _ reply before e) =
      let once = declares_in_time ops before in
      let same =
        Gives-ok (λ s. declared_of s.1.tx_info ≡ declared_of c.tx_info)
          (handler_hash_sign ops comm_data c) (reply, d)
          (handler_hash_sign-declared ops comm_data c) e in
      subst (IsReturning ops once) (sym same) (Served-Returning c before)

  -- Where the readers make no data and SHA-256 takes what it is fed: however the legacy handlers and
  -- the resets follow each other, when HASH_SIGN replies with data then the reply is a signature of the
  -- digest in the context with the type of the signature behind it, by the key of a path that passed
  -- the signing check and has the account recorded for the change, if any; its release is recorded, all
  -- outputs were read, and the user approved a review of exactly the outputs, the fee, the locktime and
  -- the expiry height that the context holds then, unless the approval of a swap stands in for the
  -- review.
  pub handler_hash_sign-Approved :
      (c d : Context ops) (comm_data : Option Bytes) (reply : Bytes)
      → Served ops c
      → handler_hash_sign ops comm_data c ≡ ok (reply, d)
      → reply ≢ []
      → IsReleased ops c (reply, d)
        × Approved ops c
        × (Output.is_finished c.legacy_output_parser ≡ true)
  handler_hash_sign-Approved c d comm_data reply life e some_data =
      let is = Served-IsSafe c life in
      let (safe, given) =
        Gives-ok (λ s. IsSafe ops s.1 × ((s.0 ≡ []) ⊎ IsReleased ops c s))
          (handler_hash_sign ops comm_data c) (reply, d)
          (handler_hash_sign-IsReleased ops comm_data c is) e in
      elim given [
        | inl empty ↦ absurd (some_data empty)
        | inr released ↦
            let once = (rw (ready_state c.legacy_parser released.0) at is.run.place).1 in
            let behind = is.reviewed once in (released, behind.0, behind.1)
      ]

  same_account :
      (timely : Bool) (c : Context ops) (path change_path : Bip32Path) (reply : Bytes)
      → IsSignature ops c path reply
      → check_bip44_compliance change_path (full true) ≡ true
      → (timely ≡ true → c.tx_info.change_account ≡ derivation_account change_path)
      → (timely ≡ false) ⊎ (component (as_slice path) 2 ≡ component (as_slice change_path) 2)
  same_account false c path change_path reply signature checked same = inl refl
  same_account true c path change_path reply signature checked same = elim signature.1 [
    | inl unset ↦ absurd (full-has_account change_path checked (sym (same refl) ∙ unset))
    | inr spent ↦ inr (same_component path change_path checked (spent ∙ same refl))
  ]

  home :
      (timely : Bool) (c : Context ops) (path : Bip32Path) (reply : Bytes) (os : List TxOutput)
      → IsSignature ops c path reply
      → All (IsOwned (IsReturned ops timely c.tx_info.change_account) c.tx_info.is_change_found) os
      → All (IsHome ops timely path) os
  home timely c path reply [] signature owned = tt
  home timely c path reply (o ∷ os) signature owned = (
    elim (Bool-cases o.is_change) [
      | inr is_shown ↦ inl is_shown
      | inl is_hidden ↦
          let (_, (change_path, key_hash, script, checked, at_path, pays, shown, same)) =
            owned.0 is_hidden in
          inr (
            change_path,
            key_hash,
            script,
            checked,
            at_path,
            pays,
            shown,
            same_account timely c path change_path reply signature checked same,
          )
    ],
    home timely c path reply os signature owned.1,
  )

  -- Where the readers make no data and SHA-256 takes what it is fed: however the legacy handlers and
  -- the resets follow each other, when HASH_SIGN replies with a signature then every output that was
  -- hidden from the review pays the key of the device at a path that passed the check of a change path;
  -- and where no change information came behind an output that was hidden already, that path has the
  -- account of the path that signs.
  pub handler_hash_sign-IsHome :
      (c d : Context ops) (comm_data : Option Bytes) (reply : Bytes) (life : Served ops c)
      → handler_hash_sign ops comm_data c ≡ ok (reply, d)
      → reply ≢ []
      → (path : Bip32Path) × IsSignature ops c path reply
        × All (IsHome ops (declares_in_time ops life) path) c.tx_info.outputs
  handler_hash_sign-IsHome c d comm_data reply life e some_data =
      let (path, signature) =
        (handler_hash_sign-Approved c d comm_data reply life e some_data).0.2 in
      (
        path,
        signature,
        home (declares_in_time ops life) c path reply c.tx_info.outputs signature
            (Served-Returning c life).hidden,
      )
