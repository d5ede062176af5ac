-- ===== src/Legacy/Steps/Started.antt =====
-- src/parser/legacy/mod.rs: what reading a header makes of the context.
use app_zcash.Base.{ℕ, ◌≡◌, refl, sym, ap, subst, ◌∙◌, Bool, true, false, not, some, ◌==◌, arith}
use app_zcash.Personalization.{
  zcash_orchard_hash_personalization_v6, zcash_transparent_input_hash_personalization,
  zcash_transparent_scripts_hash_personalization,
}
use app_zcash.Session.{LegacyParserMode, trusted_input, signature}
use app_zcash.Tx.Declared.{declared_of}
use app_zcash.Tx.{TxVersion, v4, v5, v6, other_version, TxSigningState}
use app_zcash.ParserError.{Ensures, Ensures-bind, Ensures-if}
use app_zcash.Digest.{expect}
use app_zcash.Digest.Total.{Anything, Ensures-ok, Ensures-map}
use app_zcash.TxId.{LegacyParserCtx, init_v5_tx_hashers}
use app_zcash.TxId.Total.{past_start, init_v5_tx_hashers-Anything}
use app_zcash.Legacy.{LegacyOps, IsLegacyOps}
use app_zcash.Legacy.Parse.{note_input_count, header_v5, header_hashers, header_ctx}
use app_zcash.Legacy.Invariant.{Supports}

-- What a header makes of a context: the version and the branch that it read, and the flag of v6 for a
-- version that the mode reads. The rest that the parser counts on is kept.
pub record IsStarted {H : Type 0} (mode : LegacyParserMode) (v : TxVersion) (b : ℕ)
    (ctx ctx' : LegacyParserCtx H) : Type 0 where
  pub version : ctx'.tx_info.tx_version ≡ some v
  pub branch : ctx'.tx_info.branch_id ≡ some b
  pub supports : Supports mode v ctx'.tx_info.is_v6
  pub once : ctx'.tx_state.is_tx_parsed_once ≡ ctx.tx_state.is_tx_parsed_once
  pub declared : declared_of ctx'.tx_info ≡ declared_of ctx.tx_info
  pub fees : ctx'.tx_info.fees ≡ ctx.tx_info.fees
  pub locktime : ctx'.tx_info.locktime ≡ ctx.tx_info.locktime
  pub expiry : ctx'.tx_info.expiry_height ≡ ctx.tx_info.expiry_height
  pub index : ctx'.trusted_input_info.input_idx ≡ ctx.trusted_input_info.input_idx
  pub processed :
      ctx'.trusted_input_info.is_input_processed ≡ ctx.trusted_input_info.is_input_processed

-- All but the hashers is kept.
abbrev pub SameBut : {H : Type 0} → LegacyParserCtx H → LegacyParserCtx H → Type 0
SameBut ctx ctx' =
    (ctx'.tx_info ≡ ctx.tx_info)
    × (ctx'.tx_state ≡ ctx.tx_state)
    × (ctx'.trusted_input_info ≡ ctx.trusted_input_info)

note_input_count-once :
    (mode : LegacyParserMode) (n : ℕ) (s : TxSigningState)
    → (note_input_count mode n s).is_tx_parsed_once ≡ s.is_tx_parsed_once
unfolding note_input_count
note_input_count-once trusted_input n s = refl
note_input_count-once signature n s = ground arith

module _ {H : Type 0} (ops : LegacyOps H) (is_ops : IsLegacyOps ops) where
  -- A context whose header was read, before its hashers are started.
  abbrev HeaderRead : TxVersion → ℕ → LegacyParserCtx H → Type 0
  HeaderRead v b ctx =
      (ctx.tx_info.tx_version ≡ some v)
      × (ctx.tx_info.branch_id ≡ some b)
      × (ctx.tx_info.is_v6 ≡ false)

  header_v5_same : (ctx : LegacyParserCtx H) → Ensures (SameBut ctx) (header_v5 ops ctx)
  unfolding header_v5
  header_v5_same ctx =
      Ensures-bind Anything (SameBut ctx)
        (init_v5_tx_hashers ops.hashing ops.zcash_orchard_v5_hash_personalization ctx.hashers) _
        (init_v5_tx_hashers-Anything ops.hashing ops.zcash_orchard_v5_hash_personalization
          ctx.hashers)
        λ hs eh t. (refl, refl, refl)

  header_v5-IsStarted :
      (mode : LegacyParserMode) (b : ℕ) (ctx : LegacyParserCtx H)
      → HeaderRead v5 b ctx
      → Supports mode v5 false
      → Ensures (IsStarted mode v5 b ctx) (header_v5 ops ctx)
  header_v5-IsStarted mode b ctx has supports =
      Ensures-map (SameBut ctx) (IsStarted mode v5 b ctx) (header_v5 ops ctx) (header_v5_same ctx)
        λ ctx' same. record {
          version = ap (λ i. i.tx_version) same.0 ∙ has.0;
          branch = ap (λ i. i.branch_id) same.0 ∙ has.1;
          supports =
              subst (λ f. Supports mode v5 f) (sym (ap (λ i. i.is_v6) same.0 ∙ has.2)) supports;
          once = ap (λ s. s.is_tx_parsed_once) same.1;
          declared = ap (λ i. declared_of i) same.0;
          fees = ap (λ i. i.fees) same.0;
          locktime = ap (λ i. i.locktime) same.0;
          expiry = ap (λ i. i.expiry_height) same.0;
          index = ap (λ i. i.input_idx) same.2;
          processed = ap (λ i. i.is_input_processed) same.2;
        }

  header_hashers-IsStarted :
      (mode : LegacyParserMode) (v : TxVersion) (b : ℕ) (once : Bool) (n : ℕ)
      (ctx : LegacyParserCtx H)
      → HeaderRead v b ctx
      → Ensures (IsStarted mode v b ctx) (header_hashers ops mode v once n ctx)
  unfolding header_hashers
  header_hashers-IsStarted trusted_input v6 b once n ctx has =
      let Q = IsStarted trusted_input v6 b ctx in
      Ensures-bind (SameBut ctx) Q (header_v5 ops ctx) _ (header_v5_same ctx) λ ctx' ec same.
        past_start ops.hashing Q zcash_orchard_hash_personalization_v6 _ λ h. record {
          version = ap (λ i. i.tx_version) same.0 ∙ has.0;
          branch = ap (λ i. i.branch_id) same.0 ∙ has.1;
          supports = refl;
          once = ap (λ s. s.is_tx_parsed_once) same.1;
          declared = ap (λ i. declared_of i) same.0;
          fees = ap (λ i. i.fees) same.0;
          locktime = ap (λ i. i.locktime) same.0;
          expiry = ap (λ i. i.expiry_height) same.0;
          index = ap (λ i. i.input_idx) same.2;
          processed = ap (λ i. i.is_input_processed) same.2;
        }
  header_hashers-IsStarted trusted_input v5 b once n ctx has =
      header_v5-IsStarted trusted_input b ctx has refl
  header_hashers-IsStarted trusted_input v4 b once n ctx has =
      let Q = IsStarted trusted_input v4 b ctx in
      let first = is_ops.sha_updates ops.hashing.sha.fresh (ops.write_tx_version v4) in
      let second = is_ops.sha_updates first.0 (ops.wire.write_compact_size n) in
      Ensures-ok Q (expect (ops.hashing.sha.update ops.hashing.sha.fresh (ops.write_tx_version v4)))
        _ first.0 (rw first.1 refl)
        (Ensures-ok Q (expect (ops.hashing.sha.update first.0 (ops.wire.write_compact_size n))) _
          second.0 (rw second.1 refl)
          (record {
            version = has.0;
            branch = has.1;
            supports = has.2;
            once = refl;
            declared = refl;
            fees = refl;
            locktime = refl;
            expiry = refl;
            index = refl;
            processed = refl;
          }))
  header_hashers-IsStarted trusted_input other_version b once n ctx has = refl
  header_hashers-IsStarted signature v5 b false n ctx has =
      header_v5-IsStarted signature b ctx has refl
  header_hashers-IsStarted signature v5 b true n ctx has =
      let Q = IsStarted signature v5 b ctx in
      Ensures-if Q (not (n == 0)) _ _
        (λ some_inputs.
          past_start ops.hashing Q zcash_transparent_input_hash_personalization _ λ prevouts.
            past_start ops.hashing Q zcash_transparent_scripts_hash_personalization _ λ scripts.
              record {
                version = has.0;
                branch = has.1;
                supports = has.2;
                once = refl;
                declared = refl;
                fees = refl;
                locktime = refl;
                expiry = refl;
                index = refl;
                processed = refl;
              })
        λ none_declared. record {
          version = has.0;
          branch = has.1;
          supports = has.2;
          once = refl;
          declared = refl;
          fees = refl;
          locktime = refl;
          expiry = refl;
          index = refl;
          processed = refl;
        }
  header_hashers-IsStarted signature v4 b once n ctx has = refl
  header_hashers-IsStarted signature v6 b once n ctx has = refl
  header_hashers-IsStarted signature other_version b once n ctx has = refl

  pub header_ctx-IsStarted :
      (mode : LegacyParserMode) (v : TxVersion) (b n : ℕ) (ctx : LegacyParserCtx H)
      → ctx.tx_info.is_v6 ≡ false
      → Ensures (IsStarted mode v b ctx) (header_ctx ops mode v b n ctx)
  unfolding header_ctx
  header_ctx-IsStarted mode v b n ctx not_v6 =
      let read : LegacyParserCtx H = record ctx {
        tx_info = record (ctx.tx_info) { tx_version = some v; branch_id = some b };
      } in
      Ensures-bind (IsStarted mode v b read) (IsStarted mode v b ctx)
        (header_hashers ops mode v ctx.tx_state.is_tx_parsed_once n read) _
        (header_hashers-IsStarted mode v b ctx.tx_state.is_tx_parsed_once n read
          (refl, refl, not_v6))
        λ ctx' ec is. record {
          version = is.version;
          branch = is.branch;
          supports = is.supports;
          once = note_input_count-once mode n ctx'.tx_state ∙ is.once;
          declared = is.declared;
          fees = is.fees;
          locktime = is.locktime;
          expiry = is.expiry;
          index = is.index;
          processed = is.processed;
        }
