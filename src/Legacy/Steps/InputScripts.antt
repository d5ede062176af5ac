-- ===== src/Legacy/Steps/InputScripts.antt =====
-- src/parser/legacy/transparent.rs: the step of the input scripts, and the end of the inputs, keep the
-- invariant.
use app_zcash.Base.{
  ℕ, ◌<◌, ◌≤◌, ◌≡◌, refl, sym, ap, ◌∙◌, Bool, true, false, not, ◌==◌, length, [], ◌∷◌, arith,
}
use app_zcash.Base.Bytes.{Bytes}
use app_zcash.Session.{LegacyParserMode, trusted_input, signature}
use app_zcash.Tx.{TxInfo, Hashers}
use app_zcash.ParserError.{
  Ensures, Ensures-bind, Ensures-if, Ensures-ensure, io, hash, custom, bad_input_script_len,
}
use app_zcash.Digest.{
  le32, hashed, written, feed, supported_tx_version, compute_transparent_input_signature_digest,
}
use app_zcash.Digest.Total.{
  Anything, Ensures-ok, Ensures-map, feed-Anything, HasHeader, IsSameVersion,
  compute_transparent_input_signature_digest-IsSameVersion,
}
use app_zcash.TxId.{LegacyParserCtx, finalize_signature_input_hash}
use app_zcash.TxId.Total.{IsSameTx, past_finalize, finalize_signature_input_hash-IsSameTx}
use app_zcash.Legacy.{
  LegacyParser, LegacyRun, LegacyOps, process_input_script, transaction_presign_ready,
  transaction_ready_to_sign, at,
}
use app_zcash.Legacy.Transparent.{
  saturating_suc, feed_signed_script, finish_signature_inputs, finish_inputs, close_input,
  parse_input_script,
}
use app_zcash.Legacy.Invariant.{
  Frame, Keeps, IsHeader, IsBounded, IsSought, IsFresh, IsRunAt, IsRun, slack,
}
use app_zcash.Legacy.Steps.{Shorter, supported_of, past_number, past_version}
use app_zcash.Legacy.Steps.Scripts.{past_fill}

pub same_header :
    (mode : LegacyParserMode) (info info' : TxInfo)
    → IsSameVersion info info'
    → IsHeader mode info
    → IsHeader mode info'
same_header mode info info' same has = record {
  version = has.version;
  has_version = same.version ∙ has.has_version;
  branch = has.branch;
  has_branch = same.branch ∙ has.has_branch;
  supports = rw same.v6_flag has.supports;
}

pub has_header : (mode : LegacyParserMode) (info : TxInfo) → IsHeader mode info → HasHeader info
has_header mode info has = ((has.version, has.has_version), (has.branch, has.has_branch))

-- A run at the end of a run over inputs: nothing of the outputs is known yet.
pub record IsOpen {H : Type 0} (pass : Frame) (p : LegacyParser) (ctx : LegacyParserCtx H)
    : Type 0 where
  pub kept : Keeps pass p.mode ctx
  pub header : IsHeader p.mode ctx.tx_info
  pub bounded : IsBounded p ctx.tx_info
  pub fresh : IsFresh p
  pub sought : IsSought p.output_parsed_count ctx.trusted_input_info

module _ {H : Type 0} (ops : LegacyOps H) where
  -- The digests of the inputs leave a run at its end.
  pub presign-IsRun :
      {pass : Frame} (r : LegacyRun H) (ctx : LegacyParserCtx H)
      → r.parser.mode ≡ signature
      → r.ctx.tx_state.is_tx_parsed_once ≡ false
      → IsOpen pass r.parser r.ctx
      → IsSameTx r.ctx ctx
      → IsRun pass (at transaction_presign_ready (record r { ctx = ctx }))
  presign-IsRun r ctx mode once is same = record {
    header = same_header r.parser.mode r.ctx.tx_info ctx.tx_info same.version is.header;
    kept = (
      ap (λ s. s.is_tx_parsed_once) same.state ∙ is.kept.0,
      same.index ∙ is.kept.1,
      same.version.declared ∙ is.kept.2,
      same.version.fees ∙ is.kept.3,
      (λ h. (same.version.locktime ∙ (is.kept.4 h).0, same.version.expiry ∙ (is.kept.4 h).1)),
      is.kept.5,
    );
    bounded = (
      is.bounded.0,
      is.bounded.1,
      is.bounded.2,
      is.bounded.3,
      (λ h. same.version.v6_flag ∙ is.bounded.4 h),
      is.bounded.5,
    );
    place = mode;
    sought = λ i ei hi. same.processed ∙ is.sought i (sym same.index ∙ ei) hi;
  }

  pub ready-IsRun :
      {pass : Frame} (r : LegacyRun H) (info : TxInfo) (hs : Hashers H)
      → r.parser.mode ≡ signature
      → r.ctx.tx_state.is_tx_parsed_once ≡ true
      → IsOpen pass r.parser r.ctx
      → IsSameVersion r.ctx.tx_info info
      → IsRun pass (
          at transaction_ready_to_sign
            (record r { ctx = record (r.ctx) { tx_info = info; hashers = hs } }))
  ready-IsRun r info hs mode once is same = record {
    header = same_header r.parser.mode r.ctx.tx_info info same is.header;
    kept = (
      is.kept.0,
      is.kept.1,
      same.declared ∙ is.kept.2,
      same.fees ∙ is.kept.3,
      (λ h. (same.locktime ∙ (is.kept.4 h).0, same.expiry ∙ (is.kept.4 h).1)),
      is.kept.5,
    );
    bounded = (
      is.bounded.0,
      is.bounded.1,
      is.bounded.2,
      is.bounded.3,
      (λ h. same.v6_flag ∙ is.bounded.4 h),
      is.bounded.5,
    );
    place = (mode, once);
    sought = is.sought;
  }

  -- What the end of the inputs gives.
  abbrev InputsEnd : Frame → Bytes → LegacyRun H × Bytes → Type 0
  InputsEnd pass unread s =
      IsRun pass s.0 × (slack s.0.parser.state ≡ 0) × (length s.1 ≤ length unread)

  finish_signature_inputs-InputsEnd :
      {pass : Frame} (once : Bool) (r : LegacyRun H) (unread : Bytes)
      → r.parser.mode ≡ signature
      → r.ctx.tx_state.is_tx_parsed_once ≡ once
      → IsOpen pass r.parser r.ctx
      → Ensures (InputsEnd pass unread) (finish_signature_inputs ops once r unread)
  unfolding finish_signature_inputs
  finish_signature_inputs-InputsEnd {pass = pass} true r unread mode once is =
      let Q = InputsEnd pass unread in
      past_finalize ops.hashing Q r.ctx.hashers.prevouts_hasher _ λ d.
        Ensures-bind (IsSameVersion r.ctx.tx_info) Q
          (compute_transparent_input_signature_digest ops.hashing.blake ops.write_tx_version
            ops.zcash_orchard_v5_hash_personalization r.ctx.tx_info d.0 r.ctx.tx_info.sighash_type)
          _
          (compute_transparent_input_signature_digest-IsSameVersion ops.hashing.blake
            ops.write_tx_version ops.zcash_orchard_v5_hash_personalization r.ctx.tx_info d.0
            r.ctx.tx_info.sighash_type (has_header r.parser.mode r.ctx.tx_info is.header))
          λ info ei same. (
            ready-IsRun r info (record (r.ctx.hashers) { prevouts_hasher = d.1 }) mode once is same,
            refl,
            omega arith,
          )
  finish_signature_inputs-InputsEnd {pass = pass} false r unread mode once is =
      Ensures-bind (IsSameTx r.ctx) (InputsEnd pass unread)
        (finalize_signature_input_hash ops.hashing r.ctx) _
        (finalize_signature_input_hash-IsSameTx ops.hashing r.ctx)
        λ ctx ec same. (presign-IsRun r ctx mode once is same, refl, omega arith)

  finish_inputs-InputsEnd :
      {pass : Frame} (mode : LegacyParserMode) (r : LegacyRun H) (unread : Bytes)
      → r.parser.mode ≡ mode
      → IsOpen pass r.parser r.ctx
      → Ensures (InputsEnd pass unread) (finish_inputs ops mode r unread)
  unfolding finish_inputs
  finish_inputs-InputsEnd trusted_input r unread mode is = (
    record {
      header = is.header;
      kept = is.kept;
      bounded = is.bounded;
      place = (is.fresh, mode);
      sought = is.sought;
    },
    refl,
    omega arith,
  )
  finish_inputs-InputsEnd signature r unread mode is =
      finish_signature_inputs-InputsEnd r.ctx.tx_state.is_tx_parsed_once r unread mode refl is

  feed_signed_script-Anything :
      (once : Bool) (script : Bytes) (sequence : ℕ) (hs : Hashers H)
      → Ensures Anything (feed_signed_script ops once script sequence hs)
  unfolding feed_signed_script
  feed_signed_script-Anything true script sequence hs =
      Ensures-bind Anything Anything
        (feed ops.hashing.blake hs.prevouts_hasher
          (written (ops.wire.write_script script) ∷ hashed (le32 sequence) ∷ []))
        _
        (feed-Anything ops.hashing.blake hs.prevouts_hasher
          (written (ops.wire.write_script script) ∷ hashed (le32 sequence) ∷ []) refl)
        λ h eh t. tt
  feed_signed_script-Anything false script sequence hs = tt

  close_input-InputsEnd :
      {pass : Frame} (r : LegacyRun H) (script unread : Bytes)
      → IsOpen pass r.parser r.ctx
      → Ensures
          (λ s. InputsEnd pass unread s × (length s.1 < length unread))
          (close_input ops r script unread)
  unfolding close_input
  close_input-InputsEnd {pass = pass} r script unread is =
      let Q : LegacyRun H × Bytes → Type 0 =
        λ s. InputsEnd pass unread s × (length s.1 < length unread) in
      let (v, ev) = supported_of r.parser.mode r.ctx.tx_info is.header in
      let parsed = saturating_suc r.parser.input_parsed_count in
      Ensures-ok Q (supported_tx_version r.ctx.tx_info) _ v ev (
        past_version Q ops v r.ctx.hashers.scripts_hasher
          (λ h. record (r.ctx.hashers) { scripts_hasher = h }) r.ctx.hashers
          (ops.wire.write_script script) io _ refl
          λ hs. past_number Q 4 unread _ λ sequence l.
            past_version Q ops v hs.sequence_hasher (λ h. record hs { sequence_hasher = h }) hs
              (le32 sequence.0) hash _ refl
              λ hs1.
                Ensures-bind Anything Q
                  (feed_signed_script ops r.ctx.tx_state.is_tx_parsed_once script sequence.0 hs1) _
                  (feed_signed_script-Anything r.ctx.tx_state.is_tx_parsed_once script sequence.0
                    hs1)
                  λ hs2 eh t.
                    let r' : LegacyRun H = record r {
                      parser = record (r.parser) { input_parsed_count = parsed; script_bytes = [] };
                      ctx = record (r.ctx) { hashers = hs2 };
                    } in
                    Ensures-if Q (r.parser.input_count == parsed) _ _
                      (λ last.
                        Ensures-map (InputsEnd pass sequence.1) Q
                          (finish_inputs ops r.parser.mode r' sequence.1)
                          (finish_inputs-InputsEnd r.parser.mode r' sequence.1 refl (record {
                            header = is.header;
                            kept = is.kept;
                            bounded = is.bounded;
                            fresh = is.fresh;
                            sought = is.sought;
                          }))
                          λ s end.
                            ((end.0, end.1, omega (arith, end.2, l)), omega (arith, end.2, l)))
                      λ more. (
                        (
                          record {
                            header = is.header;
                            kept = is.kept;
                            bounded = is.bounded;
                            place = is.fresh;
                            sought = is.sought;
                          },
                          refl,
                          omega (arith, l),
                        ),
                        omega (arith, l),
                      ))

  pub parse_input_script_kept :
      {pass : Frame} (size remaining : ℕ) (r : LegacyRun H) (unread : Bytes)
      → IsRunAt pass (process_input_script size remaining) r.parser r.ctx
      → 0 < length unread
      → Ensures
          (Shorter pass (process_input_script size remaining) unread)
          (parse_input_script ops size remaining r unread)
  unfolding parse_input_script
  parse_input_script_kept {pass = pass} size remaining r unread is more =
      let Q = Shorter pass (process_input_script size remaining) unread in
      let (fresh, buffer) = is.place in
      past_fill Q size remaining r.parser.script_bytes unread _ buffer λ left buf rest buffer' el l.
        Ensures-if Q (not (left == 0)) _ _
          (λ going. (
            record {
              header = is.header;
              kept = is.kept;
              bounded = is.bounded;
              place = (fresh, buffer');
              sought = is.sought;
            },
            ground (arith, l, el),
          ))
          λ done.
            Ensures-ensure Q (size == length buf) (custom bad_input_script_len) _ refl λ whole.
              Ensures-map (λ s. InputsEnd pass rest s × (length s.1 < length rest)) Q
                (close_input ops r buf rest)
                (close_input-InputsEnd r buf rest (record {
                  header = is.header;
                  kept = is.kept;
                  bounded = is.bounded;
                  fresh = fresh;
                  sought = is.sought;
                }))
                λ s end. (end.0.0, omega (arith, end.0.1, end.1, l))
