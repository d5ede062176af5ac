-- ===== src/Legacy/Steps/Header.antt =====
-- src/parser/legacy/mod.rs: the steps of the header and of the data at the end keep the invariant.
use app_zcash.Base.{◌≡◌, refl, sym, ap, subst, ◌∙◌, Bool, true, false, ◌==◌, length, [], ◌∷◌, arith}
use app_zcash.Tx.Declared.{declared_of}
use app_zcash.Base.Bytes.{Bytes}
use app_zcash.Session.{LegacyParserMode, trusted_input, signature}
use app_zcash.ParserError.{
  Ensures, Ensures-bind, Ensures-try_ok, Ensures-if, Ensures-ensure, io, custom, unknown_branch_id,
  invalid_extra_data_length,
}
use app_zcash.Digest.{
  le32, hashed, feed, supported_tx_version, compute_no_transparent_input_signature_digest,
}
use app_zcash.Digest.Total.{
  Anything, Ensures-ok, feed-Anything, IsSameVersion,
  compute_no_transparent_input_signature_digest-IsSameVersion,
}
use app_zcash.TxId.{LegacyParserCtx, compute_tx_id, finalize_signature_input_hash}
use app_zcash.TxId.Total.{IsSameTx, compute_tx_id-IsSameTx, finalize_signature_input_hash-IsSameTx}
use app_zcash.Legacy.{LegacyRun, LegacyOps, IsLegacyOps, state_none, process_extra}
use app_zcash.Legacy.Transparent.{is_v4}
use app_zcash.Legacy.Parse.{no_inputs, header_ctx, parse_header, feed_extra, parse_process_extra}
use app_zcash.Legacy.Invariant.{Frame, Keeps, IsHeader, IsBounded, IsSought, IsRunAt, IsRun, slack}
use app_zcash.Legacy.Steps.{Shorter, supported_of, past_number}
use app_zcash.Legacy.Steps.InputScripts.{
  same_header, has_header, IsOpen, presign-IsRun, ready-IsRun,
}
use app_zcash.Legacy.Steps.Started.{IsStarted, SameBut, header_ctx-IsStarted}

module _ {H : Type 0} (ops : LegacyOps H) (is_ops : IsLegacyOps ops) where
  no_inputs-IsRun :
      {pass : Frame} (mode : LegacyParserMode) (once : Bool) (r : LegacyRun H)
      → r.parser.mode ≡ mode
      → r.ctx.tx_state.is_tx_parsed_once ≡ once
      → IsOpen pass r.parser r.ctx
      → Ensures (λ f. IsRun pass f × (slack f.parser.state ≡ 0)) (no_inputs ops mode once r)
  unfolding no_inputs
  no_inputs-IsRun {pass = pass} signature false r mode once is =
      Ensures-bind (IsSameTx r.ctx) (λ f. IsRun pass f × (slack f.parser.state ≡ 0))
        (finalize_signature_input_hash ops.hashing r.ctx) _
        (finalize_signature_input_hash-IsSameTx ops.hashing r.ctx)
        λ ctx ec same. (presign-IsRun ops r ctx mode once is same, refl)
  no_inputs-IsRun {pass = pass} signature true r mode once is =
      Ensures-bind (IsSameVersion r.ctx.tx_info) (λ f. IsRun pass f × (slack f.parser.state ≡ 0))
        (compute_no_transparent_input_signature_digest ops.hashing.blake ops.write_tx_version
          ops.zcash_orchard_v5_hash_personalization r.ctx.tx_info r.parser.output_count
          r.ctx.tx_info.sighash_type)
        _
        (compute_no_transparent_input_signature_digest-IsSameVersion ops.hashing.blake
          ops.write_tx_version ops.zcash_orchard_v5_hash_personalization r.ctx.tx_info
          r.parser.output_count r.ctx.tx_info.sighash_type
          (has_header r.parser.mode r.ctx.tx_info is.header))
        λ info ei same. (ready-IsRun ops r info r.ctx.hashers mode once is same, refl)
  no_inputs-IsRun trusted_input once' r mode once is = (
    record {
      header = is.header;
      kept = is.kept;
      bounded = is.bounded;
      place = (is.fresh, mode);
      sought = is.sought;
    },
    refl,
  )

  pub parse_header_kept :
      {pass : Frame} (r : LegacyRun H) (unread : Bytes)
      → IsRunAt pass state_none r.parser r.ctx
      → Ensures (Shorter pass state_none unread) (parse_header ops r unread)
  unfolding parse_header
  parse_header_kept {pass = pass} r unread is =
      let (is_fresh, no_ironwood) = is.place in
      let Q = Shorter pass state_none unread in
      let mode = r.parser.mode in
      Ensures-try_ok Q (ops.read_tx_version unread) io _ refl λ v ev.
        past_number Q 4 v.1 _ λ value l.
          Ensures-try_ok Q (ops.branch_id value.0) (custom unknown_branch_id) _ refl λ b eb.
            Ensures-try_ok Q (ops.wire.read_compact_size value.1) io _ refl λ n en.
              let l1 = is_ops.version_takes unread v.0 v.1 ev in
              let l2 = is_ops.is_wire.compact_size_takes value.1 n.0 n.1 en in
              Ensures-bind (IsStarted mode v.0 b r.ctx) Q (header_ctx ops mode v.0 b n.0 r.ctx) _
                (header_ctx-IsStarted ops is_ops mode v.0 b n.0 r.ctx is.header)
                λ ctx ec started.
                  let r' : LegacyRun H = record r {
                    parser = record (r.parser) { input_count = n.0 };
                    ctx = ctx;
                  } in
                  let header : IsHeader mode ctx.tx_info = record {
                    version = v.0;
                    has_version = started.version;
                    branch = b;
                    has_branch = started.branch;
                    supports = started.supports;
                  } in
                  let bounded : IsBounded r'.parser ctx.tx_info = (
                    is.bounded.0,
                    is.bounded.1,
                    is.bounded.2,
                    is.bounded.3,
                    (λ h. absurd (omega (arith, h, no_ironwood))),
                    is.bounded.5,
                  ) in
                  let keeps : Keeps pass mode ctx = (
                    started.once ∙ is.kept.0,
                    started.index ∙ is.kept.1,
                    started.declared ∙ is.kept.2,
                    started.fees ∙ is.kept.3,
                    (λ h. (started.locktime ∙ (is.kept.4 h).0, started.expiry ∙ (is.kept.4 h).1)),
                    is.kept.5,
                  ) in
                  let sought : IsSought r.parser.output_parsed_count ctx.trusted_input_info =
                    λ i ei hi. started.processed ∙ is.sought i (sym started.index ∙ ei) hi in
                  Ensures-if Q (n.0 == 0) _ _
                    (λ none_declared.
                      Ensures-bind (λ f. IsRun pass f × (slack f.parser.state ≡ 0)) Q
                        (no_inputs ops mode ctx.tx_state.is_tx_parsed_once r') _
                        (no_inputs-IsRun mode ctx.tx_state.is_tx_parsed_once r' refl refl (record {
                          header = header;
                          kept = keeps;
                          bounded = bounded;
                          fresh = is_fresh;
                          sought = sought;
                        }))
                        λ f ef fin. (fin.0, omega (arith, fin.1, l, l1, l2)))
                    λ some_declared. (
                      record {
                        header = header;
                        kept = keeps;
                        bounded = bounded;
                        place = is_fresh;
                        sought = sought;
                      },
                      omega (arith, l, l1, l2),
                    )

  feed_extra_same :
      (four : Bool) (ctx : LegacyParserCtx H) (rest : Bytes)
      → Ensures (SameBut ctx) (feed_extra ops four ctx rest)
  unfolding feed_extra
  feed_extra_same true ctx rest =
      let parts =
        hashed (le32 ctx.tx_info.locktime)
        ∷ hashed (le32 ctx.tx_info.expiry_height)
        ∷ hashed rest
        ∷ [] in
      Ensures-bind Anything (SameBut ctx) (feed ops.hashing.sha ctx.hashers.v4_tx_hasher parts) _
        (feed-Anything ops.hashing.sha ctx.hashers.v4_tx_hasher parts refl)
        λ h eh t. (refl, refl, refl)
  feed_extra_same false ctx rest = (refl, refl, refl)

  pub parse_process_extra_kept :
      {pass : Frame} (r : LegacyRun H) (unread : Bytes)
      → IsRunAt pass process_extra r.parser r.ctx
      → Ensures (Shorter pass process_extra unread) (parse_process_extra ops r unread)
  unfolding parse_process_extra
  parse_process_extra_kept {pass = pass} r unread is =
      let Q = Shorter pass process_extra unread in
      past_number Q 4 unread _ λ locktime l.
        Ensures-try_ok Q (ops.wire.read_compact_size locktime.1) io _ refl λ n en.
          let l1 = is_ops.is_wire.compact_size_takes locktime.1 n.0 n.1 en in
          Ensures-ensure Q (n.0 == length n.1) (custom invalid_extra_data_length) _ refl λ whole.
            past_number Q 4 n.1 _ λ expiry l2.
              let ctx : LegacyParserCtx H = record (r.ctx) {
                tx_info = record (r.ctx.tx_info) {
                  locktime = locktime.0;
                  expiry_height = expiry.0;
                };
              } in
              let header : IsHeader r.parser.mode ctx.tx_info = record {
                version = is.header.version;
                has_version = is.header.has_version;
                branch = is.header.branch;
                has_branch = is.header.has_branch;
                supports = is.header.supports;
              } in
              let (v, ev) = supported_of r.parser.mode ctx.tx_info header in
              Ensures-ok Q (supported_tx_version ctx.tx_info) _ v ev (
                Ensures-bind (SameBut ctx) Q (feed_extra ops (is_v4 v) ctx expiry.1) _
                  (feed_extra_same (is_v4 v) ctx expiry.1)
                  λ ctx1 e1 same1.
                    let header1 : IsHeader r.parser.mode ctx1.tx_info =
                      subst (λ i. IsHeader r.parser.mode i) (sym same1.0) header in
                    let (v1, ev1) = supported_of r.parser.mode ctx1.tx_info header1 in
                    Ensures-bind (IsSameTx ctx1) Q
                      (compute_tx_id ops.hashing ops.write_tx_version ctx1) _
                      (compute_tx_id-IsSameTx ops.hashing ops.write_tx_version ctx1 v1
                        (has_header r.parser.mode ctx1.tx_info header1) ev1)
                      λ ctx2 e2 same2. (
                        record {
                          header =
                              same_header r.parser.mode ctx1.tx_info ctx2.tx_info same2.version
                                header1;
                          kept = (
                            ap (λ s. s.is_tx_parsed_once) same2.state
                                ∙ ap (λ s. s.is_tx_parsed_once) same1.1
                                ∙ is.kept.0,
                            same2.index ∙ ap (λ t. t.input_idx) same1.2 ∙ is.kept.1,
                            same2.version.declared ∙ ap (λ i. declared_of i) same1.0 ∙ is.kept.2,
                            same2.version.fees ∙ ap (λ i. i.fees) same1.0 ∙ is.kept.3,
                            (λ h. absurd (ground (arith, sym (is.place.0) ∙ h))),
                            is.kept.5,
                          );
                          bounded = (
                            is.bounded.0,
                            is.bounded.1,
                            is.bounded.2,
                            is.bounded.3,
                            (λ h.
                                same2.version.v6_flag ∙ ap (λ i. i.is_v6) same1.0 ∙ is.bounded.4 h),
                            is.bounded.5,
                          );
                          place = is.place;
                          sought = λ i ei hi.
                              same2.processed
                              ∙ ap (λ t. t.is_input_processed) same1.2
                              ∙ is.sought i
                                  (sym (ap (λ t. t.input_idx) same1.2) ∙ sym same2.index ∙ ei) hi;
                        },
                        omega (arith, l, l1, l2),
                      ))
