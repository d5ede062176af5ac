-- ===== src/Legacy/Steps/Inputs.antt =====
-- src/parser/legacy/transparent.rs: the step that opens an input keeps the invariant, in either mode.
use app_zcash.Base.{
  ℕ, ◌<◌, ◌≤◌, ◌≡◌, refl, Bool, true, false, not, ltb, ◌==◌, length, take, drop, arith, ensure,
  length-replicate,
}
use app_zcash.Base.Bytes.{Bytes, to_le_bytes}
use app_zcash.Wire.{secure_memcmp}
use app_zcash.Session.{LegacyParserMode, trusted_input, signature}
use app_zcash.Tx.{Hashers}
use app_zcash.ParserError.{
  ParserSourceError, is_stuck, Ensures, Ensures-bind, Ensures-try_ok, Ensures-ensure, io, hash,
  hmac, balance, custom, unsupported_trusted_input_mode, untrusted_input_mode,
  invalid_trusted_input_size, not_enough_data, trusted_input_key_not_set,
  trusted_input_hmac_mismatch, bad_input_script_size,
}
use app_zcash.Digest.{supported_tx_version}
use app_zcash.Digest.Total.{Anything, Ensures-ok}
use app_zcash.Legacy.{LegacyRun, LegacyOps, IsLegacyOps, wait_input}
use app_zcash.Legacy.Transparent.{
  trusted_input_mode, read_trusted_input_mode, is_trusted, trusted_input_size,
  trusted_input_total_size, check_trusted_input, open_trusted_input, read_trusted_input,
  feed_signed_amount, parse_input, parse_input_signature_mode,
}
use app_zcash.Legacy.Parse.{parse_input_by}
use app_zcash.Legacy.Invariant.{Frame, IsRunAt}
use app_zcash.Legacy.Steps.{Shorter, supported_of, past_take, past_number, past_version}
use app_zcash.Legacy.Steps.Scripts.{past_size}
use app_zcash.Legacy.Steps.InputScripts.{same_header}

ensure-Anything :
    (b : Bool) (e : ParserSourceError) → is_stuck e ≡ false → Ensures Anything (ensure b e)
ensure-Anything true e h = tt
ensure-Anything false e h = h

module _ {H : Type 0} (ops : LegacyOps H) (is_ops : IsLegacyOps ops) where
  parse_input_kept :
      {pass : Frame} (r : LegacyRun H) (unread : Bytes)
      → IsRunAt pass wait_input r.parser r.ctx
      → Ensures (Shorter pass wait_input unread) (parse_input ops r unread)
  unfolding parse_input
  parse_input_kept {pass = pass} r unread is =
      let Q = Shorter pass wait_input unread in
      let (v, ev) = supported_of r.parser.mode r.ctx.tx_info is.header in
      Ensures-try_ok Q (ops.read_outpoint unread) io _ refl λ p ep.
        Ensures-ok Q (supported_tx_version r.ctx.tx_info) _ v ev (
          past_version Q ops v r.ctx.hashers.prevouts_hasher
            (λ h. record (r.ctx.hashers) { prevouts_hasher = h }) r.ctx.hashers p.0 io _ refl
            λ hs. past_size Q ops is_ops bad_input_script_size p.1 _ λ size rest small l. (
              record {
                header = is.header;
                kept = is.kept;
                bounded = is.bounded;
                place = (is.place, (small, omega arith, length-replicate size 0));
                sought = is.sought;
              },
              omega (arith, l, is_ops.outpoint_takes unread p.0 p.1 ep),
            ))

  check_trusted_input-Anything : (input : Bytes) → Ensures Anything (check_trusted_input ops input)
  unfolding check_trusted_input
  check_trusted_input-Anything input =
      Ensures-try_ok Anything ops.trusted_input_key (custom trusted_input_key_not_set) _ refl
        λ key ek.
          Ensures-try_ok Anything (ops.hmac_sha256 key (take trusted_input_size input)) hmac _ refl
            λ computed ec.
              ensure-Anything (secure_memcmp computed (take 8 (drop trusted_input_size input)))
                (custom trusted_input_hmac_mismatch) refl

  open_trusted_input_rest :
      (unread : Bytes)
      → Ensures (λ rest. length rest ≤ length unread) (open_trusted_input ops unread)
  unfolding open_trusted_input read_trusted_input_mode
  open_trusted_input_rest unread =
      let Q : Bytes → Type 0 = λ rest. length rest ≤ length unread in
      Ensures-bind (λ s. length s.1 ≤ length unread) Q (read_trusted_input_mode unread) _
        (past_number (λ s. length s.1 ≤ length unread) 1 unread _
          λ value l.
            Ensures-try_ok (λ s. length s.1 ≤ length unread) (trusted_input_mode value.0)
              (custom unsupported_trusted_input_mode) _ refl λ mode em. omega (arith, l))
        λ mode em l.
          Ensures-ensure Q (is_trusted mode.0) (custom untrusted_input_mode) _ refl λ trust.
            past_number Q 1 mode.1 _ λ len l1.
              Ensures-ensure Q (len.0 == trusted_input_total_size)
                (custom invalid_trusted_input_size) _ refl
                λ size.
                  Ensures-ensure Q (not (ltb (length len.1) len.0)) (custom not_enough_data) _ refl
                    λ enough.
                      Ensures-bind Anything Q (check_trusted_input ops (take len.0 len.1)) _
                        (check_trusted_input-Anything (take len.0 len.1))
                        λ u eu t. omega (arith, l, l1)

  read_trusted_input_rest :
      (r : LegacyRun H) (unread : Bytes)
      → Ensures (λ s. length s.2 < length unread) (read_trusted_input ops r unread)
  unfolding read_trusted_input
  read_trusted_input_rest r unread =
      let Q : Hashers H × ℕ × Bytes → Type 0 = λ s. length s.2 < length unread in
      past_take Q 2 unread _ λ magic l. past_take Q 2 magic.1 _ λ nonce l1.
        Ensures-try_ok Q (ops.read_outpoint nonce.1) io _ refl λ prevout ep.
          Ensures-try_ok Q (ops.hashing.blake.update r.ctx.hashers.prevouts_hasher prevout.0) io _
            refl
            λ h eh. past_take Q 8 prevout.1 _ λ tmp l2.
              Ensures-try_ok Q (ops.hashing.blake.update r.ctx.hashers.amounts_hasher tmp.0) hash _
                refl
                λ h' eh'. Ensures-try_ok Q (ops.wire.zatoshis tmp.0) balance _ refl λ amount ea.
                  past_take Q 8 tmp.1 _ λ mac l3.
                    omega
                      (arith, l, l1, l2, l3, is_ops.outpoint_takes nonce.1 prevout.0 prevout.1 ep)

  feed_signed_amount-Anything :
      (once : Bool) (amount : ℕ) (hs : Hashers H)
      → Ensures Anything (feed_signed_amount ops once amount hs)
  unfolding feed_signed_amount
  feed_signed_amount-Anything true amount hs =
      Ensures-try_ok Anything (ops.hashing.blake.update hs.prevouts_hasher (to_le_bytes 8 amount))
        hash _ refl λ h eh. tt
  feed_signed_amount-Anything false amount hs = tt

  parse_input_signature_mode_kept :
      {pass : Frame} (r : LegacyRun H) (unread : Bytes)
      → IsRunAt pass wait_input r.parser r.ctx
      → Ensures (Shorter pass wait_input unread) (parse_input_signature_mode ops r unread)
  unfolding parse_input_signature_mode
  parse_input_signature_mode_kept {pass = pass} r unread is =
      let Q = Shorter pass wait_input unread in
      Ensures-bind (λ rest. length rest ≤ length unread) Q (open_trusted_input ops unread) _
        (open_trusted_input_rest unread)
        λ sealed es l.
          Ensures-bind (λ s. length s.2 < length sealed) Q (read_trusted_input ops r sealed) _
            (read_trusted_input_rest r sealed)
            λ input ei l1.
              past_size Q ops is_ops bad_input_script_size input.2 _ λ size rest small l2.
                Ensures-bind Anything Q
                  (feed_signed_amount ops r.ctx.tx_state.is_tx_parsed_once input.1 input.0) _
                  (feed_signed_amount-Anything r.ctx.tx_state.is_tx_parsed_once input.1 input.0)
                  λ hs eh t. (
                    record {
                      header =
                          same_header r.parser.mode r.ctx.tx_info _
                            (record {
                              version = refl;
                              branch = refl;
                              v6_flag = refl;
                              declared = refl;
                              fees = refl;
                              locktime = refl;
                              expiry = refl;
                            })
                            is.header;
                      kept = is.kept;
                      bounded = is.bounded;
                      place = (is.place, (small, omega arith, length-replicate size 0));
                      sought = is.sought;
                    },
                    omega (arith, l, l1, l2),
                  )

  pub parse_input_by_kept :
      {pass : Frame} (mode : LegacyParserMode) (r : LegacyRun H) (unread : Bytes)
      → IsRunAt pass wait_input r.parser r.ctx
      → Ensures (Shorter pass wait_input unread) (parse_input_by ops mode r unread)
  unfolding parse_input_by
  parse_input_by_kept trusted_input r unread is = parse_input_kept r unread is
  parse_input_by_kept signature r unread is = parse_input_signature_mode_kept r unread is
