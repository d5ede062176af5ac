-- ===== src/Legacy/Transparent.antt =====
-- src/parser/legacy/transparent.rs: the transparent inputs and outputs, and the counts of the
-- shielded components.
use app_zcash.Base.{
  ℕ, ◌+◌, ◌-◌, ◌^◌, Bool, true, false, ◌&&◌, ◌||◌, not, Option, none, some, if◌then◌else◌, ltb, leb,
  ◌==◌, ◌%◌, ok, ◌>>=◌, ◌>>◌, ensure, ◌∷◌, [], min, length, take, drop, replicate,
}
use app_zcash.Base.Bytes.{Bytes, to_le_bytes}
use app_zcash.Wire.{secure_memcmp}
use app_zcash.Tx.{
  Hashers, TrustedInputInfo, SupportedTxVersion, supported_v4, supported_v5, supported_v6,
}
use app_zcash.Reader.Unread.{take_exact}
use app_zcash.ParserError.{
  Reason, Parsed, try_ok, io, hash, hmac, balance, custom, panicked, bad_input_script_size,
  bad_input_script_len, bad_output_script_size, bad_output_script_len,
  unsupported_trusted_input_mode, untrusted_input_mode, invalid_trusted_input_size, not_enough_data,
  trusted_input_key_not_set, trusted_input_hmac_mismatch, trusted_input_index_not_set,
  too_many_shielded_components, v4_with_shielded_components,
}
use app_zcash.Session.{LegacyParserMode, trusted_input, signature}
use app_zcash.Digest.{
  le32, feed, hashed, written, supported_tx_version, compute_transparent_input_signature_digest,
}
use app_zcash.TxId.{finalize_and_log_hash, finalize_signature_input_hash}
use app_zcash.Output.{write_at, u64_max, max_script_size}
use app_zcash.Legacy.{
  LegacyRun, LegacyOps, usize_max, next_number, feed_by_version, at, wait_input,
  process_input_script, input_hashing_done, wait_output, process_output_script, output_hashing_done,
  process_sapling, transaction_presign_ready, transaction_ready_to_sign,
}
use app_zcash.Legacy.Actions.{enter_next_action_bundle}

abbrev pub max_legacy_shielded_count : ℕ
max_legacy_shielded_count = 10_000

-- Magic, nonce, outpoint and amount; and the code over them.
abbrev pub trusted_input_size : ℕ
trusted_input_size = 2 + 2 + 32 + 4 + 8

abbrev pub trusted_input_total_size : ℕ
trusted_input_total_size = trusted_input_size + 8

pub data TrustedInputMode : Type 0 where
  trusted untrusted : TrustedInputMode

-- `try_into`, and `TrustedInputMode::read`.
unfoldable pub trusted_input_mode : ℕ → Option TrustedInputMode
trusted_input_mode value =
    if value == 0x01 then some trusted else (if value == 0x02 then some untrusted else none)

unfoldable pub read_trusted_input_mode : Bytes → Parsed (TrustedInputMode × Bytes)
read_trusted_input_mode unread = do
  (value, rest) ← next_number 1 unread
  mode ← try_ok (trusted_input_mode value) (custom unsupported_trusted_input_mode)
  ok (mode, rest)

abbrev pub is_trusted : TrustedInputMode → Bool
is_trusted trusted = true
is_trusted untrusted = false

abbrev pub is_v4 : SupportedTxVersion → Bool
is_v4 supported_v4 = true
is_v4 supported_v5 = false
is_v4 supported_v6 = false

abbrev pub has_ironwood_pool : SupportedTxVersion → Bool
has_ironwood_pool supported_v4 = false
has_ironwood_pool supported_v5 = false
has_ironwood_pool supported_v6 = true

-- `saturating_add` on a `usize`.
abbrev pub saturating_suc : ℕ → ℕ
saturating_suc n = min (n + 1) usize_max

-- `reader.read(&mut self.script_bytes[offset..][..remaining_size])`: what remains, the buffer, and
-- the bytes behind. The slice panics out of range.
unfoldable pub fill_script : ℕ → ℕ → Bytes → Bytes → Parsed (ℕ × Bytes × Bytes)
fill_script size remaining_size script_bytes unread = do
  ensure (leb remaining_size size && leb size (length script_bytes)) panicked
  let len = min remaining_size (length unread)
  ok (
    remaining_size - len,
    write_at (size - remaining_size) (take len unread) script_bytes,
    drop len unread,
  )

-- `requested_idx == self.output_parsed_count as u32`.
unfoldable pub match_index : ℕ → ℕ → ℕ → TrustedInputInfo → TrustedInputInfo
match_index requested_idx output_parsed_count amount info =
    if requested_idx == output_parsed_count % 2 ^ 32
    then record info { amount = amount; is_input_processed = true }
    else info

module _ {H : Type 0} (ops : LegacyOps H) where
  unfoldable pub read_bounded_shielded_count : Bytes → Parsed (ℕ × Bytes)
  read_bounded_shielded_count unread = do
    (count, rest) ← try_ok (ops.wire.read_compact_size unread) io
    ensure (not (ltb max_legacy_shielded_count count)) (custom too_many_shielded_components)
    ok (count, rest)

  -- A script size, bounded; the buffer for it; and the state that fills the buffer.
  unfoldable pub read_script_size : Reason → Bytes → Parsed (ℕ × Bytes)
  read_script_size reason unread = do
    (script_size, rest) ← try_ok (ops.wire.read_compact_size unread) io
    ensure (not (ltb max_script_size script_size)) (custom reason)
    ok (script_size, rest)

  unfoldable pub parse_input : LegacyRun H → Bytes → Parsed (LegacyRun H × Bytes)
  parse_input r unread = do
    (prevout, unread1) ← try_ok (ops.read_outpoint unread) io
    version ← supported_tx_version r.ctx.tx_info
    hs ←
        feed_by_version ops version r.ctx.hashers.prevouts_hasher
          (λ h. record (r.ctx.hashers) { prevouts_hasher = h }) r.ctx.hashers prevout io
    (script_size, unread2) ← read_script_size bad_input_script_size unread1
    ok (
      record r {
        parser = record (r.parser) {
          state = process_input_script script_size script_size;
          script_bytes = replicate script_size 0;
        };
        ctx = record (r.ctx) { hashers = hs };
      },
      unread2,
    )

  -- What authenticates a trusted input: the code over it under the key of the device.
  unfoldable pub check_trusted_input : Bytes → Parsed (Unit {0})
  check_trusted_input input = do
    key ← try_ok ops.trusted_input_key (custom trusted_input_key_not_set)
    computed ← try_ok (ops.hmac_sha256 key (take trusted_input_size input)) hmac
    ensure (secure_memcmp computed (take 8 (drop trusted_input_size input)))
        (custom trusted_input_hmac_mismatch)

  -- The framing of a trusted input, and its code.
  unfoldable pub open_trusted_input : Bytes → Parsed Bytes
  open_trusted_input unread = do
    (mode, unread1) ← read_trusted_input_mode unread
    ensure (is_trusted mode) (custom untrusted_input_mode)
    (trusted_input_len, unread2) ← next_number 1 unread1
    ensure (trusted_input_len == trusted_input_total_size) (custom invalid_trusted_input_size)
    ensure (not (ltb (length unread2) trusted_input_len)) (custom not_enough_data)
    check_trusted_input (take trusted_input_len unread2)
    ok unread2

  -- The input that a trusted input holds: outpoint and amount.
  unfoldable pub read_trusted_input : LegacyRun H → Bytes → Parsed (Hashers H × ℕ × Bytes)
  read_trusted_input r unread = do
    (_magic, unread1) ← try_ok (take_exact 2 unread) io
    (_rand_bytes, unread2) ← try_ok (take_exact 2 unread1) io
    (prevout, unread3) ← try_ok (ops.read_outpoint unread2) io
    prevouts ← try_ok (ops.hashing.blake.update r.ctx.hashers.prevouts_hasher prevout) io
    (tmp, unread4) ← try_ok (take_exact 8 unread3) io
    amounts ← try_ok (ops.hashing.blake.update r.ctx.hashers.amounts_hasher tmp) hash
    amount ← try_ok (ops.wire.zatoshis tmp) balance
    (_hmac, unread5) ← try_ok (take_exact 8 unread4) io
    ok (
      record (r.ctx.hashers) { prevouts_hasher = prevouts; amounts_hasher = amounts },
      amount,
      unread5,
    )

  -- `if ctx.tx_state.is_tx_parsed_once`: the hasher of the prevouts, in the pass that signs, is that of
  -- the one input.
  unfoldable pub feed_signed_amount : Bool → ℕ → Hashers H → Parsed (Hashers H)
  feed_signed_amount true amount hs = do
    h ← try_ok (ops.hashing.blake.update hs.prevouts_hasher (to_le_bytes 8 amount)) hash
    ok (record hs { prevouts_hasher = h })
  feed_signed_amount false amount hs = ok hs

  unfoldable pub parse_input_signature_mode : LegacyRun H → Bytes → Parsed (LegacyRun H × Bytes)
  parse_input_signature_mode r unread = do
    sealed ← open_trusted_input unread
    (hs, amount, unread1) ← read_trusted_input r sealed
    (script_size, unread2) ← read_script_size bad_input_script_size unread1
    hs' ← feed_signed_amount r.ctx.tx_state.is_tx_parsed_once amount hs
    ok (
      record r {
        parser = record (r.parser) {
          state = process_input_script script_size script_size;
          script_bytes = replicate script_size 0;
        };
        ctx = record (r.ctx) {
          tx_info = record (r.ctx.tx_info) {
            total_amount = min (r.ctx.tx_info.total_amount + amount) u64_max;
          };
          hashers = hs';
        };
      },
      unread2,
    )

  unfoldable pub feed_signed_script : Bool → Bytes → ℕ → Hashers H → Parsed (Hashers H)
  feed_signed_script true script_sig sequence hs = do
    h ←
        feed ops.hashing.blake hs.prevouts_hasher
          (written (ops.wire.write_script script_sig) ∷ hashed (le32 sequence) ∷ [])
    ok (record hs { prevouts_hasher = h })
  feed_signed_script false script_sig sequence hs = ok hs

  -- The end of the inputs in the mode `signature`: the digest to be signed, or, before the review, the
  -- digests of the inputs; the latter skips what is left of the data.
  unfoldable pub finish_signature_inputs : Bool → LegacyRun H → Bytes → Parsed (LegacyRun H × Bytes)
  finish_signature_inputs true r unread = do
    (txin_sig_digest, h) ← finalize_and_log_hash ops.hashing r.ctx.hashers.prevouts_hasher
    info ←
        compute_transparent_input_signature_digest ops.hashing.blake ops.write_tx_version
          ops.zcash_orchard_v5_hash_personalization r.ctx.tx_info txin_sig_digest
          r.ctx.tx_info.sighash_type
    ok (
      at transaction_ready_to_sign (record r {
        ctx = record (r.ctx) {
          tx_info = info;
          hashers = record (r.ctx.hashers) { prevouts_hasher = h };
        };
      }),
      unread,
    )
  finish_signature_inputs false r unread = do
    ctx ← finalize_signature_input_hash ops.hashing r.ctx
    ok (at transaction_presign_ready (record r { ctx = ctx }), [])

  unfoldable pub finish_inputs :
      LegacyParserMode → LegacyRun H → Bytes → Parsed (LegacyRun H × Bytes)
  finish_inputs trusted_input r unread = ok (at input_hashing_done r, unread)
  finish_inputs signature r unread =
      finish_signature_inputs r.ctx.tx_state.is_tx_parsed_once r unread

  -- An input script that is complete, and the sequence behind it.
  unfoldable pub close_input : LegacyRun H → Bytes → Bytes → Parsed (LegacyRun H × Bytes)
  close_input r script_sig unread = do
    version ← supported_tx_version r.ctx.tx_info
    hs ←
        feed_by_version ops version r.ctx.hashers.scripts_hasher
          (λ h. record (r.ctx.hashers) { scripts_hasher = h }) r.ctx.hashers
          (ops.wire.write_script script_sig) io
    (sequence, rest) ← next_number 4 unread
    hs1 ←
        feed_by_version ops version hs.sequence_hasher (λ h. record hs { sequence_hasher = h }) hs
          (le32 sequence) hash
    hs2 ← feed_signed_script r.ctx.tx_state.is_tx_parsed_once script_sig sequence hs1
    let parsed = saturating_suc r.parser.input_parsed_count
    let r' = record r {
      parser = record (r.parser) { input_parsed_count = parsed; script_bytes = [] };
      ctx = record (r.ctx) { hashers = hs2 };
    }
    if r.parser.input_count == parsed
        then finish_inputs r.parser.mode r' rest
        else ok (at wait_input r', rest)

  unfoldable pub parse_input_script : ℕ → ℕ → LegacyRun H → Bytes → Parsed (LegacyRun H × Bytes)
  parse_input_script size remaining_size r unread = do
    (new_remaining_size, script, rest) ←
        fill_script size remaining_size r.parser.script_bytes unread
    if not (new_remaining_size == 0)
        then ok (
          record r {
            parser = record (r.parser) {
              state = process_input_script size new_remaining_size;
              script_bytes = script;
            };
          },
          rest,
        )
        else (ensure (size == length script) (custom bad_input_script_len)
            >> close_input r script rest)

  unfoldable pub parse_input_hashing_done : LegacyRun H → Bytes → Parsed (LegacyRun H × Bytes)
  parse_input_hashing_done r unread = do
    (output_count, rest) ← try_ok (ops.wire.read_compact_size unread) io
    version ← supported_tx_version r.ctx.tx_info
    hs ←
        (if is_v4 version
          then (try_ok
                (ops.hashing.sha.update r.ctx.hashers.v4_tx_hasher
                  (ops.wire.write_compact_size output_count))
                io
              >>= λ h. ok (record (r.ctx.hashers) { v4_tx_hasher = h }))
          else ok r.ctx.hashers)
    ok (
      record r {
        parser = record (r.parser) { output_count = output_count; state = wait_output };
        ctx = record (r.ctx) { hashers = hs };
      },
      rest,
    )

  unfoldable pub parse_output : LegacyRun H → Bytes → Parsed (LegacyRun H × Bytes)
  parse_output r unread = do
    (tmp, unread1) ← try_ok (take_exact 8 unread) io
    amount ← try_ok (ops.wire.zatoshis tmp) balance
    requested_idx ← try_ok r.ctx.trusted_input_info.input_idx (custom trusted_input_index_not_set)
    version ← supported_tx_version r.ctx.tx_info
    hs ←
        feed_by_version ops version r.ctx.hashers.outputs_hasher
          (λ h. record (r.ctx.hashers) { outputs_hasher = h }) r.ctx.hashers (to_le_bytes 8 amount)
          hash
    (script_size, unread2) ← read_script_size bad_output_script_size unread1
    ok (
      record r {
        parser = record (r.parser) {
          state = process_output_script script_size script_size;
          script_bytes = replicate script_size 0;
        };
        ctx = record (r.ctx) {
          trusted_input_info =
              match_index requested_idx r.parser.output_parsed_count amount
                r.ctx.trusted_input_info;
          hashers = hs;
        };
      },
      unread2,
    )

  -- An output script that is complete.
  unfoldable pub close_output : LegacyRun H → Bytes → Parsed (LegacyRun H)
  close_output r script_pubkey = do
    version ← supported_tx_version r.ctx.tx_info
    hs ←
        feed_by_version ops version r.ctx.hashers.outputs_hasher
          (λ h. record (r.ctx.hashers) { outputs_hasher = h }) r.ctx.hashers
          (ops.wire.write_script script_pubkey) io
    let parsed = saturating_suc r.parser.output_parsed_count
    ok (record r {
      parser = record (r.parser) {
        output_parsed_count = parsed;
        script_bytes = [];
        state = if r.parser.output_count == parsed then output_hashing_done else wait_output;
      };
      ctx = record (r.ctx) { hashers = hs };
    })

  unfoldable pub parse_output_script : ℕ → ℕ → LegacyRun H → Bytes → Parsed (LegacyRun H × Bytes)
  parse_output_script size remaining_size r unread = do
    (new_remaining_size, script, rest) ←
        fill_script size remaining_size r.parser.script_bytes unread
    if not (new_remaining_size == 0)
        then ok (
          record r {
            parser = record (r.parser) {
              state = process_output_script size new_remaining_size;
              script_bytes = script;
            };
          },
          rest,
        )
        else (ensure (size == length script) (custom bad_output_script_len)
            >> (close_output r script >>= λ r'. ok (r', rest)))

  -- The counts of a transaction without an Ironwood pool are three.
  unfoldable pub read_ironwood_count : SupportedTxVersion → ℕ → Bytes → Parsed (ℕ × Bytes)
  read_ironwood_count version before unread =
      if has_ironwood_pool version then read_bounded_shielded_count unread else ok (before, unread)

  -- Where the shielded section starts.
  unfoldable pub enter_shielded : LegacyRun H → Parsed (LegacyRun H)
  enter_shielded r =
      if ltb 0 r.parser.sapling_spend_count || ltb 0 r.parser.sapling_output_count
      then ok (at process_sapling r)
      else enter_next_action_bundle ops none r

  unfoldable pub parse_output_hashing_done : LegacyRun H → Bytes → Parsed (LegacyRun H × Bytes)
  parse_output_hashing_done r unread = do
    (spends, unread1) ← read_bounded_shielded_count unread
    (outputs, unread2) ← read_bounded_shielded_count unread1
    (actions, unread3) ← read_bounded_shielded_count unread2
    version ← supported_tx_version r.ctx.tx_info
    (ironwood_actions, rest) ← read_ironwood_count version r.parser.ironwood_action_count unread3
    ensure (not (is_v4 version && (ltb 0 spends || ltb 0 outputs || ltb 0 actions)))
        (custom v4_with_shielded_components)
    r' ← enter_shielded (record r {
      parser = record (r.parser) {
        sapling_spend_count = spends;
        sapling_output_count = outputs;
        orchard_action_count = actions;
        ironwood_action_count = ironwood_actions;
      };
    })
    ok (r', rest)
