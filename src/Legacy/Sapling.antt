-- ===== src/Legacy/Sapling.antt =====
-- src/parser/legacy/sapling.rs: the Sapling component of a transaction whose ID is computed.
use app_zcash.Base.{
  ℕ, ◌+◌, ◌*◌, Option, none, some, if◌then◌else◌, ltb, ◌==◌, ok, ◌>>=◌, ◌∷◌, [], List,
}
use app_zcash.Base.Bytes.{Bytes, to_le_bytes}
use app_zcash.Tx.{SupportedTxVersion, supported_v4, supported_v5, supported_v6}
use app_zcash.Personalization.{
  zcash_sapling_spends_hash_personalization, zcash_sapling_spends_compact_hash_personalization,
  zcash_sapling_spends_noncompact_hash_personalization,
  zcash_sapling_spends_noncompact_hash_personalization_v6,
  zcash_sapling_outputs_hash_personalization, zcash_sapling_outputs_compact_hash_personalization,
  zcash_sapling_outputs_memos_hash_personalization,
  zcash_sapling_outputs_noncompact_hash_personalization,
}
use app_zcash.Reader.Unread.{take_exact}
use app_zcash.ParserError.{
  ParserSourceError, Parsed, try_ok, io, hash, balance, not_enough_for_compact_output,
  not_enough_for_non_compact_output,
}
use app_zcash.Digest.{hashed, feed, digest, supported_tx_version}
use app_zcash.TxId.{finalize_and_log_hash}
use app_zcash.Legacy.{
  LegacyRun, LegacyOps, hash_size, hash_reader_chunk, hash_reader_exact, started, at, with_hashers,
  process_sapling_spends, process_sapling_spends_hashing, process_sapling_outputs_compact,
  process_sapling_outputs_memo, process_sapling_outputs_non_compact, process_sapling_output_hashing,
  process_extra,
}
use app_zcash.Legacy.Actions.{enter_next_action_bundle}

-- cmu, the ephemeral key, and the compact part of the ciphertext.
abbrev pub sapling_outputs_compact_size : ℕ
sapling_outputs_compact_size = hash_size + hash_size + 52

-- cv, the tag of the ciphertext, and the outgoing ciphertext.
abbrev pub sapling_outputs_noncompact_size : ℕ
sapling_outputs_noncompact_size = hash_size + 16 + 80

abbrev pub sapling_memo_size : ℕ
sapling_memo_size = 512

-- The anchor and the personalization of the spends, by the version; the anchor is read from the data.
unfoldable pub sapling_anchor : SupportedTxVersion → Bytes → Parsed (Option Bytes × Bytes × Bytes)
sapling_anchor supported_v6 unread =
    ok (none, zcash_sapling_spends_noncompact_hash_personalization_v6, unread)
sapling_anchor supported_v5 unread = do
  (anchor, rest) ← try_ok (take_exact 32 unread) io
  ok (some anchor, zcash_sapling_spends_noncompact_hash_personalization, rest)
sapling_anchor supported_v4 unread = do
  (anchor, rest) ← try_ok (take_exact 32 unread) io
  ok (some anchor, zcash_sapling_spends_noncompact_hash_personalization, rest)

-- What the anchor adds to a spend.
unfoldable pub anchor_part : Option Bytes → List (Bytes × ParserSourceError)
anchor_part none = []
anchor_part (some anchor) = hashed anchor ∷ []

module _ {H : Type 0} (ops : LegacyOps H) where
  -- `ProcessSaplingOutputsCompact` under its hasher.
  unfoldable pub enter_sapling_outputs : LegacyRun H → Parsed (LegacyRun H)
  enter_sapling_outputs r = do
    h ← started ops zcash_sapling_outputs_compact_hash_personalization
    ok (
        at process_sapling_outputs_compact
          (with_hashers (record (r.ctx.hashers) { tx_compact_hasher = h }) r))

  -- `self.sapling_spend_count > 0`.
  unfoldable pub enter_sapling_spends :
      SupportedTxVersion → LegacyRun H → Bytes → Parsed (LegacyRun H × Bytes)
  enter_sapling_spends version r unread = do
    (anchor, personalization, rest) ← sapling_anchor version unread
    compact ← started ops zcash_sapling_spends_compact_hash_personalization
    non_compact ← started ops personalization
    ok (
      at (process_sapling_spends anchor) (
          with_hashers
            (record (r.ctx.hashers) {
              tx_compact_hasher = compact;
              tx_non_compact_hasher = non_compact;
            })
            r),
      rest,
    )

  -- No spends: the digest of none of them goes in.
  unfoldable pub skip_sapling_spends : LegacyRun H → Parsed (LegacyRun H)
  skip_sapling_spends r = do
    d ← digest ops.hashing.blake zcash_sapling_spends_hash_personalization []
    h ← try_ok (ops.hashing.blake.update r.ctx.hashers.sapling_hasher d) hash
    enter_sapling_outputs (with_hashers (record (r.ctx.hashers) { sapling_hasher = h }) r)

  unfoldable pub parse_sapling : LegacyRun H → Bytes → Parsed (LegacyRun H × Bytes)
  parse_sapling r unread = do
    (tmp, rest) ← try_ok (take_exact 8 unread) io
    sapling_balance ← try_ok (ops.zat_balance tmp) balance
    let r' = record r { parser = record (r.parser) { sapling_balance = sapling_balance } }
    if ltb 0 r.parser.sapling_spend_count
        then (supported_tx_version r.ctx.tx_info >>= λ version.
            enter_sapling_spends version r' rest)
        else (if ltb 0 r.parser.sapling_output_count
            then (skip_sapling_spends r' >>= λ r''. ok (r'', rest))
            else ok (at process_extra r', rest))

  unfoldable pub parse_sapling_spends :
      Option Bytes → LegacyRun H → Bytes → Parsed (LegacyRun H × Bytes)
  parse_sapling_spends anchor r unread = do
    (cv, unread1) ← try_ok (take_exact 32 unread) io
    non_compact ←
        feed ops.hashing.blake r.ctx.hashers.tx_non_compact_hasher (hashed cv ∷ anchor_part anchor)
    (nullifier, unread2) ← try_ok (take_exact 32 unread1) io
    compact ← try_ok (ops.hashing.blake.update r.ctx.hashers.tx_compact_hasher nullifier) hash
    (rk, unread3) ← try_ok (take_exact 32 unread2) io
    non_compact' ← try_ok (ops.hashing.blake.update non_compact rk) hash
    let parsed = r.parser.sapling_spend_parsed_count + 1
    let r' = record r {
      parser = record (r.parser) { sapling_spend_parsed_count = parsed };
      ctx = record (r.ctx) {
        hashers = record (r.ctx.hashers) {
          tx_compact_hasher = compact;
          tx_non_compact_hasher = non_compact';
        };
      };
    }
    ok (
      if r.parser.sapling_spend_count == parsed then at process_sapling_spends_hashing r' else r',
      unread3,
    )

  -- Closes the Sapling component.
  unfoldable pub finish_sapling : Bytes → LegacyRun H → Parsed (LegacyRun H)
  finish_sapling sapling_output_digest r = do
    h ←
        feed ops.hashing.blake r.ctx.hashers.sapling_hasher
          (hashed sapling_output_digest ∷ hashed (to_le_bytes 8 r.parser.sapling_balance) ∷ [])
    enter_next_action_bundle ops none
        (with_hashers (record (r.ctx.hashers) { sapling_hasher = h }) r)

  unfoldable pub parse_sapling_spends_hashing : LegacyRun H → Parsed (LegacyRun H)
  parse_sapling_spends_hashing r = do
    (compact_digest, compact) ← finalize_and_log_hash ops.hashing r.ctx.hashers.tx_compact_hasher
    (non_compact_digest, non_compact) ←
        finalize_and_log_hash ops.hashing r.ctx.hashers.tx_non_compact_hasher
    sapling_spend ←
        digest ops.hashing.blake zcash_sapling_spends_hash_personalization
          (hashed compact_digest ∷ hashed non_compact_digest ∷ [])
    h ← try_ok (ops.hashing.blake.update r.ctx.hashers.sapling_hasher sapling_spend) hash
    let r' =
        with_hashers
          (record (r.ctx.hashers) {
            tx_compact_hasher = compact;
            tx_non_compact_hasher = non_compact;
            sapling_hasher = h;
          })
          r
    if ltb 0 r.parser.sapling_output_count
        then enter_sapling_outputs r'
        else (digest ops.hashing.blake zcash_sapling_outputs_hash_personalization [] >>= λ d.
            finish_sapling d r')

  unfoldable pub parse_sapling_outputs_compact : LegacyRun H → Bytes → Parsed (LegacyRun H × Bytes)
  parse_sapling_outputs_compact r unread = do
    (h, rest) ←
        hash_reader_exact ops r.ctx.hashers.tx_compact_hasher sapling_outputs_compact_size
          not_enough_for_compact_output unread
    let parsed = r.parser.sapling_output_parsed_count + 1
    let hs = record (r.ctx.hashers) { tx_compact_hasher = h }
    let r' = record r {
      parser = record (r.parser) { sapling_output_parsed_count = parsed };
      ctx = record (r.ctx) { hashers = hs };
    }
    let size = r.parser.sapling_output_count * sapling_memo_size
    if r.parser.sapling_output_count == parsed
        then (started ops zcash_sapling_outputs_memos_hash_personalization >>= λ memo. ok (
          at (process_sapling_outputs_memo size size)
              (with_hashers (record hs { tx_memo_hasher = memo }) r'),
          rest,
        ))
        else ok (r', rest)

  unfoldable pub parse_sapling_outputs_memo :
      ℕ → ℕ → LegacyRun H → Bytes → Parsed (LegacyRun H × Bytes)
  parse_sapling_outputs_memo size remaining_size r unread = do
    (new_remaining_size, h, rest) ←
        hash_reader_chunk ops r.ctx.hashers.tx_memo_hasher remaining_size unread
    let hs = record (r.ctx.hashers) { tx_memo_hasher = h }
    if new_remaining_size == 0
        then (started ops zcash_sapling_outputs_noncompact_hash_personalization >>= λ non_compact.
            ok (
              record r {
                parser = record (r.parser) {
                  sapling_output_parsed_count = 0;
                  state = process_sapling_outputs_non_compact;
                };
                ctx = record (r.ctx) {
                  hashers = record hs { tx_non_compact_hasher = non_compact };
                };
              },
              rest,
            ))
        else ok
            (at (process_sapling_outputs_memo size new_remaining_size) (with_hashers hs r), rest)

  unfoldable pub parse_sapling_outputs_non_compact :
      LegacyRun H → Bytes → Parsed (LegacyRun H × Bytes)
  parse_sapling_outputs_non_compact r unread = do
    (h, rest) ←
        hash_reader_exact ops r.ctx.hashers.tx_non_compact_hasher sapling_outputs_noncompact_size
          not_enough_for_non_compact_output unread
    let parsed = r.parser.sapling_output_parsed_count + 1
    let r' = record r {
      parser = record (r.parser) { sapling_output_parsed_count = parsed };
      ctx = record (r.ctx) { hashers = record (r.ctx.hashers) { tx_non_compact_hasher = h } };
    }
    ok (
      if r.parser.sapling_output_count == parsed then at process_sapling_output_hashing r' else r',
      rest,
    )

  unfoldable pub parse_sapling_output_hashing : LegacyRun H → Parsed (LegacyRun H)
  parse_sapling_output_hashing r = do
    (compact_digest, compact) ← finalize_and_log_hash ops.hashing r.ctx.hashers.tx_compact_hasher
    (memo_digest, memo) ← finalize_and_log_hash ops.hashing r.ctx.hashers.tx_memo_hasher
    (non_compact_digest, non_compact) ←
        finalize_and_log_hash ops.hashing r.ctx.hashers.tx_non_compact_hasher
    sapling_output ←
        digest ops.hashing.blake zcash_sapling_outputs_hash_personalization
          (hashed compact_digest ∷ hashed memo_digest ∷ hashed non_compact_digest ∷ [])
    finish_sapling sapling_output (
        with_hashers
          (record (r.ctx.hashers) {
            tx_compact_hasher = compact;
            tx_memo_hasher = memo;
            tx_non_compact_hasher = non_compact;
          })
          r)
