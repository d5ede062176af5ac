-- ===== src/Legacy/Actions.antt =====
-- src/parser/legacy/orchard.rs: the shielded action bundles.
use app_zcash.Base.{
  ℕ, ◌+◌, ◌*◌, Option, none, some, if◌then◌else◌, ltb, ◌==◌, ok, ◌>>=◌, not, ◌∷◌, [],
}
use app_zcash.Base.Bytes.{Bytes}
use app_zcash.Tx.{Hashers, SupportedTxVersion, supported_v4, supported_v5, supported_v6}
use app_zcash.Personalization.{
  zcash_ironwood_actions_compact_hash_personalization,
  zcash_ironwood_actions_memos_hash_personalization,
  zcash_ironwood_actions_noncompact_hash_personalization,
}
use app_zcash.ParserError.{
  Parsed, try_ok, custom, memo_size_overflow, not_enough_for_compact_action,
  not_enough_for_non_compact_action, not_enough_for_digest_data,
}
use app_zcash.Digest.{hashed, feed, supported_tx_version}
use app_zcash.TxId.{finalize_and_log_hash}
use app_zcash.Legacy.{
  ActionBundle, orchard, ironwood, LegacyParser, LegacyRun, LegacyOps, hash_size, usize_max,
  hash_reader_chunk, hash_reader_exact, started, at, with_hashers, process_actions_compact,
  process_actions_memo, process_actions_non_compact, process_actions_hashing, process_extra,
}

abbrev pub orchard_memo_size : ℕ
orchard_memo_size = 512

-- Nullifier, cmx, ephemeral key, and the compact part of the ciphertext.
abbrev pub orchard_actions_compact_size : ℕ
orchard_actions_compact_size = hash_size + hash_size + hash_size + 52

-- cv, rk, the tag of the ciphertext, and the outgoing ciphertext.
abbrev pub orchard_actions_noncompact_size : ℕ
orchard_actions_noncompact_size = hash_size + hash_size + 16 + 80

-- Flags and balance; with the anchor in a v5 transaction.
abbrev pub actions_digest_data_size : ℕ
actions_digest_data_size = 1 + 8

abbrev pub actions_digest_data_size_v5 : ℕ
actions_digest_data_size_v5 = actions_digest_data_size + hash_size

abbrev pub action_count : LegacyParser → ActionBundle → ℕ
action_count p bundle = elim bundle [
  | orchard ↦ p.orchard_action_count
  | ironwood ↦ p.ironwood_action_count
]

-- `checked_mul` on a `usize`.
unfoldable pub checked_mul : ℕ → ℕ → Option ℕ
checked_mul a b = if ltb usize_max (a * b) then none else some (a * b)

-- The bundle that follows.
unfoldable pub next_bundle : LegacyParser → Option ActionBundle → Option ActionBundle
next_bundle p none =
    if ltb 0 p.orchard_action_count
    then some orchard
    else (if ltb 0 p.ironwood_action_count then some ironwood else none)
next_bundle p (some orchard) = if ltb 0 p.ironwood_action_count then some ironwood else none
next_bundle p (some ironwood) = none

unfoldable pub digest_data_size : SupportedTxVersion → ℕ
digest_data_size supported_v4 = actions_digest_data_size_v5
digest_data_size supported_v5 = actions_digest_data_size_v5
digest_data_size supported_v6 = actions_digest_data_size

-- `ActionBundle::hasher`, read and written.
unfoldable pub bundle_hasher : {H : Type 0} → ActionBundle → Hashers H → H
bundle_hasher orchard hs = hs.orchard_hasher
bundle_hasher ironwood hs = hs.ironwood_hasher

unfoldable pub set_bundle_hasher : {H : Type 0} → ActionBundle → H → Hashers H → Hashers H
set_bundle_hasher orchard h hs = record hs { orchard_hasher = h }
set_bundle_hasher ironwood h hs = record hs { ironwood_hasher = h }

module _ {H : Type 0} (ops : LegacyOps H) where
  unfoldable pub compact_personalization : ActionBundle → Bytes
  compact_personalization orchard = ops.zcash_orchard_actions_compact_hash_personalization
  compact_personalization ironwood = zcash_ironwood_actions_compact_hash_personalization

  unfoldable pub memos_personalization : ActionBundle → Bytes
  memos_personalization orchard = ops.zcash_orchard_actions_memos_hash_personalization
  memos_personalization ironwood = zcash_ironwood_actions_memos_hash_personalization

  unfoldable pub noncompact_personalization : ActionBundle → Bytes
  noncompact_personalization orchard = ops.zcash_orchard_actions_noncompact_hash_personalization
  noncompact_personalization ironwood = zcash_ironwood_actions_noncompact_hash_personalization

  -- The `match next`.
  unfoldable pub enter_bundle : Option ActionBundle → LegacyRun H → Parsed (LegacyRun H)
  enter_bundle none r = ok (at process_extra r)
  enter_bundle (some bundle) r = do
    h ← started ops (compact_personalization bundle)
    ok (record r {
      parser = record (r.parser) {
        action_parsed_count = 0;
        state = process_actions_compact bundle;
      };
      ctx = record (r.ctx) { hashers = record (r.ctx.hashers) { tx_compact_hasher = h } };
    })

  unfoldable pub enter_next_action_bundle : Option ActionBundle → LegacyRun H → Parsed (LegacyRun H)
  enter_next_action_bundle current r = enter_bundle (next_bundle r.parser current) r

  unfoldable pub parse_actions_compact :
      ActionBundle → LegacyRun H → Bytes → Parsed (LegacyRun H × Bytes)
  parse_actions_compact bundle r unread = do
    (h, rest) ←
        hash_reader_exact ops r.ctx.hashers.tx_compact_hasher orchard_actions_compact_size
          not_enough_for_compact_action unread
    let parsed = r.parser.action_parsed_count + 1
    let hs = record (r.ctx.hashers) { tx_compact_hasher = h }
    let r' = record r {
      parser = record (r.parser) { action_parsed_count = parsed };
      ctx = record (r.ctx) { hashers = hs };
    }
    (if not (parsed == action_count r.parser bundle)
        then ok (r', rest)
        else (started ops (memos_personalization bundle) >>= λ memo.
            try_ok (checked_mul (action_count r.parser bundle) orchard_memo_size)
              (custom memo_size_overflow)
            >>= λ size. ok (
              at (process_actions_memo bundle size size)
                  (with_hashers (record hs { tx_memo_hasher = memo }) r'),
              rest,
            )))

  unfoldable pub parse_actions_memo :
      ActionBundle → ℕ → ℕ → LegacyRun H → Bytes → Parsed (LegacyRun H × Bytes)
  parse_actions_memo bundle size remaining_size r unread = do
    (new_remaining_size, h, rest) ←
        hash_reader_chunk ops r.ctx.hashers.tx_memo_hasher remaining_size unread
    let hs = record (r.ctx.hashers) { tx_memo_hasher = h }
    (if new_remaining_size == 0
        then (started ops (noncompact_personalization bundle) >>= λ non_compact. ok (
          record r {
            parser = record (r.parser) {
              action_parsed_count = 0;
              state = process_actions_non_compact bundle;
            };
            ctx = record (r.ctx) { hashers = record hs { tx_non_compact_hasher = non_compact } };
          },
          rest,
        ))
        else ok
            (at (process_actions_memo bundle size new_remaining_size) (with_hashers hs r), rest))

  unfoldable pub parse_actions_noncompact :
      ActionBundle → LegacyRun H → Bytes → Parsed (LegacyRun H × Bytes)
  parse_actions_noncompact bundle r unread = do
    (h, rest) ←
        hash_reader_exact ops r.ctx.hashers.tx_non_compact_hasher orchard_actions_noncompact_size
          not_enough_for_non_compact_action unread
    let parsed = r.parser.action_parsed_count + 1
    let r' = record r {
      parser = record (r.parser) { action_parsed_count = parsed };
      ctx = record (r.ctx) { hashers = record (r.ctx.hashers) { tx_non_compact_hasher = h } };
    }
    ok (
      if parsed == action_count r.parser bundle then at (process_actions_hashing bundle) r' else r',
      rest,
    )

  unfoldable pub parse_actions_hashing :
      ActionBundle → LegacyRun H → Bytes → Parsed (LegacyRun H × Bytes)
  parse_actions_hashing bundle r unread = do
    (compact_digest, compact) ← finalize_and_log_hash ops.hashing r.ctx.hashers.tx_compact_hasher
    (memo_digest, memo) ← finalize_and_log_hash ops.hashing r.ctx.hashers.tx_memo_hasher
    (non_compact_digest, non_compact) ←
        finalize_and_log_hash ops.hashing r.ctx.hashers.tx_non_compact_hasher
    version ← supported_tx_version r.ctx.tx_info
    h ←
        feed ops.hashing.blake (bundle_hasher bundle r.ctx.hashers)
          (hashed compact_digest ∷ hashed memo_digest ∷ hashed non_compact_digest ∷ [])
    (h', rest) ←
        hash_reader_exact ops h (digest_data_size version) not_enough_for_digest_data unread
    r' ← enter_next_action_bundle (some bundle) (
        with_hashers
          (set_bundle_hasher bundle h' (record (r.ctx.hashers) {
            tx_compact_hasher = compact;
            tx_memo_hasher = memo;
            tx_non_compact_hasher = non_compact;
          }))
          r)
    ok (r', rest)
