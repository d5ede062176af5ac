-- ===== src/Legacy.antt =====
-- src/parser/legacy/mod.rs: the parser of a transaction that is streamed in the legacy flow. In the
-- mode `trusted_input` it reads a whole previous transaction and computes its ID; in the mode
-- `signature` it reads the header and the inputs of the transaction to be signed, once before the
-- review and once for each signature. The children have the steps, `Parse` the loop.
pub mod Actions
pub mod Sapling
pub mod Transparent
pub mod Parse
pub mod Invariant
pub mod Steps
pub mod Total
use app_zcash.Base.{
  ℕ, ◌+◌, ◌-◌, ◌<◌, ◌≤◌, ◌≡◌, ◌≢◌, min, Bool, true, false, List, [], Option, none, some, length,
  take, drop, ltb, not, ok, err, ◌>>=◌, ◌>>◌, ensure,
}
use app_zcash.Base.Bytes.{Bytes, from_le_bytes}
use app_zcash.Sdk.{Hashing, Wire, IsWire}
use app_zcash.Tx.{TxVersion, SupportedTxVersion, supported_v4, supported_v5, supported_v6, Hashers}
use app_zcash.ParserError.{Reason, ParserSourceError, Parsed, try_ok, io, hash, custom}
use app_zcash.Session.{LegacyParserMode}
use app_zcash.TxId.{LegacyParserCtx}
use app_zcash.Reader.Unread.{take_exact, skip_exact}

pub data ActionBundle : Type 0 where
  orchard ironwood : ActionBundle

-- `size` and `remaining_size` of a state are its first and its second number.
pub data LegacyParserState : Type 0 where
  state_none wait_input input_hashing_done wait_output output_hashing_done : LegacyParserState
  process_input_script : ℕ → ℕ → LegacyParserState
  process_output_script : ℕ → ℕ → LegacyParserState
  process_sapling process_sapling_spends_hashing : LegacyParserState
  process_sapling_spends : Option Bytes → LegacyParserState
  process_sapling_outputs_compact process_sapling_outputs_non_compact : LegacyParserState
  process_sapling_outputs_memo : ℕ → ℕ → LegacyParserState
  process_sapling_output_hashing : LegacyParserState
  process_actions_compact process_actions_non_compact : ActionBundle → LegacyParserState
  process_actions_hashing : ActionBundle → LegacyParserState
  process_actions_memo : ActionBundle → ℕ → ℕ → LegacyParserState
  process_extra transaction_parsed : LegacyParserState
  transaction_presign_ready transaction_ready_to_sign : LegacyParserState

-- `sapling_balance` is the 64 bits of the `i64`.
pub record LegacyParser : Type 0 where
  pub mode : LegacyParserMode
  pub state : LegacyParserState
  pub input_count : ℕ
  pub input_parsed_count : ℕ
  pub output_count : ℕ
  pub output_parsed_count : ℕ
  pub sapling_spend_count : ℕ
  pub sapling_spend_parsed_count : ℕ
  pub sapling_output_count : ℕ
  pub sapling_output_parsed_count : ℕ
  pub orchard_action_count : ℕ
  pub ironwood_action_count : ℕ
  pub action_parsed_count : ℕ
  pub sapling_balance : ℕ
  pub script_bytes : Bytes

unfoldable pub new : LegacyParserMode → LegacyParser
new mode = record {
  mode = mode;
  state = state_none;
  input_count = 0;
  input_parsed_count = 0;
  output_count = 0;
  output_parsed_count = 0;
  sapling_spend_count = 0;
  sapling_spend_parsed_count = 0;
  sapling_output_count = 0;
  sapling_output_parsed_count = 0;
  orchard_action_count = 0;
  ironwood_action_count = 0;
  action_parsed_count = 0;
  sapling_balance = 0;
  script_bytes = [];
}

unfoldable pub set_transparent_output_count : ℕ → LegacyParser → LegacyParser
set_transparent_output_count cnt p = record p { output_count = cnt }

unfoldable pub is_finished : LegacyParser → Bool
is_finished p = elim p.state [ transaction_parsed ↦ true | _ ↦ false ]

unfoldable pub is_presign_ready : LegacyParser → Bool
is_presign_ready p = elim p.state [ transaction_presign_ready ↦ true | _ ↦ false ]

unfoldable pub is_ready_to_sign : LegacyParser → Bool
is_ready_to_sign p = elim p.state [ transaction_ready_to_sign ↦ true | _ ↦ false ]

-- The parser with what it mutates through its context. After an error the main loop resets all of
-- it, so an error carries no state.
pub record LegacyRun (H : Type 0) : Type 0 where
  pub parser : LegacyParser
  pub ctx : LegacyParserCtx H

-- What the parser calls and the repository does not implement, and the key that the settings hold.
-- `TxVersion::read` and `write`; `BranchId::try_from`, with its number as the branch; `OutPoint::read`,
-- which gives the outpoint as `write` writes it; `ZatBalance::from_i64_le_bytes`, as 64 bits;
-- HMAC-SHA-256 of a message under a key, into a buffer of 8 bytes; and the personalizations of the
-- `orchard` crate.
pub record LegacyOps (H : Type 0) : Type 0 where
  pub hashing : Hashing H
  pub wire : Wire
  pub read_tx_version : Bytes → Option (TxVersion × Bytes)
  pub write_tx_version : TxVersion → Bytes
  pub branch_id : ℕ → Option ℕ
  pub read_outpoint : Bytes → Option (Bytes × Bytes)
  pub zat_balance : Bytes → Option ℕ
  pub hmac_sha256 : Bytes → Bytes → Option Bytes
  pub trusted_input_key : Option Bytes
  pub zcash_orchard_v5_hash_personalization : Bytes
  pub zcash_orchard_actions_compact_hash_personalization : Bytes
  pub zcash_orchard_actions_memos_hash_personalization : Bytes
  pub zcash_orchard_actions_noncompact_hash_personalization : Bytes

-- The readers do not make data. SHA-256 takes what it is fed: the parser `expect`s that.
pub record IsLegacyOps {H : Type 0} (ops : LegacyOps H) : Type 0 where
  pub is_wire : IsWire ops.wire
  pub version_takes :
      (bs : Bytes) (v : TxVersion) (rest : Bytes)
      → ops.read_tx_version bs ≡ some (v, rest)
      → length rest ≤ length bs
  pub outpoint_takes :
      (bs prevout rest : Bytes)
      → ops.read_outpoint bs ≡ some (prevout, rest)
      → length rest ≤ length bs
  pub sha_updates : (h : H) (b : Bytes) → (h' : H) × (ops.hashing.sha.update h b ≡ some h')

abbrev pub hash_size : ℕ
hash_size = 32

-- `usize` has 32 bits on the device.
abbrev pub usize_max : ℕ
usize_max = 4_294_967_295

-- `read_u8` and `read_u32_le` on the unread bytes.
abbrev pub next_number : ℕ → Bytes → Parsed (ℕ × Bytes)
next_number width unread = try_ok (take_exact width unread) io >>= λ s. ok (from_le_bytes s.0, s.1)

module _ {H : Type 0} (ops : LegacyOps H) where
  -- `hash_reader_chunk`: what remains to be read, the hasher, and the bytes behind the chunk.
  unfoldable pub hash_reader_chunk : H → ℕ → Bytes → Parsed (ℕ × H × Bytes)
  hash_reader_chunk hasher remaining_size unread =
      let to_read = min remaining_size (length unread) in
      try_ok (ops.hashing.blake.update hasher (take to_read unread)) hash >>= λ h.
      try_ok (skip_exact to_read unread) io >>= λ rest. ok (remaining_size - to_read, h, rest)

  unfoldable pub hash_reader_exact : H → ℕ → Reason → Bytes → Parsed (H × Bytes)
  hash_reader_exact hasher size err_msg unread = do
    ensure (not (ltb (length unread) size)) (custom err_msg)
    h ← try_ok (ops.hashing.blake.update hasher (take size unread)) hash
    rest ← try_ok (skip_exact size unread) io
    ok (h, rest)

  -- The `match` on the version that picks the hasher of a part: `put` stores the one for v5 and v6.
  unfoldable pub feed_by_version :
      SupportedTxVersion
      → H
      → (H → Hashers H)
      → Hashers H
      → Bytes
      → ParserSourceError
      → Parsed (Hashers H)
  feed_by_version supported_v4 h put hs b e =
      try_ok (ops.hashing.sha.update hs.v4_tx_hasher b) e >>= λ h'.
      ok (record hs { v4_tx_hasher = h' })
  feed_by_version supported_v5 h put hs b e =
      try_ok (ops.hashing.blake.update h b) e >>= λ h'. ok (put h')
  feed_by_version supported_v6 h put hs b e =
      try_ok (ops.hashing.blake.update h b) e >>= λ h'. ok (put h')

  -- A hasher that starts under a personalization.
  abbrev pub started : Bytes → Parsed H
  started perso = try_ok (ops.hashing.blake.init_with_perso perso) hash

-- `self.state = state`, and new hashers.
abbrev pub at : {H : Type 0} → LegacyParserState → LegacyRun H → LegacyRun H
at state r = record r { parser = record (r.parser) { state = state } }

abbrev pub with_hashers : {H : Type 0} → Hashers H → LegacyRun H → LegacyRun H
with_hashers hs r = record r { ctx = record (r.ctx) { hashers = hs } }
