-- ===== src/Session.antt =====
-- src/tx.rs, `TxContext`: what lives between two APDUs, its resets, and the signature that a swap
-- approval may be spent on. The home screen, which the resets do not touch, is left out.
pub mod Approvals
mod Tests
use app_zcash.Base.{
  ℕ, Bool, true, false, ◌&&◌, List, [], Option, none, some, if◌then◌else◌, Result, ok, err,
  replicate,
}
use app_zcash.Base.Bytes.{Bytes}
use app_zcash.Status.{AppSw, bad_state}
use app_zcash.Sdk.{Hashing}
use app_zcash.Tx.{TxInfo, Hashers, TrustedInputInfo, TxSigningState}
use app_zcash.Swap.{CreateTxParams}
use app_zcash.Output.{LegacyOutputParser, new}

pub data LegacyParserMode : Type 0 where
  trusted_input signature : LegacyParserMode

pub record PendingVkResponse : Type 0 where
  pub bytes : Bytes
  pub offset : ℕ

-- The interface to the transaction parsers: the states of the legacy and of the PCZT one, and their
-- `new`.
pub record Parsers (L Z : Type 0) : Type 0 where
  pub new_legacy : LegacyParserMode → L
  pub new_pczt : Z

pub record TxContext (H L Z : Type 0) : Type 0 where
  pub is_extra_header_data_set : Bool
  pub is_finished : Bool
  pub tx_signing_state : TxSigningState
  pub tx_info : TxInfo
  pub trusted_input_info : TrustedInputInfo
  pub hashers : Hashers H
  pub legacy_parser : L
  pub pczt_parser : Z
  pub legacy_output_parser : LegacyOutputParser
  pub vk_response : Option PendingVkResponse
  pub is_vk_display_finished : Bool
  pub swap_params : Option CreateTxParams
  pub has_released_signature : Bool

-- The `Default`s of src/tx.rs.
abbrev pub no_hash : Bytes
no_hash = replicate 32 0

abbrev pub default_tx_info : TxInfo
default_tx_info = record {
  tx_version = none;
  branch_id = none;
  locktime = 0;
  sighash_type = 0;
  expiry_height = 0;
  total_amount = 0;
  fees = 0;
  outputs = [];
  retained_memo_bytes = 0;
  displayed_shielded_outputs = 0;
  is_change_found = false;
  change_pk_hash = none;
  change_account = none;
  prevouts_hash = no_hash;
  sequence_hash = no_hash;
  outputs_hash = no_hash;
  amounts_hash = no_hash;
  scripts_hash = no_hash;
  header_digest = no_hash;
  orchard_digest = no_hash;
  signature_digest = no_hash;
  ironwood_digest = no_hash;
  is_v6 = false;
  has_ironwood_bundle = false;
  branch_id_raw = 0;
}

abbrev pub default_trusted_input_info : TrustedInputInfo
default_trusted_input_info = record {
  input_idx = none;
  is_input_processed = false;
  amount = 0;
  tx_id = no_hash;
}

abbrev pub default_signing_state : TxSigningState
default_signing_state = record {
  is_tx_parsed_once = false;
  already_signed_input_count = 0;
  total_input_count = 0;
}

-- `is_some`.
abbrev pub is_swap : Option CreateTxParams → Bool
is_swap none = false
is_swap (some params) = true

module _ {H L Z : Type 0} (hashing : Hashing H) (parsers : Parsers L Z) where
  default_hashers : Hashers H
  default_hashers = record {
    prevouts_hasher = hashing.blake.fresh;
    sequence_hasher = hashing.blake.fresh;
    outputs_hasher = hashing.blake.fresh;
    amounts_hasher = hashing.blake.fresh;
    scripts_hasher = hashing.blake.fresh;
    orchard_hasher = hashing.blake.fresh;
    sapling_hasher = hashing.blake.fresh;
    tx_memo_hasher = hashing.blake.fresh;
    tx_compact_hasher = hashing.blake.fresh;
    tx_non_compact_hasher = hashing.blake.fresh;
    v4_tx_hasher = hashing.sha.fresh;
    ironwood_hasher = hashing.blake.fresh;
  }

  unfoldable pub init_in_place : Option CreateTxParams → LegacyParserMode → TxContext H L Z
  unfolding default_hashers
  init_in_place swap mode = record {
    is_extra_header_data_set = false;
    is_finished = false;
    tx_signing_state = default_signing_state;
    tx_info = default_tx_info;
    trusted_input_info = default_trusted_input_info;
    hashers = default_hashers;
    legacy_parser = parsers.new_legacy mode;
    pczt_parser = parsers.new_pczt;
    legacy_output_parser = new;
    vk_response = none;
    is_vk_display_finished = false;
    swap_params = swap;
    has_released_signature = false;
  }

  unfoldable pub reset : LegacyParserMode → TxContext H L Z → TxContext H L Z
  unfolding default_hashers
  reset mode c = record c {
    is_extra_header_data_set = false;
    is_finished = false;
    tx_signing_state = default_signing_state;
    tx_info = default_tx_info;
    trusted_input_info = default_trusted_input_info;
    hashers = default_hashers;
    legacy_parser = parsers.new_legacy mode;
    pczt_parser = parsers.new_pczt;
    legacy_output_parser = new;
    vk_response = none;
    is_vk_display_finished = false;
  }

  unfoldable pub reset_for_new_transaction :
      LegacyParserMode → TxContext H L Z → Result AppSw (TxContext H L Z)
  unfolding reset
  reset_for_new_transaction mode c =
      if is_swap c.swap_params && c.has_released_signature then err bad_state else ok (reset mode c)

unfoldable pub note_signature_released : {H L Z : Type 0} → TxContext H L Z → TxContext H L Z
note_signature_released c = record c { has_released_signature = true }

unfoldable pub set_transaction_trusted_input_idx :
    {H L Z : Type 0} → ℕ → TxContext H L Z → TxContext H L Z
set_transaction_trusted_input_idx idx c = record c {
  trusted_input_info = record (c.trusted_input_info) { input_idx = some idx };
}

unfoldable pub set_finished : {H L Z : Type 0} → TxContext H L Z → TxContext H L Z
set_finished c = record c { is_finished = true }

unfoldable pub set_extra_header_data : {H L Z : Type 0} → TxContext H L Z → TxContext H L Z
set_extra_header_data c = record c { is_extra_header_data_set = true }
