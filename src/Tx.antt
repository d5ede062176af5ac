-- ===== src/Tx.antt =====
-- src/tx.rs: what is known of the transaction under review, the class of a transfer, and the rule
-- that hidden change returns to the account that signs.
pub mod Review
pub mod Declared
use app_zcash.Base.{
  ℕ, zero, suc, Bool, true, false, ◌&&◌, ◌||◌, not, Option, some, none, List, [], ◌∷◌,
  if◌then◌else◌, any, Result, ok, err, ◌==◌,
}
use app_zcash.Base.Bytes.{Bytes}
use app_zcash.Status.{AppSw, conditions_of_use_not_satisfied}
use app_zcash.Path.{Bip32Path}
use app_zcash.Path.Compliance.{derivation_account}

pub data TxPool : Type 0 where
  transparent orchard : TxPool

-- `label` and `value` are the bytes of the strings.
pub record TxOutputMemo : Type 0 where
  pub label : Bytes
  pub value : Bytes

pub record TxOutput : Type 0 where
  pub amount : ℕ
  pub address : Bytes
  pub is_change : Bool
  pub memo : Option TxOutputMemo
  pub pool : TxPool

pub data TransferType : Type 0 where
  public_to_public public_to_private private_to_public private_to_private mixed : TransferType

abbrev pub is_transparent : TxPool → Bool
is_transparent transparent = true
is_transparent orchard = false

abbrev pub is_orchard : TxPool → Bool
is_orchard transparent = false
is_orchard orchard = true

-- The `match (from_private, to_private)`.
abbrev pub by_pools : Bool → Bool → TransferType
by_pools false false = public_to_public
by_pools false true = public_to_private
by_pools true false = private_to_public
by_pools true true = private_to_private

unfoldable pub classify : Bool → Bool → List TxOutput → TransferType
classify from_public from_private outputs =
    let to_public = any (λ o. not o.is_change && is_transparent o.pool) outputs in
    let to_private = any (λ o. not o.is_change && is_orchard o.pool) outputs in
    if (from_public && from_private) || (to_public && to_private)
    then mixed
    else by_pools from_private to_private

-- `SupportedTxVersion`, and the `TxVersion` of `zcash_primitives`; the versions that the header
-- parser refuses are one constructor.
pub data SupportedTxVersion : Type 0 where
  supported_v4 supported_v5 supported_v6 : SupportedTxVersion

pub data TxVersion : Type 0 where
  v4 v5 v6 other_version : TxVersion

-- All fields but `orchard_decipher_keys`, which only the PCZT flow uses.
pub record TxInfo : Type 0 where
  pub tx_version : Option TxVersion
  pub branch_id : Option ℕ
  pub locktime : ℕ
  pub sighash_type : ℕ
  pub expiry_height : ℕ
  pub total_amount : ℕ
  pub fees : ℕ
  pub outputs : List TxOutput
  pub retained_memo_bytes : ℕ
  pub displayed_shielded_outputs : ℕ
  pub is_change_found : Bool
  pub change_pk_hash : Option Bytes
  pub change_account : Option ℕ
  pub prevouts_hash : Bytes
  pub sequence_hash : Bytes
  pub outputs_hash : Bytes
  pub amounts_hash : Bytes
  pub scripts_hash : Bytes
  pub header_digest : Bytes
  pub orchard_digest : Bytes
  pub signature_digest : Bytes
  pub ironwood_digest : Bytes
  pub is_v6 : Bool
  pub has_ironwood_bundle : Bool
  pub branch_id_raw : ℕ

-- `derivation_account(path) != Some(change_account)`.
abbrev pub same_account : Option ℕ → ℕ → Bool
same_account none account = false
same_account (some a) account = a == account

-- The `let Some(..) = .. else`.
abbrev pub check_account : Option ℕ → Option ℕ → Result AppSw (Unit {0})
check_account none spent = ok tt
check_account (some account) spent =
    if same_account spent account then ok tt else err conditions_of_use_not_satisfied

unfoldable pub check_change_returns_to_signing_account :
    TxInfo → Bip32Path → Result AppSw (Unit {0})
check_change_returns_to_signing_account tx_info path =
    check_account tx_info.change_account (derivation_account path)

pub record TrustedInputInfo : Type 0 where
  pub input_idx : Option ℕ
  pub is_input_processed : Bool
  pub amount : ℕ
  pub tx_id : Bytes

pub record TxSigningState : Type 0 where
  pub is_tx_parsed_once : Bool
  pub already_signed_input_count : ℕ
  pub total_input_count : ℕ

-- `Hashers`, over the states `H` of the streaming hashes.
pub record Hashers (H : Type 0) : Type 0 where
  pub prevouts_hasher : H
  pub sequence_hasher : H
  pub outputs_hasher : H
  pub amounts_hasher : H
  pub scripts_hasher : H
  pub orchard_hasher : H
  pub sapling_hasher : H
  pub tx_memo_hasher : H
  pub tx_compact_hasher : H
  pub tx_non_compact_hasher : H
  pub v4_tx_hasher : H
  pub ironwood_hasher : H
