-- ===== src/Examples.antt =====
-- The theorems on paths, scripts, addresses, swaps and headers at concrete inputs.
use app_zcash.Base.{
  ◌%◌, ◌^◌, ◌<◌, ℕ, ◌≤◌, ◌≡◌, ◌≢◌, ◌↔◌, ◌⊎◌, true, false, List, [], ◌∷◌, ◌++◌, none, some, length,
  ok, err, arith, refl, if◌then◌else◌, ltb, All, replicate,
}
use app_zcash.Base.Bytes.{Bytes, from_be_bytes, IsU32}
use app_zcash.Status.{not_enough_memory_space, technical_problem}
use app_zcash.Path.{
  Bip32Path, as_slice, from_prefixed_bytes, from_dpath, as_chunks, max_zcash_bip32_path,
}
use app_zcash.Path.Codec.{
  encode_path, from_prefixed_bytes-encode_path, encode_path-from_prefixed_bytes,
}
use app_zcash.Path.Compliance.{
  full, only_coin_type, hardened, check_bip44_compliance, derivation_account, check_mode,
  check_shaped, check_bip44, check_full, mode_admits, is_zip32_shape, check_zip32,
}
use app_zcash.Path.Accepted.{
  IsAccepted, check_bip44_compliance_iff, HasAccount, derivation_account-HasAccount,
}
use app_zcash.Script.{
  output_script_is_regular, output_script_is_p2sh, check_output_displayable, hidden, displayable,
  change, output_script_is_op_return, pays_change,
}
use app_zcash.Script.Shapes.{
  IsP2pkh, IsP2sh, p2pkh_script, output_script_shapes, check_output_displayable_iff,
}
use app_zcash.Address.{output_script_to_transparent_payload}
use app_zcash.Address.Payee.{
  PayloadOf, output_script_to_transparent_payload_lem, not_hidden-payload,
}
use app_zcash.Tx.{
  TxOutput, TxInfo, transparent, orchard, classify, check_change_returns_to_signing_account,
}
use app_zcash.Tx.Review.{external, classify-external, SpendsFrom, change_stays_in_account}
use app_zcash.Swap.{CreateTxParams, check_swap_params}
use app_zcash.Swap.Approval.{IsApproved, check_swap_params_iff}
use app_zcash.Apdu.{ApduHeader, pczt_sign_orchard, try_from}
use app_zcash.Apdu.Headers.{Spells}
use app_zcash.Apdu.Total.{IsAnswer, try_from_iff, try_from-IsAnswer}
use app_zcash.Reader.{ByteReader}
use app_zcash.Reader.Unread.{Refines, ByteReader-Refines}
use app_zcash.Wire.{big, read_u32, encode_string_response, secure_memcmp}
use app_zcash.Wire.Encodings.{
  bytes_of, read_u32-bytes_of, encode_string_response_lem, secure_memcmp_iff,
}
use app_zcash.Zip32.{nth_derivation, max_orchard_derivations, orchard_derivation_budget}

-- m/44'/133'/7'/1/3, m/44'/133'/7'/0/9 and m/32'/133'/7'.
abbrev change_components : List ℕ
change_components = hardened 44 ∷ hardened 133 ∷ hardened 7 ∷ 1 ∷ 3 ∷ []

abbrev path_of : List ℕ → Bip32Path
path_of cs = record { path = cs; path_len = length cs }

abbrev change_path : Bip32Path
change_path = path_of change_components

abbrev zip32_path : Bip32Path
zip32_path = path_of (hardened 32 ∷ hardened 133 ∷ hardened 7 ∷ [])

change_path-IsU32 : All IsU32 (as_slice change_path)
unfolding as_slice
change_path-IsU32 = (omega arith, (omega arith, (omega arith, (omega arith, (omega arith, tt)))))

zip32_path-IsU32 : All IsU32 (as_slice zip32_path)
unfolding as_slice
zip32_path-IsU32 = (omega arith, (omega arith, (omega arith, tt)))

change_path_ok : check_bip44_compliance change_path (full true) ≡ true
unfolding check_bip44_compliance check_mode check_shaped check_bip44 check_full mode_admits
    is_zip32_shape as_slice
change_path_ok = refl

zip32_path_ok : check_bip44_compliance zip32_path only_coin_type ≡ true
unfolding check_bip44_compliance check_mode check_shaped check_zip32 mode_admits is_zip32_shape
    as_slice
zip32_path_ok = refl

from_prefixed_bytes-encode_path_example :
    (p : Bip32Path) × (from_prefixed_bytes (encode_path change_components ++ (0xEE ∷ []))
      ≡ ok (p, 0xEE ∷ []))
    × (as_slice p ≡ change_components)
unfolding as_slice
from_prefixed_bytes-encode_path_example =
    from_prefixed_bytes-encode_path change_components (0xEE ∷ []) change_path-IsU32 (omega arith)

abbrev one_component : Bytes
one_component = 1 ∷ 0x80 ∷ 0 ∷ 0 ∷ 44 ∷ 0xEE ∷ []

abbrev one_path : Bip32Path
one_path = record { path = hardened 44 ∷ replicate 9 0; path_len = 1 }

one_read : from_prefixed_bytes one_component ≡ ok (one_path, 0xEE ∷ [])
unfolding from_prefixed_bytes from_dpath as_chunks
one_read = refl

encode_path-from_prefixed_bytes_example :
    (one_component ≡ encode_path (as_slice one_path) ++ (0xEE ∷ []))
    × (length (as_slice one_path) ≤ max_zcash_bip32_path)
encode_path-from_prefixed_bytes_example =
    encode_path-from_prefixed_bytes one_component (0xEE ∷ []) one_path
      (omega arith, (omega arith, (omega arith, (omega arith, (omega arith, (omega arith, tt))))))
      one_read

check_bip44_compliance_iff_example :
    (check_bip44_compliance change_path (full true) ≡ true)
    ↔ IsAccepted (full true) (as_slice change_path)
check_bip44_compliance_iff_example =
    check_bip44_compliance_iff change_path (full true) change_path-IsU32

derivation_account-HasAccount_example : HasAccount (full true) change_path
derivation_account-HasAccount_example =
    derivation_account-HasAccount change_path (full true) change_path-IsU32 change_path_ok

abbrev key_hash : Bytes
key_hash =
    1 ∷ 2 ∷ 3 ∷ 4 ∷ 5 ∷ 6 ∷ 7 ∷ 8 ∷ 9 ∷ 10 ∷ 11 ∷ 12 ∷ 13 ∷ 14 ∷ 15 ∷ 16 ∷ 17 ∷ 18 ∷ 19 ∷ 20 ∷ []

abbrev key_script : Bytes
key_script = p2pkh_script key_hash

output_script_shapes_example :
    ((output_script_is_regular key_script ≡ true) ↔ IsP2pkh key_script)
    × ((output_script_is_p2sh key_script ≡ true) ↔ IsP2sh key_script)
output_script_shapes_example = output_script_shapes key_script

abbrev five : ℕ
five = 5

check_output_displayable_iff_example :
    ((check_output_displayable key_script five (some key_hash) ≡ change) ↔ (
      (five ≢ 0)
      × ((hash : Bytes) × (length hash ≡ 20)
          × (key_script ≡ p2pkh_script hash)
          × (some key_hash ≡ some hash))))
    × ((check_output_displayable key_script five (some key_hash) ≡ displayable) ↔ (
        (five ≢ 0)
        × (IsP2sh key_script
            ⊎ ((hash : Bytes) × (length hash ≡ 20)
                × (key_script ≡ p2pkh_script hash)
                × (some key_hash ≢ some hash)))))
check_output_displayable_iff_example = check_output_displayable_iff key_script five (some key_hash)

output_script_to_transparent_payload_lem_example :
    PayloadOf key_script (output_script_to_transparent_payload key_script)
output_script_to_transparent_payload_lem_example =
    output_script_to_transparent_payload_lem key_script

key_script_shown : check_output_displayable key_script 5 none ≢ hidden
unfolding check_output_displayable output_script_is_op_return output_script_is_p2sh
    output_script_is_regular pays_change
key_script_shown e = cc

not_hidden-payload_example :
    (payload : Bytes) × (output_script_to_transparent_payload key_script ≡ ok payload)
    × (length payload ≡ 22)
not_hidden-payload_example = not_hidden-payload key_script 5 none key_script_shown

-- One output that is listed and one that is change.
abbrev listed : TxOutput
listed = record {
  amount = 60;
  address = 0x74 ∷ 0x31 ∷ [];
  is_change = false;
  memo = none;
  pool = transparent;
}

abbrev hidden_change : TxOutput
hidden_change = record {
  amount = 30;
  address = 0x74 ∷ 0x32 ∷ [];
  is_change = true;
  memo = none;
  pool = orchard;
}

abbrev two_outputs : List TxOutput
two_outputs = hidden_change ∷ listed ∷ []

classify-external_example :
    classify true false (external two_outputs) ≡ classify true false two_outputs
classify-external_example = classify-external true false two_outputs

abbrev with_change : TxInfo
with_change = record {
  tx_version = none;
  branch_id = none;
  locktime = 0;
  sighash_type = 1;
  expiry_height = 0;
  total_amount = 100;
  fees = 10;
  outputs = two_outputs;
  retained_memo_bytes = 0;
  displayed_shielded_outputs = 0;
  is_change_found = true;
  change_pk_hash = none;
  change_account = some (hardened 7);
  prevouts_hash = [];
  sequence_hash = [];
  outputs_hash = [];
  amounts_hash = [];
  scripts_hash = [];
  header_digest = [];
  orchard_digest = [];
  signature_digest = [];
  ironwood_digest = [];
  is_v6 = false;
  has_ironwood_bundle = false;
  branch_id_raw = 0;
}

kept_account : with_change.change_account ≡ derivation_account change_path
unfolding derivation_account as_slice
kept_account = refl

returns : check_change_returns_to_signing_account with_change zip32_path ≡ ok tt
unfolding check_change_returns_to_signing_account derivation_account as_slice
returns = refl

change_stays_in_account_example :
    (account : ℕ) × (index : ℕ) × (as_slice change_path
      ≡ hardened 44 ∷ hardened 133 ∷ hardened account ∷ 1 ∷ index ∷ [])
    × SpendsFrom account (as_slice zip32_path)
change_stays_in_account_example =
    change_stays_in_account with_change change_path zip32_path change_path-IsU32 zip32_path-IsU32
      change_path_ok kept_account zip32_path_ok returns

abbrev swap_params : CreateTxParams
swap_params = record {
  amount = replicate 15 0 ++ (60 ∷ []);
  fee_amount = replicate 15 0 ++ (10 ∷ []);
  dest_address = 0x74 ∷ 0x31 ∷ replicate 8 0;
  dest_address_len = 2;
  dest_address_extra_id_len = 0;
}

check_swap_params_iff_example :
    (check_swap_params swap_params two_outputs 10 ≡ ok tt) ↔ IsApproved swap_params two_outputs 10
check_swap_params_iff_example =
    check_swap_params_iff swap_params two_outputs 10 (omega arith) (omega arith)
      (omega arith, (omega arith, tt)) (omega arith)

abbrev bad_header : ApduHeader
bad_header = record { ins = 0x57; p1 = 0; p2 = 32 }

try_from-IsAnswer_example :
    IsAnswer bad_header.ins bad_header.p1 bad_header.p2 (try_from bad_header)
try_from-IsAnswer_example = try_from-IsAnswer bad_header

-- The third signature of an Orchard action.
abbrev orchard_header : ApduHeader
orchard_header = record { ins = 0x57; p1 = 0; p2 = 2 }

try_from_iff_example :
    (try_from orchard_header ≡ ok (pczt_sign_orchard 2)) ↔ Spells (pczt_sign_orchard 2) 0x57 0 2
try_from_iff_example = try_from_iff orchard_header (pczt_sign_orchard 2) (omega arith)

abbrev cursor : ByteReader
cursor = record { buf = 1 ∷ 2 ∷ 3 ∷ []; pos = 1 }

ByteReader-Refines_example : Refines cursor
ByteReader-Refines_example = ByteReader-Refines cursor (omega arith)

orchard_derivation_budget_example :
    (nth_derivation 50).1
    ≡ (if ltb 50 max_orchard_derivations then ok tt else err not_enough_memory_space)
orchard_derivation_budget_example = orchard_derivation_budget 50

read_u32-bytes_of_example :
    read_u32 (bytes_of big 0x8000_002C ++ (9 ∷ [])) big true
    ≡ ok (if true then 0x8000_002C % 2 ^ 31 else 0x8000_002C)
read_u32-bytes_of_example = read_u32-bytes_of big 0x8000_002C (9 ∷ []) true (omega arith)

encode_string_response_lem_example :
    ((length key_hash < 2 ^ 16)
      × ((hi : ℕ) × (lo : ℕ) × (hi < 256)
          × (lo < 256)
          × (from_be_bytes (hi ∷ lo ∷ []) ≡ length key_hash)
          × (encode_string_response key_hash ≡ ok (hi ∷ lo ∷ key_hash))))
    ⊎ ((2 ^ 16 ≤ length key_hash) × (encode_string_response key_hash ≡ err technical_problem))
encode_string_response_lem_example = encode_string_response_lem key_hash

secure_memcmp_iff_example : (secure_memcmp key_hash key_script ≡ true) ↔ (key_hash ≡ key_script)
secure_memcmp_iff_example = secure_memcmp_iff key_hash key_script
