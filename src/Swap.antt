-- ===== src/Swap.antt =====
-- src/swap.rs, `check_swap_params`: the check that stands in for the review under a swap. The
-- messages that an error carries go to the log only and are left out.
pub mod Approval
use app_zcash.Base.{
  ℕ, zero, suc, ◌-◌, ◌<◌, Bool, true, false, ◌&&◌, ◌||◌, not, Option, some, none, List, [], ◌∷◌,
  if◌then◌else◌, any, Result, ok, err, ◌>>=◌, ◌>>◌, ensure, ◌==◌, length, take, drop, ltb, leb,
}
use app_zcash.Base.Bytes.{Bytes, from_be_bytes, bytes_eq}
use app_zcash.Tx.{TxOutput}
use app_zcash.Tx.Review.{external}

-- `CreateTxParams` of the SDK: the fields that are read. `amount` and `fee_amount` are buffers of
-- sixteen bytes, right-aligned and big-endian.
pub record CreateTxParams : Type 0 where
  pub amount : Bytes
  pub fee_amount : Bytes
  pub dest_address : Bytes
  pub dest_address_len : ℕ
  pub dest_address_extra_id_len : ℕ

pub data SwapErrorCommonCode : Type 0 where
  error_generic error_wrong_amount error_wrong_destination error_wrong_fees : SwapErrorCommonCode

pub data SwapAppErrorCode : Type 0 where
  default amount_cast_fail destination_decode_fail failed_to_serialize_address : SwapAppErrorCode
  failed_to_derive_address unexpected_external_output_count buffer_overflow : SwapAppErrorCode
  unsupported_destination_extra_id : SwapAppErrorCode

pub record SwapError : Type 0 where
  pub common_code : SwapErrorCommonCode
  pub app_code : SwapAppErrorCode

abbrev pub swap_error : SwapErrorCommonCode → SwapAppErrorCode → SwapError
swap_error c a = record { common_code = c; app_code = a }

abbrev between : ℕ → ℕ → ℕ → Bool
between lo hi b = leb lo b && leb b hi

-- The lead byte of a UTF-8 sequence: how many bytes follow, and the range of the first of them.
utf8_lead : ℕ → Option (ℕ × ℕ × ℕ)
utf8_lead b =
    if ltb b 0x80
    then some (0, 0x80, 0xBF)
    else if between 0xC2 0xDF b
    then some (1, 0x80, 0xBF)
    else if b == 0xE0
    then some (2, 0xA0, 0xBF)
    else if b == 0xED
    then some (2, 0x80, 0x9F)
    else if between 0xE1 0xEF b
    then some (2, 0x80, 0xBF)
    else if b == 0xF0
    then some (3, 0x90, 0xBF)
    else if between 0xF1 0xF3 b
    then some (3, 0x80, 0xBF)
    else if b == 0xF4
    then some (3, 0x80, 0x8F)
    else none

-- With `n` bytes still owed, the next between `lo` and `hi`.
utf8_from : ℕ → ℕ → ℕ → Bytes → Bool
unfolding utf8_lead
utf8_from zero lo hi [] = true
utf8_from zero lo hi (b ∷ bs) = elim (utf8_lead b) [
  | none ↦ false
  | some (n, lo', hi') ↦ utf8_from n lo' hi' bs
]
utf8_from (suc n) lo hi [] = false
utf8_from (suc n) lo hi (b ∷ bs) = between lo hi b && utf8_from n 0x80 0xBF bs

-- `str::from_utf8` accepts the bytes.
unfoldable pub is_utf8 : Bytes → Bool
unfolding utf8_from
is_utf8 bytes = utf8_from 0 0x80 0xBF bytes

-- A sixteen-byte amount, read from its eight low bytes once the high ones are known to be zero.
unfoldable pub read_amount : Bytes → SwapErrorCommonCode → Result SwapError ℕ
read_amount amount code = do
  let start = length amount - 8
  ensure (not (any (λ byte. not (byte == 0)) (take start amount)))
      (swap_error code amount_cast_fail)
  ok (from_be_bytes (drop start amount))

-- `external_outputs[0]` once there is exactly one.
unfoldable pub single_external : List TxOutput → Result SwapError TxOutput
single_external (output ∷ []) = ok output
single_external _ = err (swap_error error_generic unexpected_external_output_count)

unfoldable pub check_swap_params : CreateTxParams → List TxOutput → ℕ → Result SwapError (Unit {0})
unfolding read_amount single_external
check_swap_params params outputs fees = do
  ensure (params.dest_address_extra_id_len == 0)
      (swap_error error_wrong_destination unsupported_destination_extra_id)
  output ← single_external (external outputs)
  swap_amount ← read_amount params.amount error_wrong_amount
  ensure (output.amount == swap_amount) (swap_error error_wrong_amount default)
  swap_fee ← read_amount params.fee_amount error_wrong_fees
  ensure (fees == swap_fee) (swap_error error_wrong_fees default)
  let dest = take params.dest_address_len params.dest_address
  ensure (is_utf8 dest) (swap_error error_wrong_destination destination_decode_fail)
  ensure (bytes_eq output.address dest) (swap_error error_wrong_destination default)
