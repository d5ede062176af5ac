-- ===== src/Script.antt =====
-- ledger_zcash_crypto/src/transparent_script.rs: the shapes of output scripts, and which outputs
-- the review shows.
pub mod Shapes
use app_zcash.Base.{
  ℕ, ◌-◌, Bool, true, false, List, [], ◌∷◌, ◌==◌, if◌then◌else◌, length, get_or, take, drop, not,
  Option, none, some,
}
use app_zcash.Base.Bytes.{Bytes, bytes_eq}

abbrev pub op_return_opcode : ℕ
op_return_opcode = 0x6A

abbrev pub regular_output_script_len : ℕ
regular_output_script_len = 25

abbrev pub regular_output_prefix : Bytes
regular_output_prefix = 0x76 ∷ 0xA9 ∷ 0x14 ∷ []

abbrev pub regular_output_postfix : Bytes
regular_output_postfix = 0x88 ∷ 0xAC ∷ []

abbrev pub p2sh_output_script_len : ℕ
p2sh_output_script_len = 23

abbrev pub p2sh_output_prefix : Bytes
p2sh_output_prefix = 0xA9 ∷ 0x14 ∷ []

abbrev pub p2sh_output_postfix : ℕ
p2sh_output_postfix = 0x87

abbrev pub transparent_address_offset : ℕ
transparent_address_offset = 3

abbrev pub transparent_address_hash_len : ℕ
transparent_address_hash_len = 20

unfoldable pub output_script_is_op_return : Bytes → Bool
output_script_is_op_return [] = false
output_script_is_op_return (opcode ∷ rest) = opcode == op_return_opcode

unfoldable pub output_script_is_regular : Bytes → Bool
output_script_is_regular script =
    if not (length script == regular_output_script_len)
    then false
    else if not (bytes_eq (take (length regular_output_prefix) script) regular_output_prefix)
    then false
    else if not (
        bytes_eq (drop (length script - length regular_output_postfix) script)
          regular_output_postfix)
    then false
    else true

unfoldable pub output_script_is_p2sh : Bytes → Bool
output_script_is_p2sh script =
    if not (length script == p2sh_output_script_len)
    then false
    else if not (bytes_eq (take (length p2sh_output_prefix) script) p2sh_output_prefix)
    then false
    else get_or script (length script - 1) 0 == p2sh_output_postfix

-- `CheckDispOutput`; its `None` is `hidden` here.
pub data CheckDispOutput : Type 0 where
  hidden displayable change : CheckDispOutput

-- `change_address.is_some_and(..)`.
unfoldable pub pays_change : Option Bytes → Bytes → Bool
pays_change none script = false
pays_change (some change_address) script =
    bytes_eq (take transparent_address_hash_len (drop transparent_address_offset script))
      change_address

unfoldable pub check_output_displayable : Bytes → ℕ → Option Bytes → CheckDispOutput
check_output_displayable script amount change_address =
    if length script == 0
    then hidden
    else if amount == 0
    then hidden
    else if output_script_is_op_return script
    then hidden
    else if output_script_is_p2sh script
    then displayable
    else if not (output_script_is_regular script)
    then hidden
    else if pays_change change_address script
    then change
    else displayable
