-- ===== src/Path/Compliance.antt =====
-- The path checks of src/utils.rs: `check_bip44_compliance`, and the account of a path.
-- The masks of the source are arithmetic here: `w & 0x7FFF_FFFF` is `w % 2 ^ 31`, and
-- `w & 0x8000_0000 == 0` is `w / 2 ^ 31 % 2 == 0`.
use app_zcash.Base.{
  ℕ, ◌+◌, ◌/◌, ◌%◌, ◌^◌, Bool, true, false, ◌&&◌, ◌||◌, not, List, ltb, ◌==◌, if◌then◌else◌, length,
  get_or, Option, some, none,
}
use app_zcash.Path.{Bip32Path, as_slice}

abbrev pub hardened_bit : ℕ
hardened_bit = 0x8000_0000

abbrev pub zip32_path_len : ℕ
zip32_path_len = 3

abbrev pub zip32_purpose : ℕ
zip32_purpose = 32

abbrev pub bip44_purpose : ℕ
bip44_purpose = 44

abbrev pub bip44_path_len : ℕ
bip44_path_len = 5

-- The mainnet build.
abbrev pub zcash_bip44_coin_type : ℕ
zcash_bip44_coin_type = 133

abbrev pub max_bip44_account_recommended : ℕ
max_bip44_account_recommended = 100

abbrev pub max_bip44_address_index_recommended : ℕ
max_bip44_address_index_recommended = 50000

-- `w & UNHARDENED_MASK`.
abbrev pub unhardened : ℕ → ℕ
unhardened w = w % 2 ^ 31

-- `w & HARDENED == 0`.
abbrev pub is_unhardened : ℕ → Bool
is_unhardened w = w / 2 ^ 31 % 2 == 0

-- `w | HARDENED`, for `w` below the bit.
abbrev pub hardened : ℕ → ℕ
hardened w = w + hardened_bit

-- The components by position; the tests on the length stand before every use.
abbrev pub component : List ℕ → ℕ → ℕ
component path i = get_or path i 0

unfoldable pub derivation_account : Bip32Path → Option ℕ
unfolding as_slice
derivation_account p =
    let path = as_slice p in
    if not (length path == bip44_path_len) && not (length path == zip32_path_len)
    then none
    else some (component path 2)

pub data Bip44CheckMode : Type 0 where
  full : Bool → Bip44CheckMode
  only_coin_type zip32_only prefix_only : Bip44CheckMode

unfoldable pub is_zip32_shape : List ℕ → Bool
is_zip32_shape path =
    length path == zip32_path_len && unhardened (component path 0) == zip32_purpose

-- `APP_DECLARED_PURPOSES.contains`.
unfoldable pub is_declared_purpose : ℕ → Bool
is_declared_purpose purpose = purpose == 44 || purpose == 32

-- The arm `PrefixOnly`, which returns at once.
unfoldable pub check_prefix : List ℕ → Bool
unfolding is_declared_purpose
check_prefix path =
    if ltb (length path) 2
    then false
    else if not (is_declared_purpose (unhardened (component path 0)))
        || is_unhardened (component path 0)
    then false
    else if not (component path 1 == hardened zcash_bip44_coin_type)
    then false
    else true

-- The shape that a mode demands.
unfoldable pub mode_admits : Bip44CheckMode → Bool → Bool
mode_admits zip32_only shape = shape
mode_admits (full _) shape = not shape
mode_admits _ shape = true

unfoldable pub check_zip32 : List ℕ → Bool
check_zip32 path =
    if not (component path 0 == hardened zip32_purpose)
    then false
    else if not (component path 1 == hardened zcash_bip44_coin_type)
    then false
    else if is_unhardened (component path 2)
    then false
    else true

-- The block of `if let Full { is_change_path }`.
unfoldable pub check_full : Bip44CheckMode → List ℕ → Bool
check_full (full is_change_path) path =
    if is_unhardened (component path 2)
    then false
    else if ltb max_bip44_account_recommended (unhardened (component path 2))
    then false
    else if not (component path 3 == (if is_change_path then 1 else 0))
    then false
    else if ltb max_bip44_address_index_recommended (component path 4)
    then false
    else true
check_full _ path = true

unfoldable pub check_bip44 : Bip44CheckMode → List ℕ → Bool
unfolding check_full
check_bip44 mode path =
    if not (length path == bip44_path_len)
    then false
    else if not (component path 0 == hardened bip44_purpose)
    then false
    else if not (component path 1 == hardened zcash_bip44_coin_type)
    then false
    else check_full mode path

unfoldable pub check_shaped : Bip44CheckMode → List ℕ → Bool
unfolding is_zip32_shape mode_admits check_zip32 check_bip44
check_shaped mode path =
    if not (mode_admits mode (is_zip32_shape path))
    then false
    else if is_zip32_shape path
    then check_zip32 path
    else check_bip44 mode path

unfoldable pub check_mode : Bip44CheckMode → List ℕ → Bool
unfolding check_prefix check_shaped
check_mode prefix_only path = check_prefix path
check_mode mode path = check_shaped mode path

unfoldable pub check_bip44_compliance : Bip32Path → Bip44CheckMode → Bool
unfolding as_slice check_mode
check_bip44_compliance p mode = check_mode mode (as_slice p)
