-- ===== src/Apdu.antt =====
-- src/main.rs, `TryFrom<ApduHeader> for Instruction`, with the instruction bytes of src/consts.rs.
-- The build without the measurement features.
pub mod Headers
pub mod Arms
pub mod Total
use app_zcash.Base.{
  ℕ, Bool, true, false, ◌&&◌, ◌||◌, ◌==◌, ltb, if◌then◌else◌, Result, ok, err, ◌>>=◌, not, ◌%◌,
}
use app_zcash.Status.{AppSw, wrong_p1p2, ins_not_supported}

pub record ApduHeader : Type 0 where
  pub ins : ℕ
  pub p1 : ℕ
  pub p2 : ℕ

pub data P2VkMode : Type 0 where
  ufvk orchard_fvk : P2VkMode

pub data P2ShieldedAddrMode : Type 0 where
  u_address orchard_address : P2ShieldedAddrMode

pub data Instruction : Type 0 where
  get_version : Instruction
  get_pubkey : Bool → Instruction
  get_shielded_addr : Bool → P2ShieldedAddrMode → Instruction
  get_vk : P2VkMode → Bool → Instruction
  get_trusted_input : Bool → Bool → Instruction
  hash_input_start : Bool → Bool → Instruction
  hash_finalize_full : Bool → Instruction
  hash_sign pczt_header : Instruction
  pczt_transparent_input pczt_transparent_output : Bool → Bool → Instruction
  pczt_orchard_action : Bool → Bool → Bool → Instruction
  pczt_sign_transparent pczt_sign_orchard : ℕ → Instruction
  pczt_ironwood_action : Bool → Bool → Bool → Instruction
  pczt_sign_ironwood : ℕ → Instruction
  pczt_invalid : AppSw → Instruction

abbrev pub max_pczt_transparent_inputs_number : ℕ
max_pczt_transparent_inputs_number = 32

abbrev pub max_pczt_orchard_actions_number : ℕ
max_pczt_orchard_actions_number = 32

abbrev pub max_pczt_ironwood_actions_number : ℕ
max_pczt_ironwood_actions_number = 32

-- The instruction bytes.
abbrev pub ins_get_wallet_public_key : ℕ
ins_get_wallet_public_key = 0x40

abbrev pub ins_get_trusted_input : ℕ
ins_get_trusted_input = 0x42

abbrev pub ins_hash_input_start : ℕ
ins_hash_input_start = 0x44

abbrev pub ins_hash_sign : ℕ
ins_hash_sign = 0x48

abbrev pub ins_hash_input_finalize_full : ℕ
ins_hash_input_finalize_full = 0x4A

abbrev pub ins_get_firmware_version : ℕ
ins_get_firmware_version = 0xC4

abbrev pub ins_get_vk : ℕ
ins_get_vk = 0x50

abbrev pub ins_get_shield_addr : ℕ
ins_get_shield_addr = 0x51

abbrev pub ins_pczt_header : ℕ
ins_pczt_header = 0x52

abbrev pub ins_pczt_transparent_input : ℕ
ins_pczt_transparent_input = 0x53

abbrev pub ins_pczt_transparent_output : ℕ
ins_pczt_transparent_output = 0x54

abbrev pub ins_pczt_sign_transparent : ℕ
ins_pczt_sign_transparent = 0x55

abbrev pub ins_pczt_orchard_action : ℕ
ins_pczt_orchard_action = 0x56

abbrev pub ins_pczt_sign_orchard : ℕ
ins_pczt_sign_orchard = 0x57

abbrev pub ins_pczt_ironwood_action : ℕ
ins_pczt_ironwood_action = 0x58

abbrev pub ins_pczt_sign_ironwood : ℕ
ins_pczt_sign_ironwood = 0x59

abbrev pub p1_first : ℕ
p1_first = 0x00

abbrev pub p1_next : ℕ
p1_next = 0x80

abbrev pub p1_last : ℕ
p1_last = 0x01

-- `TryFrom<u8>` of the two modes.
unfoldable pub vk_mode : ℕ → Result AppSw P2VkMode
vk_mode value =
    if value == 0x00 then ok ufvk else if value == 0x01 then ok orchard_fvk else err wrong_p1p2

unfoldable pub shielded_addr_mode : ℕ → Result AppSw P2ShieldedAddrMode
shielded_addr_mode value =
    if value == 0x00
    then ok u_address
    else if value == 0x01
    then ok orchard_address
    else err wrong_p1p2

-- The arms of the `match`, by instruction byte: P1 and P2 that fit no arm of a PCZT instruction give
-- `PcztInvalid`, and those of any other instruction an error.
unfoldable pub invalid : Result AppSw Instruction
invalid = ok (pczt_invalid wrong_p1p2)

-- The guard `p1 == P1_FIRST || p1 == P1_NEXT || p1 == P1_LAST`.
abbrev pub is_stream_p1 : ℕ → Bool
is_stream_p1 p1 = p1 == p1_first || p1 == p1_next || p1 == p1_last

unfoldable pub arm_get_version : ℕ → ℕ → Result AppSw Instruction
arm_get_version p1 p2 = if p1 == 0 && p2 == 0 then ok get_version else err wrong_p1p2

unfoldable pub arm_get_pubkey : ℕ → ℕ → Result AppSw Instruction
arm_get_pubkey p1 p2 =
    if (p1 == 0x00 || p1 == 0x01) && p2 == 0 then ok (get_pubkey (p1 == 0x01)) else err wrong_p1p2

unfoldable pub arm_get_vk : ℕ → ℕ → Result AppSw Instruction
unfolding vk_mode
arm_get_vk p1 p2 =
    if p1 == 0x00 || p1 == 0x80
    then (vk_mode p2 >>= λ mode. ok (get_vk mode (p1 == 0x80)))
    else err wrong_p1p2

unfoldable pub arm_get_shielded_addr : ℕ → ℕ → Result AppSw Instruction
unfolding shielded_addr_mode
arm_get_shielded_addr p1 p2 =
    if p1 == 0x00 || p1 == 0x01
    then (shielded_addr_mode p2 >>= λ mode. ok (get_shielded_addr (not (p1 % 2 == 0)) mode))
    else err wrong_p1p2

unfoldable pub arm_get_trusted_input : ℕ → ℕ → Result AppSw Instruction
arm_get_trusted_input p1 p2 =
    if (p1 == p1_first || p1 == p1_next) && p2 == 0
    then ok (get_trusted_input (p1 == p1_first) (p1 == p1_next))
    else err wrong_p1p2

unfoldable pub arm_hash_input_start : ℕ → ℕ → Result AppSw Instruction
arm_hash_input_start p1 p2 =
    if (p1 == 0x00 || p1 == 0x80) && (p2 == 0x05 || p2 == 0x80)
    then ok (hash_input_start (p1 == 0x00) (p1 == 0x00 && p2 == 0x80))
    else err wrong_p1p2

unfoldable pub arm_hash_finalize_full : ℕ → ℕ → Result AppSw Instruction
arm_hash_finalize_full p1 p2 =
    if (p1 == 0x00 || p1 == 0x80 || p1 == 0xFF) && p2 == 0x00
    then ok (hash_finalize_full (p1 == 0xFF))
    else err wrong_p1p2

unfoldable pub arm_hash_sign : ℕ → ℕ → Result AppSw Instruction
arm_hash_sign p1 p2 = if p1 == 0 && p2 == 0 then ok hash_sign else err wrong_p1p2

unfoldable pub arm_pczt_header : ℕ → ℕ → Result AppSw Instruction
unfolding invalid
arm_pczt_header p1 p2 = if p1 == p1_first && p2 == 0x00 then ok pczt_header else invalid

-- The two transparent streams differ in the instruction they make.
unfoldable pub arm_transparent : (Bool → Bool → Instruction) → ℕ → ℕ → Result AppSw Instruction
unfolding invalid
arm_transparent make p1 p2 =
    if is_stream_p1 p1 && p2 == 0x00 then ok (make (p1 == p1_first) (p1 == p1_last)) else invalid

-- So do the two action streams.
unfoldable pub arm_action : (Bool → Bool → Bool → Instruction) → ℕ → ℕ → Result AppSw Instruction
unfolding invalid
arm_action make p1 p2 =
    if is_stream_p1 p1 && (p2 == 0x00 || p2 == 0x01)
    then ok (make (p1 == p1_first) (p1 == p1_last) (p2 == 0x01))
    else invalid

-- And the three signing instructions, each with its bound on the index in P2.
unfoldable pub arm_sign : (ℕ → Instruction) → ℕ → ℕ → ℕ → Result AppSw Instruction
unfolding invalid
arm_sign make bound p1 p2 = if p1 == 0 && ltb p2 bound then ok (make p2) else invalid

-- The legacy and key instructions, and what the last arm refuses.
unfoldable pub dispatch_legacy : ℕ → ℕ → ℕ → Result AppSw Instruction
unfolding arm_get_version arm_get_pubkey arm_get_vk arm_get_shielded_addr arm_get_trusted_input
    arm_hash_input_start arm_hash_finalize_full arm_hash_sign
dispatch_legacy ins p1 p2 =
    if ins == ins_get_firmware_version
    then arm_get_version p1 p2
    else if ins == ins_get_wallet_public_key
    then arm_get_pubkey p1 p2
    else if ins == ins_get_vk
    then arm_get_vk p1 p2
    else if ins == ins_get_shield_addr
    then arm_get_shielded_addr p1 p2
    else if ins == ins_get_trusted_input
    then arm_get_trusted_input p1 p2
    else if ins == ins_hash_input_start
    then arm_hash_input_start p1 p2
    else if ins == ins_hash_input_finalize_full
    then arm_hash_finalize_full p1 p2
    else if ins == ins_hash_sign
    then arm_hash_sign p1 p2
    else err ins_not_supported

-- `TryFrom<ApduHeader>`. The instruction bytes differ, so the order of the arms does not show.
unfoldable pub try_from : ApduHeader → Result AppSw Instruction
unfolding dispatch_legacy arm_pczt_header arm_transparent arm_action arm_sign
try_from h =
    if h.ins == ins_pczt_header
    then arm_pczt_header h.p1 h.p2
    else if h.ins == ins_pczt_transparent_input
    then arm_transparent pczt_transparent_input h.p1 h.p2
    else if h.ins == ins_pczt_transparent_output
    then arm_transparent pczt_transparent_output h.p1 h.p2
    else if h.ins == ins_pczt_orchard_action
    then arm_action pczt_orchard_action h.p1 h.p2
    else if h.ins == ins_pczt_sign_transparent
    then arm_sign pczt_sign_transparent max_pczt_transparent_inputs_number h.p1 h.p2
    else if h.ins == ins_pczt_sign_orchard
    then arm_sign pczt_sign_orchard max_pczt_orchard_actions_number h.p1 h.p2
    else if h.ins == ins_pczt_ironwood_action
    then arm_action pczt_ironwood_action h.p1 h.p2
    else if h.ins == ins_pczt_sign_ironwood
    then arm_sign pczt_sign_ironwood max_pczt_ironwood_actions_number h.p1 h.p2
    else dispatch_legacy h.ins h.p1 h.p2
