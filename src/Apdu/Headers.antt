-- ===== src/Apdu/Headers.antt =====
-- Which headers name which instructions of src/main.rs.
use app_zcash.Base.{ℕ, ◌≡◌, ◌⊎◌, ◌<◌, Bool, true, false, not, if◌then◌else◌}
use app_zcash.Apdu.{
  ApduHeader, Instruction, P2VkMode, P2ShieldedAddrMode, ufvk, orchard_fvk, u_address,
  orchard_address, get_version, get_pubkey, get_shielded_addr, get_vk, get_trusted_input,
  hash_input_start, hash_finalize_full, hash_sign, pczt_header, pczt_transparent_input,
  pczt_transparent_output, pczt_orchard_action, pczt_sign_transparent, pczt_sign_orchard,
  pczt_ironwood_action, pczt_sign_ironwood, pczt_invalid,
}

-- The instructions that a header can name: the flags that exclude one another do, and an index is
-- below its bound.
abbrev pub IsNamed : Instruction → Type 0
IsNamed (get_trusted_input first next) = next ≡ not first
IsNamed (hash_input_start first continue_hashing) = continue_hashing ≡ true → first ≡ true
IsNamed (pczt_transparent_input first last) = first ≡ true → last ≡ false
IsNamed (pczt_transparent_output first last) = first ≡ true → last ≡ false
IsNamed (pczt_orchard_action first last _) = first ≡ true → last ≡ false
IsNamed (pczt_ironwood_action first last _) = first ≡ true → last ≡ false
IsNamed (pczt_sign_transparent i) = i < 32
IsNamed (pczt_sign_orchard i) = i < 32
IsNamed (pczt_sign_ironwood i) = i < 32
IsNamed (pczt_invalid _) = ⊥
IsNamed _ = Unit

abbrev pub header : ℕ → ℕ → ℕ → ApduHeader
header i a b = record { ins = i; p1 = a; p2 = b }

abbrev pub byte_if : Bool → ℕ → ℕ → ℕ
byte_if b x y = if b then x else y

abbrev pub stream_p1 : Bool → Bool → ℕ
stream_p1 first last = byte_if first 0x00 (byte_if last 0x01 0x80)

abbrev pub vk_byte : P2VkMode → ℕ
vk_byte ufvk = 0
vk_byte orchard_fvk = 1

abbrev pub addr_byte : P2ShieldedAddrMode → ℕ
addr_byte u_address = 0
addr_byte orchard_address = 1

-- A header that names the instruction.
abbrev pub header_of : Instruction → ApduHeader
header_of get_version = header 0xC4 0 0
header_of (get_pubkey display) = header 0x40 (byte_if display 1 0) 0
header_of (get_shielded_addr display mode) = header 0x51 (byte_if display 1 0) (addr_byte mode)
header_of (get_vk mode continue_response) =
    header 0x50 (byte_if continue_response 0x80 0) (vk_byte mode)
header_of (get_trusted_input first _) = header 0x42 (byte_if first 0 0x80) 0
header_of (hash_input_start first continue_hashing) =
    header 0x44 (byte_if first 0 0x80) (byte_if continue_hashing 0x80 0x05)
header_of (hash_finalize_full is_change) = header 0x4A (byte_if is_change 0xFF 0) 0
header_of hash_sign = header 0x48 0 0
header_of pczt_header = header 0x52 0 0
header_of (pczt_transparent_input first last) = header 0x53 (stream_p1 first last) 0
header_of (pczt_transparent_output first last) = header 0x54 (stream_p1 first last) 0
header_of (pczt_orchard_action first last finished) =
    header 0x56 (stream_p1 first last) (byte_if finished 1 0)
header_of (pczt_sign_transparent i) = header 0x55 0 i
header_of (pczt_sign_orchard i) = header 0x57 0 i
header_of (pczt_ironwood_action first last finished) =
    header 0x58 (stream_p1 first last) (byte_if finished 1 0)
header_of (pczt_sign_ironwood i) = header 0x59 0 i
header_of (pczt_invalid _) = header 0x52 0xFF 0

-- The parameters of a header that names the instruction, but for those of `header_of`: a later packet
-- of HASH_INPUT_START may set P2 to 0x80, and one of outputs may have the P1 of a later packet.
abbrev pub IsAlias : Instruction → ℕ → ℕ → Type 0
IsAlias i p1 p2 =
    ((i ≡ hash_input_start false false) × (p1 ≡ 0x80) × (p2 ≡ 0x80))
    ⊎ ((i ≡ hash_finalize_full false) × (p1 ≡ 0x80) × (p2 ≡ 0))

-- The three bytes of a header name the instruction.
abbrev pub Spells : Instruction → ℕ → ℕ → ℕ → Type 0
Spells i ins p1 p2 =
    (ins ≡ (header_of i).ins)
    × (((p1 ≡ (header_of i).p1) × (p2 ≡ (header_of i).p2)) ⊎ IsAlias i p1 p2)
