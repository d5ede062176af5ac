-- ===== src/Apdu/Arms.antt =====
-- What each arm of `TryFrom<ApduHeader>` of src/main.rs gives.
use app_zcash.Base.{
  ℕ, ◌≡◌, ◌⊎◌, ◌<◌, inl, inr, refl, Bool, true, false, ◌&&◌, ◌||◌, not, ◌==◌, ltb, Result, ok, err,
  arith, ◌%◌, Bool-cases,
}
use app_zcash.Status.{AppSw, wrong_p1p2}
use app_zcash.Apdu.{
  Instruction, P2VkMode, P2ShieldedAddrMode, ufvk, orchard_fvk, u_address, orchard_address,
  get_version, get_pubkey, get_shielded_addr, get_vk, get_trusted_input, hash_input_start,
  hash_finalize_full, hash_sign, pczt_header, pczt_invalid, vk_mode, shielded_addr_mode,
  arm_get_version, arm_get_pubkey, arm_get_vk, arm_get_shielded_addr, arm_get_trusted_input,
  arm_hash_input_start, arm_hash_finalize_full, arm_hash_sign, arm_pczt_header, arm_transparent,
  arm_action, arm_sign, is_stream_p1,
}
use app_zcash.Apdu.Headers.{IsNamed, byte_if, stream_p1, vk_byte, addr_byte, Spells}

-- An instruction that can be named and that the bytes name, or the fallback.
abbrev pub NamedOr : Result AppSw Instruction → ℕ → ℕ → ℕ → Result AppSw Instruction → Type 0
NamedOr fallback ins p1 p2 r =
    ((i : Instruction) × IsNamed i × Spells i ins p1 p2 × (r ≡ ok i)) ⊎ (r ≡ fallback)

abbrev pub Legacy : ℕ → ℕ → ℕ → Result AppSw Instruction → Type 0
Legacy = NamedOr (err wrong_p1p2)

abbrev pub Pczt : ℕ → ℕ → ℕ → Result AppSw Instruction → Type 0
Pczt = NamedOr (ok (pczt_invalid wrong_p1p2))

pub version_arm : (p1 p2 : ℕ) → Legacy 0xC4 p1 p2 (arm_get_version p1 p2)
unfolding arm_get_version
version_arm p1 p2 = elim (Bool-cases (p1 == 0 && p2 == 0)) [
  | inl y ↦ inl (get_version, tt, (refl, inl (ground (arith, y), ground (arith, y))), rw y)
  | inr n ↦ inr (rw n)
]

pub pubkey_arm : (p1 p2 : ℕ) → Legacy 0x40 p1 p2 (arm_get_pubkey p1 p2)
unfolding arm_get_pubkey
pubkey_arm p1 p2 = elim (Bool-cases ((p1 == 0x00 || p1 == 0x01) && p2 == 0)) [
  | inl y ↦
      inl (get_pubkey (p1 == 0x01), tt, (refl, inl (ground (arith, y), ground (arith, y))), rw y)
  | inr n ↦ inr (rw n)
]

vk_byte_of : (p2 : ℕ) (m : P2VkMode) → vk_mode p2 ≡ ok m → p2 ≡ vk_byte m
unfolding vk_mode
vk_byte_of p2 ufvk e = ground (arith, e)
vk_byte_of p2 orchard_fvk e = ground (arith, e)

addr_byte_of : (p2 : ℕ) (m : P2ShieldedAddrMode) → shielded_addr_mode p2 ≡ ok m → p2 ≡ addr_byte m
unfolding shielded_addr_mode
addr_byte_of p2 u_address e = ground (arith, e)
addr_byte_of p2 orchard_address e = ground (arith, e)

pub vk_arm : (p1 p2 : ℕ) → Legacy 0x50 p1 p2 (arm_get_vk p1 p2)
unfolding arm_get_vk
vk_arm p1 p2 = elim (Bool-cases (p1 == 0x00 || p1 == 0x80)) [
  | inl y ↦ go y (vk_mode p2) refl
  | inr n ↦ inr (rw n)
]
  where
    go :
        (p1 == 0x00 || p1 == 0x80) ≡ true
        → (m : Result AppSw P2VkMode) → vk_mode p2 ≡ m
        → Legacy 0x50 p1 p2 (arm_get_vk p1 p2)
    go y (ok m) e =
        inl
          (get_vk m (p1 == 0x80), tt, (refl, inl (ground (arith, y), vk_byte_of p2 m e)), rw (y, e))
    go y (err s) e = inr (ground arith)

pub addr_arm : (p1 p2 : ℕ) → Legacy 0x51 p1 p2 (arm_get_shielded_addr p1 p2)
unfolding arm_get_shielded_addr
addr_arm p1 p2 = elim (Bool-cases (p1 == 0x00 || p1 == 0x01)) [
  | inl y ↦ go y (shielded_addr_mode p2) refl
  | inr n ↦ inr (rw n)
]
  where
    go :
        (p1 == 0x00 || p1 == 0x01) ≡ true
        → (m : Result AppSw P2ShieldedAddrMode) → shielded_addr_mode p2 ≡ m
        → Legacy 0x51 p1 p2 (arm_get_shielded_addr p1 p2)
    go y (ok m) e = inl (
      get_shielded_addr (not (p1 % 2 == 0)) m,
      tt,
      (refl, inl (ground (arith, y), addr_byte_of p2 m e)),
      rw (y, e),
    )
    go y (err s) e = inr (ground arith)

pub trusted_arm : (p1 p2 : ℕ) → Legacy 0x42 p1 p2 (arm_get_trusted_input p1 p2)
unfolding arm_get_trusted_input
trusted_arm p1 p2 = elim (Bool-cases ((p1 == 0x00 || p1 == 0x80) && p2 == 0)) [
  | inl y ↦ inl (
    get_trusted_input (p1 == 0x00) (p1 == 0x80),
    ground arith,
    (refl, inl (ground (arith, y), ground (arith, y))),
    rw y,
  )
  | inr n ↦ inr (rw n)
]

pub start_arm : (p1 p2 : ℕ) → Legacy 0x44 p1 p2 (arm_hash_input_start p1 p2)
unfolding arm_hash_input_start
start_arm p1 p2 = elim (Bool-cases ((p1 == 0x00 || p1 == 0x80) && (p2 == 0x05 || p2 == 0x80))) [
  | inl y ↦ inl (
    hash_input_start (p1 == 0x00) (p1 == 0x00 && p2 == 0x80),
    ground arith,
    (refl, ground (arith, y)),
    rw y,
  )
  | inr n ↦ inr (rw n)
]

pub finalize_arm : (p1 p2 : ℕ) → Legacy 0x4A p1 p2 (arm_hash_finalize_full p1 p2)
unfolding arm_hash_finalize_full
finalize_arm p1 p2 = elim (Bool-cases ((p1 == 0x00 || p1 == 0x80 || p1 == 0xFF) && p2 == 0x00)) [
  | inl y ↦ inl (hash_finalize_full (p1 == 0xFF), tt, (refl, ground (arith, y)), rw y)
  | inr n ↦ inr (rw n)
]

pub sign_arm : (p1 p2 : ℕ) → Legacy 0x48 p1 p2 (arm_hash_sign p1 p2)
unfolding arm_hash_sign
sign_arm p1 p2 = elim (Bool-cases (p1 == 0 && p2 == 0)) [
  | inl y ↦ inl (hash_sign, tt, (refl, inl (ground (arith, y), ground (arith, y))), rw y)
  | inr n ↦ inr (rw n)
]

pub header_arm : (p1 p2 : ℕ) → Pczt 0x52 p1 p2 (arm_pczt_header p1 p2)
unfolding arm_pczt_header
header_arm p1 p2 = elim (Bool-cases (p1 == 0x00 && p2 == 0x00)) [
  | inl y ↦ inl (pczt_header, tt, (refl, inl (ground (arith, y), ground (arith, y))), rw y)
  | inr n ↦ inr (rw n)
]

pub transparent_arm :
    (make : Bool → Bool → Instruction) (ins p1 p2 : ℕ)
    → ((first last : Bool) → (first ≡ true → last ≡ false) → IsNamed (make first last))
    → ((first last : Bool)
        → p1 ≡ stream_p1 first last
        → p2 ≡ 0
        → Spells (make first last) ins p1 p2)
    → Pczt ins p1 p2 (arm_transparent make p1 p2)
unfolding arm_transparent
transparent_arm make ins p1 p2 named spelled = elim (Bool-cases (is_stream_p1 p1 && p2 == 0x00)) [
  | inl y ↦ inl (
    make (p1 == 0x00) (p1 == 0x01),
    named _ _ (ground arith),
    spelled _ _ (ground (arith, y)) (ground (arith, y)),
    rw y,
  )
  | inr n ↦ inr (rw n)
]

pub action_arm :
    (make : Bool → Bool → Bool → Instruction) (ins p1 p2 : ℕ)
    → ((first last end : Bool) → (first ≡ true → last ≡ false) → IsNamed (make first last end))
    → ((first last end : Bool)
        → p1 ≡ stream_p1 first last
        → p2 ≡ byte_if end 1 0
        → Spells (make first last end) ins p1 p2)
    → Pczt ins p1 p2 (arm_action make p1 p2)
unfolding arm_action
action_arm make ins p1 p2 named spelled =
    elim (Bool-cases (is_stream_p1 p1 && (p2 == 0x00 || p2 == 0x01))) [
      | inl y ↦ inl (
        make (p1 == 0x00) (p1 == 0x01) (p2 == 0x01),
        named _ _ _ (ground arith),
        spelled _ _ _ (ground (arith, y)) (ground (arith, y)),
        rw y,
      )
      | inr n ↦ inr (rw n)
    ]

pub index_arm :
    (make : ℕ → Instruction) (ins p1 p2 : ℕ)
    → ((i : ℕ) → i < 32 → IsNamed (make i))
    → (p1 ≡ 0 → Spells (make p2) ins p1 p2)
    → Pczt ins p1 p2 (arm_sign make 32 p1 p2)
unfolding arm_sign
index_arm make ins p1 p2 named spelled = elim (Bool-cases (p1 == 0 && ltb p2 32)) [
  | inl y ↦ inl (make p2, named p2 (ground arith), spelled (ground (arith, y)), rw y)
  | inr n ↦ inr (rw n)
]
