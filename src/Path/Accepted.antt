-- ===== src/Path/Accepted.antt =====
-- Which paths `check_bip44_compliance` of src/utils.rs lets through, mode by mode.
use app_zcash.Base.{
  ℕ, ◌%◌, ◌^◌, ◌≤◌, ◌≡◌, refl, Bool, true, List, [], ◌∷◌, if◌then◌else◌, some, ◌↔◌, ◌⊎◌, inl, inr,
  arith, All, none, length, ◌==◌, Bool-cases,
}
use app_zcash.Base.Bytes.{IsU32}
use app_zcash.Path.{Bip32Path, as_slice}
use app_zcash.Path.Compliance.{
  hardened, Bip44CheckMode, full, only_coin_type, zip32_only, prefix_only, check_mode, check_prefix,
  check_shaped, check_bip44_compliance, bip44_purpose, zip32_purpose, zcash_bip44_coin_type,
  derivation_account, mode_admits,
}

-- `m/32'/133'/account'`.
abbrev pub IsZip32Account : List ℕ → Type 0
IsZip32Account cs =
    (account : ℕ) × (cs
      ≡ hardened zip32_purpose ∷ hardened zcash_bip44_coin_type ∷ hardened account ∷ [])

-- `m/44'/133'/a/b/c`, the three last components free.
abbrev pub IsBip44Coin : List ℕ → Type 0
IsBip44Coin cs =
    (a : ℕ) × (b : ℕ) × (c : ℕ) × (cs
      ≡ hardened bip44_purpose ∷ hardened zcash_bip44_coin_type ∷ a ∷ b ∷ c ∷ [])

-- `m/44'/133'/account'/change/index` within the recommended bounds.
abbrev pub IsBip44Full : Bool → List ℕ → Type 0
IsBip44Full change cs =
    (account : ℕ) × (index : ℕ) × (cs
      ≡ hardened bip44_purpose
        ∷ hardened zcash_bip44_coin_type
        ∷ hardened account
        ∷ (if change then 1 else 0)
        ∷ index
        ∷ [])
    × (account ≤ 100)
    × (index ≤ 50000)

-- One of the two prefixes that the application declares, at any depth below it.
abbrev pub IsPrefixed : List ℕ → Type 0
IsPrefixed cs =
    (purpose : ℕ) × (rest : List ℕ) × (cs
      ≡ hardened purpose ∷ hardened zcash_bip44_coin_type ∷ rest)
    × ((purpose ≡ bip44_purpose) ⊎ (purpose ≡ zip32_purpose))

abbrev pub IsAccepted : Bip44CheckMode → List ℕ → Type 0
IsAccepted (full change) cs = IsBip44Full change cs
IsAccepted only_coin_type cs = IsZip32Account cs ⊎ IsBip44Coin cs
IsAccepted zip32_only cs = IsZip32Account cs
IsAccepted prefix_only cs = IsPrefixed cs

prefix_accepted : (cs : List ℕ) → All IsU32 cs → check_prefix cs ≡ true → IsPrefixed cs
unfolding check_prefix
prefix_accepted [] h e = cc
prefix_accepted (a ∷ []) h e = ground arith
prefix_accepted (a ∷ b ∷ rest) (ha, hb) e = (a % 2 ^ 31, rest, ground arith, ground arith)

full_accepted :
    (c : Bool) (cs : List ℕ) → All IsU32 cs → check_shaped (full c) cs ≡ true → IsBip44Full c cs
unfolding check_shaped
full_accepted c [] h e = ground arith
full_accepted c (x0 ∷ []) h e = ground arith
full_accepted c (x0 ∷ x1 ∷ []) h e = ground arith
full_accepted c (x0 ∷ x1 ∷ x2 ∷ []) h e = ground arith
full_accepted c (x0 ∷ x1 ∷ x2 ∷ x3 ∷ []) h e = ground arith
full_accepted c (x0 ∷ x1 ∷ x2 ∷ x3 ∷ x4 ∷ []) (_, (_, (h2, _))) e =
    (x2 % 2 ^ 31, x4, ground arith, ground arith, ground arith)
full_accepted c (x0 ∷ x1 ∷ x2 ∷ x3 ∷ x4 ∷ x5 ∷ more) h e = ground arith

zip32_accepted :
    (cs : List ℕ) → All IsU32 cs → check_shaped zip32_only cs ≡ true → IsZip32Account cs
unfolding check_shaped
zip32_accepted [] h e = ground arith
zip32_accepted (x0 ∷ []) h e = ground arith
zip32_accepted (x0 ∷ x1 ∷ []) h e = ground arith
zip32_accepted (x0 ∷ x1 ∷ x2 ∷ []) (_, (_, (h2, _))) e = (x2 % 2 ^ 31, ground arith)
zip32_accepted (x0 ∷ x1 ∷ x2 ∷ x3 ∷ more) h e = ground arith

coin_accepted :
    (cs : List ℕ)
    → All IsU32 cs
    → check_shaped only_coin_type cs ≡ true
    → IsZip32Account cs ⊎ IsBip44Coin cs
unfolding check_shaped
coin_accepted [] h e = ground arith
coin_accepted (x0 ∷ []) h e = ground arith
coin_accepted (x0 ∷ x1 ∷ []) h e = ground arith
coin_accepted (x0 ∷ x1 ∷ x2 ∷ []) (_, (_, (h2, _))) e = inl (x2 % 2 ^ 31, ground arith)
coin_accepted (x0 ∷ x1 ∷ x2 ∷ x3 ∷ []) h e = ground arith
coin_accepted (x0 ∷ x1 ∷ x2 ∷ x3 ∷ x4 ∷ []) h e = inr (x2, x3, x4, ground arith)
coin_accepted (x0 ∷ x1 ∷ x2 ∷ x3 ∷ x4 ∷ x5 ∷ more) h e = ground arith

IsAccepted-only :
    (mode : Bip44CheckMode) (cs : List ℕ)
    → All IsU32 cs
    → check_mode mode cs ≡ true
    → IsAccepted mode cs
unfolding check_mode
IsAccepted-only (full c) cs h e = full_accepted c cs h e
IsAccepted-only only_coin_type cs h e = coin_accepted cs h e
IsAccepted-only zip32_only cs h e = zip32_accepted cs h e
IsAccepted-only prefix_only cs h e = prefix_accepted cs h e

zip32_passes :
    (a : ℕ)
    → IsU32 (hardened a)
    → (mode : Bip44CheckMode) → mode_admits mode true ≡ true
    → check_shaped mode (hardened zip32_purpose ∷ hardened zcash_bip44_coin_type ∷ hardened a ∷ [])
      ≡ true
unfolding check_shaped
zip32_passes a h mode e = ground arith

accepts :
    (mode : Bip44CheckMode) (cs : List ℕ)
    → All IsU32 cs
    → IsAccepted mode cs
    → check_mode mode cs ≡ true
unfolding check_mode
accepts (full c) cs h (a, i, e, ha, hi) = rw e (ground arith)
accepts only_coin_type cs h (inl (a, e)) =
    rw e (zip32_passes a (ground arith) only_coin_type (unfold mode_admits in refl))
accepts only_coin_type cs h (inr (a, b, c, e)) = rw e (ground arith)
accepts zip32_only cs h (a, e) =
    rw e (zip32_passes a (ground arith) zip32_only (unfold mode_admits in refl))
accepts prefix_only cs h (p, rest, e, d) = rw e (ground arith)

-- `check_bip44_compliance` lets a path of 32-bit components through exactly when it has the form
-- that the mode names: hardening bits, depth, coin type and bounds included.
pub check_bip44_compliance_iff :
    (p : Bip32Path) (mode : Bip44CheckMode)
    → All IsU32 (as_slice p)
    → (check_bip44_compliance p mode ≡ true) ↔ IsAccepted mode (as_slice p)
unfolding check_bip44_compliance
check_bip44_compliance_iff p mode h =
    (IsAccepted-only mode (as_slice p) h, accepts mode (as_slice p) h)

-- What `derivation_account` reads off a path that passed in a mode. The signing mode bounds nothing of
-- a BIP-44 account, so it may lack its hardening bit there; below a bare prefix a path may have none.
abbrev pub HasAccount : Bip44CheckMode → Bip32Path → Type 0
HasAccount (full change) p =
    (account : ℕ) × (derivation_account p ≡ some (hardened account)) × (account ≤ 100)
HasAccount zip32_only p = (account : ℕ) × (derivation_account p ≡ some (hardened account))
HasAccount only_coin_type p =
    (a : ℕ) × (derivation_account p ≡ some a)
    × (((b : ℕ) × (c : ℕ) × (as_slice p
            ≡ hardened bip44_purpose ∷ hardened zcash_bip44_coin_type ∷ a ∷ b ∷ c ∷ []))
        ⊎ ((account : ℕ) × (a ≡ hardened account)
            × (as_slice p ≡ hardened zip32_purpose ∷ hardened zcash_bip44_coin_type ∷ a ∷ [])))
HasAccount prefix_only p =
    (length (as_slice p) ≡ 3) ⊎ ((length (as_slice p) ≡ 5) ⊎ (derivation_account p ≡ none))

-- Of a path of 32-bit components that passed its check, `derivation_account` reads: in the full mode a
-- hardened account, one of the first 101; in the ZIP-32 mode a hardened account; in the signing mode the
-- third component of either form, hardened in a ZIP-32 path; in the prefix mode nothing, but for a path
-- of three or of five components.
pub derivation_account-HasAccount :
    (p : Bip32Path) (mode : Bip44CheckMode)
    → All IsU32 (as_slice p)
    → check_bip44_compliance p mode ≡ true
    → HasAccount mode p
unfolding derivation_account
derivation_account-HasAccount p (full change) h e =
    let (account, index, shape, small, _) = (check_bip44_compliance_iff p (full change) h).0 e in
    (account, rw shape, small)
derivation_account-HasAccount p zip32_only h e =
    let (account, shape) = (check_bip44_compliance_iff p zip32_only h).0 e in (account, rw shape)
derivation_account-HasAccount p only_coin_type h e =
    elim ((check_bip44_compliance_iff p only_coin_type h).0 e) [
      | inl (account, shape) ↦ (hardened account, rw shape, inr (account, refl, shape))
      | inr (a, b, c, shape) ↦ (a, rw shape, inl (b, c, shape))
    ]
derivation_account-HasAccount p prefix_only h e = elim (Bool-cases (length (as_slice p) == 3)) [
  | inl three ↦ inl (ground (arith, three))
  | inr other ↦ elim (Bool-cases (length (as_slice p) == 5)) [
    | inl five ↦ inr (inl (ground (arith, five)))
    | inr neither ↦ inr (inr (rw (other, neither)))
  ]
]
