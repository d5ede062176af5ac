-- ===== src/Tx/Review.antt =====
-- Change outputs and the account rule of src/tx.rs.
use app_zcash.Base.{
  ℕ, ◌≡◌, ◌⊎◌, ◌↔◌, inl, inr, refl, ap, ◌∙◌, Bool, true, false, ◌&&◌, not, Option, some, none, List,
  [], ◌∷◌, if◌then◌else◌, any, ok, arith, All, ◌≢◌, ◌==◌, length, Bool-cases,
}
use app_zcash.Base.Bytes.{IsU32}
use app_zcash.Path.{Bip32Path, as_slice}
use app_zcash.Path.Compliance.{
  derivation_account, check_bip44_compliance, full, only_coin_type, hardened, zip32_purpose,
  bip44_purpose, zcash_bip44_coin_type, component, check_mode, check_shaped, check_bip44,
  mode_admits, is_zip32_shape, check_zip32,
}
use app_zcash.Path.Accepted.{IsAccepted, check_bip44_compliance_iff}
use app_zcash.Tx.{
  TxOutput, TxInfo, classify, is_transparent, is_orchard, check_account,
  check_change_returns_to_signing_account,
}

-- The outputs that the review lists: `filter(|output| !output.is_change)`.
abbrev pub external : List TxOutput → List TxOutput
external [] = []
external (o ∷ os) = if o.is_change then external os else o ∷ external os

any-external :
    (p : TxOutput → Bool) (os : List TxOutput)
    → any (λ o. not o.is_change && p o) (external os) ≡ any (λ o. not o.is_change && p o) os
any-external p [] = refl
any-external p (o ∷ os) = ground (arith, any-external p os)

-- The class shown to the user depends on the listed outputs alone: hidden change of either pool
-- never moves it.
pub classify-external :
    (from_public from_private : Bool) (outputs : List TxOutput)
    → classify from_public from_private (external outputs)
      ≡ classify from_public from_private outputs
unfolding classify
classify-external fp fv os =
    rw (any-external (λ o. is_transparent o.pool) os, any-external (λ o. is_orchard o.pool) os)

check_account_iff :
    (wanted spent : Option ℕ)
    → (check_account wanted spent ≡ ok tt) ↔ ((wanted ≡ none) ⊎ (spent ≡ wanted))
check_account_iff none spent = (λ _. inl refl, λ _. refl)
check_account_iff (some a) none = (λ e. cc, λ e. ground arith)
check_account_iff (some a) (some b) = (λ e. inr (ground arith), λ e. ground arith)

-- Without a recorded account every path may sign; with one exactly the paths whose account, as
-- `derivation_account` reads it, is that.
pub check_change_iff :
    (info : TxInfo) (path : Bip32Path)
    → (check_change_returns_to_signing_account info path ≡ ok tt)
      ↔ ((info.change_account ≡ none) ⊎ (derivation_account path ≡ info.change_account))
unfolding check_change_returns_to_signing_account
check_change_iff info path = check_account_iff info.change_account (derivation_account path)

-- The components of a signing path that the wallet account `account` owns.
abbrev pub SpendsFrom : ℕ → List ℕ → Type 0
SpendsFrom account cs =
    (cs ≡ hardened zip32_purpose ∷ hardened zcash_bip44_coin_type ∷ hardened account ∷ [])
    ⊎ ((b : ℕ) × (c : ℕ) × (cs
          ≡ hardened bip44_purpose
            ∷ hardened zcash_bip44_coin_type
            ∷ hardened account
            ∷ b
            ∷ c
            ∷ []))

spends_from :
    (a : ℕ) (p : Bip32Path)
    → IsAccepted only_coin_type (as_slice p)
    → derivation_account p ≡ some (hardened a)
    → SpendsFrom a (as_slice p)
unfolding derivation_account
spends_from a p (inl (b, e)) d = inl (e ∙ ap three same)
  where
    three : ℕ → List ℕ
    three x = hardened zip32_purpose ∷ hardened zcash_bip44_coin_type ∷ x ∷ []

    same : hardened b ≡ hardened a
    same = ground (arith, (rw e at d))
spends_from a p (inr (b, c, d', e)) d = inr (c, d', e ∙ ap five same)
  where
    five : ℕ → List ℕ
    five x = hardened bip44_purpose ∷ hardened zcash_bip44_coin_type ∷ x ∷ c ∷ d' ∷ []

    same : b ≡ hardened a
    same = ground (arith, (rw e at d))

account_of_full :
    (q : Bip32Path) (x c i : ℕ)
    → as_slice q ≡ hardened bip44_purpose ∷ hardened zcash_bip44_coin_type ∷ x ∷ c ∷ i ∷ []
    → derivation_account q ≡ some x
unfolding derivation_account
account_of_full q x c i e = rw e

-- Where the change path passed its check and its account was kept, a path that passes the signing
-- check and the change rule spends from that very account, in either key tree.
pub change_stays_in_account :
    (info : TxInfo) (change_path path : Bip32Path)
    → All IsU32 (as_slice change_path)
    → All IsU32 (as_slice path)
    → check_bip44_compliance change_path (full true) ≡ true
    → info.change_account ≡ derivation_account change_path
    → check_bip44_compliance path only_coin_type ≡ true
    → check_change_returns_to_signing_account info path ≡ ok tt
    → (account : ℕ) × (index : ℕ) × (as_slice change_path
        ≡ hardened bip44_purpose
          ∷ hardened zcash_bip44_coin_type
          ∷ hardened account
          ∷ 1
          ∷ index
          ∷ [])
      × SpendsFrom account (as_slice path)
change_stays_in_account info q p hq hp checked kept signs returns =
    stays ((check_bip44_compliance_iff q (full true) hq).0 checked)
  where
    ChangeStays : Type 0
    ChangeStays =
        (account : ℕ) × (index : ℕ) × (as_slice q
          ≡ hardened bip44_purpose
            ∷ hardened zcash_bip44_coin_type
            ∷ hardened account
            ∷ 1
            ∷ index
            ∷ [])
        × SpendsFrom account (as_slice p)

    stays : IsAccepted (full true) (as_slice q) → ChangeStays
    stays (a, i, e, _, _) =
        let set : info.change_account ≡ some (hardened a) =
          kept ∙ account_of_full q (hardened a) 1 i e in
        let spent : derivation_account p ≡ some (hardened a) =
          ground (arith, (check_change_iff info p).0 returns) in
        (a, i, e, spends_from a p ((check_bip44_compliance_iff p only_coin_type hp).0 signs) spent)

full_component :
    (cs : List ℕ)
    → check_mode (full true) cs ≡ true
    → (not (length cs == 5) && not (length cs == 3)) ≡ false
unfolding check_mode check_shaped check_bip44 mode_admits is_zip32_shape check_zip32
full_component cs h = ground arith

-- Two paths of one account, the one a checked change path, agree in their third components.
pub same_component :
    (p q : Bip32Path)
    → check_bip44_compliance q (full true) ≡ true
    → derivation_account p ≡ derivation_account q
    → component (as_slice p) 2 ≡ component (as_slice q) 2
unfolding derivation_account check_bip44_compliance
same_component p q h e =
    let has = full_component (as_slice q) h in
    elim (Bool-cases (not (length (as_slice p) == 5) && not (length (as_slice p) == 3))) [
      | inl bad ↦ absurd (ground (arith, rw (bad, has) at e))
      | inr good ↦ ground (arith, rw (good, has) at e)
    ]

-- A checked change path has an account.
pub full-has_account :
    (q : Bip32Path) → check_bip44_compliance q (full true) ≡ true → derivation_account q ≢ none
unfolding derivation_account check_bip44_compliance
full-has_account q h e = ground (arith, rw (full_component (as_slice q) h) at e)
