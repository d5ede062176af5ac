-- ===== src/Script/Shapes.antt =====
-- The script tests of ledger_zcash_crypto/src/transparent_script.rs against the scripts they name.
use app_zcash.Base.{
  ℕ, zero, suc, ◌≡◌, ◌≢◌, ◌↔◌, ◌⊎◌, inl, inr, refl, sym, ap, ◌∙◌, true, false, [], ◌∷◌, ◌++◌,
  if◌then◌else◌, length, get_or, take, drop, Option, none, some, arith, length-append, length-take,
  length-drop, drop-append, take-append, take-append-drop-append, Bool-cases,
}
use app_zcash.Base.Bytes.{Bytes, bytes_eq→eq, bytes_eq_refl}
use app_zcash.Script.{
  regular_output_prefix, regular_output_postfix, p2sh_output_prefix, p2sh_output_postfix,
  output_script_is_op_return, output_script_is_regular, output_script_is_p2sh, hidden, displayable,
  change, pays_change, check_output_displayable,
}

-- `OP_DUP OP_HASH160 <hash> OP_EQUALVERIFY OP_CHECKSIG`.
abbrev pub p2pkh_script : Bytes → Bytes
p2pkh_script hash = regular_output_prefix ++ (hash ++ regular_output_postfix)

-- `OP_HASH160 <hash> OP_EQUAL`.
abbrev pub p2sh_script : Bytes → Bytes
p2sh_script hash = p2sh_output_prefix ++ (hash ++ (p2sh_output_postfix ∷ []))

abbrev pub IsP2pkh : Bytes → Type 0
IsP2pkh script = (hash : Bytes) × (length hash ≡ 20) × (script ≡ p2pkh_script hash)

abbrev pub IsP2sh : Bytes → Type 0
IsP2sh script = (hash : Bytes) × (length hash ≡ 20) × (script ≡ p2sh_script hash)

drop_hash : (h t : Bytes) → length h ≡ 20 → drop 20 (h ++ t) ≡ t
drop_hash h t e = rw (← e) (drop-append h t)

take_hash : (h t : Bytes) → length h ≡ 20 → take 20 (h ++ t) ≡ h
take_hash h t e = rw (← e) (take-append h t)

last_byte : (xs : Bytes) (n : ℕ) → length xs ≡ suc n → drop n xs ≡ get_or xs n 0 ∷ []
last_byte [] n e = absurd (omega arith)
last_byte (x ∷ []) zero e = refl
last_byte (x ∷ y ∷ xs) zero e = absurd (omega arith)
last_byte (x ∷ xs) (suc n) e = last_byte xs n (omega arith)

get_last : (h : Bytes) (n b : ℕ) → length h ≡ n → get_or (h ++ (b ∷ [])) n 0 ≡ b
get_last [] zero b e = refl
get_last [] (suc n) b e = absurd (omega arith)
get_last (x ∷ h) zero b e = absurd (omega arith)
get_last (x ∷ h) (suc n) b e = get_last h n b (omega arith)

regular_shape : (s : Bytes) → output_script_is_regular s ≡ true → IsP2pkh s
unfolding output_script_is_regular
regular_shape s e =
    let len : length s ≡ 25 = ground arith in
    let head : take 3 s ≡ regular_output_prefix =
      ground (arith, bytes_eq→eq (take 3 s) regular_output_prefix) in
    let foot : drop 23 s ≡ regular_output_postfix =
      ground (arith, bytes_eq→eq (drop 23 s) regular_output_postfix) in
    (
      take 20 (drop 3 s),
      omega (arith, length-take 20 (drop 3 s), length-drop 3 s),
      sym (take-append-drop-append 3 20 s) ∙ rw (head, foot),
    )

regular_test : (h : Bytes) → length h ≡ 20 → output_script_is_regular (p2pkh_script h) ≡ true
unfolding output_script_is_regular
regular_test h e =
    let len : length (p2pkh_script h) ≡ 25 =
      omega (arith, length-append h regular_output_postfix) in
    rw (len, drop_hash h regular_output_postfix e) refl

IsP2sh-shape : (s : Bytes) → output_script_is_p2sh s ≡ true → IsP2sh s
unfolding output_script_is_p2sh
IsP2sh-shape s e =
    let len : length s ≡ 23 = ground arith in
    let head : take 2 s ≡ p2sh_output_prefix =
      ground (arith, bytes_eq→eq (take 2 s) p2sh_output_prefix) in
    let last : get_or s 22 0 ≡ p2sh_output_postfix = ground arith in
    (
      take 20 (drop 2 s),
      omega (arith, length-take 20 (drop 2 s), length-drop 2 s),
      sym (take-append-drop-append 2 20 s) ∙ rw (head, last_byte s 22 len, last),
    )

p2sh_test : (h : Bytes) → length h ≡ 20 → output_script_is_p2sh (p2sh_script h) ≡ true
unfolding output_script_is_p2sh
p2sh_test h e =
    let len : length (p2sh_script h) ≡ 23 =
      omega (arith, length-append h (p2sh_output_postfix ∷ [])) in
    rw (len, get_last h 20 p2sh_output_postfix e) refl

-- `output_script_is_regular` and `output_script_is_p2sh` recognise exactly the pay-to-public-key-hash
-- and the pay-to-script-hash scripts.
pub output_script_shapes :
    (script : Bytes)
    → ((output_script_is_regular script ≡ true) ↔ IsP2pkh script)
      × ((output_script_is_p2sh script ≡ true) ↔ IsP2sh script)
output_script_shapes s = (
  (regular_shape s, λ (h, n, e). rw e (regular_test h n)),
  (IsP2sh-shape s, λ (h, n, e). rw e (p2sh_test h n)),
)

pub regular_not_p2sh : (h : Bytes) → length h ≡ 20 → output_script_is_p2sh (p2pkh_script h) ≡ false
unfolding output_script_is_p2sh
regular_not_p2sh h e = rw (length-append h regular_output_postfix, e) refl

pub p2pkh_hash : (h : Bytes) → length h ≡ 20 → take 20 (drop 3 (p2pkh_script h)) ≡ h
p2pkh_hash h e = take_hash h regular_output_postfix e

pub p2sh_hash : (h : Bytes) → length h ≡ 20 → take 20 (drop 2 (p2sh_script h)) ≡ h
p2sh_hash h e = take_hash h (p2sh_output_postfix ∷ []) e

-- What the review makes of a pay-to-public-key-hash output of a non-zero amount.
display_p2pkh :
    (h : Bytes) (amount : ℕ) (c : Option Bytes)
    → length h ≡ 20
    → amount ≢ 0
    → check_output_displayable (p2pkh_script h) amount c
      ≡ (if pays_change c (p2pkh_script h) then change else displayable)
unfolding check_output_displayable output_script_is_op_return
display_p2pkh h amount c e nz = rw (regular_not_p2sh h e, regular_test h e) (ground arith)

pays_change_iff :
    (h : Bytes) (c : Option Bytes)
    → length h ≡ 20
    → (pays_change c (p2pkh_script h) ≡ true) ↔ (c ≡ some h)
unfolding pays_change
pays_change_iff h none e = (λ x. cc, λ x. cc)
pays_change_iff h (some d) e = (
  λ x. ap some (sym (bytes_eq→eq h d (rw (p2pkh_hash h e) at x))),
  λ x. rw (p2pkh_hash h e) (let same : d ≡ h = ground arith in rw same (bytes_eq_refl h)),
)

display_p2sh :
    (h : Bytes) (amount : ℕ) (c : Option Bytes)
    → length h ≡ 20
    → amount ≢ 0
    → check_output_displayable (p2sh_script h) amount c ≡ displayable
unfolding check_output_displayable output_script_is_op_return
display_p2sh h amount c e nz = rw (p2sh_test h e) (ground arith)

-- Whatever is not hidden has a non-zero amount and one of the two shapes.
pub not_hidden :
    (s : Bytes) (amount : ℕ) (c : Option Bytes)
    → check_output_displayable s amount c ≢ hidden
    → (amount ≢ 0) × (IsP2sh s ⊎ (IsP2pkh s × (output_script_is_p2sh s ≡ false)))
unfolding check_output_displayable
not_hidden s amount c e = elim (Bool-cases (output_script_is_p2sh s)) [
  | inl y ↦ (ground arith, inl (IsP2sh-shape s y))
  | inr n ↦ (ground arith, inr (regular_shape s (ground arith), n))
]

p2pkh_verdict :
    (h : Bytes) (amount : ℕ) (c : Option Bytes)
    → length h ≡ 20
    → amount ≢ 0
    → ((check_output_displayable (p2pkh_script h) amount c ≡ change) ↔ (c ≡ some h))
      × ((check_output_displayable (p2pkh_script h) amount c ≡ displayable) ↔ (c ≢ some h))
p2pkh_verdict h amount c n nz =
    let e = display_p2pkh h amount c n nz in
    let (there, back) = pays_change_iff h c n in
    elim (Bool-cases (pays_change c (p2pkh_script h))) [
      | inl y ↦ (
        (λ _. there y, λ _. rw (e, y)),
        (λ x. absurd (ground (arith, e)), λ ne. absurd (ne (there y))),
      )
      | inr other ↦ (
        (λ x. absurd (ground (arith, e)), λ x. absurd (cc (back x))),
        (λ _ x. cc (back x), λ _. rw (e, other)),
      )
    ]

-- An output is taken for change exactly when it pays a non-zero amount to the public-key hash that
-- was declared, and is shown exactly when it pays a non-zero amount to a script hash or to any
-- other public-key hash; everything else is hidden.
pub check_output_displayable_iff :
    (script : Bytes) (amount : ℕ) (c : Option Bytes)
    → ((check_output_displayable script amount c ≡ change) ↔ (
        (amount ≢ 0)
        × ((hash : Bytes) × (length hash ≡ 20) × (script ≡ p2pkh_script hash) × (c ≡ some hash))))
      × ((check_output_displayable script amount c ≡ displayable) ↔ (
          (amount ≢ 0)
          × (IsP2sh script
              ⊎ ((hash : Bytes) × (length hash ≡ 20)
                  × (script ≡ p2pkh_script hash)
                  × (c ≢ some hash)))))
check_output_displayable_iff s a c = (
  (λ e. change_only e (not_hidden s a c (λ e'. cc)), change_back),
  (λ e. shown_only e (not_hidden s a c (λ e'. cc)), shown_back),
)
  where
    ChangeShape : Type 0
    ChangeShape = (hash : Bytes) × (length hash ≡ 20) × (s ≡ p2pkh_script hash) × (c ≡ some hash)

    ShownShape : Type 0
    ShownShape = (hash : Bytes) × (length hash ≡ 20) × (s ≡ p2pkh_script hash) × (c ≢ some hash)

    change_only :
        check_output_displayable s a c ≡ change
        → (a ≢ 0) × (IsP2sh s ⊎ (IsP2pkh s × (output_script_is_p2sh s ≡ false)))
        → (a ≢ 0) × ChangeShape
    change_only e (nz, inl (h, n, e')) = absurd (cc (display_p2sh h a c n nz))
    change_only e (nz, inr ((h, n, e'), _)) =
        (nz, (h, n, e', (p2pkh_verdict h a c n nz).0.0 (rw e' at e)))

    change_back : (a ≢ 0) × ChangeShape → check_output_displayable s a c ≡ change
    change_back (nz, (h, n, e', p)) = rw e' ((p2pkh_verdict h a c n nz).0.1 p)

    shown_only :
        check_output_displayable s a c ≡ displayable
        → (a ≢ 0) × (IsP2sh s ⊎ (IsP2pkh s × (output_script_is_p2sh s ≡ false)))
        → (a ≢ 0) × (IsP2sh s ⊎ ShownShape)
    shown_only e (nz, inl y) = (nz, inl y)
    shown_only e (nz, inr ((h, n, e'), _)) =
        (nz, inr (h, n, e', (p2pkh_verdict h a c n nz).1.0 (rw e' at e)))

    shown_back : (a ≢ 0) × (IsP2sh s ⊎ ShownShape) → check_output_displayable s a c ≡ displayable
    shown_back (nz, inl (h, n, e')) = rw e' (display_p2sh h a c n nz)
    shown_back (nz, inr (h, n, e', p)) = rw e' ((p2pkh_verdict h a c n nz).1.1 p)
