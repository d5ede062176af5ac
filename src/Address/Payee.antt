-- ===== src/Address/Payee.antt =====
-- The address that the review shows for an output is the one its script pays.
use app_zcash.Base.{
  ℕ, ◌≡◌, ◌≢◌, ◌⊎◌, ◌↔◌, inl, inr, refl, ap, ◌∙◌, true, false, Option, ◌++◌, length, Result, ok,
  err, arith, Bool-cases,
}
use app_zcash.Base.Bytes.{Bytes}
use app_zcash.Status.{AppSw, incorrect_data}
use app_zcash.Sdk.{AddressOps}
use app_zcash.Script.{
  output_script_is_op_return, output_script_is_regular, output_script_is_p2sh, hidden,
  check_output_displayable,
}
use app_zcash.Script.Shapes.{
  IsP2pkh, IsP2sh, p2pkh_script, p2sh_script, output_script_shapes, p2pkh_hash, p2sh_hash,
  regular_not_p2sh, not_hidden,
}
use app_zcash.Address.{
  output_script_to_transparent_payload, transparent_address_prefix, p2sh_address_prefix,
  from_output_script, from_public_key_hash,
}

payload_p2sh :
    (h : Bytes)
    → length h ≡ 20
    → output_script_to_transparent_payload (p2sh_script h) ≡ ok (p2sh_address_prefix ++ h)
unfolding output_script_to_transparent_payload
payload_p2sh h n = rw ((output_script_shapes (p2sh_script h)).1.1 (h, n, refl), p2sh_hash h n)

payload_p2pkh :
    (h : Bytes)
    → length h ≡ 20
    → output_script_to_transparent_payload (p2pkh_script h) ≡ ok (transparent_address_prefix ++ h)
unfolding output_script_to_transparent_payload output_script_is_op_return
payload_p2pkh h n =
    rw (
      regular_not_p2sh h n,
      (output_script_shapes (p2pkh_script h)).0.1 (h, n, refl),
      p2pkh_hash h n,
    )

payload_other :
    (s : Bytes)
    → output_script_is_p2sh s ≡ false
    → output_script_is_regular s ≡ false
    → output_script_to_transparent_payload s ≡ err incorrect_data
unfolding output_script_to_transparent_payload
payload_other s e e' = ground arith

-- What a script is, and what its payload is then.
pub data PayloadOf (script : Bytes) (result : Result AppSw Bytes) : Type 0 where
  to_script_hash :
      (hash : Bytes)
      → length hash ≡ 20
      → script ≡ p2sh_script hash
      → result ≡ ok (p2sh_address_prefix ++ hash)
      → PayloadOf script result
  to_key_hash :
      (hash : Bytes)
      → length hash ≡ 20
      → script ≡ p2pkh_script hash
      → result ≡ ok (transparent_address_prefix ++ hash)
      → PayloadOf script result
  to_nobody :
      ¬ IsP2sh script → ¬ IsP2pkh script → result ≡ err incorrect_data → PayloadOf script result

-- The payload of a pay-to-script-hash or pay-to-public-key-hash script is the hash that it pays
-- behind the prefix of its kind; any other script is refused.
pub output_script_to_transparent_payload_lem :
    (script : Bytes) → PayloadOf script (output_script_to_transparent_payload script)
output_script_to_transparent_payload_lem s = elim (Bool-cases (output_script_is_p2sh s)) [
  | inl y ↦ as_p2sh (shapes.1.0 y)
  | inr e ↦ elim (Bool-cases (output_script_is_regular s)) [
    | inl y ↦ as_p2pkh (shapes.0.0 y)
    | inr e' ↦ to_nobody (λ x. cc (shapes.1.1 x)) (λ x. cc (shapes.0.1 x)) (payload_other s e e')
  ]
]
  where
    shapes :
        ((output_script_is_regular s ≡ true) ↔ IsP2pkh s)
        × ((output_script_is_p2sh s ≡ true) ↔ IsP2sh s)
    shapes = output_script_shapes s

    as_p2sh : IsP2sh s → PayloadOf s (output_script_to_transparent_payload s)
    as_p2sh (h, n, e) =
        to_script_hash h n e (ap output_script_to_transparent_payload e ∙ payload_p2sh h n)

    as_p2pkh : IsP2pkh s → PayloadOf s (output_script_to_transparent_payload s)
    as_p2pkh (h, n, e) =
        to_key_hash h n e (ap output_script_to_transparent_payload e ∙ payload_p2pkh h n)

-- An output that the review does not hide always has a payload of 22 bytes, so that a refusal of
-- its address can only come from the hash or from the Base58 encoder.
pub not_hidden-payload :
    (script : Bytes) (amount : ℕ) (c : Option Bytes)
    → check_output_displayable script amount c ≢ hidden
    → (payload : Bytes) × (output_script_to_transparent_payload script ≡ ok payload)
      × (length payload ≡ 22)
not_hidden-payload s amount c e = elim (output_script_to_transparent_payload_lem s) [
  | to_script_hash h n _ r ↦ (p2sh_address_prefix ++ h, r, omega arith)
  | to_key_hash h n _ r ↦ (transparent_address_prefix ++ h, r, omega arith)
  | to_nobody a b r ↦ absurd (refused a b (not_hidden s amount c e).1)
]
  where
    refused :
        ¬ IsP2sh s → ¬ IsP2pkh s → IsP2sh s ⊎ (IsP2pkh s × (output_script_is_p2sh s ≡ false)) → ⊥
    refused a b (inl x) = a x
    refused a b (inr x) = b x.0

-- The address that the review shows for a pay-to-public-key-hash output is the one that the device
-- gives out for that key hash.
pub from_output_script-p2pkh :
    (ops : AddressOps) (hash : Bytes)
    → length hash ≡ 20
    → from_output_script ops (p2pkh_script hash) ≡ from_public_key_hash ops hash
unfolding from_output_script from_public_key_hash
from_output_script-p2pkh ops h n = rw (payload_p2pkh h n)
