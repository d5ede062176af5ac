-- ===== src/Swap/Approval.antt =====
-- What `check_swap_params` of src/swap.rs approves.
use app_zcash.Base.{
  ℕ, ◌+◌, ◌*◌, ◌-◌, ◌^◌, ◌<◌, ◌≤◌, ◌≡◌, ◌↔◌, inl, inr, refl, sym, ap, ◌∙◌, Bool, true, false, not,
  List, [], ◌∷◌, ◌++◌, if◌then◌else◌, any, ok, ◌>>◌, ensure, ◌==◌, length, take, drop, arith,
  Result-cases, ==_iff, Bool-cases, length-drop, take-append-drop, All,
}
use app_zcash.Base.Bytes.{
  Bytes, IsU64, be_from, from_be_bytes, bytes_eq, bytes_eq→eq, bytes_eq_refl,
}
use app_zcash.Tx.{TxOutput}
use app_zcash.Tx.Review.{external}
use native.Mathlib.Nat.{pow-suc}
use app_zcash.Swap.{
  CreateTxParams, SwapError, SwapErrorCommonCode, is_utf8, read_amount, single_external,
  check_swap_params, error_wrong_amount, error_wrong_fees,
}

be_from-append : (acc : ℕ) (xs ys : Bytes) → be_from acc (xs ++ ys) ≡ be_from (be_from acc xs) ys
be_from-append acc [] ys = refl
be_from-append acc (x ∷ xs) ys = be_from-append (acc * 256 + x) xs ys

be_from-pos : (acc : ℕ) (xs : Bytes) → acc * 256 ^ length xs ≤ be_from acc xs
be_from-pos acc [] = omega arith
be_from-pos acc (x ∷ xs) = rw pow-suc (omega (arith, be_from-pos (acc * 256 + x) xs))

be_from_zeros : (xs : Bytes) → any (λ b. not (b == 0)) xs ≡ false → be_from 0 xs ≡ 0
be_from_zeros [] e = refl
be_from_zeros (x ∷ xs) e =
    let zero_head : 0 + x ≡ 0 = ground arith in rw zero_head (be_from_zeros xs (ground arith))

be_from_grows : (acc : ℕ) (xs : Bytes) → 0 < acc → 0 < be_from acc xs
be_from_grows acc [] h = h
be_from_grows acc (x ∷ xs) h = be_from_grows (acc * 256 + x) xs (omega arith)

be_from_nonzero : (acc : ℕ) (xs : Bytes) → any (λ b. not (b == 0)) xs ≡ true → 0 < be_from acc xs
be_from_nonzero acc [] e = cc
be_from_nonzero acc (x ∷ xs) e = elim (Bool-cases (x == 0)) [
  | inl z ↦ be_from_nonzero (acc * 256 + x) xs (ground arith)
  | inr n ↦ be_from_grows (acc * 256 + x) xs (ground arith)
]

-- The whole buffer, in terms of its two parts.
split_buffer :
    (buffer : Bytes)
    → from_be_bytes buffer
      ≡ be_from (from_be_bytes (take (length buffer - 8) buffer)) (drop (length buffer - 8) buffer)
split_buffer buffer =
    ap from_be_bytes (sym (take-append-drop (length buffer - 8) buffer))
    ∙ be_from-append 0 (take (length buffer - 8) buffer) (drop (length buffer - 8) buffer)

low_part :
    (buffer : Bytes)
    → 8 ≤ length buffer
    → 0 < from_be_bytes (take (length buffer - 8) buffer)
    → 2 ^ 64 ≤ from_be_bytes buffer
low_part buffer len h =
    let high = from_be_bytes (take (length buffer - 8) buffer) in
    let low = drop (length buffer - 8) buffer in
    let eight : length low ≡ 8 = omega (arith, length-drop (length buffer - 8) buffer) in
    rw (split_buffer buffer) (omega (arith, (rw eight at (be_from-pos high low))))

-- A buffer is read exactly when the whole of it stands for a 64-bit number, and then as that number.
read_amount_iff :
    (buffer : Bytes) (code : SwapErrorCommonCode) (n : ℕ)
    → 8 ≤ length buffer
    → IsU64 n
    → (read_amount buffer code ≡ ok n) ↔ (from_be_bytes buffer ≡ n)
unfolding read_amount
read_amount_iff buffer code n len h =
    elim (Bool-cases (any (λ b. not (b == 0)) (take (length buffer - 8) buffer))) [
      | inl bad ↦ (
        λ e. ground arith,
        λ e. absurd (
            omega (
              arith,
              low_part buffer len (be_from_nonzero 0 (take (length buffer - 8) buffer) bad),
            )),
      )
      | inr clear ↦
          let whole : from_be_bytes buffer ≡ from_be_bytes (drop (length buffer - 8) buffer) =
            split_buffer buffer
            ∙ ap (λ t. be_from t (drop (length buffer - 8) buffer))
                (be_from_zeros (take (length buffer - 8) buffer) clear) in
          (λ e. rw whole (ground arith), λ e. rw (clear, ← whole, e) refl)
    ]

single_external_iff :
    (os : List TxOutput) (o : TxOutput) → (single_external os ≡ ok o) ↔ (os ≡ o ∷ [])
unfolding single_external
single_external_iff [] o = (λ e. cc, λ e. cc)
single_external_iff (x ∷ []) o = (λ e. cc, λ e. cc)
single_external_iff (x ∷ y ∷ r) o = (λ e. cc, λ e. cc)

external-All : (P : TxOutput → Type 0) (os : List TxOutput) → All P os → All P (external os)
external-All P [] h = tt
external-All P (o ∷ os) (h, hs) = keep o.is_change (external-All P os hs)
  where
    keep : (b : Bool) → All P (external os) → All P (if b then external os else o ∷ external os)
    keep true k = k
    keep false k = (h, k)

all_tests :
    (b1 b2 b3 b4 b5 : Bool) (x1 x2 x3 x4 x5 : SwapError)
    → (do ensure b1 x1; ensure b2 x2; ensure b3 x3; ensure b4 x4; ensure b5 x5) ≡ ok tt
    → (b1 ≡ true) × (b2 ≡ true) × (b3 ≡ true) × (b4 ≡ true) × (b5 ≡ true)
all_tests b1 b2 b3 b4 b5 x1 x2 x3 x4 x5 h = ground arith

-- What the Exchange approved, as the transaction must show it.
pub record IsApproved (params : CreateTxParams) (outputs : List TxOutput) (fees : ℕ) : Type 0 where
  pub output : TxOutput
  pub no_extra_id : params.dest_address_extra_id_len ≡ 0
  pub single : external outputs ≡ output ∷ []
  pub pays : from_be_bytes params.amount ≡ output.amount
  pub costs : from_be_bytes params.fee_amount ≡ fees
  pub reaches : take params.dest_address_len params.dest_address ≡ output.address
  pub is_text : is_utf8 output.address ≡ true

module _ (params : CreateTxParams) (outputs : List TxOutput) (fees : ℕ)
    (amount_len : 8 ≤ length params.amount) (fee_len : 8 ≤ length params.fee_amount)
    (amounts : All (λ o. IsU64 o.amount) outputs) (fee_fits : IsU64 fees) where
  fits : (o : TxOutput) → external outputs ≡ o ∷ [] → IsU64 o.amount
  fits o e = (rw e at (external-All (λ o. IsU64 o.amount) outputs amounts)).0

  IsApproved-only : check_swap_params params outputs fees ≡ ok tt → IsApproved params outputs fees
  unfolding check_swap_params
  IsApproved-only h = elim (Result-cases (single_external (external outputs))) [
    | inr (x, e) ↦ absurd (ground (arith, (rw e at h)))
    | inl (o, e) ↦ elim (Result-cases (read_amount params.amount error_wrong_amount)) [
      | inr (x, ea) ↦ absurd (ground (arith, (rw (e, ea) at h)))
      | inl (a, ea) ↦ elim (Result-cases (read_amount params.fee_amount error_wrong_fees)) [
        | inr (x, ef) ↦ absurd (ground (arith, (rw (e, ea, ef) at h)))
        | inl (f, ef) ↦
            let dest = take params.dest_address_len params.dest_address in
            let (b1, b2, b3, b4, b5) =
              all_tests (params.dest_address_extra_id_len == 0) (o.amount == a) (fees == f)
                (is_utf8 dest) (bytes_eq o.address dest) _ _ _ _ _ (rw (e, ea, ef) at h) in
            let one = (single_external_iff (external outputs) o).0 e in
            let addr = bytes_eq→eq o.address dest b5 in
            let a_is = (==_iff o.amount a).0 b2 in
            let f_is = (==_iff fees f).0 b3 in
            record {
              output = o;
              no_extra_id = (==_iff params.dest_address_extra_id_len 0).0 b1;
              single = one;
              pays =
                  (read_amount_iff params.amount error_wrong_amount o.amount amount_len
                      (fits o one)).0
                    (ea ∙ ap ok (sym a_is));
              costs =
                  (read_amount_iff params.fee_amount error_wrong_fees fees fee_len fee_fits).0
                    (ef ∙ ap ok (sym f_is));
              reaches = sym addr;
              is_text = rw addr b4;
            }
      ]
    ]
  ]

  approves : IsApproved params outputs fees → check_swap_params params outputs fees ≡ ok tt
  unfolding check_swap_params
  approves h =
      let o = h.output in
      let e = (single_external_iff (external outputs) o).1 h.single in
      let ea =
        (read_amount_iff params.amount error_wrong_amount o.amount amount_len (fits o h.single)).1
          h.pays in
      let ef =
        (read_amount_iff params.fee_amount error_wrong_fees fees fee_len fee_fits).1 h.costs in
      rw (h.no_extra_id, e, ea, ef, h.reaches, h.is_text, bytes_eq_refl o.address) (ground arith)

  -- For amounts of at least eight bytes, and outputs and a fee of 64 bits: the swap check passes exactly
  -- when no extra ID is asked for, the transaction has one external
  -- output, the whole approved amount and the whole approved fee, as numbers of all their bytes, are
  -- that output's amount and the fee, and the approved destination is a text equal to its address.
  pub check_swap_params_iff :
      (check_swap_params params outputs fees ≡ ok tt) ↔ IsApproved params outputs fees
  check_swap_params_iff = (IsApproved-only, approves)
