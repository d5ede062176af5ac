-- ===== src/Output/Reveal.antt =====
-- src/parser/legacy/output_parser.rs: the self-transfer rule of `finalize_outputs`.
use app_zcash.Base.{
  suc, ◌+◌, ◌≤◌, ◌≡◌, true, false, not, List, [], ◌∷◌, ◌++◌, map, ◌==◌, length, any, All, arith,
  refl, ap, Bool-cases, inl, inr,
}
use app_zcash.Tx.{TxOutput}
use app_zcash.Output.{reveal, reveal_self_transfer}
use app_zcash.Output.Invariant.{amount_sum, one_if, change_count, IsAmount}

pub amount_sum-append :
    (os : List TxOutput) (o : TxOutput) → amount_sum (os ++ o ∷ []) ≡ amount_sum os + o.amount
amount_sum-append [] o = omega arith
amount_sum-append (p ∷ os) o = omega (arith, amount_sum-append os o)

pub change_count-append :
    (os : List TxOutput) (o : TxOutput)
    → change_count (os ++ o ∷ []) ≡ change_count os + one_if o.is_change
change_count-append [] o = omega arith
change_count-append (p ∷ os) o = omega (arith, change_count-append os o)

length-map : (os : List TxOutput) → length (map reveal os) ≡ length os
length-map [] = refl
length-map (o ∷ os) = ap suc (length-map os)

amount_sum-map : (os : List TxOutput) → amount_sum (map reveal os) ≡ amount_sum os
amount_sum-map [] = refl
amount_sum-map (o ∷ os) = ap (λ n. o.amount + n) (amount_sum-map os)

change_count-map : (os : List TxOutput) → change_count (map reveal os) ≡ 0
change_count-map [] = refl
change_count-map (o ∷ os) = omega (arith, change_count-map os)

amounts-map : (os : List TxOutput) → All IsAmount os → All IsAmount (map reveal os)
amounts-map [] h = tt
amounts-map (o ∷ os) (h, hs) = (h, amounts-map os hs)

external-map :
    (os : List TxOutput)
    → (length os == 0) ≡ false
    → any (λ o. not o.is_change) (map reveal os) ≡ true
external-map [] h = ground arith
external-map (o ∷ os) h = refl

-- What the rule keeps of the outputs, and what it gives.
pub record Reveals (os revealed : List TxOutput) : Type 0 where
  pub len : length revealed ≡ length os
  pub sum : amount_sum revealed ≡ amount_sum os
  pub changes : change_count revealed ≤ change_count os
  pub bounded : All IsAmount os → All IsAmount revealed
  pub one_external : any (λ o. not o.is_change) revealed ≡ true

pub reveal_self_transfer-Reveals :
    (os : List TxOutput) → (length os == 0) ≡ false → Reveals os (reveal_self_transfer os)
unfolding reveal_self_transfer
reveal_self_transfer-Reveals os h = elim (Bool-cases (any (λ o. not o.is_change) os)) [
  | inl some_external ↦ rw some_external (record {
    len = refl;
    sum = refl;
    changes = omega arith;
    bounded = λ b. b;
    one_external = some_external;
  })
  | inr all_change ↦ rw all_change (record {
    len = length-map os;
    sum = amount_sum-map os;
    changes = omega (arith, change_count-map os);
    bounded = amounts-map os;
    one_external = external-map os h;
  })
]
