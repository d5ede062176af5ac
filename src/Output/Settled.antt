-- ===== src/Output/Settled.antt =====
-- src/parser/legacy/output_parser.rs: the end of an output, and of the outputs, against the
-- invariant.
use app_zcash.Base.{
  ℕ, zero, suc, ◌+◌, ◌-◌, ◌*◌, ◌≤◌, ◌≡◌, min, false, not, List, [], ◌∷◌, Option, none, some, ◌==◌,
  length, drop, All, arith, refl, length-drop, length-append, ap,
}
use app_zcash.Base.Bytes.{Bytes}
use app_zcash.Sdk.{Hashing, Wire, AddressOps}
use app_zcash.Tx.{TxInfo, TxOutput}
use app_zcash.Swap.{CreateTxParams, check_swap_params}
use app_zcash.ParserError.{
  Ensures, Ensures-bind, Ensures-try_ok, Ensures-ensure, Ensures-if, Ensures-map_err, hash, custom,
  swap, no_outputs_to_display, failed_to_calculate_fees,
}
use app_zcash.Output.{
  LegacyOutputParser, OutputRun, max_outputs_number, u64_max, settle_fees, finalize_outputs,
  finish_output, write_at, checked_sub,
}
use app_zcash.Output.Invariant.{
  max_money, amount_sum, one_if, change_count, IsAmount, IsSettled, slack, IsRun,
}
use app_zcash.Output.Reveal.{reveal_self_transfer-Reveals}

pub length-write_at :
    (offset : ℕ) (src buf : Bytes)
    → offset + length src ≤ length buf
    → length (write_at offset src buf) ≡ length buf
length-write_at zero src buf h =
    omega (arith, length-append src (drop (length src) buf), length-drop (length src) buf)
length-write_at (suc offset) src [] h = refl
length-write_at (suc offset) src (b ∷ buf) h = ap suc (length-write_at offset src buf (omega arith))

-- A run that has pushed an output and not counted it.
pub record IsPushed (p : LegacyOutputParser) (info : TxInfo) : Type 0 where
  pub total : p.total_output_amount ≡ min (amount_sum info.outputs) u64_max
  pub before : ℕ
  pub parsed : p.output_parsed_count ≡ min before u64_max
  pub pushed : length info.outputs ≡ suc before
  pub count : p.output_count ≤ max_outputs_number
  pub one_change : change_count info.outputs ≤ one_if info.is_change_found
  pub amounts : All IsAmount info.outputs
  pub current : p.current_output_amount ≤ max_money

pub amount_sum_bound :
    (os : List TxOutput) → All IsAmount os → amount_sum os ≤ length os * max_money
amount_sum_bound [] h = omega arith
amount_sum_bound (o ∷ os) (h, hs) = omega (arith, amount_sum_bound os hs, h)

checked_sub-some : (a b c : ℕ) → checked_sub a b ≡ some c → c + b ≡ a
unfolding checked_sub
checked_sub-some a b c e = ground arith

-- What `settle_fees` gives for the fee that it is told.
record Settled (params : Option CreateTxParams) (info : TxInfo) (info' : TxInfo) : Type 0 where
  len : length info'.outputs ≡ length info.outputs
  sum : amount_sum info'.outputs ≡ amount_sum info.outputs
  changes : change_count info'.outputs ≤ one_if info'.is_change_found
  bounded : All IsAmount info'.outputs
  settled : IsSettled params info'

settle_fees-Settled :
    (params : Option CreateTxParams) (info : TxInfo) (fees : ℕ)
    → (length info.outputs == 0) ≡ false
    → fees + amount_sum info.outputs ≡ info.total_amount
    → change_count info.outputs ≤ one_if info.is_change_found
    → All IsAmount info.outputs
    → Ensures (Settled params info) (settle_fees params info fees)
unfolding settle_fees
settle_fees-Settled none info fees nonempty paid changes bounded =
    let r = reveal_self_transfer-Reveals info.outputs nonempty in
    record {
      len = r.len;
      sum = r.sum;
      changes = omega (arith, r.changes);
      bounded = r.bounded bounded;
      settled = (omega (arith, r.sum), r.one_external);
    }
settle_fees-Settled (some params) info fees nonempty paid changes bounded =
    Ensures-map_err (Settled (some params) info) swap (check_swap_params params info.outputs fees) _
      (λ e. refl)
      λ u eu.
        let is : info.total_amount - amount_sum info.outputs ≡ fees = omega arith in
        record {
          len = refl;
          sum = refl;
          changes = changes;
          bounded = bounded;
          settled = (omega arith, rw is eu);
        }

-- `finalize_outputs` gives what the last state asks for.
pub record Finalized {H : Type 0} (swap_params : Option CreateTxParams) (r f : OutputRun H)
    : Type 0 where
  same_parser : f.parser ≡ r.parser
  len : length f.tx_info.outputs ≡ length r.tx_info.outputs
  sum : amount_sum f.tx_info.outputs ≡ amount_sum r.tx_info.outputs
  changes : change_count f.tx_info.outputs ≤ one_if f.tx_info.is_change_found
  bounded : All IsAmount f.tx_info.outputs
  settled : IsSettled swap_params f.tx_info

with_hash :
    (params : Option CreateTxParams) (info : TxInfo) (digest : Bytes)
    → IsSettled params info
    → IsSettled params (record info { outputs_hash = digest })
with_hash none info digest h = h
with_hash (some params) info digest h = h

module _ {H : Type 0} (hashing : Hashing H) (wire : Wire) (ops : AddressOps)
    (swap_params : Option CreateTxParams) where
  finalize_outputs-Finalized :
      (r : OutputRun H)
      → r.parser.total_output_amount ≡ amount_sum r.tx_info.outputs
      → change_count r.tx_info.outputs ≤ one_if r.tx_info.is_change_found
      → All IsAmount r.tx_info.outputs
      → Ensures (Finalized swap_params r) (finalize_outputs hashing wire ops swap_params r)
  unfolding finalize_outputs
  finalize_outputs-Finalized r total changes bounded =
      let Q = Finalized swap_params r in
      let outputs = r.tx_info.outputs in
      let due = r.tx_info.total_amount in
      Ensures-ensure Q (not (length outputs == 0)) (custom no_outputs_to_display) _ refl λ nonempty.
        Ensures-try_ok Q (checked_sub due r.parser.total_output_amount)
          (custom failed_to_calculate_fees) _ refl
          λ fees ef.
            let paid : fees + amount_sum outputs ≡ due =
              omega (arith, total, checked_sub-some due r.parser.total_output_amount fees ef) in
            Ensures-bind (Settled swap_params r.tx_info) Q (settle_fees swap_params r.tx_info fees)
              _ (settle_fees-Settled swap_params r.tx_info fees (ground arith) paid changes bounded)
              λ info ei is.
                Ensures-try_ok Q (hashing.blake.finalize r.hashers.outputs_hasher) hash _ refl
                  λ d ed. record {
                    same_parser = refl;
                    len = is.len;
                    sum = is.sum;
                    changes = is.changes;
                    bounded = is.bounded;
                    settled = with_hash swap_params info d.0 is.settled;
                  }

  pub finish_output-IsRun :
      (r : OutputRun H)
      → IsPushed r.parser r.tx_info
      → Ensures
          (λ f. IsRun swap_params f.parser f.tx_info × (slack f.parser.state ≡ 0))
          (finish_output hashing wire ops swap_params r)
  unfolding finish_output
  finish_output-IsRun r is =
      let Q : OutputRun H → Type 0 =
        λ f. IsRun swap_params f.parser f.tx_info × (slack f.parser.state ≡ 0) in
      let parsed = min (r.parser.output_parsed_count + 1) u64_max in
      let counted : OutputRun H = record r {
        parser = record (r.parser) { output_parsed_count = parsed };
      } in
      let outputs = r.tx_info.outputs in
      let is_parsed : parsed ≡ min (length outputs) u64_max = omega (arith, is.parsed, is.pushed) in
      let total = is.total in
      Ensures-if Q (r.parser.output_count == parsed) _ _
        (λ last.
          let all : length outputs ≡ r.parser.output_count = ground (arith, is.count) in
          let exact : r.parser.total_output_amount ≡ amount_sum outputs =
            omega (arith, total, amount_sum_bound outputs is.amounts, all, is.count) in
          Ensures-bind (Finalized swap_params counted) Q
            (finalize_outputs hashing wire ops swap_params counted) _
            (finalize_outputs-Finalized counted exact is.one_change is.amounts)
            λ f ef fin.
              let same = fin.same_parser in
              (
                record {
                  total = rw same (omega (arith, total, fin.sum));
                  parsed = rw same (omega (arith, is_parsed, fin.len));
                  count = rw same is.count;
                  one_change = fin.changes;
                  amounts = fin.bounded;
                  current = rw same is.current;
                  buffer = tt;
                  complete =
                      (omega (arith, ap (λ p. p.output_count) same, fin.len, all), fin.settled);
                },
                refl,
              ))
        (λ more. (
          record {
            total = omega (arith, total);
            parsed = is_parsed;
            count = is.count;
            one_change = is.one_change;
            amounts = is.amounts;
            current = is.current;
            buffer = tt;
            complete = tt;
          },
          refl,
        ))
