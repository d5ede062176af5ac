-- ===== src/Output/Finished.antt =====
-- src/parser/legacy/output_parser.rs: `parse` over any number of pieces of data, and finished
-- parsers.
use app_zcash.Base.{
  ◌+◌, ◌*◌, ◌≤◌, ◌<◌, ◌≡◌, Bool, true, false, not, List, [], ◌∷◌, Option, none, length, any, ok,
  arith, refl,
}
use app_zcash.Base.Bytes.{Bytes}
use app_zcash.Sdk.{Hashing, Wire, IsWire, AddressOps}
use app_zcash.Tx.{TxInfo, TxOutput}
use app_zcash.Swap.{CreateTxParams}
use app_zcash.ParserError.{Ensures}
use app_zcash.Output.{
  OutputState, parsing_number_of_outputs, parsing_output, process_output_script,
  output_processing_done, OutputRun, LegacyOutputParser, max_outputs_number, new, is_finished,
  parse,
}
use app_zcash.Output.Invariant.{amount_sum, one_if, change_count, slack, IsRun, new-IsRun}
use app_zcash.Output.Preserved.{Ended, parse_loop-Ended}

slack_bound : (s : OutputState) → slack s ≤ 1
slack_bound parsing_number_of_outputs = omega arith
slack_bound parsing_output = omega arith
slack_bound (process_output_script size remaining) = omega arith
slack_bound output_processing_done = omega arith

-- A finished run: it declared between one and eight outputs and has them all, their amounts and the
-- fee are the amount that goes in, one of them at most is change, and one at least is shown.
pub record IsFinished (p : LegacyOutputParser) (info : TxInfo) : Type 0 where
  pub declared : (0 < p.output_count) × (p.output_count ≤ max_outputs_number)
  pub all_parsed : length info.outputs ≡ p.output_count
  pub balanced : info.fees + amount_sum info.outputs ≡ info.total_amount
  pub one_change : change_count info.outputs ≤ 1
  pub one_shown : any (λ o. not o.is_change) info.outputs ≡ true

at_least_one : (os : List TxOutput) → any (λ o. not o.is_change) os ≡ true → 0 < length os
at_least_one [] h = ground arith
at_least_one (o ∷ os) h = omega arith

one_if_bound : (b : Bool) → one_if b ≤ 1
one_if_bound true = omega arith
one_if_bound false = omega arith

at_done :
    (s : OutputState) (p : LegacyOutputParser)
    → p.state ≡ s
    → is_finished p ≡ true
    → s ≡ output_processing_done
unfolding is_finished
at_done output_processing_done p at h = refl
at_done parsing_number_of_outputs p at h = ground (arith, rw at at h)
at_done parsing_output p at h = ground (arith, rw at at h)
at_done (process_output_script size remaining) p at h = ground (arith, rw at at h)

IsRun-IsFinished :
    (p : LegacyOutputParser) (info : TxInfo)
    → IsRun none p info
    → is_finished p ≡ true
    → IsFinished p info
IsRun-IsFinished p info is finished =
    let done = at_done p.state p refl finished in
    let (all, (paid, shown)) = rw done at is.complete in
    record {
      declared = (omega (arith, all, at_least_one info.outputs shown), is.count);
      all_parsed = all;
      balanced = paid;
      one_change = omega (arith, is.one_change, one_if_bound info.is_change_found);
      one_shown = shown;
    }

module _ {H : Type 0} (hashing : Hashing H) (wire : Wire) (is_wire : IsWire wire) (ops : AddressOps)
    (swap_params : Option CreateTxParams) where
  -- Where compact sizes take a byte at least and amounts are at most the supply: from a well-formed
  -- run, `parse` reads the data to its end or to the end of the outputs, whatever
  -- they are, and the run it gives is well-formed; an error is one of the program's.
  pub parse-Ended :
      (r : OutputRun H) (unread : Bytes)
      → IsRun swap_params r.parser r.tx_info
      → Ensures
          (Ended hashing wire is_wire ops swap_params)
          (parse hashing wire ops swap_params r unread)
  unfolding parse
  parse-Ended r unread is =
      parse_loop-Ended hashing wire is_wire ops swap_params (2 * length unread + 2) r unread is
        (omega (arith, slack_bound r.parser.state))

module _ {H : Type 0} (hashing : Hashing H) (wire : Wire) (ops : AddressOps) where
  -- The pieces of data that the parser is fed, from a start to a run.
  pub data Fed (r : OutputRun H) : OutputRun H → Type 0 where
    started : Fed r r
    fed :
        (s t : OutputRun H) (piece rest : Bytes)
        → Fed r s
        → parse hashing wire ops none s piece ≡ ok (t, rest)
        → Fed r t

module _ {H : Type 0} (hashing : Hashing H) (wire : Wire) (is_wire : IsWire wire)
    (ops : AddressOps) where
  Fed-IsRun :
      (r s : OutputRun H)
      → Fed hashing wire ops r s
      → IsRun none r.parser r.tx_info
      → IsRun none s.parser s.tx_info
  Fed-IsRun r s started is = is
  Fed-IsRun r s (fed m t piece rest before e) is =
      let h = parse-Ended hashing wire is_wire ops none m piece (Fed-IsRun r m before is) in
      (rw e at h).0

  -- Where compact sizes take a byte at least and amounts are at most the supply: outside a swap, a
  -- parser that starts on a transaction without outputs and is finished after any
  -- pieces of data is a finished run: it declared between one and
  -- eight outputs and has them all, their amounts and the fee add up to the amount that goes in, one of
  -- them at most is change, and one at least is shown.
  pub parse-IsFinished :
      (r s : OutputRun H)
      → r.parser ≡ new
      → r.tx_info.outputs ≡ []
      → Fed hashing wire ops r s
      → is_finished s.parser ≡ true
      → IsFinished s.parser s.tx_info
  parse-IsFinished r s at_start empty pieces finished =
      IsRun-IsFinished s.parser s.tx_info
        (Fed-IsRun r s pieces (rw at_start (new-IsRun none r.tx_info empty))) finished
