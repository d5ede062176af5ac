-- ===== src/Output/Invariant.antt =====
-- src/parser/legacy/output_parser.rs: the invariant of the output parser between two pieces of data.
use app_zcash.Base.{
  ℕ, ◌+◌, ◌-◌, ◌≤◌, ◌≡◌, min, Bool, true, false, not, List, [], ◌∷◌, Option, none, some, length,
  any, All, ok, arith,
}
use app_zcash.Base.Bytes.{Bytes}
use app_zcash.Tx.{TxInfo, TxOutput}
use app_zcash.Swap.{CreateTxParams, check_swap_params}
use app_zcash.Output.{
  OutputState, parsing_number_of_outputs, parsing_output, process_output_script,
  output_processing_done, LegacyOutputParser, max_script_size, max_outputs_number, u64_max, new,
}

abbrev pub max_money : ℕ
max_money = 2_100_000_000_000_000

abbrev pub amount_sum : List TxOutput → ℕ
amount_sum [] = 0
amount_sum (o ∷ os) = o.amount + amount_sum os

abbrev pub one_if : Bool → ℕ
one_if false = 0
one_if true = 1

abbrev pub change_count : List TxOutput → ℕ
change_count [] = 0
change_count (o ∷ os) = one_if o.is_change + change_count os

abbrev pub IsAmount : TxOutput → Type 0
IsAmount o = o.amount ≤ max_money

-- The amount that is counted and not yet in the list of outputs.
abbrev pub pending : OutputState → ℕ → ℕ
pending parsing_number_of_outputs a = 0
pending parsing_output a = 0
pending (process_output_script size remaining) a = a
pending output_processing_done a = 0

-- The buffer that a script is collected in.
abbrev pub IsBuffer : OutputState → Bytes → Type 0
IsBuffer parsing_number_of_outputs buf = Unit
IsBuffer parsing_output buf = Unit
IsBuffer (process_output_script size remaining) buf =
    (size ≤ max_script_size) × (remaining ≤ size) × (length buf ≡ size)
IsBuffer output_processing_done buf = Unit

-- The steps of a state that may take no byte.
abbrev pub slack : OutputState → ℕ
slack parsing_number_of_outputs = 0
slack parsing_output = 0
slack (process_output_script size remaining) = 1
slack output_processing_done = 0

-- What the end of the outputs settles: the fee, or the agreement with the swap.
abbrev pub IsSettled : Option CreateTxParams → TxInfo → Type 0
IsSettled none info =
    (info.fees + amount_sum info.outputs ≡ info.total_amount)
    × (any (λ o. not o.is_change) info.outputs ≡ true)
IsSettled (some params) info =
    (amount_sum info.outputs ≤ info.total_amount)
    × (check_swap_params params info.outputs (info.total_amount - amount_sum info.outputs) ≡ ok tt)

abbrev pub IsComplete : OutputState → Option CreateTxParams → ℕ → TxInfo → Type 0
IsComplete parsing_number_of_outputs swap_params count info = info.outputs ≡ []
IsComplete parsing_output swap_params count info = Unit
IsComplete (process_output_script size remaining) swap_params count info = Unit
IsComplete output_processing_done swap_params count info =
    (length info.outputs ≡ count) × IsSettled swap_params info

-- The invariant at a state.
pub record IsRunAt (swap_params : Option CreateTxParams) (s : OutputState) (p : LegacyOutputParser)
    (info : TxInfo) : Type 0 where
  pub total :
      p.total_output_amount
      ≡ min (amount_sum info.outputs + pending s p.current_output_amount) u64_max
  pub parsed : p.output_parsed_count ≡ min (length info.outputs) u64_max
  pub count : p.output_count ≤ max_outputs_number
  pub one_change : change_count info.outputs ≤ one_if info.is_change_found
  pub amounts : All IsAmount info.outputs
  pub current : p.current_output_amount ≤ max_money
  pub buffer : IsBuffer s p.script_bytes
  pub complete : IsComplete s swap_params p.output_count info

abbrev pub IsRun : Option CreateTxParams → LegacyOutputParser → TxInfo → Type 0
IsRun swap_params p info = IsRunAt swap_params p.state p info

-- The parser starts well-formed on a transaction without outputs.
pub new-IsRun :
    (swap_params : Option CreateTxParams) (info : TxInfo)
    → info.outputs ≡ []
    → IsRun swap_params new info
unfolding new
new-IsRun swap_params info h = record {
  total = rw h;
  parsed = rw h;
  count = omega arith;
  one_change = rw h (omega arith);
  amounts = rw h tt;
  current = omega arith;
  buffer = tt;
  complete = h;
}
