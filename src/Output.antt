-- ===== src/Output.antt =====
-- src/parser/legacy/output_parser.rs: the parser of the transparent outputs of a transaction to be
-- signed, fed by HASH_INPUT_FINALIZE_FULL one piece of data at a time.
pub mod Invariant
pub mod Reveal
pub mod Settled
pub mod Preserved
pub mod Finished
pub mod Header
mod Tests
use app_zcash.Base.{
  ℕ, zero, suc, ◌+◌, ◌-◌, ◌*◌, ◌^◌, min, Bool, true, false, not, List, [], ◌∷◌, ◌++◌, map, Option,
  none, some, if◌then◌else◌, ltb, ◌==◌, length, take, drop, replicate, any, ok, err, ◌>>=◌, ◌>>◌,
  ensure, map_err, ◌&&◌, ◌||◌,
}
use app_zcash.Base.Bytes.{Bytes, to_le_bytes}
use app_zcash.Sdk.{Hashing, Wire, AddressOps}
use app_zcash.Script.{CheckDispOutput, hidden, displayable, change, check_output_displayable}
use app_zcash.Address.{from_output_script}
use app_zcash.Tx.{TxInfo, TxOutput, transparent, Hashers}
use app_zcash.Swap.{CreateTxParams, check_swap_params}
use app_zcash.Reader.Unread.{take_exact}
use app_zcash.ParserError.{
  Parsed, try_ok, io, hash, balance, custom, app_sw, swap, stuck, too_many_outputs,
  bad_output_script_size, multiple_change_outputs, unsupported_output_script, no_outputs_to_display,
  failed_to_calculate_fees,
}

abbrev pub max_script_size : ℕ
max_script_size = 1024 * 2

abbrev pub max_outputs_number : ℕ
max_outputs_number = 8

abbrev pub u64_max : ℕ
u64_max = 2 ^ 64 - 1

-- "ZTxIdOutputsHash".
abbrev pub zcash_outputs_hash_personalization : Bytes
zcash_outputs_hash_personalization =
    0x5A ∷ 0x54 ∷ 0x78 ∷ 0x49 ∷ 0x64 ∷ 0x4F ∷ 0x75 ∷ 0x74 ∷ 0x70 ∷ 0x75 ∷ 0x74 ∷ 0x73 ∷ 0x48 ∷ 0x61
    ∷ 0x73 ∷ 0x68 ∷ []

pub data OutputState : Type 0 where
  parsing_number_of_outputs parsing_output output_processing_done : OutputState
  process_output_script : ℕ → ℕ → OutputState

pub record LegacyOutputParser : Type 0 where
  pub state : OutputState
  pub output_count : ℕ
  pub total_output_amount : ℕ
  pub output_parsed_count : ℕ
  pub current_output_amount : ℕ
  pub script_bytes : Bytes

unfoldable pub new : LegacyOutputParser
new = record {
  state = parsing_number_of_outputs;
  output_count = 0;
  total_output_amount = 0;
  output_parsed_count = 0;
  current_output_amount = 0;
  script_bytes = [];
}

unfoldable pub is_finished : LegacyOutputParser → Bool
is_finished p = elim p.state [ output_processing_done ↦ true | _ ↦ false ]

-- The parser with what it mutates through its context. After an error the main loop resets all of
-- it, so an error carries no state.
pub record OutputRun (H : Type 0) : Type 0 where
  pub parser : LegacyOutputParser
  pub tx_info : TxInfo
  pub hashers : Hashers H

-- `buf[offset..][..src.len()].copy_from_slice(src)`.
abbrev pub write_at : ℕ → Bytes → Bytes → Bytes
write_at zero src buf = src ++ drop (length src) buf
write_at (suc offset) src [] = []
write_at (suc offset) src (b ∷ buf) = b ∷ write_at offset src buf

-- `output.is_change = false` on every output.
abbrev pub reveal : TxOutput → TxOutput
reveal o = record o { is_change = false }

-- The outputs after the self-transfer rule.
unfoldable pub reveal_self_transfer : List TxOutput → List TxOutput
reveal_self_transfer outputs =
    if any (λ o. not o.is_change) outputs then outputs else map reveal outputs

-- `checked_sub`.
unfoldable pub checked_sub : ℕ → ℕ → Option ℕ
checked_sub a b = if ltb a b then none else some (a - b)

-- The branch of `finalize_outputs` on the swap parameters.
unfoldable pub settle_fees : Option CreateTxParams → TxInfo → ℕ → Parsed TxInfo
unfolding reveal_self_transfer
settle_fees (some params) info fees = do
  map_err swap (check_swap_params params info.outputs fees)
  ok info
settle_fees none info fees =
    ok (record info { outputs = reveal_self_transfer info.outputs; fees = fees })

module _ {H : Type 0} (hashing : Hashing H) (wire : Wire) (ops : AddressOps)
    (swap_params : Option CreateTxParams) where
  unfoldable pub finalize_outputs : OutputRun H → Parsed (OutputRun H)
  unfolding settle_fees checked_sub
  finalize_outputs r = do
    ensure (not (length r.tx_info.outputs == 0)) (custom no_outputs_to_display)
    fees ←
        try_ok (checked_sub r.tx_info.total_amount r.parser.total_output_amount)
          (custom failed_to_calculate_fees)
    info ← settle_fees swap_params r.tx_info fees
    (digest, h) ← try_ok (hashing.blake.finalize r.hashers.outputs_hasher) hash
    ok (record r {
      tx_info = record info { outputs_hash = digest };
      hashers = record (r.hashers) { outputs_hasher = h };
    })

  unfoldable pub parse_count : OutputRun H → Bytes → Parsed (OutputRun H × Bytes)
  parse_count r unread = do
    (count, unread1) ← try_ok (wire.read_compact_size unread) io
    ensure (not (ltb max_outputs_number count)) (custom too_many_outputs)
    h ← try_ok (hashing.blake.init_with_perso zcash_outputs_hash_personalization) hash
    ok (
      record r {
        parser = record (r.parser) { output_count = count; state = parsing_output };
        hashers = record (r.hashers) { outputs_hasher = h };
      },
      unread1,
    )

  unfoldable pub parse_output : OutputRun H → Bytes → Parsed (OutputRun H × Bytes)
  parse_output r unread = do
    (tmp, unread1) ← try_ok (take_exact 8 unread) io
    amount ← try_ok (wire.zatoshis tmp) balance
    h ← try_ok (hashing.blake.update r.hashers.outputs_hasher (to_le_bytes 8 amount)) hash
    (size, unread2) ← try_ok (wire.read_compact_size unread1) io
    ensure (not (ltb max_script_size size)) (custom bad_output_script_size)
    ok (
      record r {
        parser = record (r.parser) {
          current_output_amount = amount;
          total_output_amount = min (r.parser.total_output_amount + amount) u64_max;
          script_bytes = replicate size 0;
          state = process_output_script size size;
        };
        hashers = record (r.hashers) { outputs_hasher = h };
      },
      unread2,
    )

  -- The arm for `Change` and `Displayable`.
  unfoldable pub push_output : Bool → Bytes → ℕ → TxInfo → Parsed TxInfo
  push_output is_change script amount info = do
    ensure (not (is_change && info.is_change_found)) (custom multiple_change_outputs)
    address ← map_err app_sw (from_output_script ops script)
    ok (record info {
      outputs =
          info.outputs
          ++ record {
            amount = amount;
            address = address;
            is_change = is_change;
            memo = none;
            pool = transparent;
          }
            ∷ [];
      is_change_found = is_change || info.is_change_found;
    })

  -- The `match` on `check_output_displayable`.
  unfoldable pub review_output : CheckDispOutput → Bytes → ℕ → TxInfo → Parsed TxInfo
  unfolding push_output
  review_output hidden script amount info = err (custom unsupported_output_script)
  review_output displayable script amount info = push_output false script amount info
  review_output change script amount info = push_output true script amount info

  -- The counting at the end of an output.
  unfoldable pub finish_output : OutputRun H → Parsed (OutputRun H)
  unfolding finalize_outputs
  finish_output r =
      let parsed = min (r.parser.output_parsed_count + 1) u64_max in
      let counted = record r { parser = record (r.parser) { output_parsed_count = parsed } } in
      if r.parser.output_count == parsed
      then (finalize_outputs counted >>= λ f.
          ok (record f { parser = record (f.parser) { state = output_processing_done } }))
      else ok (record counted { parser = record (counted.parser) { state = parsing_output } })

  -- A script that is complete.
  unfoldable pub close_script : OutputRun H → Bytes → Parsed (OutputRun H)
  unfolding review_output finish_output
  close_script r script = do
    h ← try_ok (hashing.blake.update r.hashers.outputs_hasher (wire.write_script script)) io
    info ←
        review_output
          (check_output_displayable script r.parser.current_output_amount r.tx_info.change_pk_hash)
          script r.parser.current_output_amount r.tx_info
    finish_output (record r {
      parser = record (r.parser) { script_bytes = [] };
      tx_info = info;
      hashers = record (r.hashers) { outputs_hasher = h };
    })

  unfoldable pub parse_script : ℕ → ℕ → OutputRun H → Bytes → Parsed (OutputRun H × Bytes)
  unfolding close_script
  parse_script size remaining r unread =
      let len = min remaining (length unread) in
      let script = write_at (size - remaining) (take len unread) r.parser.script_bytes in
      if not (remaining - len == 0)
      then ok (
        record r {
          parser = record (r.parser) {
            script_bytes = script;
            state = process_output_script size (remaining - len);
          };
        },
        drop len unread,
      )
      else (close_script r script >>= λ r'. ok (r', drop len unread))

  -- The `match` of the loop; the `break` of its last arm is in `parse`.
  unfoldable pub step_from : OutputState → OutputRun H → Bytes → Parsed (OutputRun H × Bytes)
  unfolding parse_count parse_output parse_script
  step_from parsing_number_of_outputs r unread = parse_count r unread
  step_from parsing_output r unread = parse_output r unread
  step_from (process_output_script size remaining) r unread = parse_script size remaining r unread
  step_from output_processing_done r unread = ok (r, unread)

  -- `while reader.remaining_len() > 0`: the run, and the bytes that the loop leaves unread.
  unfoldable pub parse_loop : ℕ → OutputRun H → Bytes → Parsed (OutputRun H × Bytes)
  unfolding step_from is_finished
  parse_loop zero r [] = ok (r, [])
  parse_loop zero r (b ∷ bs) = err stuck
  parse_loop (suc fuel) r [] = ok (r, [])
  parse_loop (suc fuel) r (b ∷ bs) =
      if is_finished r.parser
      then ok (r, b ∷ bs)
      else (step_from r.parser.state r (b ∷ bs) >>= λ s. parse_loop fuel s.0 s.1)

  -- Two steps take a byte at least, and one more finds the end.
  abbrev pub enough_fuel : Bytes → ℕ
  enough_fuel unread = 2 * length unread + 2

  unfoldable pub parse : OutputRun H → Bytes → Parsed (OutputRun H × Bytes)
  unfolding parse_loop
  parse r unread = parse_loop (enough_fuel unread) r unread
