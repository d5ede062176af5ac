-- ===== src/Output/Tests.antt =====
-- Runs of the output parser over a model of the libraries that it calls.
use app_zcash.Base.{
  ℕ, ◌<◌, ◌≡◌, true, false, [], ◌∷◌, ◌++◌, Option, none, some, length, ok, err, arith, refl,
  if◌then◌else◌, ltb, leb,
}
use app_zcash.Base.Bytes.{Bytes, from_le_bytes}
use app_zcash.Sdk.{HashOps, Hashing, Wire, IsWire, AddressOps}
use app_zcash.Tx.{TxInfo, Hashers}
use app_zcash.ParserError.{Ensures}
use app_zcash.Script.{
  check_output_displayable, output_script_is_op_return, output_script_is_regular,
  output_script_is_p2sh, pays_change,
}
use app_zcash.Address.{
  from_output_script, from_p2pkh_payload, base58check_transparent_address, double_sha256_checksum,
  output_script_to_transparent_payload,
}
use app_zcash.Output.{
  OutputRun, new, is_finished, parse, parse_loop, step_from, parse_count, parse_output,
  parse_script, close_script, review_output, push_output, finish_output, finalize_outputs,
  settle_fees, reveal_self_transfer, checked_sub,
}
use app_zcash.Output.Invariant.{new-IsRun}
use app_zcash.Output.Preserved.{Ended}
use app_zcash.Output.Finished.{IsFinished, started, fed, parse-Ended, parse-IsFinished}

-- A hash that keeps what it is fed.
abbrev keep_all : HashOps Bytes
keep_all = record {
  fresh = [];
  init_with_perso = λ p. some p;
  update = λ h b. some (h ++ b);
  finalize = λ h. some (h, []);
}

abbrev hashing : Hashing Bytes
hashing = record { blake = keep_all; sha = keep_all }

-- Compact sizes of one byte.
abbrev short_size : Bytes → Option (ℕ × Bytes)
short_size [] = none
short_size (b ∷ bs) = if ltb b 253 then some (b, bs) else none

abbrev money : Bytes → Option ℕ
money bs = if leb (from_le_bytes bs) 2_100_000_000_000_000 then some (from_le_bytes bs) else none

abbrev wire : Wire
wire = record {
  read_compact_size = short_size;
  write_compact_size = λ n. n ∷ [];
  zatoshis = money;
  write_script = λ s. length s ∷ s;
}

short_size_takes :
    (bs : Bytes) (n : ℕ) (rest : Bytes) → short_size bs ≡ some (n, rest) → length rest < length bs
short_size_takes [] n rest e = ground arith
short_size_takes (b ∷ bs) n rest e =
    let is : (ltb b 253 ≡ true) × (bs ≡ rest) = ground arith in rw (← is.1) (omega arith)

is_wire : IsWire wire
is_wire = record {
  compact_size_takes = short_size_takes;
  zatoshis_bounded = λ bs n e. ground arith;
}

abbrev ops : AddressOps
ops = record { sha256 = λ b. some b; ripemd160 = λ b. some b; bs58_encode = λ b. some b }

abbrev no_hashers : Hashers Bytes
no_hashers = record {
  prevouts_hasher = [];
  sequence_hasher = [];
  outputs_hasher = [];
  amounts_hasher = [];
  scripts_hasher = [];
  orchard_hasher = [];
  sapling_hasher = [];
  tx_memo_hasher = [];
  tx_compact_hasher = [];
  tx_non_compact_hasher = [];
  v4_tx_hasher = [];
  ironwood_hasher = [];
}

-- A transaction with an input of 100.
abbrev spending_100 : TxInfo
spending_100 = record {
  tx_version = none;
  branch_id = none;
  locktime = 0;
  sighash_type = 1;
  expiry_height = 0;
  total_amount = 100;
  fees = 0;
  outputs = [];
  retained_memo_bytes = 0;
  displayed_shielded_outputs = 0;
  is_change_found = false;
  change_pk_hash = none;
  change_account = none;
  prevouts_hash = [];
  sequence_hash = [];
  outputs_hash = [];
  amounts_hash = [];
  scripts_hash = [];
  header_digest = [];
  orchard_digest = [];
  signature_digest = [];
  ironwood_digest = [];
  is_v6 = false;
  has_ironwood_bundle = false;
  branch_id_raw = 0;
}

abbrev start : OutputRun Bytes
start = record { parser = new; tx_info = spending_100; hashers = no_hashers }

abbrev key_hash : Bytes
key_hash =
    1 ∷ 2 ∷ 3 ∷ 4 ∷ 5 ∷ 6 ∷ 7 ∷ 8 ∷ 9 ∷ 10 ∷ 11 ∷ 12 ∷ 13 ∷ 14 ∷ 15 ∷ 16 ∷ 17 ∷ 18 ∷ 19 ∷ 20 ∷ []

-- One output of 60, cut inside its script.
abbrev first_piece : Bytes
first_piece = 1 ∷ 60 ∷ 0 ∷ 0 ∷ 0 ∷ 0 ∷ 0 ∷ 0 ∷ 0 ∷ 25 ∷ 0x76 ∷ 0xA9 ∷ []

abbrev second_piece : Bytes
second_piece = 0x14 ∷ (key_hash ++ 0x88 ∷ 0xAC ∷ [])

abbrev run_or : OutputRun Bytes → Bytes → OutputRun Bytes
run_or r piece = elim (parse hashing wire ops none r piece) [ ok (s, _) ↦ s | err e ↦ r ]

abbrev halfway : OutputRun Bytes
halfway = run_or start first_piece

abbrev finished : OutputRun Bytes
finished = run_or halfway second_piece

first_run : parse hashing wire ops none start first_piece ≡ ok (halfway, [])
unfolding parse parse_loop step_from parse_count parse_output parse_script new is_finished
first_run = refl

second_run :
    (parse hashing wire ops none halfway second_piece ≡ ok (finished, []))
    × (finished.tx_info.fees ≡ 40)
    × (is_finished finished.parser ≡ true)
unfolding parse parse_loop step_from parse_count parse_output parse_script new is_finished
    close_script review_output push_output finish_output finalize_outputs settle_fees
    reveal_self_transfer checked_sub check_output_displayable output_script_is_op_return
    output_script_is_regular output_script_is_p2sh pays_change from_output_script from_p2pkh_payload
    base58check_transparent_address double_sha256_checksum output_script_to_transparent_payload
second_run = (refl, refl, refl)

-- A start that declares no output, and then sends one: it is taken, and the parser waits for more.
abbrev none_declared : OutputRun Bytes
none_declared = run_or start (0 ∷ 60 ∷ 0 ∷ 0 ∷ 0 ∷ 0 ∷ 0 ∷ 0 ∷ 0 ∷ 25 ∷ 0x76 ∷ 0xA9 ∷ second_piece)

none_declared_run :
    (length none_declared.tx_info.outputs ≡ 1) × (is_finished none_declared.parser ≡ false)
unfolding parse parse_loop step_from parse_count parse_output parse_script new is_finished
    close_script review_output push_output finish_output finalize_outputs settle_fees
    reveal_self_transfer checked_sub check_output_displayable output_script_is_op_return
    output_script_is_regular output_script_is_p2sh pays_change from_output_script from_p2pkh_payload
    base58check_transparent_address double_sha256_checksum output_script_to_transparent_payload
none_declared_run = (refl, refl)

parse-Ended_example :
    Ensures (Ended hashing wire is_wire ops none) (parse hashing wire ops none start first_piece)
parse-Ended_example =
    parse-Ended hashing wire is_wire ops none start first_piece (new-IsRun none spending_100 refl)

parse-IsFinished_example : IsFinished finished.parser finished.tx_info
parse-IsFinished_example =
    parse-IsFinished hashing wire is_wire ops start finished refl refl
      (fed halfway finished second_piece [] (fed start halfway first_piece [] started first_run)
        second_run.0)
      second_run.2
