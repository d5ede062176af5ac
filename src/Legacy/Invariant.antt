-- ===== src/Legacy/Invariant.antt =====
-- src/parser/legacy/mod.rs: the invariant of the legacy parser between two pieces of data.
use app_zcash.Base.{
  ℕ, ◌+◌, ◌*◌, ◌≤◌, ◌<◌, ◌≡◌, ◌≢◌, Bool, true, false, Option, some, length, ltb, refl, arith,
}
use app_zcash.Tx.Declared.{Declared, declared_of}
use app_zcash.Base.Bytes.{Bytes}
use app_zcash.Tx.{TxInfo, TxVersion, v4, v5, v6, other_version, TrustedInputInfo, TxSigningState}
use app_zcash.Session.{LegacyParserMode, trusted_input, signature}
use app_zcash.TxId.{LegacyParserCtx}
use app_zcash.Output.{max_script_size}
use app_zcash.Legacy.{
  LegacyParserState, LegacyParser, LegacyRun, usize_max, new, set_transparent_output_count,
  state_none, wait_input, process_input_script, input_hashing_done, wait_output,
  process_output_script, output_hashing_done, process_sapling, process_sapling_spends,
  process_sapling_spends_hashing, process_sapling_outputs_compact, process_sapling_outputs_memo,
  process_sapling_outputs_non_compact, process_sapling_output_hashing, process_actions_compact,
  process_actions_memo, process_actions_non_compact, process_actions_hashing, process_extra,
  transaction_parsed, transaction_presign_ready, transaction_ready_to_sign,
}
use app_zcash.Legacy.Actions.{action_count, orchard_memo_size}
use app_zcash.Legacy.Sapling.{sapling_memo_size}
use app_zcash.Legacy.Transparent.{max_legacy_shielded_count}

-- The versions that the modes read, with the flag for v6.
abbrev pub Supports : LegacyParserMode → TxVersion → Bool → Type 0
Supports trusted_input v4 is_v6 = is_v6 ≡ false
Supports trusted_input v5 is_v6 = is_v6 ≡ false
Supports trusted_input v6 is_v6 = is_v6 ≡ true
Supports trusted_input other_version is_v6 = true ≡ false
Supports signature v5 is_v6 = is_v6 ≡ false
Supports signature v4 is_v6 = true ≡ false
Supports signature v6 is_v6 = true ≡ false
Supports signature other_version is_v6 = true ≡ false

-- What a header leaves.
pub record IsHeader (mode : LegacyParserMode) (info : TxInfo) : Type 0 where
  pub version : TxVersion
  pub has_version : info.tx_version ≡ some version
  pub branch : ℕ
  pub has_branch : info.branch_id ≡ some branch
  pub supports : Supports mode version info.is_v6

-- Before the header, the flag is not set.
abbrev pub HeaderAt : LegacyParserState → LegacyParserMode → TxInfo → Type 0
HeaderAt s mode info = elim s [ state_none ↦ info.is_v6 ≡ false | _ ↦ IsHeader mode info ]

-- The buffer that a script is collected in.
abbrev pub IsBuffer : ℕ → ℕ → Bytes → Type 0
IsBuffer size remaining buf = (size ≤ max_script_size) × (remaining ≤ size) × (length buf ≡ size)

-- The shielded counters before they are used.
abbrev pub IsFresh : LegacyParser → Type 0
IsFresh p = (p.sapling_spend_parsed_count ≡ 0) × (p.sapling_output_parsed_count ≡ 0)

-- All outputs were read, by a parser that computes an ID.
abbrev pub IsTail : LegacyParser → Type 0
IsTail p = (p.mode ≡ trusted_input) × (p.output_count ≡ p.output_parsed_count)

abbrev pub IsShielded : LegacyParser → TxInfo → Type 0
IsShielded p info = IsTail p × (info.tx_version ≢ some v4)

-- What a state says of the parser: a counter is below what was declared while its components are
-- streamed, and what remains of a memo section is in its size.
abbrev pub PlaceAt : LegacyParserState → LegacyParser → TxInfo → TxSigningState → Type 0
PlaceAt state_none p info st = IsFresh p × (p.ironwood_action_count ≡ 0)
PlaceAt wait_input p info st = IsFresh p
PlaceAt (process_input_script size remaining) p info st =
    IsFresh p × IsBuffer size remaining p.script_bytes
PlaceAt input_hashing_done p info st = IsFresh p × (p.mode ≡ trusted_input)
PlaceAt wait_output p info st = IsFresh p × (p.mode ≡ trusted_input)
PlaceAt (process_output_script size remaining) p info st =
    IsFresh p × (p.mode ≡ trusted_input) × IsBuffer size remaining p.script_bytes
PlaceAt output_hashing_done p info st = IsFresh p × IsTail p
PlaceAt process_sapling p info st =
    IsFresh p × IsShielded p info × (0 < p.sapling_spend_count + p.sapling_output_count)
PlaceAt (process_sapling_spends anchor) p info st =
    (p.sapling_spend_parsed_count < p.sapling_spend_count)
    × IsShielded p info
    × (p.sapling_output_parsed_count ≡ 0)
PlaceAt process_sapling_spends_hashing p info st =
    IsShielded p info × (p.sapling_output_parsed_count ≡ 0)
PlaceAt process_sapling_outputs_compact p info st =
    IsShielded p info × (p.sapling_output_parsed_count < p.sapling_output_count)
PlaceAt (process_sapling_outputs_memo size remaining) p info st =
    IsShielded p info
    × (0 < p.sapling_output_count)
    × (size ≡ p.sapling_output_count * sapling_memo_size)
    × (remaining ≤ size)
PlaceAt process_sapling_outputs_non_compact p info st =
    IsShielded p info × (p.sapling_output_parsed_count < p.sapling_output_count)
PlaceAt process_sapling_output_hashing p info st = IsShielded p info
PlaceAt (process_actions_compact bundle) p info st =
    IsShielded p info × (p.action_parsed_count < action_count p bundle)
PlaceAt (process_actions_memo bundle size remaining) p info st =
    IsShielded p info
    × (0 < action_count p bundle)
    × (size ≡ action_count p bundle * orchard_memo_size)
    × (remaining ≤ size)
PlaceAt (process_actions_non_compact bundle) p info st =
    IsShielded p info × (p.action_parsed_count < action_count p bundle)
PlaceAt (process_actions_hashing bundle) p info st = IsShielded p info
PlaceAt process_extra p info st = IsTail p
PlaceAt transaction_parsed p info st = IsTail p
PlaceAt transaction_presign_ready p info st = p.mode ≡ signature
PlaceAt transaction_ready_to_sign p info st = (p.mode ≡ signature) × (st.is_tx_parsed_once ≡ true)

-- The outputs whose amount was read.
abbrev pub seen : LegacyParserState → ℕ → ℕ
seen s parsed = elim s [ process_output_script size remaining ↦ parsed + 1 | _ ↦ parsed ]

-- The trusted input is found exactly when an output of its index was read. An index of 2 ^ 32 - 1
-- is left out: the counter stops there.
abbrev pub IsSought : ℕ → TrustedInputInfo → Type 0
IsSought read info =
    (i : ℕ) → info.input_idx ≡ some i → i < usize_max → info.is_input_processed ≡ ltb i read

-- The declared counts of the shielded components, bounded; the Ironwood pool is that of v6; and the
-- counter of the outputs is a `usize`.
abbrev pub IsBounded : LegacyParser → TxInfo → Type 0
IsBounded p info =
    (p.sapling_spend_count ≤ max_legacy_shielded_count)
    × (p.sapling_output_count ≤ max_legacy_shielded_count)
    × (p.orchard_action_count ≤ max_legacy_shielded_count)
    × (p.ironwood_action_count ≤ max_legacy_shielded_count)
    × (0 < p.ironwood_action_count → info.is_v6 ≡ true)
    × (p.output_parsed_count ≤ usize_max)

-- What the parser leaves alone: its mode, whether the transaction was reviewed, the index of a trusted input, and
-- what a review shows; the validity window only in the mode `signature`.
pub record Frame : Type 0 where
  pub mode : LegacyParserMode
  pub once : Bool
  pub index : Option ℕ
  pub declared : Declared
  pub fees : ℕ
  pub locktime : ℕ
  pub expiry_height : ℕ

abbrev pub frame_of : {H : Type 0} → LegacyParserMode → LegacyParserCtx H → Frame
frame_of mode ctx = record {
  mode = mode;
  once = ctx.tx_state.is_tx_parsed_once;
  index = ctx.trusted_input_info.input_idx;
  declared = declared_of ctx.tx_info;
  fees = ctx.tx_info.fees;
  locktime = ctx.tx_info.locktime;
  expiry_height = ctx.tx_info.expiry_height;
}

abbrev pub Keeps : {H : Type 0} → Frame → LegacyParserMode → LegacyParserCtx H → Type 0
Keeps f mode ctx =
    (ctx.tx_state.is_tx_parsed_once ≡ f.once)
    × (ctx.trusted_input_info.input_idx ≡ f.index)
    × (declared_of ctx.tx_info ≡ f.declared)
    × (ctx.tx_info.fees ≡ f.fees)
    × (mode ≡ signature
        → (ctx.tx_info.locktime ≡ f.locktime) × (ctx.tx_info.expiry_height ≡ f.expiry_height))
    × (mode ≡ f.mode)

-- The invariant at a state; `pass` is what no step changes.
pub record IsRunAt {H : Type 0} (pass : Frame) (s : LegacyParserState) (p : LegacyParser)
    (ctx : LegacyParserCtx H) : Type 0 where
  pub kept : Keeps pass p.mode ctx
  pub header : HeaderAt s p.mode ctx.tx_info
  pub bounded : IsBounded p ctx.tx_info
  pub place : PlaceAt s p ctx.tx_info ctx.tx_state
  pub sought : IsSought (seen s p.output_parsed_count) ctx.trusted_input_info

-- The steps of a state that may take no byte.
abbrev pub slack : LegacyParserState → ℕ
slack s = elim s [
  | process_output_script size remaining ↦ 1
  | process_sapling_spends_hashing ↦ 1
  | process_sapling_outputs_memo size remaining ↦ 1
  | process_sapling_output_hashing ↦ 1
  | process_actions_memo bundle size remaining ↦ 1
  | _ ↦ 0
]

abbrev pub IsRun : {H : Type 0} → Frame → LegacyRun H → Type 0
IsRun pass r = IsRunAt pass r.parser.state r.parser r.ctx

-- A new parser is well-formed where no v6 flag and no found trusted input is left from before.
pub new-IsRun :
    {H : Type 0} (mode : LegacyParserMode) (cnt : ℕ) (ctx : LegacyParserCtx H)
    → ctx.tx_info.is_v6 ≡ false
    → IsSought 0 ctx.trusted_input_info
    → IsRun
        (frame_of mode ctx)
        (record { parser = set_transparent_output_count cnt (new mode); ctx = ctx })
unfolding new set_transparent_output_count
new-IsRun mode cnt ctx not_v6 unprocessed = record {
  header = not_v6;
  kept = (refl, refl, refl, refl, (λ h. (refl, refl)), refl);
  bounded = (
    omega arith,
    omega arith,
    omega arith,
    omega arith,
    (λ h. absurd (omega (arith, h))),
    omega arith,
  );
  place = ((refl, refl), refl);
  sought = unprocessed;
}

-- Nothing is found yet.
pub none_found : (info : TrustedInputInfo) → info.is_input_processed ≡ false → IsSought 0 info
none_found info unprocessed i e h = ground (arith, unprocessed)
