-- ===== src/Output/Header.antt =====
-- src/parser/legacy/output_parser.rs: the output parser leaves what a header said alone.
use app_zcash.Base.{
  ℕ, zero, suc, ◌-◌, ◌*◌, ◌+◌, ◌≡◌, refl, ◌∙◌, min, Bool, true, false, not, ◌&&◌, ◌||◌, List, [],
  ◌∷◌, ◌++◌, Option, none, some, ltb, ◌==◌, length, take, map_err, ok, err, Result, map, any, All,
  All-append, Bool-cases, inl, inr, arith,
}
use app_zcash.Base.Bytes.{Bytes, to_le_bytes}
use app_zcash.Sdk.{Hashing, Wire, AddressOps}
use app_zcash.Script.{CheckDispOutput, hidden, displayable, change, check_output_displayable}
use app_zcash.Address.{from_output_script}
use app_zcash.Tx.{TxInfo, TxOutput, transparent}
use app_zcash.Swap.{CreateTxParams, check_swap_params}
use app_zcash.Reader.Unread.{take_exact}
use app_zcash.ParserError.{
  try_ok, io, hash, balance, custom, app_sw, swap, no_outputs_to_display, failed_to_calculate_fees,
  too_many_outputs, bad_output_script_size, multiple_change_outputs,
}
use app_zcash.Output.{
  OutputState, parsing_number_of_outputs, parsing_output, process_output_script,
  output_processing_done, OutputRun, checked_sub, settle_fees, finalize_outputs, parse_count,
  parse_output, push_output, review_output, finish_output, close_script, parse_script, step_from,
  parse_loop, parse, is_finished, write_at, max_outputs_number, max_script_size, u64_max,
  zcash_outputs_hash_personalization, reveal, reveal_self_transfer,
}
use app_zcash.Base.Gives.{Gives, Gives-map, Gives-bind, Gives-past, Gives-ensure, Gives-if}

pub record IsOfHeader (info info' : TxInfo) : Type 0 where
  pub version : info'.tx_version ≡ info.tx_version
  pub branch : info'.branch_id ≡ info.branch_id
  pub v6_flag : info'.is_v6 ≡ info.is_v6

-- What is known of an output that is hidden as change, and that the record of a hidden one is there.
abbrev pub IsOwned : (TxOutput → Type 0) → Bool → TxOutput → Type 0
IsOwned Paid is_change_found o = o.is_change ≡ true → (is_change_found ≡ true) × Paid o

abbrev pub IsOwning : (TxOutput → Type 0) → TxInfo → Type 0
IsOwning Paid info = All (IsOwned Paid info.is_change_found) info.outputs

-- An output with the address of a script that pays the declared change has what `Paid` states.
abbrev pub IsEarned : AddressOps → (TxOutput → Type 0) → Option Bytes → Type 0
IsEarned ops Paid change_pk_hash =
    (o : TxOutput) (script : Bytes)
    → check_output_displayable script o.amount change_pk_hash ≡ change
    → from_output_script ops script ≡ ok o.address
    → Paid o

-- What the parser does to a transaction: the header and the declared change stay, and so does what is
-- known of the hidden outputs where it is earned by paying the declared change.
pub record IsKept (ops : AddressOps) (Paid : TxOutput → Type 0) (info info' : TxInfo) : Type 0 where
  pub header : IsOfHeader info info'
  pub change_pk_hash : info'.change_pk_hash ≡ info.change_pk_hash
  pub change_account : info'.change_account ≡ info.change_account
  pub owning : IsEarned ops Paid info.change_pk_hash → IsOwning Paid info → IsOwning Paid info'

same_header : (info : TxInfo) → IsOfHeader info info
same_header info = record { version = refl; branch = refl; v6_flag = refl }

abbrev same :
    (ops : AddressOps) (Paid : TxOutput → Type 0) (info : TxInfo) → IsKept ops Paid info info
same ops Paid info = record {
  header = same_header info;
  change_pk_hash = refl;
  change_account = refl;
  owning = λ pays h. h;
}

after :
    (ops : AddressOps) (Paid : TxOutput → Type 0) (a b c : TxInfo)
    → IsKept ops Paid a b
    → IsKept ops Paid b c
    → IsKept ops Paid a c
after ops Paid a b c p q = record {
  header = record {
    version = q.header.version ∙ p.header.version;
    branch = q.header.branch ∙ p.header.branch;
    v6_flag = q.header.v6_flag ∙ p.header.v6_flag;
  };
  change_pk_hash = q.change_pk_hash ∙ p.change_pk_hash;
  change_account = q.change_account ∙ p.change_account;
  owning = λ pays h. q.owning (rw p.change_pk_hash pays) (p.owning pays h);
}

module _ (Paid : TxOutput → Type 0) (was_found : Bool) where
  revealed : (os : List TxOutput) → All (IsOwned Paid was_found) (map reveal os)
  revealed [] = tt
  revealed (o ∷ os) = ((λ h. absurd (ground (arith, h))), revealed os)

  reveal_self_transfer-IsOwned :
      (os : List TxOutput)
      → All (IsOwned Paid was_found) os
      → All (IsOwned Paid was_found) (reveal_self_transfer os)
  unfolding reveal_self_transfer
  reveal_self_transfer-IsOwned os h = elim (Bool-cases (any (λ o. not o.is_change) os)) [
    | inl shown ↦ rw shown h
    | inr all_hidden ↦ rw all_hidden (revealed os)
  ]

  still_owned :
      (is_change : Bool) (os : List TxOutput)
      → All (IsOwned Paid was_found) os
      → All (IsOwned Paid (is_change || was_found)) os
  still_owned is_change [] p = tt
  still_owned is_change (x ∷ xs) p = (
    (λ is_hidden. let (found, paid) = p.0 is_hidden in (ground (arith, found), paid)),
    still_owned is_change xs p.1,
  )

  -- An output that is pushed, hidden only where it has what `Paid` states.
  owned-push :
      (o : TxOutput) (os : List TxOutput)
      → (o.is_change ≡ true → Paid o)
      → All (IsOwned Paid was_found) os
      → All (IsOwned Paid (o.is_change || was_found)) (os ++ o ∷ [])
  owned-push o os paid h =
      All-append (IsOwned Paid (o.is_change || was_found)) os (o ∷ [])
        (still_owned o.is_change os h) ((λ is_hidden. (rw is_hidden refl, paid is_hidden)), tt)

settle_fees-IsKept :
    (ops : AddressOps) (Paid : TxOutput → Type 0) (swap_params : Option CreateTxParams)
    (info : TxInfo) (fees : ℕ)
    → Gives (IsKept ops Paid info) (settle_fees swap_params info fees)
unfolding settle_fees
settle_fees-IsKept ops Paid (some params) info fees =
    Gives-past (IsKept ops Paid info) (map_err swap (check_swap_params params info.outputs fees)) _
      λ u eu. same ops Paid info
settle_fees-IsKept ops Paid none info fees = record {
  header = record { version = refl; branch = refl; v6_flag = refl };
  change_pk_hash = refl;
  change_account = refl;
  owning = λ pays. reveal_self_transfer-IsOwned Paid info.is_change_found info.outputs;
}

map_err-ok : {A E F : Type 0} (g : E → F) (m : Result E A) (a : A) → map_err g m ≡ ok a → m ≡ ok a
map_err-ok g (ok b) a e = ground (arith, e)
map_err-ok g (err x) a e = absurd (ground (arith, e))

module _ {H : Type 0} (hashing : Hashing H) (wire : Wire) (ops : AddressOps)
    (swap_params : Option CreateTxParams) (Paid : TxOutput → Type 0) where
  abbrev Kept : TxInfo → OutputRun H → Type 0
  Kept info f = IsKept ops Paid info f.tx_info

  finalize_outputs-Kept :
      (r : OutputRun H) → Gives (Kept r.tx_info) (finalize_outputs hashing wire ops swap_params r)
  unfolding finalize_outputs
  finalize_outputs-Kept r =
      let Q = Kept r.tx_info in
      Gives-ensure Q (not (length r.tx_info.outputs == 0)) (custom no_outputs_to_display) _ λ e.
        Gives-past Q
          (try_ok (checked_sub r.tx_info.total_amount r.parser.total_output_amount)
            (custom failed_to_calculate_fees))
          _
          λ fees ef.
            Gives-bind (IsKept ops Paid r.tx_info) Q (settle_fees swap_params r.tx_info fees) _
              (settle_fees-IsKept ops Paid swap_params r.tx_info fees)
              λ info ei is.
                Gives-past Q (try_ok (hashing.blake.finalize r.hashers.outputs_hasher) hash) _
                  λ d ed. record {
                    header = record {
                      version = is.header.version;
                      branch = is.header.branch;
                      v6_flag = is.header.v6_flag;
                    };
                    change_pk_hash = is.change_pk_hash;
                    change_account = is.change_account;
                    owning = is.owning;
                  }

  push_output-IsKept :
      (is_change : Bool) (script : Bytes) (amount : ℕ) (info : TxInfo)
      → (is_change ≡ true → check_output_displayable script amount info.change_pk_hash ≡ change)
      → Gives
          (IsKept ops Paid info)
          (push_output hashing wire ops swap_params is_change script amount info)
  unfolding push_output
  push_output-IsKept is_change script amount info pays =
      let Q = IsKept ops Paid info in
      Gives-ensure Q (not (is_change && info.is_change_found)) (custom multiple_change_outputs) _
        λ e. Gives-past Q (map_err app_sw (from_output_script ops script)) _ λ a ea. record {
          header = record { version = refl; branch = refl; v6_flag = refl };
          change_pk_hash = refl;
          change_account = refl;
          owning = λ earned.
              let o : TxOutput = record {
                amount = amount;
                address = a;
                is_change = is_change;
                memo = none;
                pool = transparent;
              } in
              owned-push Paid info.is_change_found o info.outputs λ is_hidden.
                earned o script (pays is_hidden)
                  (map_err-ok app_sw (from_output_script ops script) a ea);
        }

  review_output-IsKept :
      (script : Bytes) (amount : ℕ) (info : TxInfo) (shown : CheckDispOutput)
      → check_output_displayable script amount info.change_pk_hash ≡ shown
      → Gives
          (IsKept ops Paid info)
          (review_output hashing wire ops swap_params shown script amount info)
  unfolding review_output
  review_output-IsKept script amount info hidden found = tt
  review_output-IsKept script amount info displayable found =
      push_output-IsKept false script amount info λ h. absurd (ground (arith, h))
  review_output-IsKept script amount info change found =
      push_output-IsKept true script amount info λ h. found

  finish_output-Kept :
      (r : OutputRun H) → Gives (Kept r.tx_info) (finish_output hashing wire ops swap_params r)
  unfolding finish_output
  finish_output-Kept r =
      let Q = Kept r.tx_info in
      let parsed = min (r.parser.output_parsed_count + 1) u64_max in
      let counted : OutputRun H = record r {
        parser = record (r.parser) { output_parsed_count = parsed };
      } in
      Gives-if Q (r.parser.output_count == parsed) _ _
        (λ last.
          Gives-bind Q Q (finalize_outputs hashing wire ops swap_params counted) _
            (finalize_outputs-Kept counted) λ f ef is. is)
        λ more. same ops Paid r.tx_info

  close_script-Kept :
      (r : OutputRun H) (script : Bytes)
      → Gives (Kept r.tx_info) (close_script hashing wire ops swap_params r script)
  unfolding close_script
  close_script-Kept r script =
      let Q = Kept r.tx_info in
      let amount = r.parser.current_output_amount in
      let shown = check_output_displayable script amount r.tx_info.change_pk_hash in
      Gives-past Q
        (try_ok (hashing.blake.update r.hashers.outputs_hasher (wire.write_script script)) io) _
        λ h eh.
          Gives-bind (IsKept ops Paid r.tx_info) Q
            (review_output hashing wire ops swap_params shown script amount r.tx_info) _
            (review_output-IsKept script amount r.tx_info shown refl)
            λ info ei is.
              let r' : OutputRun H = record r {
                parser = record (r.parser) { script_bytes = [] };
                tx_info = info;
                hashers = record (r.hashers) { outputs_hasher = h };
              } in
              Gives-map (Kept info) Q (finish_output hashing wire ops swap_params r')
                (finish_output-Kept r') λ f is'. after ops Paid r.tx_info info f.tx_info is is'

  step_from-Kept :
      (at : OutputState) (r : OutputRun H) (unread : Bytes)
      → Gives (λ s. Kept r.tx_info s.0) (step_from hashing wire ops swap_params at r unread)
  unfolding step_from parse_count parse_output parse_script
  step_from-Kept parsing_number_of_outputs r unread =
      let Q : OutputRun H × Bytes → Type 0 = λ s. Kept r.tx_info s.0 in
      Gives-past Q (try_ok (wire.read_compact_size unread) io) _ λ n en.
        Gives-ensure Q (not (ltb max_outputs_number n.0)) (custom too_many_outputs) _ λ few.
          Gives-past Q
            (try_ok (hashing.blake.init_with_perso zcash_outputs_hash_personalization) hash) _
            λ h eh. same ops Paid r.tx_info
  step_from-Kept parsing_output r unread =
      let Q : OutputRun H × Bytes → Type 0 = λ s. Kept r.tx_info s.0 in
      Gives-past Q (try_ok (take_exact 8 unread) io) _ λ t et.
        Gives-past Q (try_ok (wire.zatoshis t.0) balance) _ λ amount ea.
          Gives-past Q
            (try_ok (hashing.blake.update r.hashers.outputs_hasher (to_le_bytes 8 amount)) hash) _
            λ h eh. Gives-past Q (try_ok (wire.read_compact_size t.1) io) _ λ size es.
              Gives-ensure Q (not (ltb max_script_size size.0)) (custom bad_output_script_size) _
                λ small. same ops Paid r.tx_info
  step_from-Kept (process_output_script size remaining) r unread =
      let Q : OutputRun H × Bytes → Type 0 = λ s. Kept r.tx_info s.0 in
      let len = min remaining (length unread) in
      let script = write_at (size - remaining) (take len unread) r.parser.script_bytes in
      Gives-if Q (not (remaining - len == 0)) _ _ (λ more. same ops Paid r.tx_info)
        λ last.
          Gives-bind (Kept r.tx_info) Q (close_script hashing wire ops swap_params r script) _
            (close_script-Kept r script) λ f ef is. is
  step_from-Kept output_processing_done r unread = same ops Paid r.tx_info

  parse_loop-Kept :
      (fuel : ℕ) (r : OutputRun H) (unread : Bytes)
      → Gives (λ s. Kept r.tx_info s.0) (parse_loop hashing wire ops swap_params fuel r unread)
  unfolding parse_loop
  parse_loop-Kept zero r [] = same ops Paid r.tx_info
  parse_loop-Kept zero r (b ∷ bs) = tt
  parse_loop-Kept (suc fuel) r [] = same ops Paid r.tx_info
  parse_loop-Kept (suc fuel) r (b ∷ bs) =
      let Q : OutputRun H × Bytes → Type 0 = λ s. Kept r.tx_info s.0 in
      Gives-if Q (is_finished r.parser) _ _ (λ done. same ops Paid r.tx_info)
        λ going.
          Gives-bind Q Q (step_from hashing wire ops swap_params r.parser.state r (b ∷ bs)) _
            (step_from-Kept r.parser.state r (b ∷ bs))
            λ s es is.
              Gives-map (λ t. Kept s.0.tx_info t.0) Q
                (parse_loop hashing wire ops swap_params fuel s.0 s.1)
                (parse_loop-Kept fuel s.0 s.1)
                λ t is'. after ops Paid r.tx_info s.0.tx_info t.0.tx_info is is'

  pub parse-Kept :
      (r : OutputRun H) (unread : Bytes)
      → Gives
          (λ s. IsKept ops Paid r.tx_info s.0.tx_info)
          (parse hashing wire ops swap_params r unread)
  unfolding parse
  parse-Kept r unread = parse_loop-Kept (2 * length unread + 2) r unread
