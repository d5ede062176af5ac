-- ===== src/Output/Preserved.antt =====
-- src/parser/legacy/output_parser.rs: the steps of the output parser and its loop, against the
-- invariant.
use app_zcash.Base.{
  ℕ, zero, suc, ◌+◌, ◌-◌, ◌*◌, ◌<◌, ◌≡◌, min, Bool, true, false, not, [], ◌∷◌, Option, none, some,
  ltb, ◌==◌, length, take, drop, arith, inl, inr, ◌⊎◌, refl, ◌&&◌, length-drop, length-take,
  length-append, length-replicate, All-append, Bool-cases,
}
use app_zcash.Base.Bytes.{Bytes, to_le_bytes}
use app_zcash.Sdk.{Hashing, Wire, IsWire, AddressOps}
use app_zcash.Script.{CheckDispOutput, hidden, displayable, change, check_output_displayable}
use app_zcash.Address.{from_output_script}
use app_zcash.Tx.{TxOutput, transparent}
use app_zcash.Swap.{CreateTxParams}
use app_zcash.Reader.Unread.{take_exact}
use app_zcash.ParserError.{
  Ensures, Ensures-bind, Ensures-try_ok, Ensures-ensure, Ensures-if, Ensures-map_err, io, hash,
  balance, custom, app_sw, too_many_outputs, bad_output_script_size, multiple_change_outputs,
}
use app_zcash.Output.{
  OutputState, parsing_number_of_outputs, parsing_output, process_output_script,
  output_processing_done, LegacyOutputParser, OutputRun, max_script_size, max_outputs_number,
  is_finished, parse_loop, parse_count, parse_output, push_output, review_output, close_script,
  parse_script, step_from, write_at, zcash_outputs_hash_personalization,
}
use app_zcash.Output.Invariant.{IsAmount, slack, IsRunAt, IsRun}
use app_zcash.Output.Settled.{length-write_at, IsPushed, finish_output-IsRun}
use app_zcash.Output.Reveal.{amount_sum-append, change_count-append}

take_exact_rest :
    (n : ℕ) (bs : Bytes) (s : Bytes × Bytes) → take_exact n bs ≡ some s → length s.1 + n ≡ length bs
take_exact_rest n bs s e = elim (Bool-cases (ltb (length bs) n)) [
  | inl short ↦ absurd (ground (arith, rw short at e))
  | inr enough ↦
      let is : drop n bs ≡ s.1 = ground (arith, rw enough at e) in
      let l : length (drop n bs) ≡ length bs - n = length-drop n bs in
      ground (arith, rw is at l, enough)
]

not_finished :
    (p : LegacyOutputParser) → is_finished p ≡ false → ¬ (p.state ≡ output_processing_done)
unfolding is_finished
not_finished p going e = ground (arith, rw e at going)

module _ {H : Type 0} (hashing : Hashing H) (wire : Wire) (is_wire : IsWire wire) (ops : AddressOps)
    (swap_params : Option CreateTxParams) where
  IsAt : OutputState → OutputRun H → Type 0
  IsAt s r = IsRunAt swap_params s r.parser r.tx_info

  -- A result of a step that is well-formed and has less to do.
  Shorter : OutputState → Bytes → OutputRun H × Bytes → Type 0
  Shorter at unread s =
      IsRun swap_params s.0.parser s.0.tx_info
      × (2 * length s.1 + slack s.0.parser.state < 2 * length unread + slack at)

  parse_count_kept :
      (r : OutputRun H) (unread : Bytes)
      → IsAt parsing_number_of_outputs r
      → Ensures
          (Shorter parsing_number_of_outputs unread)
          (parse_count hashing wire ops swap_params r unread)
  unfolding Shorter parse_count IsAt
  parse_count_kept r unread is =
      Ensures-try_ok (Shorter parsing_number_of_outputs unread) (wire.read_compact_size unread) io _
        refl
        λ a ea.
          Ensures-ensure (Shorter parsing_number_of_outputs unread)
            (not (ltb max_outputs_number a.0)) (custom too_many_outputs) _ refl
            λ few.
              Ensures-try_ok (Shorter parsing_number_of_outputs unread)
                (hashing.blake.init_with_perso zcash_outputs_hash_personalization) hash _ refl
                λ h eh. (
                  record {
                    total = is.total;
                    parsed = is.parsed;
                    count = ground arith;
                    one_change = is.one_change;
                    amounts = is.amounts;
                    current = is.current;
                    buffer = tt;
                    complete = tt;
                  },
                  omega (arith, is_wire.compact_size_takes unread a.0 a.1 ea),
                )

  parse_output_kept :
      (r : OutputRun H) (unread : Bytes)
      → IsAt parsing_output r
      → Ensures (Shorter parsing_output unread) (parse_output hashing wire ops swap_params r unread)
  unfolding Shorter parse_output IsAt
  parse_output_kept r unread is =
      Ensures-try_ok (Shorter parsing_output unread) (take_exact 8 unread) io _ refl λ t et.
        Ensures-try_ok (Shorter parsing_output unread) (wire.zatoshis t.0) balance _ refl
          λ amount ea.
            Ensures-try_ok (Shorter parsing_output unread)
              (hashing.blake.update r.hashers.outputs_hasher (to_le_bytes 8 amount)) hash _ refl
              λ h eh.
                Ensures-try_ok (Shorter parsing_output unread) (wire.read_compact_size t.1) io _
                  refl
                  λ s es.
                    Ensures-ensure (Shorter parsing_output unread) (not (ltb max_script_size s.0))
                      (custom bad_output_script_size) _ refl
                      λ small.
                        let total = is.total in
                        (
                          record {
                            total = omega (arith, total);
                            parsed = is.parsed;
                            count = is.count;
                            one_change = is.one_change;
                            amounts = is.amounts;
                            current = is_wire.zatoshis_bounded t.0 amount ea;
                            buffer = (ground arith, omega arith, length-replicate s.0 0);
                            complete = tt;
                          },
                          omega (
                            arith,
                            take_exact_rest 8 unread t et,
                            is_wire.compact_size_takes t.1 s.0 s.1 es,
                          ),
                        )

  -- A run at a complete script.
  push_output-IsPushed :
      (is_change : Bool) (script : Bytes) (r : OutputRun H) (size : ℕ)
      → IsAt (process_output_script size 0) r
      → Ensures (IsPushed (record (r.parser) { script_bytes = [] })) (
          push_output hashing wire ops swap_params is_change script r.parser.current_output_amount
            r.tx_info)
  unfolding push_output IsAt
  push_output-IsPushed is_change script r size is =
      let outputs = r.tx_info.outputs in
      let amount = r.parser.current_output_amount in
      let Q = IsPushed (record (r.parser) { script_bytes = [] }) in
      Ensures-ensure Q (not (is_change && r.tx_info.is_change_found))
        (custom multiple_change_outputs) _ refl
        λ one.
          Ensures-map_err Q app_sw (from_output_script ops script) _ (λ e. refl)
            λ address ea.
              let o : TxOutput = record {
                amount = amount;
                address = address;
                is_change = is_change;
                memo = none;
                pool = transparent;
              } in
              let total = is.total in
              record {
                total = omega (arith, total, amount_sum-append outputs o);
                before = length outputs;
                parsed = is.parsed;
                pushed = omega (arith, length-append outputs (o ∷ []));
                count = is.count;
                one_change = ground (arith, change_count-append outputs o, is.one_change, one);
                amounts = All-append IsAmount outputs (o ∷ []) is.amounts (is.current, tt);
                current = is.current;
              }

  review_output-IsPushed :
      (shown : CheckDispOutput) (script : Bytes) (r : OutputRun H) (size : ℕ)
      → IsAt (process_output_script size 0) r
      → Ensures (IsPushed (record (r.parser) { script_bytes = [] })) (
          review_output hashing wire ops swap_params shown script r.parser.current_output_amount
            r.tx_info)
  unfolding review_output
  review_output-IsPushed hidden script r size is = refl
  review_output-IsPushed displayable script r size is = push_output-IsPushed false script r size is
  review_output-IsPushed change script r size is = push_output-IsPushed true script r size is

  close_script-IsRun :
      (r : OutputRun H) (script : Bytes) (size : ℕ)
      → IsAt (process_output_script size 0) r
      → Ensures
          (λ f. IsRun swap_params f.parser f.tx_info × (slack f.parser.state ≡ 0))
          (close_script hashing wire ops swap_params r script)
  unfolding close_script
  close_script-IsRun r script size is =
      let Q : OutputRun H → Type 0 =
        λ f. IsRun swap_params f.parser f.tx_info × (slack f.parser.state ≡ 0) in
      let amount = r.parser.current_output_amount in
      let shown = check_output_displayable script amount r.tx_info.change_pk_hash in
      let P = IsPushed (record (r.parser) { script_bytes = [] }) in
      Ensures-try_ok Q (hashing.blake.update r.hashers.outputs_hasher (wire.write_script script)) io
        _ refl
        λ h eh.
          Ensures-bind P Q
            (review_output hashing wire ops swap_params shown script amount r.tx_info) _
            (review_output-IsPushed shown script r size is)
            λ info ei pushed.
              finish_output-IsRun hashing wire ops swap_params
                (record r {
                  parser = record (r.parser) { script_bytes = [] };
                  tx_info = info;
                  hashers = record (r.hashers) { outputs_hasher = h };
                })
                pushed

  parse_script_kept :
      (size remaining : ℕ) (r : OutputRun H) (unread : Bytes)
      → IsAt (process_output_script size remaining) r
      → 0 < length unread
      → Ensures
          (Shorter (process_output_script size remaining) unread)
          (parse_script hashing wire ops swap_params size remaining r unread)
  unfolding Shorter parse_script IsAt
  parse_script_kept size remaining r unread is some_unread =
      let Q = Shorter (process_output_script size remaining) unread in
      let len = min remaining (length unread) in
      let script = write_at (size - remaining) (take len unread) r.parser.script_bytes in
      let buffer = is.buffer in
      let left = length-drop len unread in
      let total = is.total in
      Ensures-if Q (not (remaining - len == 0)) _ _
        (λ more.
          let kept =
            length-write_at (size - remaining) (take len unread) r.parser.script_bytes
              (omega (arith, length-take len unread, buffer.1, buffer.2)) in
          (
            record {
              total = total;
              parsed = is.parsed;
              count = is.count;
              one_change = is.one_change;
              amounts = is.amounts;
              current = is.current;
              buffer = (buffer.0, omega (arith, buffer.1), omega (arith, kept, buffer.2));
              complete = tt;
            },
            ground (arith, left),
          ))
        (λ last.
          Ensures-bind (λ f. IsRun swap_params f.parser f.tx_info × (slack f.parser.state ≡ 0)) Q
            (close_script hashing wire ops swap_params r script) _
            (close_script-IsRun r script size (record {
              total = total;
              parsed = is.parsed;
              count = is.count;
              one_change = is.one_change;
              amounts = is.amounts;
              current = is.current;
              buffer = (buffer.0, omega arith, buffer.2);
              complete = tt;
            }))
            λ f ef fin. (fin.0, omega (arith, left, fin.1)))

  -- A run is unread to its end, or is finished.
  abbrev pub IsEnd : OutputRun H × Bytes → Type 0
  IsEnd s = (is_finished s.0.parser ≡ true) ⊎ (s.1 ≡ [])

  step_from_kept :
      (at : OutputState) (r : OutputRun H) (unread : Bytes)
      → IsAt at r
      → ¬ (at ≡ output_processing_done)
      → 0 < length unread
      → Ensures (Shorter at unread) (step_from hashing wire ops swap_params at r unread)
  unfolding step_from
  step_from_kept parsing_number_of_outputs r unread is not_done more = parse_count_kept r unread is
  step_from_kept parsing_output r unread is not_done more = parse_output_kept r unread is
  step_from_kept (process_output_script size remaining) r unread is not_done more =
      parse_script_kept size remaining r unread is more
  step_from_kept output_processing_done r unread is not_done more = absurd (not_done refl)

  -- The loop keeps the invariant and ends by itself.
  abbrev pub Ended : OutputRun H × Bytes → Type 0
  Ended s = IsRun swap_params s.0.parser s.0.tx_info × IsEnd s

  pub parse_loop-Ended :
      (fuel : ℕ) (r : OutputRun H) (unread : Bytes)
      → IsRun swap_params r.parser r.tx_info
      → 2 * length unread + slack r.parser.state < fuel
      → Ensures Ended (parse_loop hashing wire ops swap_params fuel r unread)
  unfolding parse_loop Shorter IsAt
  parse_loop-Ended zero r unread is enough = absurd (omega arith)
  parse_loop-Ended (suc fuel) r [] is enough = (is, inr refl)
  parse_loop-Ended (suc fuel) r (b ∷ bs) is enough =
      Ensures-if Ended (is_finished r.parser) _ _ (λ finished. (is, inl finished))
        (λ going.
          Ensures-bind (Shorter r.parser.state (b ∷ bs)) Ended
            (step_from hashing wire ops swap_params r.parser.state r (b ∷ bs)) _
            (step_from_kept r.parser.state r (b ∷ bs) is (not_finished r.parser going)
              (omega arith))
            λ s es next. parse_loop-Ended fuel s.0 s.1 next.0 (omega (arith, next.1, enough)))
