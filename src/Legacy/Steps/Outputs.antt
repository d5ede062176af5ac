-- ===== src/Legacy/Steps/Outputs.antt =====
-- src/parser/legacy/transparent.rs: the steps of the outputs keep the invariant.
use app_zcash.Base.{
  ℕ, ◌+◌, ◌<◌, ◌≤◌, ◌≡◌, refl, sym, ◌∙◌, Bool, false, not, some, ltb, lt→ltb, ◌==◌, ◌%◌, ◌^◌,
  length, arith, Bool-cases, inl, inr, ok, ◌>>=◌, if◌then◌else◌, length-replicate,
}
use app_zcash.Base.Bytes.{Bytes, to_le_bytes}
use app_zcash.Tx.{TrustedInputInfo}
use app_zcash.ParserError.{
  Ensures, Ensures-bind, Ensures-try_ok, Ensures-if, Ensures-ensure, try_ok, io, hash, balance,
  custom, bad_output_script_size, bad_output_script_len, trusted_input_index_not_set,
}
use app_zcash.Digest.{supported_tx_version}
use app_zcash.Digest.Total.{Anything, Ensures-ok}
use app_zcash.Legacy.{
  LegacyRun, LegacyOps, IsLegacyOps, usize_max, input_hashing_done, wait_output,
  process_output_script,
}
use app_zcash.Legacy.Transparent.{
  is_v4, saturating_suc, parse_input_hashing_done, match_index, parse_output, close_output,
  parse_output_script,
}
use app_zcash.Legacy.Invariant.{Frame, IsSought, IsRunAt, IsRun, slack}
use app_zcash.Legacy.Steps.{Shorter, supported_of, past_take, past_version}
use app_zcash.Legacy.Steps.Scripts.{past_fill, past_size}

index_found :
    (i idx parsed : ℕ) (found : Bool)
    → i ≡ idx
    → parsed ≤ usize_max
    → found ≡ ltb i parsed
    → (idx == parsed % 2 ^ 32) ≡ false
    → found ≡ ltb i (parsed + 1)
index_found i idx parsed found e small h ne = ground arith

-- An output of the index that is asked for marks the trusted input, and no other does.
match_index-IsSought :
    (idx parsed amount : ℕ) (info : TrustedInputInfo)
    → info.input_idx ≡ some idx
    → parsed ≤ usize_max
    → IsSought parsed info
    → IsSought (parsed + 1) (match_index idx parsed amount info)
unfolding match_index
match_index-IsSought idx parsed amount info e small is =
    elim (Bool-cases (idx == parsed % 2 ^ 32)) [
      | inl hit ↦ rw hit λ i ei hi.
          let same : i ≡ idx = ground (arith, sym ei ∙ e) in
          sym (lt→ltb i (parsed + 1) (ground (arith, same, hit)))
      | inr miss ↦ rw miss λ i ei hi.
          let same : i ≡ idx = ground (arith, sym ei ∙ e) in
          index_found i idx parsed info.is_input_processed same small (is i ei hi) miss
    ]

saturated :
    (parsed : ℕ) (info : TrustedInputInfo)
    → IsSought (parsed + 1) info
    → IsSought (saturating_suc parsed) info
saturated parsed info is i ei hi = is i ei hi ∙ ground arith

match_index_idx :
    (idx parsed amount : ℕ) (info : TrustedInputInfo)
    → (match_index idx parsed amount info).input_idx ≡ info.input_idx
unfolding match_index
match_index_idx idx parsed amount info = ground arith

module _ {H : Type 0} (ops : LegacyOps H) (is_ops : IsLegacyOps ops) where
  pub parse_input_hashing_done_kept :
      {pass : Frame} (r : LegacyRun H) (unread : Bytes)
      → IsRunAt pass input_hashing_done r.parser r.ctx
      → Ensures (Shorter pass input_hashing_done unread) (parse_input_hashing_done ops r unread)
  unfolding parse_input_hashing_done
  parse_input_hashing_done_kept {pass = pass} r unread is =
      let Q = Shorter pass input_hashing_done unread in
      let (v, ev) = supported_of r.parser.mode r.ctx.tx_info is.header in
      Ensures-try_ok Q (ops.wire.read_compact_size unread) io _ refl λ s es.
        Ensures-ok Q (supported_tx_version r.ctx.tx_info) _ v ev (
          Ensures-bind Anything Q
            (if is_v4 v
              then (try_ok
                    (ops.hashing.sha.update r.ctx.hashers.v4_tx_hasher
                      (ops.wire.write_compact_size s.0))
                    io
                  >>= λ h. ok (record (r.ctx.hashers) { v4_tx_hasher = h }))
              else ok r.ctx.hashers)
            _
            (Ensures-if Anything (is_v4 v) _ _
              (λ four.
                Ensures-try_ok Anything
                  (ops.hashing.sha.update r.ctx.hashers.v4_tx_hasher
                    (ops.wire.write_compact_size s.0))
                  io _ refl λ h eh. tt)
              λ later. tt)
            λ hs eh t. (
              record {
                header = is.header;
                kept = is.kept;
                bounded = is.bounded;
                place = is.place;
                sought = is.sought;
              },
              omega (arith, is_ops.is_wire.compact_size_takes unread s.0 s.1 es),
            ))

  pub parse_output_kept :
      {pass : Frame} (r : LegacyRun H) (unread : Bytes)
      → IsRunAt pass wait_output r.parser r.ctx
      → Ensures (Shorter pass wait_output unread) (parse_output ops r unread)
  unfolding parse_output
  parse_output_kept {pass = pass} r unread is =
      let Q = Shorter pass wait_output unread in
      let (v, ev) = supported_of r.parser.mode r.ctx.tx_info is.header in
      past_take Q 8 unread _ λ t l.
        Ensures-try_ok Q (ops.wire.zatoshis t.0) balance _ refl λ amount ea.
          Ensures-try_ok Q r.ctx.trusted_input_info.input_idx (custom trusted_input_index_not_set) _
            refl
            λ idx ei. Ensures-ok Q (supported_tx_version r.ctx.tx_info) _ v ev (
              past_version Q ops v r.ctx.hashers.outputs_hasher
                (λ h. record (r.ctx.hashers) { outputs_hasher = h }) r.ctx.hashers
                (to_le_bytes 8 amount) hash _ refl
                λ hs. past_size Q ops is_ops bad_output_script_size t.1 _ λ size rest small l1. (
                  record {
                    header = is.header;
                    kept = (
                      is.kept.0,
                      match_index_idx idx r.parser.output_parsed_count amount
                            r.ctx.trusted_input_info
                          ∙ is.kept.1,
                      is.kept.2,
                      is.kept.3,
                      is.kept.4,
                      is.kept.5,
                    );
                    bounded = is.bounded;
                    place = (is.place.0, is.place.1, (small, omega arith, length-replicate size 0));
                    sought =
                        match_index-IsSought idx r.parser.output_parsed_count amount
                          r.ctx.trusted_input_info ei is.bounded.5 is.sought;
                  },
                  omega (arith, l, l1),
                ))

  -- A run behind an output script.
  close_output-IsRun :
      {pass : Frame} (r : LegacyRun H) (script : Bytes) (size : ℕ)
      → IsRunAt pass (process_output_script size 0) r.parser r.ctx
      → Ensures (λ f. IsRun pass f × (slack f.parser.state ≡ 0)) (close_output ops r script)
  unfolding close_output
  close_output-IsRun {pass = pass} r script size is =
      let Q : LegacyRun H → Type 0 = λ f. IsRun pass f × (slack f.parser.state ≡ 0) in
      let (v, ev) = supported_of r.parser.mode r.ctx.tx_info is.header in
      let bounded = is.bounded in
      let parsed = saturating_suc r.parser.output_parsed_count in
      Ensures-ok Q (supported_tx_version r.ctx.tx_info) _ v ev (
        past_version Q ops v r.ctx.hashers.outputs_hasher
          (λ h. record (r.ctx.hashers) { outputs_hasher = h }) r.ctx.hashers
          (ops.wire.write_script script) io _ refl
          λ hs. elim (Bool-cases (r.parser.output_count == parsed)) [
            | inl last ↦ rw last (
              record {
                header = is.header;
                kept = is.kept;
                bounded = (bounded.0, bounded.1, bounded.2, bounded.3, bounded.4, omega arith);
                place = (is.place.0, (is.place.1, ground (arith, last)));
                sought = saturated r.parser.output_parsed_count r.ctx.trusted_input_info is.sought;
              },
              refl,
            )
            | inr more ↦ rw more (
              record {
                header = is.header;
                kept = is.kept;
                bounded = (bounded.0, bounded.1, bounded.2, bounded.3, bounded.4, omega arith);
                place = (is.place.0, is.place.1);
                sought = saturated r.parser.output_parsed_count r.ctx.trusted_input_info is.sought;
              },
              refl,
            )
          ])

  pub parse_output_script_kept :
      {pass : Frame} (size remaining : ℕ) (r : LegacyRun H) (unread : Bytes)
      → IsRunAt pass (process_output_script size remaining) r.parser r.ctx
      → 0 < length unread
      → Ensures
          (Shorter pass (process_output_script size remaining) unread)
          (parse_output_script ops size remaining r unread)
  unfolding parse_output_script
  parse_output_script_kept {pass = pass} size remaining r unread is more =
      let Q = Shorter pass (process_output_script size remaining) unread in
      let (fresh, mode, buffer) = is.place in
      past_fill Q size remaining r.parser.script_bytes unread _ buffer λ left buf rest buffer' el l.
        Ensures-if Q (not (left == 0)) _ _
          (λ going. (
            record {
              header = is.header;
              kept = is.kept;
              bounded = is.bounded;
              place = (fresh, mode, buffer');
              sought = is.sought;
            },
            ground (arith, l, el),
          ))
          λ done.
            Ensures-ensure Q (size == length buf) (custom bad_output_script_len) _ refl λ whole.
              Ensures-bind (λ f. IsRun pass f × (slack f.parser.state ≡ 0)) Q
                (close_output ops r buf) _
                (close_output-IsRun r buf size (record {
                  header = is.header;
                  kept = is.kept;
                  bounded = is.bounded;
                  place = (fresh, mode, (buffer.0, omega arith, buffer.2));
                  sought = is.sought;
                }))
                λ f ef fin. (fin.0, omega (arith, fin.1, l))
