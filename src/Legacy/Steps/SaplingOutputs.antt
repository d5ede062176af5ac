-- ===== src/Legacy/Steps/SaplingOutputs.antt =====
-- src/parser/legacy/sapling.rs: the steps of the Sapling outputs keep the invariant.
use app_zcash.Base.{
  ℕ, ◌+◌, ◌<◌, ◌≡◌, refl, ◌==◌, length, ok, ◌>>=◌, [], ◌∷◌, arith, Bool-cases, inl, inr,
}
use app_zcash.Base.Bytes.{Bytes}
use app_zcash.Personalization.{
  zcash_sapling_outputs_hash_personalization, zcash_sapling_outputs_memos_hash_personalization,
  zcash_sapling_outputs_noncompact_hash_personalization,
}
use app_zcash.ParserError.{
  Ensures, Ensures-bind, Ensures-if, not_enough_for_compact_output,
  not_enough_for_non_compact_output,
}
use app_zcash.Digest.{hashed}
use app_zcash.TxId.Total.{past_finalize, past_start, past_digest}
use app_zcash.Legacy.{
  LegacyRun, LegacyOps, with_hashers, process_sapling_outputs_compact, process_sapling_outputs_memo,
  process_sapling_outputs_non_compact, process_sapling_output_hashing,
}
use app_zcash.Legacy.Sapling.{
  parse_sapling_outputs_compact, parse_sapling_outputs_memo, parse_sapling_outputs_non_compact,
  parse_sapling_output_hashing, sapling_outputs_compact_size, sapling_outputs_noncompact_size,
}
use app_zcash.Legacy.Invariant.{Frame, IsRunAt}
use app_zcash.Legacy.Steps.{Shorter, stays, past_chunk, past_exact}
use app_zcash.Legacy.Steps.Sapling.{Entered, finish_sapling-IsRun}

module _ {H : Type 0} (ops : LegacyOps H) where
  pub parse_sapling_outputs_compact_kept :
      {pass : Frame} (r : LegacyRun H) (unread : Bytes)
      → r.parser.state ≡ process_sapling_outputs_compact
      → IsRunAt pass process_sapling_outputs_compact r.parser r.ctx
      → Ensures
          (Shorter pass process_sapling_outputs_compact unread)
          (parse_sapling_outputs_compact ops r unread)
  unfolding parse_sapling_outputs_compact
  parse_sapling_outputs_compact_kept {pass = pass} r unread e is =
      let Q = Shorter pass process_sapling_outputs_compact unread in
      let (shielded, below) = is.place in
      past_exact Q ops r.ctx.hashers.tx_compact_hasher sapling_outputs_compact_size
        not_enough_for_compact_output unread _
        λ h rest l.
          Ensures-if Q (r.parser.sapling_output_count == r.parser.sapling_output_parsed_count + 1) _
            _
            (λ last.
              past_start ops.hashing Q zcash_sapling_outputs_memos_hash_personalization _ λ memo. (
                record {
                  header = is.header;
                  kept = is.kept;
                  bounded = is.bounded;
                  place = (shielded, omega (arith, below), refl, omega arith);
                  sought = is.sought;
                },
                omega (arith, l),
              ))
            λ going.
              stays process_sapling_outputs_compact unread _ rest e
                (record {
                  header = is.header;
                  kept = is.kept;
                  bounded = is.bounded;
                  place = (shielded, ground arith);
                  sought = is.sought;
                })
                (omega (arith, l))

  pub parse_sapling_outputs_memo_kept :
      {pass : Frame} (size remaining : ℕ) (r : LegacyRun H) (unread : Bytes)
      → IsRunAt pass (process_sapling_outputs_memo size remaining) r.parser r.ctx
      → 0 < length unread
      → Ensures
          (Shorter pass (process_sapling_outputs_memo size remaining) unread)
          (parse_sapling_outputs_memo ops size remaining r unread)
  unfolding parse_sapling_outputs_memo
  parse_sapling_outputs_memo_kept {pass = pass} size remaining r unread is more =
      let Q = Shorter pass (process_sapling_outputs_memo size remaining) unread in
      let (shielded, some_outputs, is_size, in_size) = is.place in
      past_chunk Q ops r.ctx.hashers.tx_memo_hasher remaining unread _ λ left h rest el l.
        Ensures-if Q (left == 0) _ _
          (λ done.
            past_start ops.hashing Q zcash_sapling_outputs_noncompact_hash_personalization _
              λ non_compact. (
                record {
                  header = is.header;
                  kept = is.kept;
                  bounded = is.bounded;
                  place = (shielded, some_outputs);
                  sought = is.sought;
                },
                omega (arith, l),
              ))
          λ going. (
            record {
              header = is.header;
              kept = is.kept;
              bounded = is.bounded;
              place = (shielded, some_outputs, is_size, omega (arith, el, in_size));
              sought = is.sought;
            },
            ground (arith, l, el),
          )

  pub parse_sapling_outputs_non_compact_kept :
      {pass : Frame} (r : LegacyRun H) (unread : Bytes)
      → r.parser.state ≡ process_sapling_outputs_non_compact
      → IsRunAt pass process_sapling_outputs_non_compact r.parser r.ctx
      → Ensures
          (Shorter pass process_sapling_outputs_non_compact unread)
          (parse_sapling_outputs_non_compact ops r unread)
  unfolding parse_sapling_outputs_non_compact
  parse_sapling_outputs_non_compact_kept {pass = pass} r unread e is =
      let Q = Shorter pass process_sapling_outputs_non_compact unread in
      let (shielded, below) = is.place in
      past_exact Q ops r.ctx.hashers.tx_non_compact_hasher sapling_outputs_noncompact_size
        not_enough_for_non_compact_output unread _
        λ h rest l.
          elim (Bool-cases
            (r.parser.sapling_output_count == r.parser.sapling_output_parsed_count + 1)) [
              | inl last ↦ rw last (
                record {
                  header = is.header;
                  kept = is.kept;
                  bounded = is.bounded;
                  place = shielded;
                  sought = is.sought;
                },
                omega (arith, l),
              )
              | inr going ↦ rw going (
                  stays process_sapling_outputs_non_compact unread _ rest e
                    (record {
                      header = is.header;
                      kept = is.kept;
                      bounded = is.bounded;
                      place = (shielded, ground arith);
                      sought = is.sought;
                    })
                    (omega (arith, l)))
            ]

  pub parse_sapling_output_hashing_kept :
      {pass : Frame} (r : LegacyRun H) (unread : Bytes)
      → IsRunAt pass process_sapling_output_hashing r.parser r.ctx
      → Ensures
          (Shorter pass process_sapling_output_hashing unread)
          (parse_sapling_output_hashing ops r >>= λ r'. ok (r', unread))
  parse_sapling_output_hashing_kept {pass = pass} r unread is =
      Ensures-bind (Entered pass) (Shorter pass process_sapling_output_hashing unread)
        (parse_sapling_output_hashing ops r) _
        (unfold parse_sapling_output_hashing in
          past_finalize ops.hashing (Entered pass) r.ctx.hashers.tx_compact_hasher _ λ a.
            past_finalize ops.hashing (Entered pass) r.ctx.hashers.tx_memo_hasher _ λ b.
              past_finalize ops.hashing (Entered pass) r.ctx.hashers.tx_non_compact_hasher _ λ c.
                past_digest ops.hashing (Entered pass) zcash_sapling_outputs_hash_personalization
                  (hashed a.0 ∷ hashed b.0 ∷ hashed c.0 ∷ []) _ refl
                  λ d.
                    finish_sapling-IsRun ops d
                      (with_hashers
                        (record (r.ctx.hashers) {
                          tx_compact_hasher = a.1;
                          tx_memo_hasher = b.1;
                          tx_non_compact_hasher = c.1;
                        })
                        r)
                      (record {
                        header = is.header;
                        kept = is.kept;
                        bounded = is.bounded;
                        tail = is.place.0;
                        sought = is.sought;
                      })
                      is.place)
        λ f ef fin. (fin.0, omega (arith, fin.1))
