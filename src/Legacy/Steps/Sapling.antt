-- ===== src/Legacy/Steps/Sapling.antt =====
-- src/parser/legacy/sapling.rs: the steps of the Sapling spends keep the invariant, and the end of the
-- component.
use app_zcash.Base.{
  ◌+◌, ◌<◌, ◌≡◌, refl, true, Option, none, some, ltb, ◌==◌, ◌≤◌, length, ok, ◌>>=◌, [], ◌∷◌, arith,
  Bool-cases, inl, inr,
}
use app_zcash.Base.Bytes.{Bytes, to_le_bytes}
use app_zcash.Tx.{SupportedTxVersion, supported_v4, supported_v5, supported_v6}
use app_zcash.Personalization.{
  zcash_sapling_spends_hash_personalization, zcash_sapling_spends_compact_hash_personalization,
  zcash_sapling_outputs_hash_personalization, zcash_sapling_outputs_compact_hash_personalization,
}
use app_zcash.ParserError.{Ensures, Ensures-bind, Ensures-try_ok, Ensures-if, hash, balance}
use app_zcash.Digest.{hashed, feed, supported_tx_version}
use app_zcash.Digest.Total.{Anything, fails_softly, feed-Anything, Ensures-ok, Ensures-map}
use app_zcash.TxId.Total.{past_finalize, past_start, past_digest}
use app_zcash.Legacy.{
  LegacyRun, LegacyOps, with_hashers, process_sapling, process_sapling_spends,
  process_sapling_spends_hashing,
}
use app_zcash.Legacy.Sapling.{
  sapling_anchor, anchor_part, enter_sapling_outputs, enter_sapling_spends, skip_sapling_spends,
  parse_sapling, parse_sapling_spends, finish_sapling, parse_sapling_spends_hashing,
}
use app_zcash.Legacy.Invariant.{Frame, IsShielded, IsRunAt, IsRun, slack}
use app_zcash.Legacy.Steps.{Shorter, stays, supported_of, past_take}
use app_zcash.Legacy.Steps.Actions.{IsBase, enter_next_action_bundle-IsRun}

-- A run that goes on where every step takes a byte.
abbrev pub Entered : {H : Type 0} → Frame → LegacyRun H → Type 0
Entered pass f = IsRun pass f × (slack f.parser.state ≡ 0)

anchor_part-soft :
    (anchor : Option Bytes) (cv : Bytes) → fails_softly (hashed cv ∷ anchor_part anchor) ≡ true
unfolding anchor_part
anchor_part-soft none cv = refl
anchor_part-soft (some anchor) cv = refl

sapling_anchor_rest :
    (v : SupportedTxVersion) (unread : Bytes)
    → Ensures (λ s. length s.2 ≤ length unread) (sapling_anchor v unread)
unfolding sapling_anchor
sapling_anchor_rest supported_v6 unread = omega arith
sapling_anchor_rest supported_v5 unread =
    past_take (λ s. length s.2 ≤ length unread) 32 unread _ λ s l. omega (arith, l)
sapling_anchor_rest supported_v4 unread =
    past_take (λ s. length s.2 ≤ length unread) 32 unread _ λ s l. omega (arith, l)

module _ {H : Type 0} (ops : LegacyOps H) where
  enter_sapling_outputs-IsRun :
      {pass : Frame} (r : LegacyRun H)
      → IsBase pass r.parser r.ctx
      → IsShielded r.parser r.ctx.tx_info
      → r.parser.sapling_output_parsed_count < r.parser.sapling_output_count
      → Ensures (Entered pass) (enter_sapling_outputs ops r)
  unfolding enter_sapling_outputs
  enter_sapling_outputs-IsRun {pass = pass} r is shielded below =
      past_start ops.hashing (Entered pass) zcash_sapling_outputs_compact_hash_personalization _
        λ h. (
          record {
            header = is.header;
            kept = is.kept;
            bounded = is.bounded;
            place = (shielded, below);
            sought = is.sought;
          },
          refl,
        )

  enter_sapling_spends-IsRun :
      {pass : Frame} (v : SupportedTxVersion) (r : LegacyRun H) (unread : Bytes)
      → IsBase pass r.parser r.ctx
      → IsShielded r.parser r.ctx.tx_info
      → r.parser.sapling_spend_parsed_count < r.parser.sapling_spend_count
      → r.parser.sapling_output_parsed_count ≡ 0
      → Ensures
          (λ s. (Entered pass) s.0 × (length s.1 ≤ length unread))
          (enter_sapling_spends ops v r unread)
  unfolding enter_sapling_spends
  enter_sapling_spends-IsRun {pass = pass} v r unread is shielded below no_outputs =
      let Q : LegacyRun H × Bytes → Type 0 =
        λ s. (Entered pass) s.0 × (length s.1 ≤ length unread) in
      Ensures-bind (λ s. length s.2 ≤ length unread) Q (sapling_anchor v unread) _
        (sapling_anchor_rest v unread)
        λ a ea la.
          past_start ops.hashing Q zcash_sapling_spends_compact_hash_personalization _ λ compact.
            past_start ops.hashing Q a.1 _ λ non_compact. (
              (
                record {
                  header = is.header;
                  kept = is.kept;
                  bounded = is.bounded;
                  place = (below, shielded, no_outputs);
                  sought = is.sought;
                },
                refl,
              ),
              la,
            )

  skip_sapling_spends-IsRun :
      {pass : Frame} (r : LegacyRun H)
      → IsBase pass r.parser r.ctx
      → IsShielded r.parser r.ctx.tx_info
      → r.parser.sapling_output_parsed_count < r.parser.sapling_output_count
      → Ensures (Entered pass) (skip_sapling_spends ops r)
  unfolding skip_sapling_spends
  skip_sapling_spends-IsRun {pass = pass} r is shielded below =
      past_digest ops.hashing (Entered pass) zcash_sapling_spends_hash_personalization [] _ refl
        λ d.
          Ensures-try_ok (Entered pass) (ops.hashing.blake.update r.ctx.hashers.sapling_hasher d)
            hash _ refl
            λ h eh.
              enter_sapling_outputs-IsRun
                (with_hashers (record (r.ctx.hashers) { sapling_hasher = h }) r)
                (record {
                  header = is.header;
                  kept = is.kept;
                  bounded = is.bounded;
                  tail = is.tail;
                  sought = is.sought;
                })
                shielded below

  pub finish_sapling-IsRun :
      {pass : Frame} (d : Bytes) (r : LegacyRun H)
      → IsBase pass r.parser r.ctx
      → IsShielded r.parser r.ctx.tx_info
      → Ensures (Entered pass) (finish_sapling ops d r)
  unfolding finish_sapling
  finish_sapling-IsRun {pass = pass} d r is shielded =
      Ensures-bind Anything (Entered pass)
        (feed ops.hashing.blake r.ctx.hashers.sapling_hasher
          (hashed d ∷ hashed (to_le_bytes 8 r.parser.sapling_balance) ∷ []))
        _
        (feed-Anything ops.hashing.blake r.ctx.hashers.sapling_hasher
          (hashed d ∷ hashed (to_le_bytes 8 r.parser.sapling_balance) ∷ []) refl)
        λ h eh t.
          enter_next_action_bundle-IsRun ops none
            (with_hashers (record (r.ctx.hashers) { sapling_hasher = h }) r)
            (record {
              header = is.header;
              kept = is.kept;
              bounded = is.bounded;
              tail = is.tail;
              sought = is.sought;
            })
            λ some_actions. shielded.1

  pub parse_sapling_kept :
      {pass : Frame} (r : LegacyRun H) (unread : Bytes)
      → IsRunAt pass process_sapling r.parser r.ctx
      → Ensures (Shorter pass process_sapling unread) (parse_sapling ops r unread)
  unfolding parse_sapling
  parse_sapling_kept {pass = pass} r unread is =
      let Q = Shorter pass process_sapling unread in
      let ((no_spends, no_outputs), shielded, any_parts) = is.place in
      let (v, ev) = supported_of r.parser.mode r.ctx.tx_info is.header in
      past_take Q 8 unread _ λ t l.
        Ensures-try_ok Q (ops.zat_balance t.0) balance _ refl λ sapling_balance eb.
          let r' = record r { parser = record (r.parser) { sapling_balance = sapling_balance } } in
          Ensures-if Q (ltb 0 r.parser.sapling_spend_count) _ _
            (λ spends. Ensures-ok Q (supported_tx_version r.ctx.tx_info) _ v ev (
              Ensures-map (λ s. (Entered pass) s.0 × (length s.1 ≤ length t.1)) Q
                (enter_sapling_spends ops v r' t.1)
                (enter_sapling_spends-IsRun v r' t.1
                  (record {
                    header = is.header;
                    kept = is.kept;
                    bounded = is.bounded;
                    tail = shielded.0;
                    sought = is.sought;
                  })
                  shielded (ground (arith, no_spends)) no_outputs)
                λ f fin. (fin.0.0, omega (arith, fin.0.1, fin.1, l))))
            λ none_spent.
              Ensures-if Q (ltb 0 r.parser.sapling_output_count) _ _
                (λ outputs.
                  Ensures-bind (Entered pass) Q (skip_sapling_spends ops r') _
                    (skip_sapling_spends-IsRun r'
                      (record {
                        header = is.header;
                        kept = is.kept;
                        bounded = is.bounded;
                        tail = shielded.0;
                        sought = is.sought;
                      })
                      shielded (ground (arith, no_outputs)))
                    λ f ef fin. (fin.0, omega (arith, fin.1, l)))
                λ nothing. (
                  record {
                    header = is.header;
                    kept = is.kept;
                    bounded = is.bounded;
                    place = shielded.0;
                    sought = is.sought;
                  },
                  omega (arith, l),
                )

  pub parse_sapling_spends_kept :
      {pass : Frame} (anchor : Option Bytes) (r : LegacyRun H) (unread : Bytes)
      → r.parser.state ≡ process_sapling_spends anchor
      → IsRunAt pass (process_sapling_spends anchor) r.parser r.ctx
      → Ensures
          (Shorter pass (process_sapling_spends anchor) unread)
          (parse_sapling_spends ops anchor r unread)
  unfolding parse_sapling_spends
  parse_sapling_spends_kept {pass = pass} anchor r unread e is =
      let Q = Shorter pass (process_sapling_spends anchor) unread in
      let (below, shielded, no_outputs) = is.place in
      past_take Q 32 unread _ λ cv l.
        Ensures-bind Anything Q
          (feed ops.hashing.blake r.ctx.hashers.tx_non_compact_hasher
            (hashed cv.0 ∷ anchor_part anchor))
          _
          (feed-Anything ops.hashing.blake r.ctx.hashers.tx_non_compact_hasher
            (hashed cv.0 ∷ anchor_part anchor) (anchor_part-soft anchor cv.0))
          λ h eh t. past_take Q 32 cv.1 _ λ nullifier l1.
            Ensures-try_ok Q (ops.hashing.blake.update r.ctx.hashers.tx_compact_hasher nullifier.0)
              hash _ refl
              λ c ec. past_take Q 32 nullifier.1 _ λ rk l2.
                Ensures-try_ok Q (ops.hashing.blake.update h rk.0) hash _ refl λ h' eh'.
                  elim (Bool-cases
                    (r.parser.sapling_spend_count == r.parser.sapling_spend_parsed_count + 1)) [
                      | inl last ↦ rw last (
                        record {
                          header = is.header;
                          kept = is.kept;
                          bounded = is.bounded;
                          place = (shielded, no_outputs);
                          sought = is.sought;
                        },
                        omega (arith, l, l1, l2),
                      )
                      | inr going ↦ rw going (
                          stays (process_sapling_spends anchor) unread _ rk.1 e
                            (record {
                              header = is.header;
                              kept = is.kept;
                              bounded = is.bounded;
                              place = (ground arith, shielded, no_outputs);
                              sought = is.sought;
                            })
                            (omega (arith, l, l1, l2)))
                    ]

  pub parse_sapling_spends_hashing_kept :
      {pass : Frame} (r : LegacyRun H) (unread : Bytes)
      → IsRunAt pass process_sapling_spends_hashing r.parser r.ctx
      → Ensures
          (Shorter pass process_sapling_spends_hashing unread)
          (parse_sapling_spends_hashing ops r >>= λ r'. ok (r', unread))
  parse_sapling_spends_hashing_kept {pass = pass} r unread is =
      let (shielded, no_outputs) = is.place in
      let base : IsBase pass r.parser r.ctx = record {
        header = is.header;
        kept = is.kept;
        bounded = is.bounded;
        tail = shielded.0;
        sought = is.sought;
      } in
      Ensures-bind (Entered pass) (Shorter pass process_sapling_spends_hashing unread)
        (parse_sapling_spends_hashing ops r) _
        (unfold parse_sapling_spends_hashing in
          past_finalize ops.hashing (Entered pass) r.ctx.hashers.tx_compact_hasher _ λ a.
            past_finalize ops.hashing (Entered pass) r.ctx.hashers.tx_non_compact_hasher _ λ b.
              past_digest ops.hashing (Entered pass) zcash_sapling_spends_hash_personalization
                (hashed a.0 ∷ hashed b.0 ∷ []) _ refl
                λ d.
                  Ensures-try_ok (Entered pass)
                    (ops.hashing.blake.update r.ctx.hashers.sapling_hasher d) hash _ refl
                    λ h eh.
                      let r' =
                        with_hashers
                          (record (r.ctx.hashers) {
                            tx_compact_hasher = a.1;
                            tx_non_compact_hasher = b.1;
                            sapling_hasher = h;
                          })
                          r in
                      let is' : IsBase pass r'.parser r'.ctx = record {
                        header = is.header;
                        kept = is.kept;
                        bounded = is.bounded;
                        tail = shielded.0;
                        sought = is.sought;
                      } in
                      Ensures-if (Entered pass) (ltb 0 r.parser.sapling_output_count) _ _
                        (λ outputs.
                          enter_sapling_outputs-IsRun r' is' shielded (ground (arith, no_outputs)))
                        λ none_sent.
                          past_digest ops.hashing (Entered pass)
                            zcash_sapling_outputs_hash_personalization [] _ refl
                            λ d'. finish_sapling-IsRun d' r' is' shielded)
        λ f ef fin. (fin.0, omega (arith, fin.1))
