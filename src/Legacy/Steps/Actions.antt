-- ===== src/Legacy/Steps/Actions.antt =====
-- src/parser/legacy/orchard.rs: the steps of the action bundles keep the invariant.
use app_zcash.Base.{
  ℕ, ◌+◌, ◌*◌, ◌<◌, ◌≡◌, ◌≢◌, refl, sym, ◌∙◌, Bool, true, false, not, Option, none, some, ◌==◌,
  length, [], ◌∷◌, arith, Bool-cases, inl, inr,
}
use app_zcash.Base.Bytes.{Bytes}
use app_zcash.Session.{LegacyParserMode, trusted_input, signature}
use app_zcash.Tx.{
  TxInfo, TxVersion, v4, v5, v6, other_version, SupportedTxVersion, supported_v4, supported_v5,
  supported_v6,
}
use app_zcash.ParserError.{
  Ensures, Ensures-bind, Ensures-try_ok, Ensures-if, custom, memo_size_overflow,
  not_enough_for_compact_action, not_enough_for_non_compact_action, not_enough_for_digest_data,
}
use app_zcash.Digest.{hashed, feed, supported_tx_version}
use app_zcash.Digest.Total.{Anything, feed-Anything, Ensures-ok}
use app_zcash.TxId.{LegacyParserCtx}
use app_zcash.TxId.Total.{past_finalize, past_start}
use app_zcash.Legacy.{
  LegacyParser, LegacyRun, LegacyOps, ActionBundle, orchard, ironwood, with_hashers,
  process_actions_compact, process_actions_memo, process_actions_non_compact,
  process_actions_hashing,
}
use app_zcash.Legacy.Actions.{
  action_count, checked_mul, next_bundle, digest_data_size, bundle_hasher, set_bundle_hasher,
  compact_personalization, memos_personalization, noncompact_personalization, enter_bundle,
  enter_next_action_bundle, parse_actions_compact, parse_actions_memo, parse_actions_noncompact,
  parse_actions_hashing, orchard_memo_size, orchard_actions_compact_size,
  orchard_actions_noncompact_size,
}
use app_zcash.Legacy.Invariant.{
  Frame, Keeps, IsHeader, Supports, IsBounded, IsSought, IsTail, IsRunAt, IsRun, slack,
}
use app_zcash.Legacy.Steps.{Shorter, stays, supported_of, past_chunk, past_exact}

-- What holds wherever the shielded section is entered or left.
pub record IsBase {H : Type 0} (pass : Frame) (p : LegacyParser) (ctx : LegacyParserCtx H)
    : Type 0 where
  pub kept : Keeps pass p.mode ctx
  pub header : IsHeader p.mode ctx.tx_info
  pub bounded : IsBounded p ctx.tx_info
  pub tail : IsTail p
  pub sought : IsSought p.output_parsed_count ctx.trusted_input_info

next_bundle_count :
    (p : LegacyParser) (current : Option ActionBundle) (bundle : ActionBundle)
    → next_bundle p current ≡ some bundle
    → 0 < action_count p bundle
unfolding next_bundle
next_bundle_count p none orchard e = ground arith
next_bundle_count p none ironwood e = ground arith
next_bundle_count p (some orchard) orchard e = ground arith
next_bundle_count p (some orchard) ironwood e = ground arith
next_bundle_count p (some ironwood) orchard e = ground arith
next_bundle_count p (some ironwood) ironwood e = ground arith

v4_flag :
    (m : LegacyParserMode) (v : TxVersion) (b : Bool)
    → Supports m v b
    → v ≡ v4
    → b ≡ true
    → true ≡ false
v4_flag trusted_input v4 b h e t = sym t ∙ h
v4_flag trusted_input v5 b h e t = sym t ∙ h
v4_flag trusted_input v6 b h e t = absurd (ground (arith, e))
v4_flag trusted_input other_version b h e t = h
v4_flag signature v4 b h e t = h
v4_flag signature v5 b h e t = sym t ∙ h
v4_flag signature v6 b h e t = h
v4_flag signature other_version b h e t = h

-- A transaction with the flag of v6 is no v4 one.
v6-not_v4 :
    (mode : LegacyParserMode) (info : TxInfo)
    → IsHeader mode info
    → info.is_v6 ≡ true
    → info.tx_version ≢ some v4
v6-not_v4 mode info has flag four =
    let same : has.version ≡ v4 = ground (arith, sym has.has_version ∙ four) in
    ground (arith, v4_flag mode has.version info.is_v6 has.supports same flag)

checked_mul-some : (a b n : ℕ) → checked_mul a b ≡ some n → n ≡ a * b
unfolding checked_mul
checked_mul-some a b n e = ground arith

digest_data_size-lt : (v : SupportedTxVersion) → 0 < digest_data_size v
unfolding digest_data_size
digest_data_size-lt supported_v4 = omega arith
digest_data_size-lt supported_v5 = omega arith
digest_data_size-lt supported_v6 = omega arith

module _ {H : Type 0} (ops : LegacyOps H) where
  -- The shielded section goes on with a bundle of the transaction, or ends.
  pub enter_next_action_bundle-IsRun :
      {pass : Frame} (current : Option ActionBundle) (r : LegacyRun H)
      → IsBase pass r.parser r.ctx
      → (0 < r.parser.orchard_action_count → r.ctx.tx_info.tx_version ≢ some v4)
      → Ensures
          (λ f. IsRun pass f × (slack f.parser.state ≡ 0))
          (enter_next_action_bundle ops current r)
  unfolding enter_next_action_bundle enter_bundle
  enter_next_action_bundle-IsRun {pass = pass} current r is not_v4 =
      enter (next_bundle r.parser current) λ b e. next_bundle_count r.parser current b e
    where
      is_shielded :
          (b : ActionBundle) → 0 < action_count r.parser b → r.ctx.tx_info.tx_version ≢ some v4
      is_shielded orchard h = not_v4 h
      is_shielded ironwood h = v6-not_v4 r.parser.mode r.ctx.tx_info is.header (is.bounded.4 h)

      enter :
          (next : Option ActionBundle)
          → ((b : ActionBundle) → next ≡ some b → 0 < action_count r.parser b)
          → Ensures (λ f. IsRun pass f × (slack f.parser.state ≡ 0)) (enter_bundle ops next r)
      enter none count = (
        record {
          header = is.header;
          kept = is.kept;
          bounded = is.bounded;
          place = is.tail;
          sought = is.sought;
        },
        refl,
      )
      enter (some b) count =
          past_start ops.hashing (λ f. IsRun pass f × (slack f.parser.state ≡ 0))
            (compact_personalization ops b) _
            λ h. (
              record {
                header = is.header;
                kept = is.kept;
                bounded = is.bounded;
                place = ((is.tail, is_shielded b (count b refl)), count b refl);
                sought = is.sought;
              },
              refl,
            )

  pub parse_actions_compact_kept :
      {pass : Frame} (bundle : ActionBundle) (r : LegacyRun H) (unread : Bytes)
      → r.parser.state ≡ process_actions_compact bundle
      → IsRunAt pass (process_actions_compact bundle) r.parser r.ctx
      → Ensures
          (Shorter pass (process_actions_compact bundle) unread)
          (parse_actions_compact ops bundle r unread)
  unfolding parse_actions_compact
  parse_actions_compact_kept {pass = pass} bundle r unread e is =
      let Q = Shorter pass (process_actions_compact bundle) unread in
      let (shielded, below) = is.place in
      past_exact Q ops r.ctx.hashers.tx_compact_hasher orchard_actions_compact_size
        not_enough_for_compact_action unread _
        λ h rest l.
          Ensures-if Q (not (r.parser.action_parsed_count + 1 == action_count r.parser bundle)) _ _
            (λ more.
              stays (process_actions_compact bundle) unread _ rest e
                (record {
                  header = is.header;
                  kept = is.kept;
                  bounded = is.bounded;
                  place = (shielded, ground arith);
                  sought = is.sought;
                })
                (omega (arith, l)))
            λ last. past_start ops.hashing Q (memos_personalization ops bundle) _ λ memo.
              Ensures-try_ok Q (checked_mul (action_count r.parser bundle) orchard_memo_size)
                (custom memo_size_overflow) _ refl
                λ size es. (
                  record {
                    header = is.header;
                    kept = is.kept;
                    bounded = is.bounded;
                    place = (
                      shielded,
                      omega (arith, below),
                      checked_mul-some (action_count r.parser bundle) orchard_memo_size size es,
                      omega arith,
                    );
                    sought = is.sought;
                  },
                  omega (arith, l),
                )

  pub parse_actions_memo_kept :
      {pass : Frame} (bundle : ActionBundle) (size remaining : ℕ) (r : LegacyRun H) (unread : Bytes)
      → IsRunAt pass (process_actions_memo bundle size remaining) r.parser r.ctx
      → 0 < length unread
      → Ensures
          (Shorter pass (process_actions_memo bundle size remaining) unread)
          (parse_actions_memo ops bundle size remaining r unread)
  unfolding parse_actions_memo
  parse_actions_memo_kept {pass = pass} bundle size remaining r unread is more =
      let Q = Shorter pass (process_actions_memo bundle size remaining) unread in
      let (shielded, some_actions, is_size, in_size) = is.place in
      past_chunk Q ops r.ctx.hashers.tx_memo_hasher remaining unread _ λ left h rest el l.
        Ensures-if Q (left == 0) _ _
          (λ done. past_start ops.hashing Q (noncompact_personalization ops bundle) _ λ non_compact.
            (
              record {
                header = is.header;
                kept = is.kept;
                bounded = is.bounded;
                place = (shielded, some_actions);
                sought = is.sought;
              },
              omega (arith, l),
            ))
          λ going. (
            record {
              header = is.header;
              kept = is.kept;
              bounded = is.bounded;
              place = (shielded, some_actions, is_size, omega (arith, el, in_size));
              sought = is.sought;
            },
            ground (arith, l, el),
          )

  pub parse_actions_noncompact_kept :
      {pass : Frame} (bundle : ActionBundle) (r : LegacyRun H) (unread : Bytes)
      → r.parser.state ≡ process_actions_non_compact bundle
      → IsRunAt pass (process_actions_non_compact bundle) r.parser r.ctx
      → Ensures
          (Shorter pass (process_actions_non_compact bundle) unread)
          (parse_actions_noncompact ops bundle r unread)
  unfolding parse_actions_noncompact
  parse_actions_noncompact_kept {pass = pass} bundle r unread e is =
      let Q = Shorter pass (process_actions_non_compact bundle) unread in
      let (shielded, below) = is.place in
      past_exact Q ops r.ctx.hashers.tx_non_compact_hasher orchard_actions_noncompact_size
        not_enough_for_non_compact_action unread _
        λ h rest l.
          elim (Bool-cases (r.parser.action_parsed_count + 1 == action_count r.parser bundle)) [
            | inl last ↦ rw last (
              record {
                header = is.header;
                kept = is.kept;
                bounded = is.bounded;
                place = shielded;
                sought = is.sought;
              },
              omega (arith, l),
            )
            | inr going ↦ rw going (
                stays (process_actions_non_compact bundle) unread _ rest e
                  (record {
                    header = is.header;
                    kept = is.kept;
                    bounded = is.bounded;
                    place = (shielded, ground arith);
                    sought = is.sought;
                  })
                  (omega (arith, l)))
          ]

  pub parse_actions_hashing_kept :
      {pass : Frame} (bundle : ActionBundle) (r : LegacyRun H) (unread : Bytes)
      → IsRunAt pass (process_actions_hashing bundle) r.parser r.ctx
      → Ensures
          (Shorter pass (process_actions_hashing bundle) unread)
          (parse_actions_hashing ops bundle r unread)
  unfolding parse_actions_hashing
  parse_actions_hashing_kept {pass = pass} bundle r unread is =
      let Q = Shorter pass (process_actions_hashing bundle) unread in
      let shielded = is.place in
      let (v, ev) = supported_of r.parser.mode r.ctx.tx_info is.header in
      past_finalize ops.hashing Q r.ctx.hashers.tx_compact_hasher _ λ a.
        past_finalize ops.hashing Q r.ctx.hashers.tx_memo_hasher _ λ b.
          past_finalize ops.hashing Q r.ctx.hashers.tx_non_compact_hasher _ λ c.
            Ensures-ok Q (supported_tx_version r.ctx.tx_info) _ v ev (
              Ensures-bind Anything Q
                (feed ops.hashing.blake (bundle_hasher bundle r.ctx.hashers)
                  (hashed a.0 ∷ hashed b.0 ∷ hashed c.0 ∷ []))
                _
                (feed-Anything ops.hashing.blake (bundle_hasher bundle r.ctx.hashers)
                  (hashed a.0 ∷ hashed b.0 ∷ hashed c.0 ∷ []) refl)
                λ h eh t.
                  past_exact Q ops h (digest_data_size v) not_enough_for_digest_data unread _
                    λ h' rest l.
                      Ensures-bind (λ f. IsRun pass f × (slack f.parser.state ≡ 0)) Q
                        (enter_next_action_bundle ops (some bundle) (
                          with_hashers
                            (set_bundle_hasher bundle h' (record (r.ctx.hashers) {
                              tx_compact_hasher = a.1;
                              tx_memo_hasher = b.1;
                              tx_non_compact_hasher = c.1;
                            }))
                            r))
                        _
                        (enter_next_action_bundle-IsRun (some bundle) _
                          (record {
                            header = is.header;
                            kept = is.kept;
                            bounded = is.bounded;
                            tail = shielded.0;
                            sought = is.sought;
                          })
                          (λ h. shielded.1))
                        λ f ef fin. (fin.0, omega (arith, fin.1, l, digest_data_size-lt v)))
