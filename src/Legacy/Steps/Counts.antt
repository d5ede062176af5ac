-- ===== src/Legacy/Steps/Counts.antt =====
-- src/parser/legacy/transparent.rs: the step of the counts of the shielded components keeps the
-- invariant.
use app_zcash.Base.{
  ℕ, ◌+◌, ◌<◌, ◌≤◌, ◌≡◌, ◌≢◌, refl, sym, ◌∙◌, Bool, true, false, not, none, some, ltb, ◌&&◌, ◌||◌,
  length, arith, Bool-cases, Option-cases, subst, ◌⊎◌, inl, inr, ok,
}
use app_zcash.Base.Bytes.{Bytes}
use app_zcash.Session.{LegacyParserMode, trusted_input, signature}
use app_zcash.Tx.{TxInfo, TxVersion, SupportedTxVersion, supported_v4, v4, v5, v6, other_version}
use app_zcash.ParserError.{
  Ensures, Ensures-bind, Ensures-if, Ensures-ensure, custom, v4_with_shielded_components,
}
use app_zcash.Digest.{as_supported, supported_tx_version}
use app_zcash.Digest.Total.{Ensures-ok, Ensures-map}
use app_zcash.Legacy.{LegacyRun, LegacyOps, IsLegacyOps, output_hashing_done}
use app_zcash.Legacy.Transparent.{
  max_legacy_shielded_count, is_v4, has_ironwood_pool, read_bounded_shielded_count,
  read_ironwood_count, enter_shielded, parse_output_hashing_done,
}
use app_zcash.Legacy.Invariant.{Frame, IsHeader, Supports, IsFresh, IsRunAt, IsRun, slack}
use app_zcash.Legacy.Steps.{Shorter, supported_of}
use app_zcash.Legacy.Steps.Actions.{IsBase, enter_next_action_bundle-IsRun}
use app_zcash.Legacy.Steps.Scripts.{past_count, bounded_count}

as_supported-six :
    (v : TxVersion) (s : SupportedTxVersion)
    → as_supported v ≡ ok s
    → has_ironwood_pool s ≡ true
    → true ≡ false
as_supported-six v4 s e pool = ground arith
as_supported-six v5 s e pool = ground arith
as_supported-six v6 s e pool = ground arith
as_supported-six other_version s e pool = ground arith

-- The fourth pool is that of a transaction with the flag of v6.
six_flagged :
    (info : TxInfo) (v : SupportedTxVersion)
    → supported_tx_version info ≡ ok v
    → has_ironwood_pool v ≡ true
    → info.is_v6 ≡ true
unfolding supported_tx_version
six_flagged info v e pool = elim (Bool-cases info.is_v6) [
  | inl flag ↦ flag
  | inr unset ↦ elim (Option-cases info.tx_version) [
    | inl none_read ↦ absurd (ground (arith, rw (unset, none_read) at e))
    | inr (w, ew) ↦ absurd (ground (arith, as_supported-six w v (rw (unset, ew) at e) pool))
  ]
]

v4_unflagged : (mode : LegacyParserMode) (b : Bool) → Supports mode v4 b → b ≡ false
v4_unflagged trusted_input b h = h
v4_unflagged signature b h = absurd (ground (arith, h))

v4_supported :
    (mode : LegacyParserMode) (info : TxInfo)
    → IsHeader mode info
    → info.tx_version ≡ some v4
    → supported_tx_version info ≡ ok supported_v4
unfolding supported_tx_version
v4_supported mode info has four =
    let same : has.version ≡ v4 = ground (arith, sym has.has_version ∙ four) in
    rw (
      v4_unflagged mode info.is_v6 (subst (λ v. Supports mode v info.is_v6) same has.supports),
      four,
    )

-- A v4 transaction is let through only without shielded components.
v4_is_bare :
    (mode : LegacyParserMode) (info : TxInfo) (v : SupportedTxVersion) (spends outputs actions : ℕ)
    → IsHeader mode info
    → supported_tx_version info ≡ ok v
    → not (is_v4 v && (ltb 0 spends || ltb 0 outputs || ltb 0 actions)) ≡ true
    → 0 < spends + outputs + actions
    → info.tx_version ≢ some v4
v4_is_bare mode info v spends outputs actions has ev bare any_parts four =
    let e : v ≡ supported_v4 = ground (arith, sym ev ∙ v4_supported mode info has four) in
    ground (arith, rw e at bare)

module _ {H : Type 0} (ops : LegacyOps H) (is_ops : IsLegacyOps ops) where
  enter_shielded-IsRun :
      {pass : Frame} (r : LegacyRun H)
      → IsBase pass r.parser r.ctx
      → IsFresh r.parser
      → (0
            < r.parser.sapling_spend_count + r.parser.sapling_output_count
              + r.parser.orchard_action_count
          → r.ctx.tx_info.tx_version ≢ some v4)
      → Ensures (λ f. IsRun pass f × (slack f.parser.state ≡ 0)) (enter_shielded ops r)
  unfolding enter_shielded
  enter_shielded-IsRun {pass = pass} r is fresh bare =
      let Q : LegacyRun H → Type 0 = λ f. IsRun pass f × (slack f.parser.state ≡ 0) in
      Ensures-if Q (ltb 0 r.parser.sapling_spend_count || ltb 0 r.parser.sapling_output_count) _ _
        (λ sapling. (
          record {
            header = is.header;
            kept = is.kept;
            bounded = is.bounded;
            place = (fresh, (is.tail, bare (ground arith)), ground arith);
            sought = is.sought;
          },
          refl,
        ))
        λ none_of_it.
          enter_next_action_bundle-IsRun ops none r is λ actions. bare (omega (arith, actions))

  read_ironwood_count_rest :
      (v : SupportedTxVersion) (before : ℕ) (unread : Bytes)
      → before ≤ max_legacy_shielded_count
      → Ensures
          (λ s.
            (s.0 ≤ max_legacy_shielded_count)
            × (length s.1 ≤ length unread)
            × ((has_ironwood_pool v ≡ true) ⊎ (s.0 ≡ before)))
          (read_ironwood_count ops v before unread)
  unfolding read_ironwood_count
  read_ironwood_count_rest v before unread small =
      Ensures-if _ (has_ironwood_pool v) _ _
        (λ pool.
          Ensures-map (λ s. (s.0 ≤ max_legacy_shielded_count) × (length s.1 < length unread)) _
            (read_bounded_shielded_count ops unread) (bounded_count ops is_ops unread)
            λ s h. (h.0, omega (arith, h.1), inl pool))
        λ no_pool. (small, omega arith, inr refl)

  pub parse_output_hashing_done_kept :
      {pass : Frame} (r : LegacyRun H) (unread : Bytes)
      → IsRunAt pass output_hashing_done r.parser r.ctx
      → Ensures (Shorter pass output_hashing_done unread) (parse_output_hashing_done ops r unread)
  unfolding parse_output_hashing_done
  parse_output_hashing_done_kept {pass = pass} r unread is =
      let Q = Shorter pass output_hashing_done unread in
      let (v, ev) = supported_of r.parser.mode r.ctx.tx_info is.header in
      past_count Q ops is_ops unread _ λ spends unread1 few l.
        past_count Q ops is_ops unread1 _ λ outputs unread2 few1 l1.
          past_count Q ops is_ops unread2 _ λ actions unread3 few2 l2.
            Ensures-ok Q (supported_tx_version r.ctx.tx_info) _ v ev (
              Ensures-bind
                (λ s.
                  (s.0 ≤ max_legacy_shielded_count)
                  × (length s.1 ≤ length unread3)
                  × ((has_ironwood_pool v ≡ true) ⊎ (s.0 ≡ r.parser.ironwood_action_count)))
                Q (read_ironwood_count ops v r.parser.ironwood_action_count unread3) _
                (read_ironwood_count_rest v r.parser.ironwood_action_count unread3 is.bounded.3)
                λ s es hs.
                  Ensures-ensure Q
                    (not (is_v4 v && (ltb 0 spends || ltb 0 outputs || ltb 0 actions)))
                    (custom v4_with_shielded_components) _ refl
                    λ bare.
                      let r' = record r {
                        parser = record (r.parser) {
                          sapling_spend_count = spends;
                          sapling_output_count = outputs;
                          orchard_action_count = actions;
                          ironwood_action_count = s.0;
                        };
                      } in
                      Ensures-bind (λ f. IsRun pass f × (slack f.parser.state ≡ 0)) Q
                        (enter_shielded ops r') _
                        (enter_shielded-IsRun r'
                          (record {
                            header = is.header;
                            kept = is.kept;
                            bounded = (few, few1, few2, hs.0, pool_of v s.0 ev hs.2, is.bounded.5);
                            tail = is.place.1;
                            sought = is.sought;
                          })
                          is.place.0
                          (v4_is_bare r.parser.mode r.ctx.tx_info v spends outputs actions is.header
                            ev bare))
                        λ f ef fin. (fin.0, omega (arith, fin.1, l, l1, l2, hs.1)))
    where
      pool_of :
          (v : SupportedTxVersion) (count : ℕ)
          → supported_tx_version r.ctx.tx_info ≡ ok v
          → (has_ironwood_pool v ≡ true) ⊎ (count ≡ r.parser.ironwood_action_count)
          → 0 < count
          → r.ctx.tx_info.is_v6 ≡ true
      pool_of v count ev (inl pool) h = six_flagged r.ctx.tx_info v ev pool
      pool_of v count ev (inr same) h = is.bounded.4 (omega (arith, h, same))
