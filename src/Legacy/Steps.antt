-- ===== src/Legacy/Steps.antt =====
-- src/parser/legacy: what the steps of the legacy parser keep. The children have the steps; here are
-- the rules for the calls that they share.
pub mod Actions
pub mod Sapling
pub mod SaplingOutputs
pub mod Scripts
pub mod Outputs
pub mod Counts
pub mod InputScripts
pub mod Inputs
pub mod Started
pub mod Header
use app_zcash.Base.{
  ℕ, ◌+◌, ◌-◌, ◌*◌, ◌<◌, ◌≤◌, ◌≡◌, refl, sym, ap, subst, ◌∙◌, min, Bool, true, false, not, Option,
  none, some, if◌then◌else◌, ltb, length, take, drop, ok, ◌>>=◌, arith, length-drop, Bool-cases,
  inl, inr,
}
use app_zcash.Base.Bytes.{Bytes}
use app_zcash.Tx.{
  TxInfo, TxVersion, v4, v5, v6, other_version, SupportedTxVersion, supported_v4, supported_v5,
  supported_v6, Hashers,
}
use app_zcash.Session.{LegacyParserMode, trusted_input, signature}
use app_zcash.Reader.Unread.{take_exact, skip_exact}
use app_zcash.ParserError.{
  Reason, ParserSourceError, Parsed, Ensures, Ensures-bind, Ensures-try_ok, Ensures-ensure,
  Ensures-map_err, try_ok, is_stuck, io, hash, custom,
}
use app_zcash.Digest.{supported_tx_version, expect}
use app_zcash.Digest.Total.{Anything}
use app_zcash.TxId.{LegacyParserCtx}
use app_zcash.Legacy.{
  LegacyParserState, LegacyRun, LegacyOps, next_number, hash_reader_chunk, hash_reader_exact,
  feed_by_version,
}
use app_zcash.Legacy.Invariant.{Frame, Keeps, IsHeader, Supports, IsRunAt, IsRun, slack}

-- A result of a step that is well-formed and has less to do.
abbrev pub Shorter : {H : Type 0} → Frame → LegacyParserState → Bytes → LegacyRun H × Bytes → Type 0
Shorter pass at unread s =
    IsRun pass s.0 × (2 * length s.1 + slack s.0.parser.state < 2 * length unread + slack at)

-- A step that stays in its state.
pub stays :
    {pass : Frame} {H : Type 0} (at : LegacyParserState) (unread : Bytes) (r : LegacyRun H)
    (rest : Bytes)
    → r.parser.state ≡ at
    → IsRunAt pass at r.parser r.ctx
    → 2 * length rest < 2 * length unread
    → Shorter pass at unread (r, rest)
stays {pass = pass} at unread r rest e is less =
    let same : slack r.parser.state ≡ slack at = ap slack e in
    (subst (λ s. IsRunAt pass s r.parser r.ctx) (sym e) is, omega (arith, less, same))

pub take_exact_rest :
    (n : ℕ) (bs : Bytes) (s : Bytes × Bytes) → take_exact n bs ≡ some s → length s.1 + n ≡ length bs
take_exact_rest n bs s e = elim (Bool-cases (ltb (length bs) n)) [
  | inl short ↦ absurd (ground (arith, rw short at e))
  | inr enough ↦
      let is : drop n bs ≡ s.1 = ground (arith, rw enough at e) in
      let l : length (drop n bs) ≡ length bs - n = length-drop n bs in
      ground (arith, rw is at l, enough)
]

skip_exact_rest :
    (n : ℕ) (bs rest : Bytes) → skip_exact n bs ≡ some rest → length rest + n ≡ length bs
skip_exact_rest n bs rest e = elim (Bool-cases (ltb (length bs) n)) [
  | inl short ↦ absurd (ground (arith, rw short at e))
  | inr enough ↦
      let is : drop n bs ≡ rest = ground (arith, rw enough at e) in
      let l : length (drop n bs) ≡ length bs - n = length-drop n bs in
      ground (arith, rw is at l, enough)
]

supported_by :
    (info : TxInfo) (m : LegacyParserMode) (v : TxVersion)
    → info.tx_version ≡ some v
    → Supports m v info.is_v6
    → (s : SupportedTxVersion) × (supported_tx_version info ≡ ok s)
unfolding supported_tx_version
supported_by info trusted_input v4 e h = (supported_v4, rw (h, e))
supported_by info trusted_input v5 e h = (supported_v5, rw (h, e))
supported_by info trusted_input v6 e h = (supported_v6, rw h)
supported_by info trusted_input other_version e h = absurd (ground (arith, h))
supported_by info signature v5 e h = (supported_v5, rw (h, e))
supported_by info signature v4 e h = absurd (ground (arith, h))
supported_by info signature v6 e h = absurd (ground (arith, h))
supported_by info signature other_version e h = absurd (ground (arith, h))

-- The version of a header does not panic.
pub supported_of :
    (mode : LegacyParserMode) (info : TxInfo)
    → IsHeader mode info
    → (v : SupportedTxVersion) × (supported_tx_version info ≡ ok v)
supported_of mode info has = supported_by info mode has.version has.has_version has.supports

module _ {B : Type 0} (Q : B → Type 0) where
  -- To go past an exact read.
  pub past_take :
      (n : ℕ) (bs : Bytes) (f : Bytes × Bytes → Parsed B)
      → ((s : Bytes × Bytes) → length s.1 + n ≡ length bs → Ensures Q (f s))
      → Ensures Q (try_ok (take_exact n bs) io >>= f)
  past_take n bs f k =
      Ensures-try_ok Q (take_exact n bs) io f refl λ s es. k s (take_exact_rest n bs s es)

  pub past_number :
      (n : ℕ) (bs : Bytes) (f : ℕ × Bytes → Parsed B)
      → ((s : ℕ × Bytes) → length s.1 + n ≡ length bs → Ensures Q (f s))
      → Ensures Q (next_number n bs >>= f)
  past_number n bs f k =
      Ensures-bind (λ s. length s.1 + n ≡ length bs) Q (next_number n bs) f
        (Ensures-try_ok (λ s. length s.1 + n ≡ length bs) (take_exact n bs) io _ refl
          λ s es. take_exact_rest n bs s es)
        λ s es l. k s l

  module _ {H : Type 0} (ops : LegacyOps H) where
    pub past_chunk :
        (h : H) (remaining : ℕ) (bs : Bytes) (f : ℕ × H × Bytes → Parsed B)
        → ((left : ℕ) (h' : H) (rest : Bytes)
            → left ≡ remaining - length bs
            → length rest ≡ length bs - remaining
            → Ensures Q (f (left, h', rest)))
        → Ensures Q (hash_reader_chunk ops h remaining bs >>= f)
    past_chunk h remaining bs f k =
        Ensures-bind (λ s. (s.0 ≡ remaining - length bs) × (length s.2 ≡ length bs - remaining)) Q
          (hash_reader_chunk ops h remaining bs) f
          (unfold hash_reader_chunk in
            Ensures-try_ok _ (ops.hashing.blake.update h (take (min remaining (length bs)) bs)) hash
              _ refl
              λ h' eh.
                Ensures-try_ok _ (skip_exact (min remaining (length bs)) bs) io _ refl λ rest er.
                  let l = skip_exact_rest (min remaining (length bs)) bs rest er in
                  (omega arith, omega (arith, l)))
          λ s es l. k s.0 s.1 s.2 l.0 l.1

    pub past_exact :
        (h : H) (size : ℕ) (reason : Reason) (bs : Bytes) (f : H × Bytes → Parsed B)
        → ((h' : H) (rest : Bytes) → length rest + size ≡ length bs → Ensures Q (f (h', rest)))
        → Ensures Q (hash_reader_exact ops h size reason bs >>= f)
    past_exact h size reason bs f k =
        Ensures-bind (λ s. length s.1 + size ≡ length bs) Q (hash_reader_exact ops h size reason bs)
          f
          (unfold hash_reader_exact in
            Ensures-ensure _ (not (ltb (length bs) size)) (custom reason) _ refl λ e.
              Ensures-try_ok _ (ops.hashing.blake.update h (take size bs)) hash _ refl λ h' eh.
                Ensures-try_ok _ (skip_exact size bs) io _ refl
                  λ rest er. skip_exact_rest size bs rest er)
          λ s es l. k s.0 s.1 l

    feed_by_version-Anything :
        (version : SupportedTxVersion) (h : H) (put : H → Hashers H) (hs : Hashers H) (b : Bytes)
        (e : ParserSourceError)
        → is_stuck e ≡ false
        → Ensures Anything (feed_by_version ops version h put hs b e)
    unfolding feed_by_version
    feed_by_version-Anything supported_v4 h put hs b e soft =
        Ensures-try_ok Anything (ops.hashing.sha.update hs.v4_tx_hasher b) e _ soft λ h' eh. tt
    feed_by_version-Anything supported_v5 h put hs b e soft =
        Ensures-try_ok Anything (ops.hashing.blake.update h b) e _ soft λ h' eh. tt
    feed_by_version-Anything supported_v6 h put hs b e soft =
        Ensures-try_ok Anything (ops.hashing.blake.update h b) e _ soft λ h' eh. tt

    pub past_version :
        (version : SupportedTxVersion) (h : H) (put : H → Hashers H) (hs : Hashers H) (b : Bytes)
        (e : ParserSourceError) (f : Hashers H → Parsed B)
        → is_stuck e ≡ false
        → ((hs' : Hashers H) → Ensures Q (f hs'))
        → Ensures Q (feed_by_version ops version h put hs b e >>= f)
    past_version version h put hs b e f soft k =
        Ensures-bind Anything Q (feed_by_version ops version h put hs b e) f
          (feed_by_version-Anything version h put hs b e soft) λ hs' e' t. k hs'
