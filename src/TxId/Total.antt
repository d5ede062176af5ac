-- ===== src/TxId/Total.antt =====
-- src/parser/compute.rs: the transaction ID and the digests of the inputs, once a header was read, end
-- with a result or with an error of the program, and keep what the parser counts on.
use app_zcash.Base.{
  ℕ, ◌≡◌, refl, Bool, true, false, List, [], ◌∷◌, ◌++◌, Option, none, some, ok, ◌>>=◌,
}
use app_zcash.Base.Bytes.{Bytes}
use app_zcash.Sdk.{Hashing}
use app_zcash.Tx.{
  TxInfo, TxVersion, Hashers, SupportedTxVersion, supported_v4, supported_v5, supported_v6,
}
use app_zcash.ParserError.{
  ParserSourceError, Parsed, Ensures, Ensures-bind, Ensures-try_ok, try_ok, hash, is_stuck,
}
use app_zcash.Personalization.{
  zcash_tx_personalization_prefix, zcash_headers_hash_personalization,
  zcash_transparent_hash_personalization,
}
use app_zcash.Digest.{le32, hashed, expect, digest, supported_tx_version}
use app_zcash.Digest.Total.{
  Anything, fails_softly, digest-Anything, HasHeader, IsSameVersion, Ensures-ok,
}
use app_zcash.TxId.{
  LegacyParserCtx, finalize_and_log_hash, write_header_version, ironwood_child, tx_id_v5_v6,
  tx_id_v4, tx_id_of, compute_tx_id, finalize_signature_input_hash, init_v5_tx_hashers,
}

-- All but the hashers, the ID and the digests is kept.
pub record IsSameTx {H : Type 0} (ctx ctx' : LegacyParserCtx H) : Type 0 where
  pub version : IsSameVersion ctx.tx_info ctx'.tx_info
  pub state : ctx'.tx_state ≡ ctx.tx_state
  pub index : ctx'.trusted_input_info.input_idx ≡ ctx.trusted_input_info.input_idx
  pub processed :
      ctx'.trusted_input_info.is_input_processed ≡ ctx.trusted_input_info.is_input_processed

try_ok-Anything :
    {A : Type 0} (o : Option A) (e : ParserSourceError)
    → is_stuck e ≡ false
    → Ensures Anything (try_ok o e)
try_ok-Anything none e h = h
try_ok-Anything (some a) e h = tt

module _ {H : Type 0} (hashing : Hashing H) where
  pub finalize_and_log_hash-Anything : (h : H) → Ensures Anything (finalize_and_log_hash hashing h)
  unfolding finalize_and_log_hash
  finalize_and_log_hash-Anything h = try_ok-Anything (hashing.blake.finalize h) hash refl

  -- To go past a digest that is taken from a hasher.
  pub past_finalize :
      {B : Type 0} (Q : B → Type 0) (h : H) (f : Bytes × H → Parsed B)
      → ((s : Bytes × H) → Ensures Q (f s))
      → Ensures Q (finalize_and_log_hash hashing h >>= f)
  past_finalize Q h f k =
      Ensures-bind Anything Q (finalize_and_log_hash hashing h) f (finalize_and_log_hash-Anything h)
        λ s es t. k s

  pub past_digest :
      {B : Type 0} (Q : B → Type 0) (perso : Bytes) (parts : List (Bytes × ParserSourceError))
      (f : Bytes → Parsed B)
      → fails_softly parts ≡ true
      → ((d : Bytes) → Ensures Q (f d))
      → Ensures Q (digest hashing.blake perso parts >>= f)
  past_digest Q perso parts f soft k =
      Ensures-bind Anything Q (digest hashing.blake perso parts) f
        (digest-Anything hashing.blake perso parts soft) λ s es t. k s

  -- To go past a hasher that starts under a personalization.
  pub past_start :
      {B : Type 0} (Q : B → Type 0) (perso : Bytes) (f : H → Parsed B)
      → ((h : H) → Ensures Q (f h))
      → Ensures Q (try_ok (hashing.blake.init_with_perso perso) hash >>= f)
  past_start Q perso f k =
      Ensures-try_ok Q (hashing.blake.init_with_perso perso) hash f refl λ h eh. k h

  write_header_version-soft :
      (write_version : TxVersion → Bytes) (info : TxInfo) (v6 : Bool)
      → HasHeader info
      → Ensures
          (λ ps.
            (rest : List (Bytes × ParserSourceError))
            → fails_softly rest ≡ true
            → fails_softly (ps ++ rest) ≡ true)
          (write_header_version hashing write_version info v6)
  unfolding write_header_version
  write_header_version-soft write_version info true has = λ rest h. h
  write_header_version-soft write_version info false ((v, ev), hb) =
      Ensures-ok _ (expect info.tx_version) _ v (rw ev refl) λ rest h. h

  ironwood_child-soft :
      (v6 : Bool) (hs : Hashers H)
      → Ensures (λ s. fails_softly s.0 ≡ true) (ironwood_child hashing v6 hs)
  unfolding ironwood_child
  ironwood_child-soft false hs = refl
  ironwood_child-soft true hs =
      past_finalize (λ s. fails_softly s.0 ≡ true) hs.ironwood_hasher _ λ s. refl

  tx_id_v5_v6-IsSameTx :
      (write_version : TxVersion → Bytes) (ctx : LegacyParserCtx H) (b : ℕ) (v6 : Bool)
      → HasHeader ctx.tx_info
      → Ensures (IsSameTx ctx) (tx_id_v5_v6 hashing write_version ctx b v6)
  unfolding tx_id_v5_v6
  tx_id_v5_v6-IsSameTx write_version ctx b v6 has =
      let Q = IsSameTx ctx in
      past_finalize Q ctx.hashers.prevouts_hasher _ λ p.
        past_finalize Q ctx.hashers.sequence_hasher _ λ s.
          past_finalize Q ctx.hashers.outputs_hasher _ λ o.
            Ensures-bind
              (λ ps.
                (rest : List (Bytes × ParserSourceError))
                → fails_softly rest ≡ true
                → fails_softly (ps ++ rest) ≡ true)
              Q (write_header_version hashing write_version ctx.tx_info v6) _
              (write_header_version-soft write_version ctx.tx_info v6 has)
              λ version ev soft.
                past_digest Q zcash_headers_hash_personalization
                  (version
                    ++ hashed (le32 b)
                      ∷ hashed (le32 ctx.tx_info.locktime)
                      ∷ hashed (le32 ctx.tx_info.expiry_height)
                      ∷ [])
                  _
                  (soft
                    (hashed (le32 b)
                      ∷ hashed (le32 ctx.tx_info.locktime)
                      ∷ hashed (le32 ctx.tx_info.expiry_height)
                      ∷ [])
                    refl)
                  λ header.
                    past_digest Q zcash_transparent_hash_personalization
                      (hashed p.0 ∷ hashed s.0 ∷ hashed o.0 ∷ []) _ refl
                      λ transparent. past_finalize Q ctx.hashers.sapling_hasher _ λ sapling.
                        past_finalize Q ctx.hashers.orchard_hasher _ λ orchard.
                          let hs : Hashers H = record (ctx.hashers) {
                            prevouts_hasher = p.1;
                            sequence_hasher = s.1;
                            outputs_hasher = o.1;
                            sapling_hasher = sapling.1;
                            orchard_hasher = orchard.1;
                          } in
                          Ensures-bind (λ s. fails_softly s.0 ≡ true) Q
                            (ironwood_child hashing v6 hs) _ (ironwood_child-soft v6 hs)
                            λ iron ei soft'.
                              past_digest Q (zcash_tx_personalization_prefix ++ le32 b)
                                (hashed header
                                  ∷ hashed transparent
                                  ∷ hashed sapling.0
                                  ∷ hashed orchard.0
                                  ∷ iron.0)
                                _ soft'
                                λ id. record {
                                  version = record {
                                    version = refl;
                                    branch = refl;
                                    v6_flag = refl;
                                    declared = refl;
                                    fees = refl;
                                    locktime = refl;
                                    expiry = refl;
                                  };
                                  state = refl;
                                  index = refl;
                                  processed = refl;
                                }

  tx_id_v4-IsSameTx : (ctx : LegacyParserCtx H) → Ensures (IsSameTx ctx) (tx_id_v4 hashing ctx)
  unfolding tx_id_v4
  tx_id_v4-IsSameTx ctx =
      let Q = IsSameTx ctx in
      Ensures-try_ok Q (hashing.sha.finalize ctx.hashers.v4_tx_hasher) hash _ refl λ s es.
        Ensures-try_ok Q (hashing.sha.update hashing.sha.fresh s.0) hash _ refl λ h eh.
          Ensures-try_ok Q (hashing.sha.finalize h) hash _ refl λ t et. record {
            version = record {
              version = refl;
              branch = refl;
              v6_flag = refl;
              declared = refl;
              fees = refl;
              locktime = refl;
              expiry = refl;
            };
            state = refl;
            index = refl;
            processed = refl;
          }

  tx_id_of-IsSameTx :
      (v : SupportedTxVersion) (write_version : TxVersion → Bytes) (ctx : LegacyParserCtx H) (b : ℕ)
      → HasHeader ctx.tx_info
      → Ensures (IsSameTx ctx) (tx_id_of hashing v write_version ctx b)
  unfolding tx_id_of
  tx_id_of-IsSameTx supported_v4 write_version ctx b has = tx_id_v4-IsSameTx ctx
  tx_id_of-IsSameTx supported_v5 write_version ctx b has =
      tx_id_v5_v6-IsSameTx write_version ctx b false has
  tx_id_of-IsSameTx supported_v6 write_version ctx b has =
      tx_id_v5_v6-IsSameTx write_version ctx b true has

  pub compute_tx_id-IsSameTx :
      (write_version : TxVersion → Bytes) (ctx : LegacyParserCtx H) (v : SupportedTxVersion)
      → HasHeader ctx.tx_info
      → supported_tx_version ctx.tx_info ≡ ok v
      → Ensures (IsSameTx ctx) (compute_tx_id hashing write_version ctx)
  unfolding compute_tx_id
  compute_tx_id-IsSameTx write_version ctx v (hv, (b, eb)) ev =
      let Q = IsSameTx ctx in
      Ensures-ok Q (expect ctx.tx_info.branch_id) _ b (rw eb refl) (
        Ensures-ok Q (supported_tx_version ctx.tx_info) _ v ev
          (tx_id_of-IsSameTx v write_version ctx b (hv, (b, eb))))

  pub finalize_signature_input_hash-IsSameTx :
      (ctx : LegacyParserCtx H) → Ensures (IsSameTx ctx) (finalize_signature_input_hash hashing ctx)
  unfolding finalize_signature_input_hash
  finalize_signature_input_hash-IsSameTx ctx =
      let Q = IsSameTx ctx in
      past_finalize Q ctx.hashers.prevouts_hasher _ λ a.
        past_finalize Q ctx.hashers.sequence_hasher _ λ b.
          past_finalize Q ctx.hashers.amounts_hasher _ λ c.
            past_finalize Q ctx.hashers.scripts_hasher _ λ d. record {
              version = record {
                version = refl;
                branch = refl;
                v6_flag = refl;
                declared = refl;
                fees = refl;
                locktime = refl;
                expiry = refl;
              };
              state = refl;
              index = refl;
              processed = refl;
            }

  pub init_v5_tx_hashers-Anything :
      (perso : Bytes) (hs : Hashers H) → Ensures Anything (init_v5_tx_hashers hashing perso hs)
  unfolding init_v5_tx_hashers
  init_v5_tx_hashers-Anything perso hs = past_start Anything _ _ λ a. past_start Anything _ _ λ b.
      past_start Anything _ _ λ c. past_start Anything _ _ λ d. past_start Anything _ _ λ e.
        past_start Anything _ _ λ f. past_start Anything _ _ λ g. past_start Anything _ _ λ h. tt
