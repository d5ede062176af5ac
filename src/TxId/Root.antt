-- ===== src/TxId/Root.antt =====
-- The transaction ID of src/parser/compute.rs as the root of the digest tree over what the hashers
-- were fed.
use app_zcash.Base.{
  ℕ, ◌+◌, ◌≡◌, refl, ap, ◌∙◌, Bool, true, false, List, [], ◌∷◌, ◌++◌, some, if◌then◌else◌, ok,
  ◌>>=◌,
}
use mathlib.Core.List.{append-nil, append_assoc}
use app_zcash.Base.Bytes.{Bytes}
use app_zcash.Sdk.{Hashing}
use app_zcash.Tx.{TxInfo, TxVersion, supported_v4, supported_v5, supported_v6, Hashers}
use app_zcash.ParserError.{ParserSourceError, Parsed}
use app_zcash.Personalization.{
  zcash_tx_personalization_prefix, zcash_headers_hash_personalization,
  zcash_transparent_hash_personalization,
}
use app_zcash.Digest.{
  le32, v6_tx_version, overwintered_flag, v6_version_group_id, hashed, written,
  supported_tx_version, expect,
}
use app_zcash.Digest.Zip244.{IsStreaming, contents, digest_lem}
use app_zcash.TxId.{
  LegacyParserCtx, finalize_and_log_hash, write_header_version, ironwood_child, tx_id_v5_v6,
  tx_id_v4, tx_id_of, compute_tx_id, finalize_signature_input_hash,
}

bind_ok : {A B : Type 0} (m : Parsed A) (f : A → Parsed B) (a : A) → m ≡ ok a → (m >>= f) ≡ f a
bind_ok m f a e = rw e

module _ {H : Type 0} (hashing : Hashing H) (blake sha : Bytes → Bytes → Bytes)
    (is : IsStreaming hashing.blake blake) (is_sha : IsStreaming hashing.sha sha)
    (write_version : TxVersion → Bytes) where
  -- The digest of all that a hasher was fed.
  abbrev pub of_hasher : H → Bytes
  of_hasher h = blake (is.fed h).0 (is.fed h).1

  -- T.1: the version of a v5 header is written as one, that of a v6 header in two words.
  abbrev pub version_bytes : Bool → TxVersion → Bytes
  version_bytes true version = le32 (v6_tx_version + overwintered_flag) ++ le32 v6_version_group_id
  version_bytes false version = write_version version

  abbrev pub ironwood_bytes : Bool → H → Bytes
  ironwood_bytes true h = of_hasher h
  ironwood_bytes false h = []

  -- The root of the tree of a v5 or a v6 transaction.
  abbrev pub id_root : Bool → TxVersion → TxInfo → ℕ → Hashers H → Bytes
  id_root is_v6 version info branch_id hs =
      blake (zcash_tx_personalization_prefix ++ le32 branch_id) (
        blake zcash_headers_hash_personalization (
          version_bytes is_v6 version
          ++ (le32 branch_id ++ (le32 info.locktime ++ le32 info.expiry_height)))
        ++ (blake zcash_transparent_hash_personalization (
              of_hasher hs.prevouts_hasher
              ++ (of_hasher hs.sequence_hasher ++ of_hasher hs.outputs_hasher))
            ++ (of_hasher hs.sapling_hasher
                ++ (of_hasher hs.orchard_hasher ++ ironwood_bytes is_v6 hs.ironwood_hasher))))

  abbrev pub with_id : LegacyParserCtx H → Bytes → Hashers H → LegacyParserCtx H
  with_id ctx id hs = record ctx {
    trusted_input_info = record (ctx.trusted_input_info) { tx_id = id };
    hashers = hs;
  }

  finalize_lem : (h : H) → (h' : H) × (finalize_and_log_hash hashing h ≡ ok (of_hasher h, h'))
  unfolding finalize_and_log_hash
  finalize_lem h = let (h', e) = is.ends h in (h', rw e)

  version_lem :
      (info : TxInfo) (version : TxVersion) (is_v6 : Bool)
      → info.tx_version ≡ some version
      → (parts : List (Bytes × ParserSourceError)) × (write_header_version hashing write_version
            info is_v6
          ≡ ok parts)
        × ((rest : List (Bytes × ParserSourceError))
            → contents (parts ++ rest) ≡ version_bytes is_v6 version ++ contents rest)
  unfolding write_header_version
  version_lem info version true e = (_, refl, λ rest. rw append_assoc)
  version_lem info version false e = (written (write_version version) ∷ [], rw e, λ rest. refl)

  ironwood_child_lem :
      (is_v6 : Bool) (hs : Hashers H)
      → (parts : List (Bytes × ParserSourceError)) × (hs' : Hashers H) × (ironwood_child hashing
            is_v6 hs
          ≡ ok (parts, hs'))
        × (contents parts ≡ ironwood_bytes is_v6 hs.ironwood_hasher)
  unfolding ironwood_child
  ironwood_child_lem false hs = ([], hs, refl, refl)
  ironwood_child_lem true hs =
      let (h, e) = finalize_lem hs.ironwood_hasher in
      (
        hashed (of_hasher hs.ironwood_hasher) ∷ [],
        record hs { ironwood_hasher = h },
        rw e,
        append-nil (of_hasher hs.ironwood_hasher),
      )

  tx_id_v5_v6_lem :
      (ctx : LegacyParserCtx H) (version : TxVersion) (branch_id : ℕ) (is_v6 : Bool)
      → ctx.tx_info.tx_version ≡ some version
      → (hs : Hashers H) × (tx_id_v5_v6 hashing write_version ctx branch_id is_v6
          ≡ ok (with_id ctx (id_root is_v6 version ctx.tx_info branch_id ctx.hashers) hs))
  unfolding tx_id_v5_v6
  tx_id_v5_v6_lem ctx version branch_id is_v6 ev =
      let hs = ctx.hashers in
      let (h1, e1) = finalize_lem hs.prevouts_hasher in
      let (h2, e2) = finalize_lem hs.sequence_hasher in
      let (h3, e3) = finalize_lem hs.outputs_hasher in
      let (h4, e4) = finalize_lem hs.sapling_hasher in
      let (h5, e5) = finalize_lem hs.orchard_hasher in
      let (vs, e6, same_version) = version_lem ctx.tx_info version is_v6 ev in
      let (iron, hs', e7, same_iron) = ironwood_child_lem is_v6 (record hs {
        prevouts_hasher = h1;
        sequence_hasher = h2;
        outputs_hasher = h3;
        sapling_hasher = h4;
        orchard_hasher = h5;
      }) in
      let hash_of = digest_lem hashing.blake blake is in
      (
        hs',
        rw (
          e1,
          e2,
          e3,
          e6,
          hash_of zcash_headers_hash_personalization,
          same_version,
          append-nil,
          hash_of zcash_transparent_hash_personalization,
          append-nil,
          e4,
          e5,
          e7,
          hash_of (zcash_tx_personalization_prefix ++ le32 branch_id),
          same_iron,
        ),
      )

  -- Over a streaming hash: of a transaction of version 5, or of version 6 when the flag is set, with a version and a branch,
  -- the ID is the root of the digest tree over all that the hashers were fed, and of the rest of the
  -- context at most the hashers change.
  pub compute_tx_id_lem :
      (ctx : LegacyParserCtx H) (version : TxVersion) (branch_id : ℕ) (is_v6 : Bool)
      → ctx.tx_info.tx_version ≡ some version
      → ctx.tx_info.branch_id ≡ some branch_id
      → supported_tx_version ctx.tx_info ≡ ok (if is_v6 then supported_v6 else supported_v5)
      → (hs : Hashers H) × (compute_tx_id hashing write_version ctx
          ≡ ok (with_id ctx (id_root is_v6 version ctx.tx_info branch_id ctx.hashers) hs))
  unfolding compute_tx_id tx_id_of
  compute_tx_id_lem ctx version branch_id true ev eb es =
      let (hs, e) = tx_id_v5_v6_lem ctx version branch_id true ev in
      (hs, bind_ok _ _ branch_id (ap expect eb) ∙ bind_ok _ _ supported_v6 es ∙ e)
  compute_tx_id_lem ctx version branch_id false ev eb es =
      let (hs, e) = tx_id_v5_v6_lem ctx version branch_id false ev in
      (hs, bind_ok _ _ branch_id (ap expect eb) ∙ bind_ok _ _ supported_v5 es ∙ e)

  -- Over a streaming SHA-256: of a transaction of version 4 with a branch, the ID is SHA-256 twice over all that its hasher was
  -- fed, where a fresh SHA-256 was fed nothing.
  pub compute_tx_id_v4_lem :
      (ctx : LegacyParserCtx H) (branch_id : ℕ)
      → ctx.tx_info.branch_id ≡ some branch_id
      → supported_tx_version ctx.tx_info ≡ ok supported_v4
      → is_sha.fed hashing.sha.fresh ≡ ([], [])
      → (hs : Hashers H) × (compute_tx_id hashing write_version ctx
          ≡ ok (
              with_id ctx
                (sha [] (
                  sha
                    (is_sha.fed ctx.hashers.v4_tx_hasher).0
                    (is_sha.fed ctx.hashers.v4_tx_hasher).1))
                hs))
  unfolding compute_tx_id tx_id_of tx_id_v4
  compute_tx_id_v4_lem ctx branch_id eb es fresh =
      let (h1, e1) = is_sha.ends ctx.hashers.v4_tx_hasher in
      let first =
        sha (is_sha.fed ctx.hashers.v4_tx_hasher).0 (is_sha.fed ctx.hashers.v4_tx_hasher).1 in
      let (h2, e2, f2) = is_sha.feeds hashing.sha.fresh first in
      let (h3, e3) = is_sha.ends h2 in
      (record (ctx.hashers) { v4_tx_hasher = h1 }, rw (eb, es, e1, e2, e3, f2, fresh))

  -- Over a streaming hash: the first pass of a signature keeps, as its four input digests, the digests of all that the four
  -- input hashers were fed; the rest of the transaction stays.
  pub finalize_signature_input_hash_lem :
      (ctx : LegacyParserCtx H)
      → (hs : Hashers H) × (finalize_signature_input_hash hashing ctx
          ≡ ok (record ctx {
            tx_info = record (ctx.tx_info) {
              prevouts_hash = of_hasher ctx.hashers.prevouts_hasher;
              sequence_hash = of_hasher ctx.hashers.sequence_hasher;
              amounts_hash = of_hasher ctx.hashers.amounts_hasher;
              scripts_hash = of_hasher ctx.hashers.scripts_hasher;
            };
            hashers = hs;
          }))
  unfolding finalize_signature_input_hash
  finalize_signature_input_hash_lem ctx =
      let (h1, e1) = finalize_lem ctx.hashers.prevouts_hasher in
      let (h2, e2) = finalize_lem ctx.hashers.sequence_hasher in
      let (h3, e3) = finalize_lem ctx.hashers.amounts_hasher in
      let (h4, e4) = finalize_lem ctx.hashers.scripts_hasher in
      (
        record (ctx.hashers) {
          prevouts_hasher = h1;
          sequence_hasher = h2;
          amounts_hasher = h3;
          scripts_hasher = h4;
        },
        rw (e1, e2, e3, e4),
      )
