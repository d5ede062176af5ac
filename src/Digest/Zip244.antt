-- ===== src/Digest/Zip244.antt =====
-- The digests of src/parser/compute.rs against the digest tree of ZIP-244 and ZIP-229, over a hash
-- that is a function of its personalization and of all that it was fed.
use app_zcash.Base.{
  ℕ, zero, suc, ◌+◌, ◌≡◌, refl, sym, ap, ◌∙◌, Bool, true, false, List, [], ◌∷◌, ◌++◌, some,
  if◌then◌else◌, ◌==◌, ok, replicate, arith, Bool-cases, inl, inr,
}
use mathlib.Core.List.{append-nil, append_assoc}
use app_zcash.Base.Bytes.{Bytes, bytes_eq}
use app_zcash.Sdk.{HashOps}
use app_zcash.Tx.{TxInfo, TxVersion}
use app_zcash.ParserError.{ParserSourceError, hash}
use app_zcash.Personalization.{
  zcash_headers_hash_personalization, zcash_sapling_hash_personalization,
  zcash_transparent_input_hash_personalization, zcash_ironwood_hash_personalization,
}
use app_zcash.Digest.Tree.{
  header_node, transparent_node, orchard_node, ironwood_node, signature_root, signed, shielded_mode,
}
use app_zcash.Digest.{
  sighash_all, overwintered_flag, v6_tx_version, v6_version_group_id, le32, SighHashComputeMode,
  no_transparent_inputs_or_outputs, no_transparent_inputs, some_transparent_inputs, feed, digest,
  empty_digest, empty_txin_signature_digest, transparent_signature_digest, header_prefix,
  compute_header_digest, orchard_digest_or_empty, ironwood_part,
  finalize_signature_hash_from_transparent_digest, finalize_signature_hash,
  compute_no_transparent_input_signature_digest, compute_transparent_input_signature_digest,
  compute_shielded_signature_digest,
}

-- A hash whose operations succeed: `fed` reads the personalization and the bytes off a state.
pub record IsStreaming {H : Type 0} (ops : HashOps H) (blake : Bytes → Bytes → Bytes) : Type 0 where
  pub fed : H → Bytes × Bytes
  pub starts : (p : Bytes) → (h : H) × (ops.init_with_perso p ≡ some h) × (fed h ≡ (p, []))
  pub feeds :
      (h : H) (b : Bytes)
      → (h' : H) × (ops.update h b ≡ some h') × (fed h' ≡ ((fed h).0, (fed h).1 ++ b))
  pub ends : (h : H) → (h' : H) × (ops.finalize h ≡ some (blake (fed h).0 (fed h).1, h'))

abbrev pub contents : List (Bytes × ParserSourceError) → Bytes
contents [] = []
contents ((b, e) ∷ parts) = b ++ contents parts

module _ {H : Type 0} (ops : HashOps H) (blake : Bytes → Bytes → Bytes)
    (is : IsStreaming ops blake) where
  feed_lem :
      (h : H) (parts : List (Bytes × ParserSourceError))
      → (h' : H) × (feed ops h parts ≡ ok h')
        × (is.fed h' ≡ ((is.fed h).0, (is.fed h).1 ++ contents parts))
  unfolding feed
  feed_lem h [] = (h, refl, ap (λ t. ((is.fed h).0, t)) (sym (append-nil (is.fed h).1)))
  feed_lem h ((b, e) ∷ parts) =
      let (h1, eq1, f1) = is.feeds h b in
      let (h2, eq2, f2) = feed_lem h1 parts in
      (h2, rw eq1 eq2, f2 ∙ rw (f1, append_assoc (is.fed h).1 b (contents parts)))

  pub digest_lem :
      (perso : Bytes) (parts : List (Bytes × ParserSourceError))
      → digest ops perso parts ≡ ok (blake perso (contents parts))
  unfolding digest
  digest_lem perso parts =
      let (h, start, f0) = is.starts perso in
      let (h1, run, f1) = feed_lem h parts in
      let (h2, stop) = is.ends h1 in rw (start, run, stop, f1, f0)

  transparent_signature_digest_lem :
      (info : TxInfo) (mode : SighHashComputeMode)
      → transparent_signature_digest ops info mode sighash_all
        ≡ ok (transparent_node blake info mode)
  unfolding transparent_signature_digest transparent_node
  transparent_signature_digest_lem info no_transparent_inputs_or_outputs = rw digest_lem
  transparent_signature_digest_lem info no_transparent_inputs = rw (digest_lem, append-nil)
  transparent_signature_digest_lem info (some_transparent_inputs txin) = rw (digest_lem, append-nil)

  same_transparent :
      (info : TxInfo) (mode : SighHashComputeMode) (header : Bytes)
      → transparent_node blake
          (record info { sighash_type = sighash_all; header_digest = header })
          mode
        ≡ transparent_node blake info mode
  unfolding transparent_node
  same_transparent info no_transparent_inputs_or_outputs header = refl
  same_transparent info no_transparent_inputs header = refl
  same_transparent info (some_transparent_inputs txin) header = refl

  empty_digest_lem : (perso : Bytes) → empty_digest ops perso ≡ ok (blake perso [])
  unfolding empty_digest
  empty_digest_lem perso = rw digest_lem

  module _ (write_version : TxVersion → Bytes) (v5_personalization : Bytes) where
    header_contents :
        (info : TxInfo) (version : TxVersion) (branch_id : ℕ) (is_six : Bool)
        → info.is_v6 ≡ is_six
        → contents (
            header_prefix ops write_version v5_personalization info version branch_id
            ++ (le32 info.locktime, hash) ∷ (le32 info.expiry_height, hash) ∷ [])
          ≡ (if is_six
              then le32 (v6_tx_version + overwintered_flag)
                ++ (le32 v6_version_group_id ++ le32 info.branch_id_raw)
              else write_version version ++ le32 branch_id)
            ++ (le32 info.locktime ++ le32 info.expiry_height)
    unfolding header_prefix
    header_contents info version branch_id true e = rw e
    header_contents info version branch_id false e = rw (e, append_assoc)

    compute_header_digest_lem :
        (info : TxInfo) (version : TxVersion) (branch_id : ℕ)
        → info.tx_version ≡ some version
        → info.branch_id ≡ some branch_id
        → compute_header_digest ops write_version v5_personalization info
          ≡ ok (record info {
            header_digest = header_node blake write_version info version branch_id;
          })
    unfolding compute_header_digest header_node
    compute_header_digest_lem info version branch_id ev eb =
        let h = digest_lem zcash_headers_hash_personalization (
          header_prefix ops write_version v5_personalization info version branch_id
          ++ (le32 info.locktime, hash) ∷ (le32 info.expiry_height, hash) ∷ []) in
        rw (ev, eb, h, header_contents info version branch_id info.is_v6 refl)

    orchard_lem :
        (info : TxInfo)
        → orchard_digest_or_empty ops write_version v5_personalization info
          ≡ ok (orchard_node blake v5_personalization info)
    unfolding orchard_digest_or_empty orchard_node
    orchard_lem info = elim (Bool-cases (bytes_eq info.orchard_digest (replicate 32 0))) [
      | inl unset ↦ rw (unset, empty_digest_lem)
      | inr set ↦ rw set
    ]

    ironwood_lem :
        (info : TxInfo)
        → (parts : List (Bytes × ParserSourceError)) × (ironwood_part ops write_version
              v5_personalization info
            ≡ ok parts)
          × (contents parts ≡ ironwood_node blake info)
    unfolding ironwood_part ironwood_node
    ironwood_lem info = elim (Bool-cases info.is_v6) [
      | inr not_six ↦ ([], rw not_six, rw not_six)
      | inl is_six ↦ elim (Bool-cases info.has_ironwood_bundle) [
        | inl has ↦
            ((info.ironwood_digest, hash) ∷ [], rw (is_six, has), rw (is_six, has, append-nil))
        | inr hasnt ↦ (
          (blake zcash_ironwood_hash_personalization [], hash) ∷ [],
          rw (is_six, hasnt, empty_digest_lem),
          rw (is_six, hasnt, append-nil),
        )
      ]
    ]

    from_transparent_lem :
        (info : TxInfo) (branch_id : ℕ) (transparent : Bytes)
        → info.branch_id ≡ some branch_id
        → finalize_signature_hash_from_transparent_digest ops write_version v5_personalization info
            transparent
          ≡ ok (record info {
            signature_digest =
                signature_root blake v5_personalization info branch_id info.header_digest
                  transparent;
          })
    unfolding finalize_signature_hash_from_transparent_digest signature_root orchard_node
        ironwood_node
    from_transparent_lem info branch_id transparent eb =
        let (parts, found, same) = ironwood_lem info in
        rw (
          eb,
          empty_digest_lem zcash_sapling_hash_personalization,
          orchard_lem info,
          found,
          digest_lem,
          same,
        )

    finalize_signature_hash_lem :
        (info : TxInfo) (version : TxVersion) (branch_id : ℕ) (mode : SighHashComputeMode)
        → info.tx_version ≡ some version
        → info.branch_id ≡ some branch_id
        → finalize_signature_hash ops write_version v5_personalization
            (record info { sighash_type = sighash_all })
            mode
            sighash_all
          ≡ ok (signed blake write_version v5_personalization info version branch_id mode)
    unfolding finalize_signature_hash signed header_node signature_root orchard_node ironwood_node
    finalize_signature_hash_lem info version branch_id mode ev eb =
        let start = record info { sighash_type = sighash_all } in
        let header = header_node blake write_version info version branch_id in
        let hashed_header : TxInfo = record start { header_digest = header } in
        let transparent = transparent_node blake info mode in
        rw (
          compute_header_digest_lem start version branch_id ev eb,
          transparent_signature_digest_lem hashed_header mode,
          same_transparent info mode header,
          from_transparent_lem hashed_header branch_id transparent eb,
        )

    -- Over a streaming hash: of a transaction with a version and a branch, the shielded signature
    -- digest is the root of the digest tree for `SIGHASH_ALL` with no transparent input signed,
    -- whatever type of signature the transaction held.
    pub compute_shielded_signature_digest_lem :
        (info : TxInfo) (version : TxVersion) (branch_id inputs outputs : ℕ)
        → info.tx_version ≡ some version
        → info.branch_id ≡ some branch_id
        → compute_shielded_signature_digest ops write_version v5_personalization info inputs outputs
          ≡ ok (
              signed blake write_version v5_personalization info version branch_id
                (shielded_mode blake inputs outputs))
    unfolding compute_shielded_signature_digest compute_no_transparent_input_signature_digest
        compute_transparent_input_signature_digest empty_txin_signature_digest shielded_mode
    compute_shielded_signature_digest_lem info version branch_id zero zero ev eb =
        finalize_signature_hash_lem info version branch_id no_transparent_inputs_or_outputs ev eb
    compute_shielded_signature_digest_lem info version branch_id zero (suc outputs) ev eb =
        let some_output : (suc outputs == 0) ≡ false = ground arith in
        rw some_output
          (finalize_signature_hash_lem info version branch_id no_transparent_inputs ev eb)
    compute_shielded_signature_digest_lem info version branch_id (suc inputs) outputs ev eb =
        let some_input : (suc inputs == 0) ≡ false = ground arith in
        rw (some_input, empty_digest_lem zcash_transparent_input_hash_personalization)
          (finalize_signature_hash_lem info version branch_id
            (some_transparent_inputs (blake zcash_transparent_input_hash_personalization [])) ev eb)

    -- Over a streaming hash: of a transaction with a version and a branch, the SIGHASH_ALL digest
    -- for a transparent input is the root of the digest tree for that input's digest.
    pub compute_transparent_input_signature_digest_lem :
        (info : TxInfo) (version : TxVersion) (branch_id : ℕ) (txin : Bytes)
        → info.tx_version ≡ some version
        → info.branch_id ≡ some branch_id
        → compute_transparent_input_signature_digest ops write_version v5_personalization info txin
            sighash_all
          ≡ ok (
              signed blake write_version v5_personalization info version branch_id
                (some_transparent_inputs txin))
    unfolding compute_transparent_input_signature_digest
    compute_transparent_input_signature_digest_lem info version branch_id txin ev eb =
        finalize_signature_hash_lem info version branch_id (some_transparent_inputs txin) ev eb
