-- ===== src/Digest/Total.antt =====
-- src/parser/compute.rs: the computations of digests end with a digest or with an error of the
-- program.
use app_zcash.Base.{
  ℕ, ◌≡◌, refl, Bool, true, ◌&&◌, not, List, [], ◌∷◌, ◌++◌, some, if◌then◌else◌, ok, err, ◌>>=◌,
  ◌∙◌, ◌==◌, replicate, arith, Bool-cases, inl, inr,
}
use app_zcash.Tx.Declared.{declared_of}
use app_zcash.Base.Bytes.{Bytes, bytes_eq}
use app_zcash.Sdk.{HashOps}
use app_zcash.Tx.{TxInfo, TxVersion}
use app_zcash.Personalization.{
  zcash_headers_hash_personalization, zcash_tx_personalization_prefix,
  zcash_sapling_hash_personalization, zcash_ironwood_hash_personalization,
  zcash_transparent_hash_personalization,
}
use app_zcash.ParserError.{
  ParserSourceError, Parsed, Ensures, Ensures-bind, Ensures-try_ok, Ensures-if, is_stuck, hash,
}
use app_zcash.Digest.{
  le32, hashed, SighHashComputeMode, no_transparent_inputs_or_outputs, no_transparent_inputs,
  some_transparent_inputs, feed, digest, empty_digest, header_prefix, compute_header_digest,
  orchard_digest_or_empty, ironwood_part, transparent_signature_digest,
  finalize_signature_hash_from_transparent_digest, finalize_signature_hash, expect,
  compute_no_transparent_input_signature_digest, compute_transparent_input_signature_digest,
}

-- The errors of a run of writes are the program's.
abbrev pub fails_softly : List (Bytes × ParserSourceError) → Bool
fails_softly [] = true
fails_softly ((b, e) ∷ parts) = not (is_stuck e) && fails_softly parts

abbrev pub Anything : {A : Type 0} → A → Type 0
Anything a = Unit

module _ {A B : Type 0} (Q : B → Type 0) where
  pub Ensures-ok :
      (m : Parsed A) (f : A → Parsed B) (a : A) → m ≡ ok a → Ensures Q (f a) → Ensures Q (m >>= f)
  Ensures-ok m f a e h = rw e h

module _ {A : Type 0} (P Q : A → Type 0) where
  pub Ensures-map : (m : Parsed A) → Ensures P m → ((a : A) → P a → Ensures Q (ok a)) → Ensures Q m
  Ensures-map (ok a) h k = k a h
  Ensures-map (err e) h k = h

module _ {H : Type 0} (blake : HashOps H) where
  pub feed-Anything :
      (h : H) (parts : List (Bytes × ParserSourceError))
      → fails_softly parts ≡ true
      → Ensures Anything (feed blake h parts)
  unfolding feed
  feed-Anything h [] soft = tt
  feed-Anything h ((b, e) ∷ parts) soft =
      Ensures-try_ok Anything (blake.update h b) e _ (ground arith)
        λ h' eh. feed-Anything h' parts (ground arith)

  pub digest-Anything :
      (perso : Bytes) (parts : List (Bytes × ParserSourceError))
      → fails_softly parts ≡ true
      → Ensures Anything (digest blake perso parts)
  unfolding digest
  digest-Anything perso parts soft =
      Ensures-try_ok Anything (blake.init_with_perso perso) hash _ refl λ h eh.
        Ensures-bind Anything Anything (feed blake h parts) _ (feed-Anything h parts soft)
          λ h' eh' t. Ensures-try_ok Anything (blake.finalize h') hash _ refl λ s es. tt

  pub empty_digest-Anything : (perso : Bytes) → Ensures Anything (empty_digest blake perso)
  unfolding empty_digest
  empty_digest-Anything perso = digest-Anything perso [] refl

  pub transparent_signature_digest-Anything :
      (info : TxInfo) (mode : SighHashComputeMode) (sighash : ℕ)
      → Ensures Anything (transparent_signature_digest blake info mode sighash)
  unfolding transparent_signature_digest
  transparent_signature_digest-Anything info no_transparent_inputs_or_outputs sighash =
      digest-Anything zcash_transparent_hash_personalization [] refl
  transparent_signature_digest-Anything info no_transparent_inputs sighash =
      digest-Anything zcash_transparent_hash_personalization
        (hashed info.prevouts_hash ∷ hashed info.sequence_hash ∷ hashed info.outputs_hash ∷ []) refl
  transparent_signature_digest-Anything info (some_transparent_inputs d) sighash =
      digest-Anything zcash_transparent_hash_personalization
        (hashed (sighash ∷ [])
          ∷ hashed info.prevouts_hash
          ∷ hashed info.amounts_hash
          ∷ hashed info.scripts_hash
          ∷ hashed info.sequence_hash
          ∷ hashed info.outputs_hash
          ∷ hashed d
          ∷ [])
        refl

-- What the header said of the version, and what is reviewed, is kept.
pub record IsSameVersion (info info' : TxInfo) : Type 0 where
  pub version : info'.tx_version ≡ info.tx_version
  pub branch : info'.branch_id ≡ info.branch_id
  pub v6_flag : info'.is_v6 ≡ info.is_v6
  pub declared : declared_of info' ≡ declared_of info
  pub fees : info'.fees ≡ info.fees
  pub locktime : info'.locktime ≡ info.locktime
  pub expiry : info'.expiry_height ≡ info.expiry_height

-- A header was read: `expect`s on the version and the branch do not panic.
abbrev pub HasHeader : TxInfo → Type 0
HasHeader info =
    ((v : TxVersion) × (info.tx_version ≡ some v)) × ((b : ℕ) × (info.branch_id ≡ some b))

module _ {H : Type 0} (blake : HashOps H) (write_version : TxVersion → Bytes)
    (orchard_v5 : Bytes) where
  header_prefix-soft :
      (info : TxInfo) (v : TxVersion) (b : ℕ) (rest : List (Bytes × ParserSourceError))
      → fails_softly rest ≡ true
      → fails_softly (header_prefix blake write_version orchard_v5 info v b ++ rest) ≡ true
  unfolding header_prefix
  header_prefix-soft info v b rest h = elim (Bool-cases info.is_v6) [
    | inl e ↦ rw (e, h)
    | inr e ↦ rw (e, h)
  ]

  pub compute_header_digest-IsSameVersion :
      (info : TxInfo)
      → HasHeader info
      → Ensures (IsSameVersion info) (compute_header_digest blake write_version orchard_v5 info)
  unfolding compute_header_digest
  compute_header_digest-IsSameVersion info ((v, ev), (b, eb)) =
      let Q = IsSameVersion info in
      Ensures-ok Q (expect info.tx_version) _ v (rw ev refl) (
        Ensures-ok Q (expect info.branch_id) _ b (rw eb refl) (
          Ensures-bind Anything Q
            (digest blake zcash_headers_hash_personalization (
              header_prefix blake write_version orchard_v5 info v b
              ++ hashed (le32 info.locktime) ∷ hashed (le32 info.expiry_height) ∷ []))
            _
            (digest-Anything blake zcash_headers_hash_personalization
              (header_prefix blake write_version orchard_v5 info v b
                ++ hashed (le32 info.locktime) ∷ hashed (le32 info.expiry_height) ∷ [])
              (header_prefix-soft info v b
                (hashed (le32 info.locktime) ∷ hashed (le32 info.expiry_height) ∷ []) refl))
            λ d ed t. record {
              version = refl;
              branch = refl;
              v6_flag = refl;
              declared = refl;
              fees = refl;
              locktime = refl;
              expiry = refl;
            }))

  orchard_digest_or_empty-Anything :
      (info : TxInfo)
      → Ensures Anything (orchard_digest_or_empty blake write_version orchard_v5 info)
  unfolding orchard_digest_or_empty
  orchard_digest_or_empty-Anything info =
      Ensures-if Anything (bytes_eq info.orchard_digest (replicate 32 0)) _ _
        (λ e. empty_digest-Anything blake _) (λ e. tt)

  ironwood_part-soft :
      (info : TxInfo)
      → Ensures (λ ps. fails_softly ps ≡ true) (ironwood_part blake write_version orchard_v5 info)
  unfolding ironwood_part
  ironwood_part-soft info =
      let Q : List (Bytes × ParserSourceError) → Type 0 = λ ps. fails_softly ps ≡ true in
      Ensures-if Q info.is_v6 _ _
        (λ e.
          Ensures-bind Anything Q
            (if info.has_ironwood_bundle
              then ok info.ironwood_digest
              else empty_digest blake zcash_ironwood_hash_personalization)
            _
            (Ensures-if Anything info.has_ironwood_bundle _ _ (λ h. tt)
              λ h. empty_digest-Anything blake zcash_ironwood_hash_personalization)
            λ d ed t. refl)
        λ e. refl

  from_transparent_digest-IsSameVersion :
      (info : TxInfo) (d : Bytes)
      → HasHeader info
      → Ensures
          (IsSameVersion info)
          (finalize_signature_hash_from_transparent_digest blake write_version orchard_v5 info d)
  unfolding finalize_signature_hash_from_transparent_digest
  from_transparent_digest-IsSameVersion info d (hv, (b, eb)) =
      let Q = IsSameVersion info in
      Ensures-ok Q (expect info.branch_id) _ b (rw eb refl) (
        Ensures-bind Anything Q (empty_digest blake zcash_sapling_hash_personalization) _
          (empty_digest-Anything blake zcash_sapling_hash_personalization)
          λ s es t.
            Ensures-bind Anything Q (orchard_digest_or_empty blake write_version orchard_v5 info) _
              (orchard_digest_or_empty-Anything info)
              λ o eo t'.
                Ensures-bind (λ ps. fails_softly ps ≡ true) Q
                  (ironwood_part blake write_version orchard_v5 info) _ (ironwood_part-soft info)
                  λ ps ep soft.
                    Ensures-bind Anything Q
                      (digest blake (zcash_tx_personalization_prefix ++ le32 b)
                        (hashed info.header_digest ∷ hashed d ∷ hashed s ∷ hashed o ∷ ps))
                      _
                      (digest-Anything blake (zcash_tx_personalization_prefix ++ le32 b)
                        (hashed info.header_digest ∷ hashed d ∷ hashed s ∷ hashed o ∷ ps) soft)
                      λ x ex t''. record {
                        version = refl;
                        branch = refl;
                        v6_flag = refl;
                        declared = refl;
                        fees = refl;
                        locktime = refl;
                        expiry = refl;
                      })

  finalize_signature_hash-IsSameVersion :
      (info : TxInfo) (mode : SighHashComputeMode) (sighash : ℕ)
      → HasHeader info
      → Ensures
          (IsSameVersion info)
          (finalize_signature_hash blake write_version orchard_v5 info mode sighash)
  unfolding finalize_signature_hash
  finalize_signature_hash-IsSameVersion info mode sighash ((v, ev), (b, eb)) =
      let Q = IsSameVersion info in
      Ensures-bind Q Q (compute_header_digest blake write_version orchard_v5 info) _
        (compute_header_digest-IsSameVersion info ((v, ev), (b, eb)))
        λ info1 e1 same.
          Ensures-bind Anything Q (transparent_signature_digest blake info1 mode sighash) _
            (transparent_signature_digest-Anything blake info1 mode sighash)
            λ d ed t.
              Ensures-map (IsSameVersion info1) Q
                (finalize_signature_hash_from_transparent_digest blake write_version orchard_v5
                  info1 d)
                (from_transparent_digest-IsSameVersion info1 d
                  ((v, same.version ∙ ev), (b, same.branch ∙ eb)))
                λ info2 next. record {
                  version = next.version ∙ same.version;
                  branch = next.branch ∙ same.branch;
                  v6_flag = next.v6_flag ∙ same.v6_flag;
                  declared = next.declared ∙ same.declared;
                  fees = next.fees ∙ same.fees;
                  locktime = next.locktime ∙ same.locktime;
                  expiry = next.expiry ∙ same.expiry;
                }

  pub compute_no_transparent_input_signature_digest-IsSameVersion :
      (info : TxInfo) (outputs sighash : ℕ)
      → HasHeader info
      → Ensures (IsSameVersion info) (
          compute_no_transparent_input_signature_digest blake write_version orchard_v5 info outputs
            sighash)
  unfolding compute_no_transparent_input_signature_digest
  compute_no_transparent_input_signature_digest-IsSameVersion info outputs sighash has =
      Ensures-map (IsSameVersion (record info { sighash_type = sighash })) (IsSameVersion info) _
        (finalize_signature_hash-IsSameVersion (record info { sighash_type = sighash })
          (if outputs == 0 then no_transparent_inputs_or_outputs else no_transparent_inputs) sighash
          has)
        λ i same. record {
          version = same.version;
          branch = same.branch;
          v6_flag = same.v6_flag;
          declared = same.declared;
          fees = same.fees;
          locktime = same.locktime;
          expiry = same.expiry;
        }

  pub compute_transparent_input_signature_digest-IsSameVersion :
      (info : TxInfo) (d : Bytes) (sighash : ℕ)
      → HasHeader info
      → Ensures
          (IsSameVersion info)
          (compute_transparent_input_signature_digest blake write_version orchard_v5 info d sighash)
  unfolding compute_transparent_input_signature_digest
  compute_transparent_input_signature_digest-IsSameVersion info d sighash has =
      Ensures-map (IsSameVersion (record info { sighash_type = sighash })) (IsSameVersion info) _
        (finalize_signature_hash-IsSameVersion (record info { sighash_type = sighash })
          (some_transparent_inputs d) sighash has)
        λ i same. record {
          version = same.version;
          branch = same.branch;
          v6_flag = same.v6_flag;
          declared = same.declared;
          fees = same.fees;
          locktime = same.locktime;
          expiry = same.expiry;
        }
