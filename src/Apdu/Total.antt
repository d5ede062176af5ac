-- ===== src/Apdu/Total.antt =====
-- Which headers `TryFrom<ApduHeader>` of src/main.rs takes, and for which instructions.
use app_zcash.Base.{
  ℕ, ◌≡◌, ◌↔◌, inl, inr, refl, sym, ap, subst, ◌∙◌, Bool, true, false, ◌&&◌, ◌||◌, ◌==◌, ltb,
  if◌then◌else◌, Result, ok, err, arith, ==_iff,
}
use app_zcash.Status.{AppSw, wrong_p1p2, ins_not_supported}
use app_zcash.Apdu.{
  ApduHeader, Instruction, get_version, get_pubkey, get_shielded_addr, get_vk, get_trusted_input,
  hash_input_start, hash_finalize_full, hash_sign, pczt_header, pczt_transparent_input,
  pczt_transparent_output, pczt_orchard_action, pczt_sign_transparent, pczt_sign_orchard,
  pczt_ironwood_action, pczt_sign_ironwood, pczt_invalid, try_from, dispatch_legacy,
}
use app_zcash.Apdu.Headers.{IsNamed, header, header_of, Spells}
use app_zcash.Apdu.Arms.{
  Legacy, Pczt, version_arm, pubkey_arm, vk_arm, addr_arm, trusted_arm, start_arm, finalize_arm,
  sign_arm, header_arm, transparent_arm, action_arm, index_arm,
}

pub try_from-header_of : (i : Instruction) → IsNamed i → try_from (header_of i) ≡ ok i
unfolding try_from
try_from-header_of get_version h = refl
try_from-header_of (get_pubkey d) h = ground arith
try_from-header_of (get_shielded_addr d m) h = ground arith
try_from-header_of (get_vk m c) h = ground arith
try_from-header_of (get_trusted_input f n) h = ground arith
try_from-header_of (hash_input_start f c) h = ground arith
try_from-header_of (hash_finalize_full c) h = ground arith
try_from-header_of hash_sign h = refl
try_from-header_of pczt_header h = refl
try_from-header_of (pczt_transparent_input f l) h = ground arith
try_from-header_of (pczt_transparent_output f l) h = ground arith
try_from-header_of (pczt_orchard_action f l n) h = ground arith
try_from-header_of (pczt_sign_transparent i) h = ground arith
try_from-header_of (pczt_sign_orchard i) h = ground arith
try_from-header_of (pczt_ironwood_action f l n) h = ground arith
try_from-header_of (pczt_sign_ironwood i) h = ground arith
try_from-header_of (pczt_invalid s) h = absurd h

abbrev pub is_pczt_ins : ℕ → Bool
is_pczt_ins ins = ltb 0x51 ins && ltb ins 0x5A

abbrev pub is_legacy_ins : ℕ → Bool
is_legacy_ins ins =
    ins == 0xC4
    || ins == 0x40
    || ins == 0x50
    || ins == 0x51
    || ins == 0x42
    || ins == 0x44
    || ins == 0x4A
    || ins == 0x48

-- What the reader may answer for the three bytes of a header.
pub data IsAnswer (ins p1 p2 : ℕ) (r : Result AppSw Instruction) : Type 0 where
  named : (i : Instruction) → IsNamed i → Spells i ins p1 p2 → r ≡ ok i → IsAnswer ins p1 p2 r
  bad_pczt : is_pczt_ins ins ≡ true → r ≡ ok (pczt_invalid wrong_p1p2) → IsAnswer ins p1 p2 r
  bad_legacy : is_legacy_ins ins ≡ true → r ≡ err wrong_p1p2 → IsAnswer ins p1 p2 r
  unknown :
      is_pczt_ins ins ≡ false
      → is_legacy_ins ins ≡ false
      → r ≡ err ins_not_supported
      → IsAnswer ins p1 p2 r

arm-IsAnswer :
    (ins n p1 p2 : ℕ) (r : Result AppSw Instruction)
    → is_legacy_ins n ≡ true
    → Legacy n p1 p2 r
    → (ins == n) ≡ true
    → IsAnswer ins p1 p2 r
arm-IsAnswer ins n p1 p2 r k (inl (i, m, s, e)) h = named i m ((==_iff ins n).0 h ∙ s.0, s.1) e
arm-IsAnswer ins n p1 p2 r k (inr e) h = bad_legacy (rw ((==_iff ins n).0 h) k) e

arm_or_invalid-IsAnswer :
    (ins n p1 p2 : ℕ) (r : Result AppSw Instruction)
    → is_pczt_ins n ≡ true
    → Pczt n p1 p2 r
    → (ins == n) ≡ true
    → IsAnswer ins p1 p2 r
arm_or_invalid-IsAnswer ins n p1 p2 r k (inl (i, m, s, e)) h =
    named i m ((==_iff ins n).0 h ∙ s.0, s.1) e
arm_or_invalid-IsAnswer ins n p1 p2 r k (inr e) h = bad_pczt (rw ((==_iff ins n).0 h) k) e

IsAnswer-if :
    (ins p1 p2 : ℕ) (b : Bool) (x y : Result AppSw Instruction)
    → (b ≡ true → IsAnswer ins p1 p2 x)
    → (b ≡ false → IsAnswer ins p1 p2 y)
    → IsAnswer ins p1 p2 (if b then x else y)
IsAnswer-if ins p1 p2 true x y p q = p refl
IsAnswer-if ins p1 p2 false x y p q = q refl

dispatch_legacy-IsAnswer :
    (ins p1 p2 : ℕ) → is_pczt_ins ins ≡ false → IsAnswer ins p1 p2 (dispatch_legacy ins p1 p2)
unfolding dispatch_legacy
dispatch_legacy-IsAnswer ins p1 p2 other =
    IsAnswer-if ins p1 p2 (ins == 0xC4) _ _ (arm-IsAnswer ins 0xC4 p1 p2 _ refl (version_arm p1 p2))
      λ n1.
        IsAnswer-if ins p1 p2 (ins == 0x40) _ _
          (arm-IsAnswer ins 0x40 p1 p2 _ refl (pubkey_arm p1 p2))
          λ n2.
            IsAnswer-if ins p1 p2 (ins == 0x50) _ _
              (arm-IsAnswer ins 0x50 p1 p2 _ refl (vk_arm p1 p2))
              λ n3.
                IsAnswer-if ins p1 p2 (ins == 0x51) _ _
                  (arm-IsAnswer ins 0x51 p1 p2 _ refl (addr_arm p1 p2))
                  λ n4.
                    IsAnswer-if ins p1 p2 (ins == 0x42) _ _
                      (arm-IsAnswer ins 0x42 p1 p2 _ refl (trusted_arm p1 p2))
                      λ n5.
                        IsAnswer-if ins p1 p2 (ins == 0x44) _ _
                          (arm-IsAnswer ins 0x44 p1 p2 _ refl (start_arm p1 p2))
                          λ n6.
                            IsAnswer-if ins p1 p2 (ins == 0x4A) _ _
                              (arm-IsAnswer ins 0x4A p1 p2 _ refl (finalize_arm p1 p2))
                              λ n7.
                                IsAnswer-if ins p1 p2 (ins == 0x48) _ _
                                  (arm-IsAnswer ins 0x48 p1 p2 _ refl (sign_arm p1 p2))
                                  λ n8. unknown other (rw (n1, n2, n3, n4, n5, n6, n7, n8)) refl

-- Every header gets one of four answers: an instruction that can be named and that its three bytes
-- name; for a PCZT instruction
-- byte with other parameters, the instruction that resets the session; for another known byte, the
-- word for wrong parameters; for an unknown byte, the word for an unknown instruction.
pub try_from-IsAnswer : (h : ApduHeader) → IsAnswer h.ins h.p1 h.p2 (try_from h)
unfolding try_from
try_from-IsAnswer h =
    let ins = h.ins in
    let p1 = h.p1 in
    let p2 = h.p2 in
    IsAnswer-if ins p1 p2 (ins == 0x52) _ _
      (arm_or_invalid-IsAnswer ins 0x52 p1 p2 _ refl (header_arm p1 p2))
      λ n1.
        IsAnswer-if ins p1 p2 (ins == 0x53) _ _
          (arm_or_invalid-IsAnswer ins 0x53 p1 p2 _ refl (
            transparent_arm pczt_transparent_input 0x53 p1 p2 (λ f l h. h)
              (λ f l e e'. (refl, inl (e, e')))))
          λ n2.
            IsAnswer-if ins p1 p2 (ins == 0x54) _ _
              (arm_or_invalid-IsAnswer ins 0x54 p1 p2 _ refl (
                transparent_arm pczt_transparent_output 0x54 p1 p2 (λ f l h. h)
                  (λ f l e e'. (refl, inl (e, e')))))
              λ n3.
                IsAnswer-if ins p1 p2 (ins == 0x56) _ _
                  (arm_or_invalid-IsAnswer ins 0x56 p1 p2 _ refl (
                    action_arm pczt_orchard_action 0x56 p1 p2 (λ f l n h. h)
                      (λ f l n e e'. (refl, inl (e, e')))))
                  λ n4.
                    IsAnswer-if ins p1 p2 (ins == 0x55) _ _
                      (arm_or_invalid-IsAnswer ins 0x55 p1 p2 _ refl (
                        index_arm pczt_sign_transparent 0x55 p1 p2 (λ i h. h)
                          (λ e. (refl, inl (e, refl)))))
                      λ n5.
                        IsAnswer-if ins p1 p2 (ins == 0x57) _ _
                          (arm_or_invalid-IsAnswer ins 0x57 p1 p2 _ refl (
                            index_arm pczt_sign_orchard 0x57 p1 p2 (λ i h. h)
                              (λ e. (refl, inl (e, refl)))))
                          λ n6.
                            IsAnswer-if ins p1 p2 (ins == 0x58) _ _
                              (arm_or_invalid-IsAnswer ins 0x58 p1 p2 _ refl (
                                action_arm pczt_ironwood_action 0x58 p1 p2 (λ f l n h. h)
                                  (λ f l n e e'. (refl, inl (e, e')))))
                              λ n7.
                                IsAnswer-if ins p1 p2 (ins == 0x59) _ _
                                  (arm_or_invalid-IsAnswer ins 0x59 p1 p2 _ refl (
                                    index_arm pczt_sign_ironwood 0x59 p1 p2 (λ i h. h)
                                      (λ e. (refl, inl (e, refl)))))
                                  λ n8. dispatch_legacy-IsAnswer ins p1 p2 (ground arith)

same_header : (h k : ApduHeader) → h.ins ≡ k.ins → h.p1 ≡ k.p1 → h.p2 ≡ k.p2 → h ≡ k
same_header h k e e1 e2 = rw (e, e1, e2) refl

spelled_by :
    (i : Instruction) (h : ApduHeader) → Spells i h.ins h.p1 h.p2 → IsNamed i → try_from h ≡ ok i
spelled_by i h (e, inl (e1, e2)) m =
    rw (same_header h (header_of i) e e1 e2) (try_from-header_of i m)
spelled_by i h (e, inr (inl (start, e1, e2))) m =
    let e0 : h.ins ≡ 0x44 = e ∙ ap (λ t. (header_of t).ins) start in
    rw (start, same_header h (header 0x44 0x80 0x80) e0 e1 e2) (unfold try_from in refl)
spelled_by i h (e, inr (inr (finalize, e1, e2))) m =
    let e0 : h.ins ≡ 0x4A = e ∙ ap (λ t. (header_of t).ins) finalize in
    rw (finalize, same_header h (header 0x4A 0x80 0) e0 e1 e2) (unfold try_from in refl)

ok_same : (a b : Instruction) (s : Result AppSw Instruction) → s ≡ ok a → s ≡ ok b → a ≡ b
ok_same a b s e e' = ground (arith, sym e ∙ e')

-- A header is read as an instruction that can be named exactly when its three bytes name it.
pub try_from_iff :
    (h : ApduHeader) (i : Instruction) → IsNamed i → (try_from h ≡ ok i) ↔ Spells i h.ins h.p1 h.p2
try_from_iff h i m = (λ e. read_as (try_from-IsAnswer h) e, λ s. spelled_by i h s m)
  where
    read_as : IsAnswer h.ins h.p1 h.p2 (try_from h) → try_from h ≡ ok i → Spells i h.ins h.p1 h.p2
    read_as (named j k s e) e' = subst (λ t. Spells t h.ins h.p1 h.p2) (ok_same j i _ e e') s
    read_as (bad_pczt k e) e' =
        absurd (subst IsNamed (sym (ok_same (pczt_invalid wrong_p1p2) i _ e e')) m)
    read_as (bad_legacy k e) e' = absurd (ground (arith, sym e ∙ e'))
    read_as (unknown k k' e) e' = absurd (ground (arith, sym e ∙ e'))
