-- ===== src/Reader/Unread.antt =====
-- The cursor of src/parser/reader.rs as the bytes that it has not read. The parsers of the model run
-- on those.
use app_zcash.Base.{
  ℕ, zero, suc, ◌-◌, ◌≤◌, ◌≡◌, sym, ap, ◌∙◌, min, true, false, [], ◌∷◌, if◌then◌else◌, ltb, ◌==◌,
  length, take, drop, Result, ok, err, arith, length-drop, length-take, drop-drop, Bool-cases, inl,
  inr, Option, none, some,
}
use app_zcash.Base.Bytes.{Bytes}
use app_zcash.Reader.{
  ByteReader, IoErrorKind, remaining_len, remaining_slice, advance, read, read_exact,
}

-- `read_exact` on the unread bytes.
abbrev pub take_exact : ℕ → Bytes → Option (Bytes × Bytes)
take_exact n unread = if ltb (length unread) n then none else some (take n unread, drop n unread)

abbrev pub IsReader : ByteReader → Type 0
IsReader r = r.pos ≤ length r.buf

-- What a view of the unread bytes keeps of a result.
abbrev viewed : Result IoErrorKind (Bytes × ByteReader) → Option (Bytes × Bytes)
viewed (ok (bytes, r)) = some (bytes, remaining_slice r)
viewed (err e) = none

-- `advance` on the unread bytes.
abbrev pub skip_exact : ℕ → Bytes → Option Bytes
skip_exact n unread = if ltb (length unread) n then none else some (drop n unread)

abbrev skipped : Result IoErrorKind ByteReader → Option Bytes
skipped (ok r) = some (remaining_slice r)
skipped (err e) = none

-- A cursor that implements the view: its length, a partial read, an exact read and a skip are those
-- of the unread bytes, and a partial read does not pass the end.
pub record Refines (r : ByteReader) : Type 0 where
  pub len : remaining_len r ≡ length (remaining_slice r)
  pub part : (n : ℕ) → (read r n).0 ≡ take n (remaining_slice r)
  pub rest : (n : ℕ) → remaining_slice (read r n).1 ≡ drop n (remaining_slice r)
  pub exact : (n : ℕ) → viewed (read_exact r n) ≡ take_exact n (remaining_slice r)
  pub kept : (n : ℕ) → IsReader (read r n).1
  pub skip : (n : ℕ) → skipped (advance r n) ≡ skip_exact n (remaining_slice r)

take-min : (n : ℕ) (xs : Bytes) → take (min (length xs) n) xs ≡ take n xs
take-min zero xs = let e : min (length xs) 0 ≡ 0 = omega arith in rw e
take-min (suc n) [] = let e : min 0 (suc n) ≡ 0 = omega arith in rw e
take-min (suc n) (x ∷ xs) =
    let e : min (suc (length xs)) (suc n) ≡ suc (min (length xs) n) = omega arith in
    rw e (ap (λ t. x ∷ t) (take-min n xs))

drop-min : (n : ℕ) (xs : Bytes) → drop (min (length xs) n) xs ≡ drop n xs
drop-min zero xs = let e : min (length xs) 0 ≡ 0 = omega arith in rw e
drop-min (suc n) [] = let e : min 0 (suc n) ≡ 0 = omega arith in rw e
drop-min (suc n) (x ∷ xs) =
    let e : min (suc (length xs)) (suc n) ≡ suc (min (length xs) n) = omega arith in
    rw e (drop-min n xs)

module _ (r : ByteReader) (h : IsReader r) where
  unread_len : length r.buf - r.pos ≡ length (drop r.pos r.buf)
  unread_len = sym (length-drop r.pos r.buf)

  read_part : (n : ℕ) → (read r n).0 ≡ take n (remaining_slice r)
  unfolding read remaining_slice
  read_part n = rw unread_len (take-min n (drop r.pos r.buf))

  read_rest : (n : ℕ) → remaining_slice (read r n).1 ≡ drop n (remaining_slice r)
  unfolding read remaining_slice
  read_rest n =
      sym (drop-drop (min (length r.buf - r.pos) n) r.pos r.buf)
      ∙ ap (λ k. drop (min k n) (drop r.pos r.buf)) unread_len
      ∙ drop-min n (drop r.pos r.buf)

  read_exact_view : (n : ℕ) → viewed (read_exact r n) ≡ take_exact n (remaining_slice r)
  unfolding read_exact remaining_slice
  read_exact_view n =
      let s = drop r.pos r.buf in
      let rest = read_rest n in
      elim (Bool-cases (ltb (length s) n)) [
        | inl short ↦
            let few : (length (take n s) == n) ≡ false = ground (arith, length-take n s) in
            rw (unread_len, take-min n s, few, short)
        | inr enough ↦
            let all : (length (take n s) == n) ≡ true = ground (arith, length-take n s) in
            rw (unread_len, take-min n s, all, enough)
              (ap (λ t. some (take n s, t)) (rw unread_len at rest))
      ]

  skip_view : (n : ℕ) → skipped (advance r n) ≡ skip_exact n (remaining_slice r)
  unfolding advance remaining_slice
  skip_view n =
      let s = drop r.pos r.buf in
      elim (Bool-cases (ltb (length s) n)) [
        | inl short ↦ rw (unread_len, short)
        | inr enough ↦ rw (unread_len, enough) (ap some (sym (drop-drop n r.pos r.buf)))
      ]

  -- A cursor within its data implements the view of its unread bytes.
  pub ByteReader-Refines : Refines r
  ByteReader-Refines = record {
    len = unfold remaining_len remaining_slice in unread_len;
    part = read_part;
    rest = read_rest;
    exact = read_exact_view;
    kept = λ n. unfold read in omega arith;
    skip = skip_view;
  }
