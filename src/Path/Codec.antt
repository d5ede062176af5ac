-- ===== src/Path/Codec.antt =====
-- What the readers of src/utils/bip32_path.rs accept, against an encoder of paths.
use app_zcash.Base.{
  ℕ, zero, suc, ◌+◌, ◌-◌, ◌*◌, ◌/◌, ◌%◌, ◌^◌, ◌≤◌, ◌<◌, ◌≡◌, refl, ap, ◌∙◌, List, [], ◌∷◌, ◌++◌,
  length, take, drop, replicate, length-append, length-take, take-append, drop-append,
  take-append-drop, take-all, ◌⊎◌, take-copy_prefix, copy_prefix, All, All-take, ok, err, arith,
  ltb, ◌||◌, Bool-cases, inl, inr, false,
}
use app_zcash.Base.Bytes.{Bytes, IsByte, IsU32, be_u32, to_be_u32}
use app_zcash.Path.{
  Bip32Path, as_slice, as_chunks, from_dpath, from_prefixed_bytes, max_zcash_bip32_path,
}
use app_zcash.Status.{wrong_apdu_length}

-- The components, each as four bytes, highest first.
abbrev pub encode_components : List ℕ → Bytes
encode_components [] = []
encode_components (c ∷ cs) = to_be_u32 c ++ encode_components cs

abbrev pub encode_path : List ℕ → Bytes
encode_path cs = length cs ∷ encode_components cs

length-encode_components : (cs : List ℕ) → length (encode_components cs) ≡ length cs * 4
length-encode_components [] = refl
length-encode_components (c ∷ cs) = omega (arith, length-encode_components cs)

be_u32-to_be_u32 :
    (c : ℕ) → IsU32 c → be_u32 (c / 2 ^ 24 % 256) (c / 2 ^ 16 % 256) (c / 2 ^ 8 % 256) (c % 256) ≡ c
be_u32-to_be_u32 c h = omega arith

to_be_u32-be_u32 :
    (a b c d : ℕ)
    → IsByte a
    → IsByte b
    → IsByte c
    → IsByte d
    → to_be_u32 (be_u32 a b c d) ≡ a ∷ b ∷ c ∷ d ∷ []
to_be_u32-be_u32 a b c d ha hb hc hd = grind arith

as_chunks-encode_components : (cs : List ℕ) → All IsU32 cs → as_chunks (encode_components cs) ≡ cs
unfolding as_chunks
as_chunks-encode_components [] h = refl
as_chunks-encode_components (c ∷ cs) (hc, hcs) =
    rw (be_u32-to_be_u32 c hc) (ap (λ t. c ∷ t) (as_chunks-encode_components cs hcs))

encode_components-as_chunks :
    (n : ℕ) (bs : Bytes) → length bs ≡ n * 4 → All IsByte bs → encode_components (as_chunks bs) ≡ bs
unfolding as_chunks
encode_components-as_chunks n [] e h = refl
encode_components-as_chunks n (a ∷ []) e h = absurd (omega arith)
encode_components-as_chunks n (a ∷ b ∷ []) e h = absurd (omega arith)
encode_components-as_chunks n (a ∷ b ∷ c ∷ []) e h = absurd (omega arith)
encode_components-as_chunks zero (a ∷ b ∷ c ∷ d ∷ bs) e h = absurd (omega arith)
encode_components-as_chunks (suc n) (a ∷ b ∷ c ∷ d ∷ bs) e (ha, (hb, (hc, (hd, hbs)))) =
    ap (λ t. t ++ encode_components (as_chunks bs)) (to_be_u32-be_u32 a b c d ha hb hc hd)
    ∙ ap (λ t. a ∷ b ∷ c ∷ d ∷ t) (encode_components-as_chunks n bs (omega arith) hbs)

length-as_chunks : (n : ℕ) (bs : Bytes) → length bs ≡ n * 4 → length (as_chunks bs) ≡ n
unfolding as_chunks
length-as_chunks zero [] e = refl
length-as_chunks (suc n) [] e = absurd (omega arith)
length-as_chunks n (a ∷ []) e = absurd (omega arith)
length-as_chunks n (a ∷ b ∷ []) e = absurd (omega arith)
length-as_chunks n (a ∷ b ∷ c ∷ []) e = absurd (omega arith)
length-as_chunks zero (a ∷ b ∷ c ∷ d ∷ bs) e = absurd (omega arith)
length-as_chunks (suc n) (a ∷ b ∷ c ∷ d ∷ bs) e = ap suc (length-as_chunks n bs (omega arith))

-- What `from_dpath` stores is what its caller sees through `as_slice`.
as_slice-copy_prefix :
    (cs : List ℕ)
    → length cs ≤ 10
    → as_slice (record { path = copy_prefix cs (replicate 10 0); path_len = length cs % 256 }) ≡ cs
unfolding as_slice
as_slice-copy_prefix cs h =
    let e : length cs % 256 ≡ length cs = omega arith in
    rw e (take-copy_prefix cs (replicate 10 0) h)

in_range : (n len : ℕ) → len ≡ n * 4 → n ≤ 10 → (ltb len (n * 4) || ltb 10 n) ≡ false
in_range n len e h = ground arith

pub from_dpath_lem :
    (n : ℕ) (bs : Bytes)
    → length bs ≡ n * 4
    → n ≤ 10
    → (p : Bip32Path) × (from_dpath n bs ≡ ok p) × (as_slice p ≡ as_chunks bs)
unfolding from_dpath
from_dpath_lem n bs e h =
    let len = length-as_chunks n bs e in
    (
      record { path = copy_prefix (as_chunks bs) (replicate 10 0); path_len = n % 256 },
      rw (in_range n (length bs) e h, take-all (n * 4) bs (omega arith)) refl,
      (rw len at (as_slice-copy_prefix (as_chunks bs) (omega arith))),
    )

-- The reader on any bytes: its three ways out.
pub from_prefixed_bytes_cons :
    (n : ℕ) (rest : Bytes)
    → ((n * 4 ≤ length rest)
        × (n ≤ 10)
        × ((p : Bip32Path) × (from_prefixed_bytes (n ∷ rest) ≡ ok (p, drop (n * 4) rest))
            × (as_slice p ≡ as_chunks (take (n * 4) rest))))
      ⊎ (((length rest < n * 4) ⊎ (10 < n))
          × (from_prefixed_bytes (n ∷ rest) ≡ err wrong_apdu_length))
unfolding from_prefixed_bytes from_dpath_lem
from_prefixed_bytes_cons n rest =
    elim (Bool-cases (ltb (suc (length rest)) (1 + n * 4) || ltb 10 n)) [
      | inl bad ↦ inr (ground arith, rw bad)
      | inr good ↦
          let fits : n * 4 ≤ length rest = ground arith in
          let few : n ≤ 10 = ground arith in
          let skip : 1 + n * 4 - 1 ≡ n * 4 = omega arith in
          let (p, e, view) =
            from_dpath_lem n (take (n * 4) rest) (omega (arith, length-take (n * 4) rest)) few in
          inl (fits, few, (p, rw (good, skip, e), view))
    ]

take_components :
    (cs : List ℕ) (rest : Bytes)
    → take (length cs * 4) (encode_components cs ++ rest) ≡ encode_components cs
take_components cs rest =
    rw (← length-encode_components cs) (take-append (encode_components cs) rest)

drop_components :
    (cs : List ℕ) (rest : Bytes) → drop (length cs * 4) (encode_components cs ++ rest) ≡ rest
drop_components cs rest =
    rw (← length-encode_components cs) (drop-append (encode_components cs) rest)

-- An encoded path of at most ten 32-bit components is read back as those components, and the
-- bytes behind it are handed on.
pub from_prefixed_bytes-encode_path :
    (cs : List ℕ) (rest : Bytes)
    → All IsU32 cs
    → length cs ≤ max_zcash_bip32_path
    → (p : Bip32Path) × (from_prefixed_bytes (encode_path cs ++ rest) ≡ ok (p, rest))
      × (as_slice p ≡ cs)
from_prefixed_bytes-encode_path cs rest h few =
    elim (from_prefixed_bytes_cons (length cs) (encode_components cs ++ rest)) [
      | inl (fits, _, (p, e, view)) ↦
          (p, rw drop_components at e, view ∙ rw take_components (as_chunks-encode_components cs h))
      | inr (bad, e) ↦
          absurd
            (omega (arith, length-append (encode_components cs) rest, length-encode_components cs))
    ]

-- Whatever `from_prefixed_bytes` accepts is an encoded path of at most ten components followed by
-- the bytes it hands on, so no two inputs are read alike.
pub encode_path-from_prefixed_bytes :
    (bs rest : Bytes) (p : Bip32Path)
    → All IsByte bs
    → from_prefixed_bytes bs ≡ ok (p, rest)
    → (bs ≡ encode_path (as_slice p) ++ rest) × (length (as_slice p) ≤ max_zcash_bip32_path)
encode_path-from_prefixed_bytes [] rest p h e = unfold from_prefixed_bytes in cc
encode_path-from_prefixed_bytes (n ∷ bs) rest p (hn, hbs) e = elim (from_prefixed_bytes_cons n bs) [
  | inl (fits, few, (q, e', view)) ↦
      let front = take (n * 4) bs in
      let full : length front ≡ n * 4 = omega (arith, length-take (n * 4) bs) in
      let same : as_slice p ≡ as_chunks front = cc in
      let left : rest ≡ drop (n * 4) bs = cc in
      let bytes = encode_components-as_chunks n front full (All-take IsByte (n * 4) bs hbs) in
      rw (same, left, length-as_chunks n front full, bytes, take-append-drop) (refl, few)
  | inr (bad, e') ↦ cc
]
