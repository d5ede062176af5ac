-- ===== src/Legacy/Steps/Scripts.antt =====
-- src/parser/legacy/transparent.rs: scripts that are filled, and counts and sizes within their bounds.
use app_zcash.Base.{
  ℕ, ◌-◌, ◌<◌, ◌≤◌, ◌≡◌, refl, min, true, not, ltb, leb, ◌&&◌, length, take, drop, arith, ◌>>=◌,
  length-take, length-drop,
}
use app_zcash.Base.Bytes.{Bytes}
use app_zcash.ParserError.{
  Reason, Parsed, Ensures, Ensures-bind, Ensures-try_ok, Ensures-ensure, io, custom,
  too_many_shielded_components,
}
use app_zcash.Output.{max_script_size, write_at}
use app_zcash.Output.Settled.{length-write_at}
use app_zcash.Legacy.{LegacyOps, IsLegacyOps}
use app_zcash.Legacy.Transparent.{
  max_legacy_shielded_count, fill_script, read_bounded_shielded_count, read_script_size,
}
use app_zcash.Legacy.Invariant.{IsBuffer}

module _ {H : Type 0} (ops : LegacyOps H) (is_ops : IsLegacyOps ops) where
  pub bounded_count :
      (bs : Bytes)
      → Ensures
          (λ s. (s.0 ≤ max_legacy_shielded_count) × (length s.1 < length bs))
          (read_bounded_shielded_count ops bs)
  unfolding read_bounded_shielded_count
  bounded_count bs = Ensures-try_ok _ (ops.wire.read_compact_size bs) io _ refl λ s es.
      Ensures-ensure _ (not (ltb max_legacy_shielded_count s.0))
        (custom too_many_shielded_components) _ refl
        λ few. (ground arith, is_ops.is_wire.compact_size_takes bs s.0 s.1 es)

module _ {B : Type 0} (Q : B → Type 0) where
  -- To go past a script that is filled: the buffer keeps its length, and nothing panics.
  pub past_fill :
      (size remaining : ℕ) (buf bs : Bytes) (f : ℕ × Bytes × Bytes → Parsed B)
      → IsBuffer size remaining buf
      → ((left : ℕ) (buf' rest : Bytes)
          → IsBuffer size left buf'
          → left ≡ remaining - length bs
          → length rest ≡ length bs - remaining
          → Ensures Q (f (left, buf', rest)))
      → Ensures Q (fill_script size remaining buf bs >>= f)
  unfolding fill_script
  past_fill size remaining buf bs f is k =
      let fits : (leb remaining size && leb size (length buf)) ≡ true = ground (arith, is) in
      let len = min remaining (length bs) in
      let l = length-drop len bs in
      let kept =
        length-write_at (size - remaining) (take len bs) buf
          (omega (arith, length-take len bs, is.1, is.2)) in
      rw fits (
        k (remaining - len) (write_at (size - remaining) (take len bs) buf) (drop len bs)
          (is.0, omega (arith, is.1), omega (arith, kept, is.2)) (omega arith) (omega (arith, l)))

  module _ {H : Type 0} (ops : LegacyOps H) (is_ops : IsLegacyOps ops) where
    pub past_size :
        (reason : Reason) (bs : Bytes) (f : ℕ × Bytes → Parsed B)
        → ((size : ℕ) (rest : Bytes)
            → size ≤ max_script_size
            → length rest < length bs
            → Ensures Q (f (size, rest)))
        → Ensures Q (read_script_size ops reason bs >>= f)
    past_size reason bs f k =
        Ensures-bind (λ s. (s.0 ≤ max_script_size) × (length s.1 < length bs)) Q
          (read_script_size ops reason bs) f
          (unfold read_script_size in
            Ensures-try_ok _ (ops.wire.read_compact_size bs) io _ refl λ s es.
              Ensures-ensure _ (not (ltb max_script_size s.0)) (custom reason) _ refl
                λ small. (ground arith, is_ops.is_wire.compact_size_takes bs s.0 s.1 es))
          λ s es h. k s.0 s.1 h.0 h.1

    pub past_count :
        (bs : Bytes) (f : ℕ × Bytes → Parsed B)
        → ((count : ℕ) (rest : Bytes)
            → count ≤ max_legacy_shielded_count
            → length rest < length bs
            → Ensures Q (f (count, rest)))
        → Ensures Q (read_bounded_shielded_count ops bs >>= f)
    past_count bs f k =
        Ensures-bind (λ s. (s.0 ≤ max_legacy_shielded_count) × (length s.1 < length bs)) Q
          (read_bounded_shielded_count ops bs) f (bounded_count ops is_ops bs)
          λ s es h. k s.0 s.1 h.0 h.1
