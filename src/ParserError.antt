-- ===== src/ParserError.antt =====
-- src/parser/error.rs: what a parser fails with. The file and the line of an error go to the log
-- only; a literal message is a constructor of `Reason`.
use app_zcash.Base.{
  Option, none, some, Result, ok, err, Bool, true, false, ◌≡◌, refl, ◌>>=◌, ◌>>◌, ensure, map_err,
  if◌then◌else◌,
}
use app_zcash.Status.{AppSw}
use app_zcash.Swap.{SwapError}

pub data Reason : Type 0 where
  too_many_outputs bad_output_script_size bad_input_script_size : Reason
  bad_input_script_len bad_output_script_len multiple_change_outputs : Reason
  unsupported_output_script no_outputs_to_display failed_to_calculate_fees : Reason
  unsupported_trusted_input_mode untrusted_input_mode invalid_trusted_input_size : Reason
  not_enough_data trusted_input_key_not_set trusted_input_hmac_mismatch : Reason
  trusted_input_index_not_set too_many_shielded_components v4_with_shielded_components : Reason
  unsupported_transaction_version invalid_extra_data_length memo_size_overflow : Reason
  not_enough_for_compact_action not_enough_for_non_compact_action : Reason
  not_enough_for_digest_data not_enough_for_compact_output : Reason
  not_enough_for_non_compact_output unknown_branch_id : Reason

pub data ParserSourceError : Type 0 where
  io hash hmac balance user_denied : ParserSourceError
  custom : Reason → ParserSourceError
  app_sw : AppSw → ParserSourceError
  swap : SwapError → ParserSourceError
  -- No errors of the program: a loop of the model ran out of fuel, and a panic.
  stuck panicked : ParserSourceError

abbrev pub Parsed {ℓ} : Type ℓ → Type ℓ
Parsed A = Result ParserSourceError A

-- `ok!` over an operation that fails in one way.
abbrev pub try_ok {ℓ} : {A : Type ℓ} → Option A → ParserSourceError → Parsed A
try_ok none e = err e
try_ok (some a) e = ok a

-- Whether the model ran out of fuel, or the program panics.
abbrev pub is_stuck : ParserSourceError → Bool
is_stuck stuck = true
is_stuck panicked = true
is_stuck io = false
is_stuck hash = false
is_stuck hmac = false
is_stuck balance = false
is_stuck user_denied = false
is_stuck (custom r) = false
is_stuck (app_sw s) = false
is_stuck (swap s) = false

-- Total correctness of a parser step: a result has the property, and an error is one of the
-- program's, not a loop that ran out of fuel nor a panic.
abbrev pub Ensures : {A : Type 0} → (A → Type 0) → Parsed A → Type 0
Ensures P (ok a) = P a
Ensures P (err e) = is_stuck e ≡ false

module _ {A B : Type 0} (P : A → Type 0) (Q : B → Type 0) where
  pub Ensures-bind :
      (m : Parsed A) (f : A → Parsed B)
      → Ensures P m
      → ((a : A) → m ≡ ok a → P a → Ensures Q (f a))
      → Ensures Q (m >>= f)
  Ensures-bind (ok a) f h k = k a refl h
  Ensures-bind (err e) f h k = h

module _ {A B : Type 0} (Q : B → Type 0) where
  pub Ensures-try_ok :
      (o : Option A) (e : ParserSourceError) (f : A → Parsed B)
      → is_stuck e ≡ false
      → ((a : A) → o ≡ some a → Ensures Q (f a))
      → Ensures Q (try_ok o e >>= f)
  Ensures-try_ok none e f h k = h
  Ensures-try_ok (some a) e f h k = k a refl

module _ {B : Type 0} (Q : B → Type 0) where
  pub Ensures-ensure :
      (b : Bool) (e : ParserSourceError) (k : Parsed B)
      → is_stuck e ≡ false
      → (b ≡ true → Ensures Q k)
      → Ensures Q (ensure b e >> k)
  Ensures-ensure false e k h q = h
  Ensures-ensure true e k h q = q refl

  pub Ensures-if :
      (b : Bool) (m n : Parsed B)
      → (b ≡ true → Ensures Q m)
      → (b ≡ false → Ensures Q n)
      → Ensures Q (if b then m else n)
  Ensures-if true m n p q = p refl
  Ensures-if false m n p q = q refl

-- A failure outside the parser is no lack of fuel.
pub Ensures-map_err :
    {E : Type 0} {A B : Type 0} (Q : B → Type 0) (g : E → ParserSourceError) (m : Result E A)
    (f : A → Parsed B)
    → ((e : E) → is_stuck (g e) ≡ false)
    → ((a : A) → m ≡ ok a → Ensures Q (f a))
    → Ensures Q (map_err g m >>= f)
Ensures-map_err Q g (ok a) f h k = k a refl
Ensures-map_err Q g (err e) f h k = h e
