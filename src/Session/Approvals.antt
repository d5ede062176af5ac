-- ===== src/Session/Approvals.antt =====
-- The resets of src/tx.rs over a whole run: what they clear, and what they keep.
use app_zcash.Base.{◌≡◌, refl, true, ok, err, arith}
use app_zcash.Status.{bad_state}
use app_zcash.Sdk.{Hashing}
use app_zcash.Session.{
  LegacyParserMode, Parsers, TxContext, init_in_place, reset, is_swap, reset_for_new_transaction,
  note_signature_released,
}

module _ {H L Z : Type 0} (hashing : Hashing H) (parsers : Parsers L Z) where
  -- The steps of a run on its context. The handlers write every field but the last two as they
  -- please, which `worked` stands for; the others are the operations of the context.
  pub data Runs (c : TxContext H L Z) : TxContext H L Z → Type 0 where
    begun : Runs c c
    worked :
        (d e : TxContext H L Z)
        → Runs c d
        → e.swap_params ≡ d.swap_params
        → e.has_released_signature ≡ d.has_released_signature
        → Runs c e
    was_reset :
        (d : TxContext H L Z) (mode : LegacyParserMode)
        → Runs c d
        → Runs c (reset hashing parsers mode d)
    renewed :
        (d e : TxContext H L Z) (mode : LegacyParserMode)
        → Runs c d
        → reset_for_new_transaction hashing parsers mode d ≡ ok e
        → Runs c e
    released : (d : TxContext H L Z) → Runs c d → Runs c (note_signature_released d)

  -- A swap that has seen a signature.
  IsSpent : TxContext H L Z → Type 0
  IsSpent c = (is_swap c.swap_params ≡ true) × (c.has_released_signature ≡ true)

  refused :
      (mode : LegacyParserMode) (c : TxContext H L Z)
      → IsSpent c
      → reset_for_new_transaction hashing parsers mode c ≡ err bad_state
  unfolding reset_for_new_transaction IsSpent
  refused mode c (swap, signed) = rw (swap, signed)

  Runs-IsSpent : (c d : TxContext H L Z) → Runs c d → IsSpent c → IsSpent d
  unfolding IsSpent reset note_signature_released
  Runs-IsSpent c d begun spent = spent
  Runs-IsSpent c e (worked d _ before swap signed) spent =
      let (s, r) = Runs-IsSpent c d before spent in (rw swap s, rw signed r)
  Runs-IsSpent c _ (was_reset d mode before) spent = Runs-IsSpent c d before spent
  Runs-IsSpent c e (renewed d _ mode before ok_d) spent =
      absurd (ground (arith, refused mode d (Runs-IsSpent c d before spent)))
  Runs-IsSpent c _ (released d before) spent = ((Runs-IsSpent c d before spent).0, refl)

  -- Once a signature is released under a swap, no later transaction is ever started on its approval,
  -- whatever the run does in between: resets, releases, and work that leaves the swap and the record of
  -- released signatures alone.
  pub reset_for_new_transaction_spent :
      (c d : TxContext H L Z) (mode : LegacyParserMode)
      → is_swap c.swap_params ≡ true
      → Runs (note_signature_released c) d
      → reset_for_new_transaction hashing parsers mode d ≡ err bad_state
  unfolding IsSpent note_signature_released
  reset_for_new_transaction_spent c d mode swap run =
      refused mode d (Runs-IsSpent (note_signature_released c) d run (swap, refl))

  -- A new transaction that is let through starts from the context of a fresh start, but for the swap
  -- and for the record of the signatures that were released.
  pub reset_for_new_transaction-init_in_place :
      (c d : TxContext H L Z) (mode : LegacyParserMode)
      → reset_for_new_transaction hashing parsers mode c ≡ ok d
      → d ≡ record (init_in_place hashing parsers c.swap_params mode) {
        has_released_signature = c.has_released_signature;
      }
  unfolding reset_for_new_transaction init_in_place reset
  reset_for_new_transaction-init_in_place c d mode e = ground arith
