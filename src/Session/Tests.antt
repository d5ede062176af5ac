-- ===== src/Session/Tests.antt =====
-- A swap whose signature was released, and a plain session.
use app_zcash.Base.{◌≡◌, refl, Bool, true, false, [], ◌∷◌, none, some, ok, err}
use app_zcash.Base.Bytes.{Bytes}
use app_zcash.Status.{bad_state}
use app_zcash.Sdk.{Hashing}
use app_zcash.Swap.{CreateTxParams}
use app_zcash.Digest.Tests.{transcript}
use app_zcash.Session.{
  LegacyParserMode, trusted_input, signature, Parsers, TxContext, init_in_place, reset,
  reset_for_new_transaction, note_signature_released, is_swap,
}
use app_zcash.Session.Approvals.{
  Runs, begun, was_reset, reset_for_new_transaction_spent, reset_for_new_transaction-init_in_place,
}

abbrev hashing : Hashing (Bytes × Bytes)
hashing = record { blake = transcript; sha = transcript }

-- Parsers whose states are their modes.
abbrev parsers : Parsers LegacyParserMode Bool
parsers = record { new_legacy = λ mode. mode; new_pczt = false }

abbrev approved : CreateTxParams
approved = record {
  amount = 60 ∷ [];
  fee_amount = 10 ∷ [];
  dest_address = [];
  dest_address_len = 0;
  dest_address_extra_id_len = 0;
}

abbrev in_swap : TxContext (Bytes × Bytes) LegacyParserMode Bool
in_swap = init_in_place hashing parsers (some approved) signature

abbrev after_reset : TxContext (Bytes × Bytes) LegacyParserMode Bool
after_reset = reset hashing parsers trusted_input (note_signature_released in_swap)

in_swap_run : Runs hashing parsers (note_signature_released in_swap) after_reset
in_swap_run = was_reset (note_signature_released in_swap) trusted_input begun

in_swap_holds : is_swap in_swap.swap_params ≡ true
unfolding init_in_place
in_swap_holds = refl

reset_for_new_transaction_spent_example :
    reset_for_new_transaction hashing parsers signature after_reset ≡ err bad_state
reset_for_new_transaction_spent_example =
    reset_for_new_transaction_spent hashing parsers in_swap after_reset signature in_swap_holds
      in_swap_run

abbrev plain : TxContext (Bytes × Bytes) LegacyParserMode Bool
plain = note_signature_released (init_in_place hashing parsers none trusted_input)

plain_renewed :
    reset_for_new_transaction hashing parsers signature plain
    ≡ ok (reset hashing parsers signature plain)
unfolding reset_for_new_transaction note_signature_released init_in_place
plain_renewed = refl

reset_for_new_transaction-init_in_place_example :
    reset hashing parsers signature plain
    ≡ record (init_in_place hashing parsers plain.swap_params signature) {
      has_released_signature = plain.has_released_signature;
    }
reset_for_new_transaction-init_in_place_example =
    reset_for_new_transaction-init_in_place hashing parsers plain
      (reset hashing parsers signature plain) signature plain_renewed
