-- ===== src/Tx/Declared.antt =====
-- src/tx.rs: what the outputs and the declared change have put into a `TxInfo`.
use app_zcash.Base.{ℕ, Bool, List, Option}
use app_zcash.Base.Bytes.{Bytes}
use app_zcash.Tx.{TxInfo, TxOutput}

-- The outputs, the key hash and the account of the change, and whether an output was hidden.
abbrev pub Declared : Type 0
Declared = List TxOutput × Option Bytes × Option ℕ × Bool

abbrev pub declared_of : TxInfo → Declared
declared_of info = (info.outputs, info.change_pk_hash, info.change_account, info.is_change_found)
