-- ===== src/Personalization.antt =====
-- src/parser/personalization.rs: the BLAKE2b personalizations of ZIP-244 and ZIP-229.
use app_zcash.Base.{[], ◌∷◌}
use app_zcash.Base.Bytes.{Bytes}

-- "ZcashTxHash_".
abbrev pub zcash_tx_personalization_prefix : Bytes
zcash_tx_personalization_prefix =
    0x5A ∷ 0x63 ∷ 0x61 ∷ 0x73 ∷ 0x68 ∷ 0x54 ∷ 0x78 ∷ 0x48 ∷ 0x61 ∷ 0x73 ∷ 0x68 ∷ 0x5F ∷ []

-- "ZTxIdHeadersHash".
abbrev pub zcash_headers_hash_personalization : Bytes
zcash_headers_hash_personalization =
    0x5A ∷ 0x54 ∷ 0x78 ∷ 0x49 ∷ 0x64 ∷ 0x48 ∷ 0x65 ∷ 0x61 ∷ 0x64 ∷ 0x65 ∷ 0x72 ∷ 0x73 ∷ 0x48 ∷ 0x61
    ∷ 0x73 ∷ 0x68 ∷ []

-- "ZTxIdTranspaHash".
abbrev pub zcash_transparent_hash_personalization : Bytes
zcash_transparent_hash_personalization =
    0x5A ∷ 0x54 ∷ 0x78 ∷ 0x49 ∷ 0x64 ∷ 0x54 ∷ 0x72 ∷ 0x61 ∷ 0x6E ∷ 0x73 ∷ 0x70 ∷ 0x61 ∷ 0x48 ∷ 0x61
    ∷ 0x73 ∷ 0x68 ∷ []

-- "ZTxIdSaplingHash".
abbrev pub zcash_sapling_hash_personalization : Bytes
zcash_sapling_hash_personalization =
    0x5A ∷ 0x54 ∷ 0x78 ∷ 0x49 ∷ 0x64 ∷ 0x53 ∷ 0x61 ∷ 0x70 ∷ 0x6C ∷ 0x69 ∷ 0x6E ∷ 0x67 ∷ 0x48 ∷ 0x61
    ∷ 0x73 ∷ 0x68 ∷ []

-- "Zcash___TxInHash".
abbrev pub zcash_transparent_input_hash_personalization : Bytes
zcash_transparent_input_hash_personalization =
    0x5A ∷ 0x63 ∷ 0x61 ∷ 0x73 ∷ 0x68 ∷ 0x5F ∷ 0x5F ∷ 0x5F ∷ 0x54 ∷ 0x78 ∷ 0x49 ∷ 0x6E ∷ 0x48 ∷ 0x61
    ∷ 0x73 ∷ 0x68 ∷ []

-- "ZTxIdIronwd_H_v6".
abbrev pub zcash_ironwood_hash_personalization : Bytes
zcash_ironwood_hash_personalization =
    0x5A ∷ 0x54 ∷ 0x78 ∷ 0x49 ∷ 0x64 ∷ 0x49 ∷ 0x72 ∷ 0x6F ∷ 0x6E ∷ 0x77 ∷ 0x64 ∷ 0x5F ∷ 0x48 ∷ 0x5F
    ∷ 0x76 ∷ 0x36 ∷ []

-- "ZTxIdOrchardH_v6".
abbrev pub zcash_orchard_hash_personalization_v6 : Bytes
zcash_orchard_hash_personalization_v6 =
    0x5A ∷ 0x54 ∷ 0x78 ∷ 0x49 ∷ 0x64 ∷ 0x4F ∷ 0x72 ∷ 0x63 ∷ 0x68 ∷ 0x61 ∷ 0x72 ∷ 0x64 ∷ 0x48 ∷ 0x5F
    ∷ 0x76 ∷ 0x36 ∷ []

-- "ZTxIdPrevoutHash".
abbrev pub zcash_prevouts_hash_personalization : Bytes
zcash_prevouts_hash_personalization =
    0x5A ∷ 0x54 ∷ 0x78 ∷ 0x49 ∷ 0x64 ∷ 0x50 ∷ 0x72 ∷ 0x65 ∷ 0x76 ∷ 0x6F ∷ 0x75 ∷ 0x74 ∷ 0x48 ∷ 0x61
    ∷ 0x73 ∷ 0x68 ∷ []

-- "ZTxIdSequencHash".
abbrev pub zcash_sequence_hash_personalization : Bytes
zcash_sequence_hash_personalization =
    0x5A ∷ 0x54 ∷ 0x78 ∷ 0x49 ∷ 0x64 ∷ 0x53 ∷ 0x65 ∷ 0x71 ∷ 0x75 ∷ 0x65 ∷ 0x6E ∷ 0x63 ∷ 0x48 ∷ 0x61
    ∷ 0x73 ∷ 0x68 ∷ []

-- "ZTxTrAmountsHash".
abbrev pub zcash_transparent_amounts_hash_personalization : Bytes
zcash_transparent_amounts_hash_personalization =
    0x5A ∷ 0x54 ∷ 0x78 ∷ 0x54 ∷ 0x72 ∷ 0x41 ∷ 0x6D ∷ 0x6F ∷ 0x75 ∷ 0x6E ∷ 0x74 ∷ 0x73 ∷ 0x48 ∷ 0x61
    ∷ 0x73 ∷ 0x68 ∷ []

-- "ZTxTrScriptsHash".
abbrev pub zcash_transparent_scripts_hash_personalization : Bytes
zcash_transparent_scripts_hash_personalization =
    0x5A ∷ 0x54 ∷ 0x78 ∷ 0x54 ∷ 0x72 ∷ 0x53 ∷ 0x63 ∷ 0x72 ∷ 0x69 ∷ 0x70 ∷ 0x74 ∷ 0x73 ∷ 0x48 ∷ 0x61
    ∷ 0x73 ∷ 0x68 ∷ []

-- "ZTxIdSSpendsHash".
abbrev pub zcash_sapling_spends_hash_personalization : Bytes
zcash_sapling_spends_hash_personalization =
    0x5A ∷ 0x54 ∷ 0x78 ∷ 0x49 ∷ 0x64 ∷ 0x53 ∷ 0x53 ∷ 0x70 ∷ 0x65 ∷ 0x6E ∷ 0x64 ∷ 0x73 ∷ 0x48 ∷ 0x61
    ∷ 0x73 ∷ 0x68 ∷ []

-- "ZTxIdSSpendCHash".
abbrev pub zcash_sapling_spends_compact_hash_personalization : Bytes
zcash_sapling_spends_compact_hash_personalization =
    0x5A ∷ 0x54 ∷ 0x78 ∷ 0x49 ∷ 0x64 ∷ 0x53 ∷ 0x53 ∷ 0x70 ∷ 0x65 ∷ 0x6E ∷ 0x64 ∷ 0x43 ∷ 0x48 ∷ 0x61
    ∷ 0x73 ∷ 0x68 ∷ []

-- "ZTxIdSSpendNHash".
abbrev pub zcash_sapling_spends_noncompact_hash_personalization : Bytes
zcash_sapling_spends_noncompact_hash_personalization =
    0x5A ∷ 0x54 ∷ 0x78 ∷ 0x49 ∷ 0x64 ∷ 0x53 ∷ 0x53 ∷ 0x70 ∷ 0x65 ∷ 0x6E ∷ 0x64 ∷ 0x4E ∷ 0x48 ∷ 0x61
    ∷ 0x73 ∷ 0x68 ∷ []

-- "ZTxIdSOutputHash".
abbrev pub zcash_sapling_outputs_hash_personalization : Bytes
zcash_sapling_outputs_hash_personalization =
    0x5A ∷ 0x54 ∷ 0x78 ∷ 0x49 ∷ 0x64 ∷ 0x53 ∷ 0x4F ∷ 0x75 ∷ 0x74 ∷ 0x70 ∷ 0x75 ∷ 0x74 ∷ 0x48 ∷ 0x61
    ∷ 0x73 ∷ 0x68 ∷ []

-- "ZTxIdSOutC__Hash".
abbrev pub zcash_sapling_outputs_compact_hash_personalization : Bytes
zcash_sapling_outputs_compact_hash_personalization =
    0x5A ∷ 0x54 ∷ 0x78 ∷ 0x49 ∷ 0x64 ∷ 0x53 ∷ 0x4F ∷ 0x75 ∷ 0x74 ∷ 0x43 ∷ 0x5F ∷ 0x5F ∷ 0x48 ∷ 0x61
    ∷ 0x73 ∷ 0x68 ∷ []

-- "ZTxIdSOutM__Hash".
abbrev pub zcash_sapling_outputs_memos_hash_personalization : Bytes
zcash_sapling_outputs_memos_hash_personalization =
    0x5A ∷ 0x54 ∷ 0x78 ∷ 0x49 ∷ 0x64 ∷ 0x53 ∷ 0x4F ∷ 0x75 ∷ 0x74 ∷ 0x4D ∷ 0x5F ∷ 0x5F ∷ 0x48 ∷ 0x61
    ∷ 0x73 ∷ 0x68 ∷ []

-- "ZTxIdSOutN__Hash".
abbrev pub zcash_sapling_outputs_noncompact_hash_personalization : Bytes
zcash_sapling_outputs_noncompact_hash_personalization =
    0x5A ∷ 0x54 ∷ 0x78 ∷ 0x49 ∷ 0x64 ∷ 0x53 ∷ 0x4F ∷ 0x75 ∷ 0x74 ∷ 0x4E ∷ 0x5F ∷ 0x5F ∷ 0x48 ∷ 0x61
    ∷ 0x73 ∷ 0x68 ∷ []

-- "ZTxIdSSpendNH_v6".
abbrev pub zcash_sapling_spends_noncompact_hash_personalization_v6 : Bytes
zcash_sapling_spends_noncompact_hash_personalization_v6 =
    0x5A ∷ 0x54 ∷ 0x78 ∷ 0x49 ∷ 0x64 ∷ 0x53 ∷ 0x53 ∷ 0x70 ∷ 0x65 ∷ 0x6E ∷ 0x64 ∷ 0x4E ∷ 0x48 ∷ 0x5F
    ∷ 0x76 ∷ 0x36 ∷ []

-- "ZTxIdIrnActCH_v6".
abbrev pub zcash_ironwood_actions_compact_hash_personalization : Bytes
zcash_ironwood_actions_compact_hash_personalization =
    0x5A ∷ 0x54 ∷ 0x78 ∷ 0x49 ∷ 0x64 ∷ 0x49 ∷ 0x72 ∷ 0x6E ∷ 0x41 ∷ 0x63 ∷ 0x74 ∷ 0x43 ∷ 0x48 ∷ 0x5F
    ∷ 0x76 ∷ 0x36 ∷ []

-- "ZTxIdIrnActMH_v6".
abbrev pub zcash_ironwood_actions_memos_hash_personalization : Bytes
zcash_ironwood_actions_memos_hash_personalization =
    0x5A ∷ 0x54 ∷ 0x78 ∷ 0x49 ∷ 0x64 ∷ 0x49 ∷ 0x72 ∷ 0x6E ∷ 0x41 ∷ 0x63 ∷ 0x74 ∷ 0x4D ∷ 0x48 ∷ 0x5F
    ∷ 0x76 ∷ 0x36 ∷ []

-- "ZTxIdIrnActNH_v6".
abbrev pub zcash_ironwood_actions_noncompact_hash_personalization : Bytes
zcash_ironwood_actions_noncompact_hash_personalization =
    0x5A ∷ 0x54 ∷ 0x78 ∷ 0x49 ∷ 0x64 ∷ 0x49 ∷ 0x72 ∷ 0x6E ∷ 0x41 ∷ 0x63 ∷ 0x74 ∷ 0x4E ∷ 0x48 ∷ 0x5F
    ∷ 0x76 ∷ 0x36 ∷ []
