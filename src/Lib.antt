-- ===== src/Lib.antt =====
-- The Zcash application for Ledger devices: a model of its own logic, and what holds of it.
--
-- The program answers APDUs of a host. `src/main.rs` decodes each header into an instruction and
-- gives it to a handler of `src/handlers/`. The legacy flow streams a transaction into the parsers
-- of `src/parser/legacy/`; the PCZT flow streams one into those of `src/parser/pczt/`. Both fill a
-- `TxInfo` of `src/tx.rs`, derive the digests of `src/parser/compute.rs`, show the outputs for
-- review, or under a swap compare them with what the Exchange approved (`src/swap.rs`), and sign
-- along the derivation paths that `src/utils.rs` lets through.
--
-- Which file models which part:
--   Status               `AppSW` of src/main.rs
--   Apdu                 `TryFrom<ApduHeader> for Instruction` of src/main.rs, with src/consts.rs
--                        (Apdu.Headers and Apdu.Arms are what Apdu.Total needs)
--   Path                 src/utils/bip32_path.rs; Path.Compliance is `check_bip44_compliance` and
--                        `derivation_account` of src/utils.rs
--   Wire                 `read_u32`, `encode_string_response` and `secure_memcmp` of src/utils.rs
--   Script               ledger_zcash_crypto/src/transparent_script.rs
--   Address              src/utils/base58_address.rs, src/utils/hashers.rs and
--                        ledger_zcash_crypto/src/transparent_address.rs
--   Tx                   the data of src/tx.rs, `TransferType::classify` and
--                        `check_change_returns_to_signing_account`
--   Session              `TxContext` of src/tx.rs and its resets, over an interface to the parsers
--   Swap                 `check_swap_params` of src/swap.rs
--   Zip32                the derivation budget of src/zip32.rs
--   Reader, ParserError  src/parser/reader.rs and src/parser/error.rs
--   Output               src/parser/legacy/output_parser.rs: Output.Invariant is its invariant,
--                        Output.Preserved and Output.Settled are about its steps, Output.Reveal
--                        about the self-transfer rule, Output.Header about the fields it leaves
--                        and the change that it hides, Output.Finished about whole runs
--   Legacy               src/parser/legacy/mod.rs: its data and what it calls; Legacy.Transparent,
--                        Legacy.Actions and Legacy.Sapling are the files transparent.rs, orchard.rs
--                        and sapling.rs beside it, Legacy.Parse the header and the loop;
--                        Legacy.Invariant and Legacy.Steps are about single steps, Legacy.Total
--                        about whole runs
--   Handlers             src/handlers/sign_tx.rs and src/handlers/get_trusted_input.rs; its children
--                        are about what each handler keeps, Handlers.Change about the outputs that
--                        are hidden as change, Handlers.Life about their sequences
--   Digest               the digests of src/parser/compute.rs, with src/parser/personalization.rs
--                        in Personalization; Digest.Tree is the tree of ZIP-244 and ZIP-229;
--                        TxId is `tx_id` and `finalize_signature_input_hash` of the same file;
--                        Digest.Total and TxId.Total are about the errors they can give
--   Sdk                  what the program calls and does not implement
--   Base                 numbers, lists, results and bytes; Base.Gives has the rules of partial
--                        correctness for results
--   Examples, Output.Tests, Digest.Tests, TxId.Tests, Session.Tests, Legacy.Total.Tests,
--   Handlers.Tests       runs, and the theorems at concrete inputs
--
-- How the code is modelled. Functions are functions by clauses on native numbers, `Result` with `?`
-- is `Base.Results`, and what the code mutates is taken and given back. Saturating and checked
-- arithmetic is written out. The cursor of a parser is the bytes that it has not read, which
-- Reader.Unread justifies. Masks on 32-bit words are remainders and quotients by powers of two.
-- The main loop resets everything after an error, so an error carries no state. Messages and logs
-- are left out.
--
-- Parameters. SHA-256, RIPEMD-160, Base58, the streaming BLAKE2b, the compact sizes, the amounts and
-- the script writer of the Zcash crates, the bytes of a transaction version and the Orchard
-- personalization are parameters; `Sdk.IsWire` and `Digest.Zip244.IsStreaming` state what is relied
-- on: a compact size takes a byte at least, an amount is at most the supply, and a hash is a function
-- of its personalization and of all that it was fed. `LegacyOps` has the readers of the legacy parser,
-- SHA-256 as a stream, the HMAC and the key of trusted inputs; `IsLegacyOps` states that a reader makes
-- no data and that SHA-256 takes what it is fed, as the code expects. `HandlerOps` has the review on the
-- screen, the key hash of a path, the deterministic signature and whether a PCZT session is active.
--
-- Bounds and fuel. The loop of the output parser runs on fuel, two for each byte and two more: every
-- step but the one that closes an empty script takes a byte, and that one does not follow itself.
-- The loop of the legacy parser runs on as much: its states that may take no byte never follow each
-- other without one that does. A shielded component is counted up to 10,000, a script takes
-- 2,048 bytes at most. Running out of fuel and panicking are errors of the model's own, apart from the program's.
--
-- Left out of the records are `home` of `TxContext`, a screen, and `orchard_decipher_keys` of `TxInfo`,
-- which only the PCZT flow sets. The counter of outputs saturates at 64 bits, which it is far from.
--
-- Not modelled: the main loop and its status screens, the PCZT flow, key export, the entry points of
-- the Exchange but for the check, and the curve arithmetic of ledger_zcash_crypto; the user interface,
-- the settings and the random numbers, which are calls of the device SDK; the vendored libraries.
pub mod Base
pub mod Status
pub mod Sdk
pub mod Path
pub mod Script
pub mod Address
pub mod Tx
pub mod Apdu
pub mod Swap
pub mod Wire
pub mod Zip32
pub mod ParserError
pub mod Reader
pub mod Personalization
pub mod Digest
pub mod Legacy
pub mod Output
pub mod TxId
pub mod Session
pub mod Handlers
mod Examples
