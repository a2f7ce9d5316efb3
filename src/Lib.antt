-- ===== src/Lib.antt =====
-- Simply Sats: the part of the wallet that decides about money.
--
-- The wallet is a desktop app: a TypeScript front end over a Tauri (Rust) backend that holds the keys,
-- signs and broadcasts; without the backend the app builds and signs in TypeScript. The front end keeps its coins in the SQL table `utxos`. A payment takes the
-- sync lock, selects coins, has the backend build and sign, marks the coins as pending, broadcasts,
-- and then either confirms the spend and adds the change in one database transaction, or rolls the
-- marks back. Sync adds what it finds on chain with the same `addUTXO`.
--
-- Parts and files:
-- - Coins (src/domain/transaction/coinSelection.ts): `selectCoins` and its variants. Coins/Sorting
--   and Coins/Selecting hold the proofs.
-- - Fees (src/domain/transaction/fees.ts, and `calculateChangeAndFee` of builder.ts). Fees/Change is
--   about the split of the inputs, Fees/Estimates about the estimates shown before a send.
-- - Builder (src/domain/transaction/builder.ts): the guards around the build commands.
-- - Store (src/infrastructure/database/utxoRepository.ts): Store/Defs is a row and a table,
--   Store/Queries the SELECTs, Store/Pending the pending-spend calls, Store/Adding `addUTXO`,
--   Store/Upkeep freezing, repair and deletion.
-- - Send (src/services/wallet/transactions.ts): Send/Record is validation, broadcast and recording,
--   Send/Payments, Send/Outputs and Send/Consolidation the calls themselves; Send/Failures,
--   Send/Successes (on Send/Balances) and Send/Guards are about their outcomes.
-- - Tokens (src/services/tokens/transfers.ts, and `markUtxosSpent` of src/services/sync/utxoSync.ts):
--   Tokens/Selection and Tokens/Transfer model the transfers; Tokens/Planning (on
--   Tokens/FundingInputs) and Tokens/Booking reason about them.
-- - Sync (src/services/cancellation.ts): the lock `SyncMutex` as a step relation.
-- - Requests (src/services/brc100/RequestManager.ts): the pending requests of BRC-100 apps.
-- - Cache (src/infrastructure/api/requestCache.ts): the cache of API answers.
-- - RateLimiter (src/services/rateLimiter.ts): the fallback counter of failed unlock attempts, and
--   RateLimiter/Lockout on its lockout.
-- - Chain (src/platform/crypto/transaction.ts and keys.ts): the transactions that the app builds and signs
--   itself where no backend runs. Chain/Bytes, Chain/Keys, Chain/Scripts, Chain/Serialize, Chain/Signing and
--   Chain/Building follow the two files; Chain/Reading is a reader of transactions written from the format,
--   and Chain/Reading/Transactions reads the serialised ones back with it; Chain/Balances and Chain/Batches
--   (on Chain/Signed and Chain/Paying) are about what the built transactions pay, Chain/Der about
--   signatures, Chain/KeyTexts about private keys in text form.
-- - Base58 (src/domain/shared/base58.ts, and `p2pkhLockingScriptHex` of builder.ts): Base58/Values is about
--   the decoded number, Base58/Watching compares the script watched for an address with the one paid.
-- - Validation (src/domain/wallet/validation.ts): `isValidBSVAddress` and, in Validation/Sha256, the hash
--   that it computes; Validation/Accepted is about the accepted addresses.
-- - Hex and Locks (src/domain/locks/timelockScript.ts): numbers as little-endian hex text, the assembler,
--   the template and the script; Hex/RoundTrip and Locks/RoundTrip (on Hex/Digits and Locks/Assembly) read them
--   back. Locks/Merging (src/services/wallet/lockReconciliation.ts): detected and stored locks.
-- - WalletSync (src/services/sync/addressSync.ts): the reconciliation of an address with the chain, on the
--   table of Store; WalletSync/Reconciled (on WalletSync/Table and WalletSync/Phases) says what becomes of each
--   outpoint. WalletSync/Queries (src/services/sync/utxoSync.ts) has the balance and the coins that the
--   wallet asks for; WalletSync/Views compares the balance with the repository's query, and
--   WalletSync/Payable describes the coins one by one.
--   WalletSync/Resolving (src/services/sync/orchestration.ts) looks up the pending transactions;
--   WalletSync/Resolved (on WalletSync/Phantoms and Transactions/Keyed) says what becomes of the tables.
--   WalletSync/History (`calculateTxAmount` of src/services/sync/historySync.ts) computes a transaction's amount
--   over a cache of API answers; WalletSync/Amounts compares it with the amount without a cache.
-- - Transactions (src/infrastructure/database/txRepository.ts): Transactions/Defs has the tables of transactions
--   and labels, Transactions/Writes and Transactions/Queries the calls. Transactions/Adding and
--   Transactions/Labels (on Transactions/Rows) are about the writes; Transactions/Guarding and
--   Transactions/Awaited about what the table means to the coins of Store and to the queries of WalletSync.
-- - Locks/Table (src/infrastructure/database/lockRepository.ts, and `persistLocks` of
--   src/services/wallet/lockReconciliation.ts): the table of locks, joined to the coins of Store;
--   Locks/Table/Persisted, Locks/Table/Kept and Locks/Table/Marked hold the proofs.
-- - AutoLock (src/services/autoLock.ts): the inactivity lock. AutoLock/Timing is about the ticks of its
--   interval, AutoLock/Reachable about every order of calls.
-- - Discovery (src/services/accountDiscovery.ts): the scan for accounts after a restore, which is all
--   but the creation in Discovery/Complete; Discovery/Created is about the creation.
-- - Dict is the JavaScript `Map` as an association list in insertion order; Prelude and Types are
--   shared.
-- Names are the source's in snake case: `markUtxosPendingSpend` is `mark_utxos_pending_spend`.
--
-- Conventions. Texts that the code only compares (txids, scripts, addresses, keys, baskets) are
-- numbers, the empty text is 0; the text of a token amount or of an address to decode is a list of
-- character codes, a hex text the list of its digits, and an array of bytes a list of numbers below 256. Satoshi
-- amounts are natural numbers, as the code has them below 2 ^ 53; subtractions that could go below
-- zero are moved to the other side of a comparison. A fee rate is a double, of which the code uses two
-- readings: whether it is finite and not negative, and `Math.ceil(bytes * rate)`. What throws or
-- returns an error is a `Result`, or an `Option` where only the failure counts. The clock is an
-- argument that one call reads as one value. A loop of SQL statements takes the number of statements
-- that the database carries out before one throws; what was written stays, unless the loop runs inside
-- `withTransaction`, which restores the tables. A payment runs as one step on the table, since it holds
-- the sync lock; the lock itself is modelled with all its interleavings. The loops are structural
-- recursions on a list, but for the two that divide a number until it is zero (the hex digits of a
-- number, the carry of a Base58 digit): their fuel is the number itself, which no run uses up, since a
-- round divides it by 16 or 256.
--
-- Parameters, which stand for code outside these files: the backend's commands, `broadcastTransaction`,
-- the API that lists tokens, the API of the chain, and of the libraries the hashes, the elliptic curve and
-- Base58Check. The check of addresses is a parameter of the sends, too. Assumed of them is only what a
-- result names: that public keys have 33 bytes, and that Base58Check decodes what it encoded.
--
-- Not modelled: `clampFeeRate` (fractions), `reassignAccountData`, the tables of contacts and
-- certificates, the ALTER TABLE probes, logging, the wording of times, and timers that call a cleanup. To
-- Send a recorded transaction is an entry of a log, and one whose write fails, even midway, has none. Of the transactions, the statistics of labels and the
-- searches with LIKE are left out; of the locks, the wording of their labels; of the sync, the rest of the
-- history and of the orchestration.
-- `sendToken`, the derivation of keys from a mnemonic, the checks of mnemonics, public keys, txids and
-- amounts, and ordinals are left out; the
-- user interface, network clients, the Rust code, the extension and the SDK are outside of this library.
pub mod Prelude
pub mod Types
pub mod Coins
pub mod Fees
pub mod Store
pub mod Builder
pub mod Send
pub mod Dict
pub mod Requests
pub mod Tokens
pub mod Cache
pub mod Sync
pub mod RateLimiter
pub mod Hex
pub mod Locks
pub mod Chain
pub mod Base58
pub mod Validation
pub mod Transactions
pub mod AutoLock
pub mod Discovery
pub mod WalletSync
mod Tests
