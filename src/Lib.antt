-- ===== src/Lib.antt =====
-- EscrowHub: an escrow service over Telegram with custodial wallets. This library models its
-- services in Python and proves what keeps the users' funds right.
--
-- The parts and their files. A connection to the database (Db, with Db/Rows for the tables of
-- infra/db/schema.sql and Db/Transaction for the block of BEGIN IMMEDIATE or SAVEPOINT that every
-- service method opens) is shared by all services. An action on it (`Action`) takes the database
-- to a result or an exception (Outcome) and the next database; a call (`Call`) does so with a
-- connection, which has a committed and a working database.
--   Fee: fee_service.py. Ledger: ledger_service.py. Tenant: tenant_service.py.
--   Price, Price/Cache: price_service.py, with a proof in Sourced. Asset: the tables by asset of
--     wallet_service.py.
--   Escrow: escrow_service.py. Create, Settle and Dispute have the statements of each method's
--     transaction, Service the methods around them, Lists the queries. Effects and Payout say
--     what each operation that returns has found and written; Linked is the invariant between
--     escrows and locks, Life the statuses that follow, History any sequence of calls, Book what
--     one entry does to each balance of a user, Balances those balances after each operation,
--     Permits who may do what and when, Returns and Exits the calls that must return, and
--     Conservation the sums over all accounts.
--   Wallet: wallet_service.py. Users, Locks, Charges (fees), Deposits, and Withdrawals with
--     Request, Fees, Marks (status changes) and Results (what the provider reports); Reserved,
--     Refund, Settlement, FeesOnce and History there, and Once and Booked below Deposits, hold
--     proofs.
--     Addresses checks a destination (Value below it has lemmas on base58), Vault has the
--     encrypted fields, and Routes the stored deposit addresses with the map of monitored ones,
--     in Integrity their check at start and in Issue the issue of one; Again and Monitored hold
--     proofs.
--   Address, Address/Bytes: what the address checks of the wallet and of the provider share.
--   Chain: infra/chain_adapters and watchers. Eth, Sol and Utxo are the adapters, Scan what they
--     share (the blocks of a poll, the cursor, the credit of what was found), Watch `run_once` of
--     the three watchers; Includes, Cursor, Watched and Progress hold proofs.
--   Signer, Signer/Queue: signer/signer_service.py and signer/withdrawal_provider.py. Handled,
--     Marked, Attempt, Single and Pass there hold proofs about the queue.
--   Provider: withdrawal_provider_service/app.py, with Store for its database, Handlers for its
--     requests, Addresses for its checks; Replay and Addresses/Agree hold proofs.
--   Watcher: watcher_status_service.py.
--   Reputation: core/reputation/service.py. Tests: all of these on a small database.
--
-- Decimals (Decimal) are an integer coefficient and a number of places; sums and products are
-- exact, and rounding is half up, away from zero, as the services ask for. Tables are lists of
-- keyed rows, the newest first. Strings (Text) are lists of code points. Times are in seconds.
-- Every loop of the services is over a list or a range. The one loop on fuel turns a base58
-- number into bytes (`int.to_bytes` of the bit length): its fuel is the length of the text, and
-- a base58 digit is less than a byte, so that is enough.
--
-- Parameters, since their code is not in the repository: the price feeds, the clock, hashlib,
-- Python's conversions to strings, the provider's answers (Outside, Signer), the remote procedure
-- calls of the chain adapters, AES-GCM, PBKDF2 and base64 (Vault), and what eth_utils, bip_utils
-- and Python's case mapping decide (Address). Three modules of the repository are not modelled
-- either, and what they give is a parameter as well: address_provider.py, whose client asks a
-- server for an address, hd_wallet.py, which derives keys by bip_utils (Wallet/Routes/Issue), and
-- error_sanitizer.py, which strips messages by regular expressions (Outside).
--
-- Not modelled: the Telegram bot, the HTTP clients and servers, the start of the processes,
-- migrations, readiness checks and scripts. Of the triggers of infra/db/database.py, those on an
-- insert into wallet_addresses are in insert_wallet_address (Wallet/Routes/Issue); the others and
-- the CHECK constraints of the schema are not modelled.
pub mod Common
pub mod Decimal
pub mod Outcome
pub mod Table
pub mod Text
pub mod Asset
pub mod Address
pub mod Chain
pub mod Db
pub mod Settings
pub mod Ledger
pub mod Tenant
pub mod Wallet
pub mod Price
pub mod Outside
pub mod Escrow
pub mod Signer
pub mod Reputation
pub mod Watcher
pub mod Provider
pub mod Fee
pub mod Tests
