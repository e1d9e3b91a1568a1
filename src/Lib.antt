-- ===== src/Lib.antt =====
-- OffiMesh lets a user lock part of a balance in an offline token, spend it between devices without
-- a network, and settle the payments when a device is online again. This library models the services
-- of app/ that move money or decide who may, as functions on the tables of the database.
--
-- The program's parts and their files:
--
-- - Exceptions: app/core/exceptions.py. A service method is an `Action S A`, a function from the
--   state of its session to a result or an exception, beside the state that it leaves pending.
--   `session` is the commit or rollback around it (app/core/database.py). Exceptions/Traces has the
--   rules for what every run of an action does.
-- - Ledger: app/services/ledger_service.py on the tables of app/models/ledger_entry.py and
--   app/models/ledger_balance.py. Its children treat the rows (Rows), the steps that every operation
--   is made of (Postings, Operations), histories of calls (Calls, Integrity, Solvency) and the
--   effect of single calls (Effects, Locking).
-- - Models: the other tables (app/models), the clock, and `Db`, the state of a session.
-- - Tokens: app/services/token_service.py but for the issue of tokens; Tokens/Workers has the sweeps
--   of app/workers/token_cutoff_worker.py, app/workers/token_expiry_worker.py and
--   app/repositories/token_repository.py. Tokens/Backing states the invariant that ties the tokens
--   to the funds that the ledger has locked.
-- - Fraud: app/services/fraud_service.py, the two checkpoints and the automatic blacklist.
-- - Trust: app/services/device_trust_service.py, the score and the limits of a device;
--   Trust/Recalculation has the score of app/workers/device_trust_recalc_worker.py.
-- - Provisioning: `provision_token` of app/services/token_service.py, which calls Trust, Fraud and the
--   ledger in turn: `grant_token` is its steps up to the lock, `prepare_token` goes on to the row.
-- - Sync: app/services/transaction_service.py and the replay keys of app/core/redis.py.
-- - Settlements: app/services/settlement_service.py, app/repositories/settlement_repository.py and the
--   tasks of app/workers/settlement_worker.py (Repeats, Worker, Sweeps). Settlements/History has all
--   the calls that change the status of a transaction, those of Sync and Reconciliation too.
-- - Reconciliation: the nightly report and the status taken over from the bank in
--   app/workers/reconciliation_worker.py; the answer of the bank is an argument.
-- - Treasury: app/workers/sub_account_balance_worker.py, which compares the balance at the bank with the
--   totals of the ledger.
-- - Notifications: app/services/notification_service.py on the tables of app/models/notification.py.
-- - Nomba: the circuit breaker and the retry loop of app/integrations/nomba/base_client.py, which
--   every request to the bank goes through. A call takes the answers, clock readings and jitters of
--   its attempts as a function of the attempt. Nomba/Access has the token that a request carries
--   (app/integrations/nomba/auth.py) and its cache in Redis, Nomba/Json what a body can be,
--   Nomba/Resource the reading of an answer, and Nomba/Listing, Nomba/Transfers and Nomba/Accounts the
--   calls of app/integrations/nomba/transactions.py, transfers.py and virtual_accounts.py.
--   Nomba/Transfers/Payment puts a settlement on top of the client.
-- - Webhooks: app/services/webhook_service.py, app/repositories/webhook_repository.py and the tasks of
--   app/workers/webhook_worker.py; it calls the two handlers of Settlements.
-- - Wallet: `process_funding` and `get_balance` of app/services/wallet_service.py; Wallet/Creation has
--   `create_user_virtual_account`, over the client of the bank.
-- - Blacklist: app/workers/blacklist_worker.py, on the signals of Fraud.
-- - Auth: app/services/auth_service.py with the tokens of app/core/security.py, on Redis and the tables.
--   Auth/Codes and Auth/Logins treat the one-time codes, Auth/Sessions the tokens.
-- - Identity: the steps of app/services/identity_verification_service.py and its records;
--   Identity/Flags says which flag of a user a call gives.
-- - Guards: app/middleware/rate_limit.py and the checks of app/middleware/device_blacklist_middleware.py.
-- - Prelude: integers over the native numbers, tables as lists read through a key, and lemmas.
--
-- Conventions. Amounts are unbounded integers, as in Python; the widths of the columns are not
-- modelled. Identifiers, hashes and signatures are numbers that are stored and compared, and 0 is the
-- empty string. A table is a list of rows, newest first; an update of an object of the session is a
-- replacement of its row. A clock reading is an argument in seconds (in milliseconds for the client of
-- the bank), one for each call. What other code supplies is an argument: fresh identifiers, hash functions, the commands of Redis, the answers of the advisory
-- lock and of the transfer client, what `ulid.new` of python-ulid does, and whether the database
-- takes an UPDATE that binds a text for a time (Identity). A loop over a list is structural recursion.
-- The `while` loop of a request to the bank counts the rounds left, from one more than the number of
-- retries, and its own test ends it before they run out. The `while True` loop over the pages of a
-- listing counts rounds too, and has no result after the last; any number from that of the pages on
-- is enough.
--
-- Not modelled: HTTP routing, schemas and serialisation (app/routers, app/schemas, app/main.py), logging,
-- settings and migrations, the endpoints of the bank for the treasury sub-account, SMS and Supabase,
-- the cryptography that app/core/security.py calls, and concurrent sessions: an operation runs alone,
-- as its row lock or advisory lock has it. Not modelled either are `create_funding_account`, in which
-- its file is cut off, the nightly recalculation of scores, the text and payload of notifications,
-- the rounding of a float amount in the body of a transfer, and what the middleware adds to requests
-- and responses.
-- `check_impossible_travel` computes with floating point and has no caller.
pub mod Prelude
pub mod Exceptions
pub mod Ledger
pub mod Models
pub mod Tokens
pub mod Fraud
pub mod Trust
pub mod Provisioning
pub mod Sync
pub mod Settlements
pub mod Reconciliation
pub mod Treasury
pub mod Notifications
pub mod Nomba
pub mod Webhooks
pub mod Wallet
pub mod Blacklist
pub mod Auth
pub mod Identity
pub mod Guards
