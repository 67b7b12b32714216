-- ===== src/Lib.antt =====
-- The money of the marketplace's backend (kahade-backend): wallets, ledger, escrow, withdrawals,
-- orders and disputes, vouchers, and the notifications of payment providers.
--
-- A user's wallet holds a balance and a locked part of it. The escrow service locks the buyer's money
-- for an order and later moves it to the seller or unlocks it; the withdrawal service locks it until
-- it is paid out; both call the wallet service, and the escrow service also posts each move to the
-- ledger, whose journals are lists of signed entries that sum to zero.
--
-- Base, Base/Int, Base/Table: integers for the source's bigint, tables as lists of rows, and the
-- queries of the database client on them.
-- Store: the rows (prisma/schema), the database as one record of tables, and calls on it: a call
-- takes the tables and gives a result or an exception with the tables that it leaves. What a call
-- has written stays written when it throws, except inside `$transaction`.
-- Wallet: kahade-backend/src/core/wallet/wallet.service.ts. Rows, Retry and Moves hold
-- getBalance, deductBalance, lockBalance, creditBalance, unlockBalance, transferLockedBalance,
-- createWallet and getOrCreateWallet; Bounds, Rounds, Interference, Sums, Transfers, Outcomes, Balances
-- and Alone the proofs.
-- Ledger: kahade-backend/src/core/ledger/ledger.service.ts. Journal holds createJournal, Records
-- the record functions, Accounts the accounts, the balance query and the integrity checks;
-- Balanced, Postings, Distribution and Checks the proofs.
-- Escrow: kahade-backend/src/core/escrow/escrow.service.ts and escrow-timeout.job.ts. Machine holds
-- the state machines and permissions, Rows the updates of rows, Create, Settle and Dispute the
-- operations, Timeout the scheduled jobs; the other files the proofs.
-- Withdrawal: kahade-backend/src/core/withdrawal/withdrawal.service.ts. Limits, Velocity,
-- Requests and Deciding hold the code; the other files the proofs. Cancel is cancelPendingWithdrawal
-- of the wallet service, with its proofs. Direct is withdraw of the wallet service, which asks for a
-- withdrawal without the limits, and Race its proofs, alone and beside another call, on the tables of
-- the schema and under the constraint on locked money.
-- Orders: kahade-backend/src/core/order (order.service.ts, order.repository.ts). Rows holds the
-- queries and rows, Invites what comes before payment, Payments payOrder, confirmDelivery,
-- cancelOrder and openDispute, Comments the comments; Life is an abstract life of an order, and the
-- other files the proofs. payOrder calls the wallet and the escrow service, confirmDelivery the escrow
-- service, and each writes the status of the order after it in a transaction of its own.
-- Disputes: kahade-backend/src/core/dispute/dispute.service.ts. Rows, Opening and Deciding hold the
-- code, Decisions and Appeals the proofs. This service writes disputes and the status of their orders;
-- it calls neither the escrow nor the wallet service.
-- Lockout: kahade-backend/src/core/auth/account-lockout.service.ts. Service holds the code; Cache is an
-- interface of the cache that it uses, with what it relies on and an implementation; Attempts and
-- Ends the proofs.
-- Promos: kahade-backend/src/core/promo/promo.service.ts. Rows holds the queries and rows, Admin what
-- administrators call, Checks validateVoucher and the list of available vouchers, Applying
-- applyVoucher; Discounts, Applied, Again, Offers, Accepts, Meter and Runs the proofs.
-- Payments: kahade-backend/src/core/payment/webhook.controller.ts. Notices holds the values of the
-- notifications, Texts the identifiers of top-ups, Processing what they write, Webhooks the handlers, Keys an interface of the cache
-- (kahade-backend/src/infrastructure/cache/cache.service.ts) with an implementation, in which a
-- handler acquires a key for each identifier; TopUp is topUp of the wallet service, which begins
-- payments. Once, Deliveries, Credits, Overrides and Disbursed are the proofs.
-- Transactions: kahade-backend/src/core/transaction (transaction.service.ts and its repository), another
-- service on the same orders. Rows holds the queries and rows, Opening, Paying and Closing the
-- operations in the order of the file; Paid, Received, Marked and Again the proofs. It locks and moves
-- money through the wallet service and writes escrows itself, without the escrow service and the
-- ledger; each write is a transaction of its own.
-- Scenarios: runs on a small marketplace.
--
-- The model. Identifiers, keys and texts that are only compared are numbers: the actor "SYSTEM" is
-- `system`, the platform keys "ESCROW_HOLDING" and "PLATFORM_FEES" are `escrow_holding` and
-- `platform_fees`. A bigint is ℤ, a date its milliseconds; the date that a call reads is its argument
-- `now`. Identifiers of new rows count up. A query by a unique column concerns the first row with the
-- value. A duplicate in a unique column throws `unique_violation`; a related row that a call reads and
-- that is missing, which foreign keys exclude, throws `record_not_found`. A journal whose accounts or
-- linked rows are missing throws `foreign_key_violation`; rewards, settlements and the identifiers of
-- usages of vouchers have no table here, and links to them are not looked up. A wallet that a call creates within the transaction of another is taken
-- as part of that transaction, where the source writes it outside. Idempotency keys made from the clock, and the
-- starts of a day and a month in the local calendar, are arguments. The upper case of a code, the row
-- that a raw query locks, the digest of a notification and the parsing of a number are parameters.
-- Amounts of requests are whole hundredths. The external identifier of a notification is the list of
-- its parts between underscores; the one that topUp makes is a text that is split at them. The invite token that a call makes is its argument, and the fee of a transaction is
-- rounded exactly, where the source rounds a floating-point product.
--
-- Concurrency. deductBalance and lockBalance read, then write on the condition that the version is
-- unchanged, and retry. What other transactions commit between the read and the write of the i-th
-- round is the argument `others i`; `IsFair` says what is relied on: the others keep the bounds, and
-- count the version up when they take from what is available to this user. The rounds are structural
-- recursion on `maxRetries`, as in the loop; the lock inside a transaction of another service runs with
-- no others. What others commit between the check of withdraw and its transaction is its argument
-- `meanwhile`. All other calls run alone; deliveries of notifications come one after another, with
-- anything that keeps the keys in between.
--
-- The database is the one that the schema declares. The constraints and triggers of
-- kahade-backend/prisma/migration-constraints.sql and migration-constraints-enhanced.sql, which no
-- migration of the schema includes, are not part of it: they refuse writes that the services make, such
-- as the running balances of ledger entries and the status of a new order. Only the constraint on the
-- locked money of a wallet is stated, in Withdrawal/Direct, for the race of two withdrawals.
--
-- Not modelled: logs, descriptions and the division of amounts by 100 for display; lists and pages of
-- rows, other than the available vouchers; the text of idempotency keys; notifications to users (they
-- are taken to return); encrypted columns and virtual account numbers (their keys are taken to be
-- configured); referrals, ratings, users and authentication other than the
-- lockout, and all that only carries data between the services and their clients.
pub mod Base
pub mod Store
pub mod Wallet
pub mod Ledger
pub mod Escrow
pub mod Orders
pub mod Promos
pub mod Transactions
pub mod Disputes
pub mod Lockout
pub mod Withdrawal
pub mod Payments
pub mod Scenarios
