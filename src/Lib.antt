-- ===== src/Lib.antt =====
-- The core of nexus-efos, a banking platform: the TypeScript of api/src. Its parts are the
-- double-entry ledger, the approval workflow behind every action that needs a second person, the
-- savings accounts, the loans, the cash vaults, the fixed assets, and the scores and rules that
-- decide on loans.
--
-- The files, and the code that each one models:
--
-- - Common: the shared names, the signed cents, the rounding, tables by id, and what a handler
--   answers.
-- - Ledger: the journal lines, `isBalanced`, `balanceEffect` and `aggregateBalancesAsOf` of
--   api/src/lib/generalLedger.ts, and the queries for posted lines.
-- - Ledger/Reports: the trial balance, the balance sheet and the income statement of
--   api/src/routes/generalLedger.routes.ts. Ledger/Totals has the lemmas on totals over accounts.
-- - Ledger/Posting: the loop that moves the account balances, and the test for an open period.
-- - Ledger/Journals: manual journals (`/journals`, `/journals/:id/request-posting`) and what an
--   approval or a rejection does with a posting request. A journal's id is its position in the
--   list, since journals are never deleted.
-- - Ledger/Periods: creating, closing, locking and reopening financial periods.
-- - Approval: the handlers `/approve` and `/reject` of api/src/routes/approvals.routes.ts, with the
--   business effect as a parameter. Approval/Race: the same handlers interleaved, as steps between
--   the checks and the transaction.
-- - Loan/Allocation: `allocateRepayment` of api/src/lib/loanSchedule.ts.
-- - Loan/Schedule: `generateRemainingSchedule` of api/src/lib/loanSchedule.ts.
-- - Loan/Arrears: `calculateArrears` of api/src/lib/arrears.ts.
-- - Loan/Repayment: `applyLoanRepaymentInTx` of api/src/lib/loanRepayment.ts.
-- - Savings: the deposits and withdrawals of api/src/routes/savings.routes.ts with their journals,
--   closing and reactivating; Savings/Fees has the fees and waivers. Savings/Overdraft lets
--   handlers race, as steps whose checks read any state; Savings/Subledger compares the accounts
--   with the ledger.
-- - Loan/Schedule/Generate: `generateSchedule` of api/src/lib/loanSchedule.ts.
-- - Loan/Lifecycle: application, approval, rejection and disbursement of a loan, of
--   api/src/routes/loan.routes.ts.
-- - Loan/Changes: restructuring, rescheduling and write-off, and their approval. Loan/Securities:
--   guarantors and collateral.
-- - Cheques: api/src/routes/cheque.routes.ts.
-- - Payroll: the two journals of a payroll run, of api/src/lib/payrollAccounting.ts. Payroll/Tax:
--   api/src/lib/payrollCalc.ts. Payroll/Salary: salaries and the entry of a run. Payroll/Setup:
--   what the runs are configured by. Payroll/Run: the runs of api/src/routes/payroll.routes.ts and
--   their approval.
-- - Ledger/CashFlow: api/src/lib/cashFlowStatement.ts.
-- - Vault: vaults and tellers of api/src/routes/cashVault.routes.ts; Vault/Entries, Vault/Transfers
--   and Vault/Balancing have the cash entries, transfers and balancings with their approvals;
--   Vault/Subledger compares the cash with the ledger.
-- - Assets: api/src/lib/assetAccounting.ts, api/src/lib/assetDepreciation.ts, and the depreciation
--   and disposals of api/src/routes/asset.routes.ts.
-- - Rules: the business rules, api/src/lib/businessRules.ts. Loan/Lifecycle takes the matching of
--   rules as a parameter.
-- - Customers/Merge: merging customers and rolling a merge back, of api/src/lib/customerMerge.ts,
--   with the handlers of api/src/routes/customer.routes.ts and the approval.
-- - Auth: signing in, of api/src/routes/auth.routes.ts and api/src/lib/security.ts. Auth/Secrets
--   has the encrypted secrets and the backup codes, Auth/Login the two steps, Auth/Enrolment the
--   second factor and the devices, Auth/Sessions the refresh tokens and suspension, Auth/Passwords
--   invitations and changes of the password. Auth/Factors and Auth/Lockout have the requests that
--   their theorems run. The functions of bcrypt, otplib, node:crypto and jsonwebtoken are the
--   record `Environment`; random values are arguments.
-- - Idempotency: api/src/middleware/idempotency.ts, with the handler and the hash as parameters.
-- - Scores: the scores and ratios of api/src/lib: creditAssessment.ts (Credit), delinquencyRisk.ts
--   (Delinquency), collectorIntegrity.ts (Collector), customerRiskScoring.ts (Customer),
--   capitalAdequacy.ts (Capital) and portfolio.ts (Portfolio).
--
-- Amounts are whole cents, as the decimal columns of the database hold them; the error of binary
-- floating point is not modelled. A balance is an integer in cents. `round2` rounds to the nearest
-- cent and so leaves whole cents alone. Ids are natural numbers, and a date is a number. The rows
-- are those of one institution, so the filters on the institution are left out.
--
-- Rates and percentages are in hundredths of a percent, and a quotient that is compared is compared
-- by its products.
--
-- A handler is a function from the state to a new state or to an error status with no change: a
-- handler writes only after its last check, or within one transaction. Where the code writes
-- without a transaction, as process-depreciation does, the writes are taken to run without
-- interruption; the idempotency keys take whether the response was stored as an argument. An
-- exception within a transaction is `none` and rolls back. Every loop of the code runs over a list
-- and is structural recursion here; nothing runs on fuel.
--
-- Not modelled: the web client, PDF output, notifications, seeds and logging, which are input and
-- output; the audit log and the texts of messages, which nothing reads back; the permission checks,
-- which stand before every handler; and collections, migration, standing instructions and savings
-- interest, whose own rules are not covered. The middleware of api/src/lib/prisma.ts adds version
-- and user columns to every write; they are left out, and every write is taken to be accepted.
pub mod Common
pub mod Ledger
pub mod Approval
pub mod Loan
pub mod Savings
pub mod Payroll
pub mod Scores
pub mod Assets
pub mod Vault
pub mod Rules
pub mod Idempotency
pub mod Auth
pub mod Customers
pub mod Cheques
