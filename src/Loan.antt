-- ===== src/Loan.antt =====
-- Loans: schedules, the allocation of repayments and the arrears (api/src/lib/loanSchedule.ts,
-- loanRepayment.ts, arrears.ts), and the life of a loan (api/src/routes/loan.routes.ts).
mod Tests
pub mod Allocation
pub mod Repayment
pub mod Schedule
pub mod Arrears
pub mod Lifecycle
pub mod Changes
pub mod Securities
