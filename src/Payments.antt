-- ===== src/Payments.antt =====
-- The payments contract, contracts/payments/src.
pub mod Types
pub mod Storage
pub mod Accounts
pub mod Identity
pub mod Purchase
pub mod Refunds
pub mod Disputes
pub mod Withdrawals
pub mod Once
pub mod Bounds
pub mod Cancellation
pub mod Privacy
pub mod Splits
pub mod Release
pub mod Admin
pub mod Resale
pub mod Escrow
pub mod Conservation
pub mod Deposits
pub mod Replay
pub mod Processing
pub mod Payouts
pub mod SplitRules
pub mod Cohosts
pub mod Receipts
pub mod Fixtures
mod Tests
