-- ===== src/Event.antt =====
-- The event contract, contracts/event/src.
pub mod Types
pub mod Storage
pub mod Tiers
pub mod Create
pub mod Status
pub mod Registration
pub mod PublicInputs
pub mod Claims
pub mod Admin
pub mod Evolution
pub mod Changes
pub mod Lifecycle
pub mod Schedule
pub mod Sales
pub mod ClaimSales
pub mod Checkout
pub mod Settings
pub mod History
pub mod Once
pub mod Attendance
pub mod Encoding
pub mod Records
pub mod Enrollment
pub mod Charges
pub mod Cover
mod Tests
