-- ===== src/Ticket.antt =====
-- The ticket contract, contracts/ticket/src.
pub mod Types
pub mod Storage
pub mod Contract
pub mod Admin
pub mod Ownership
pub mod Invariant
pub mod Transfers
pub mod Minting
pub mod Usage
pub mod Recovery
pub mod History
mod Tests
