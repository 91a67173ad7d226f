-- ===== src/CommonUtils.antt =====
-- The crate contracts/common-utils/src: basis points, revenue splits and fees.
pub mod Splits
pub mod Validation
pub mod Shares
mod Tests
