-- ===== src/Types.antt =====
-- The package wallet/types.
pub mod Json
pub mod Status
pub mod Direction
pub mod Transaction
pub mod Names
