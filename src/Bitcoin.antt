-- ===== src/Bitcoin.antt =====
-- The package bitcoin: bitcoin/fee.go, bitcoin/formats.go and bitcoin/nodeapi.
pub mod Fee
pub mod Names
pub mod NodeApi
pub mod Formats
mod Tests
