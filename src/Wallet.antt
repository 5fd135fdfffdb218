-- ===== src/Wallet.antt =====
-- The package wallet.
pub mod Interfaces
pub mod Notify
pub mod Send
pub mod Pending
pub mod Updates
pub mod Withdraw
pub mod Addresses
pub mod Info
pub mod Loop
pub mod Frame
pub mod Laws
pub mod Postgres
pub mod Memory
mod Tests
