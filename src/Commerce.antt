-- ===== src/Commerce.antt =====
-- backend/internal/{domain,service}/commerce and repository/commerce_repository.go.
pub mod Model
pub mod Store
pub mod Ledger
pub mod Payments
pub mod Wallets
pub mod Orders
pub mod Checkout
pub mod Posted
pub mod Settlement
pub mod Soundness
pub mod Processing
pub mod Totals
pub mod Sales
mod Tests
