-- ===== src/Subscriptions.antt =====
-- backend/internal/{domain,service}/subscription and repository/subscriptions.sql.go.
pub mod Model
pub mod Store
pub mod Service
pub mod Inversion
pub mod Renewal
pub mod History
mod Tests
