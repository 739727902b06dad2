-- ===== src/Access.antt =====
-- Who may call the service: sessions, request forgery, rates, passwords and permissions.
pub mod Session
pub mod Csrf
pub mod RateLimit
pub mod Admins
pub mod Users
mod Tests
