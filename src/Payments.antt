-- ===== src/Payments.antt =====
-- internal/service/payments.go.
pub mod Amounts
pub mod Views
pub mod Steps
pub mod Record
pub mod Void
pub mod Listing
