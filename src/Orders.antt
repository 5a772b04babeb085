-- ===== src/Orders.antt =====
-- internal/service/orders.go.
pub mod Status
pub mod Lifecycle
pub mod Reads
pub mod Quantity
pub mod Lines
pub mod Views
pub mod Loading
pub mod Creation
