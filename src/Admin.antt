-- ===== src/Admin.antt =====
-- internal/admin: what administrators change.
pub mod Plans
pub mod Products
