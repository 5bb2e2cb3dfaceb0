-- ===== src/Auth.antt =====
-- The auth service (src/impls/auth).
pub mod Types
pub mod Steps
pub mod Tree
pub mod Forms
pub mod Next
pub mod Sessions
pub mod Federated
