-- ===== src/Auth.antt =====
-- auth/: who may do what.
pub mod Rbac
pub mod Roles
pub mod Sso
mod SsoTests
mod Tests
