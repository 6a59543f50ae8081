-- ===== src/Auth.antt =====
-- Package auth (backend/internal/auth): roles, the identity of a request and the interceptors.
pub mod Roles
pub mod Identity
pub mod Interceptor
pub mod Sessions
mod Tests
