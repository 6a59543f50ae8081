-- ===== src/Sync.antt =====
-- The offline-first sync engine, backend/internal/sync: conflict.go, store.go and service.go.
pub mod Conflict
pub mod Messages
pub mod Table
pub mod Database
pub mod Rows
pub mod Store
pub mod Validate
pub mod Nest
pub mod Pull
pub mod Push
pub mod Snapshot
mod Tests
