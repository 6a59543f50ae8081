-- ===== src/Telemetry.antt =====
-- Package telemetry (backend/internal/telemetry): the live hub and the stream on top of it.
pub mod Hub
pub mod Stream
mod Tests
