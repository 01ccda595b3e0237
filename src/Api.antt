-- ===== src/Api.antt =====
-- The handlers of api/v0: services and events.
pub mod Message
pub mod Service
pub mod Event
mod Handlers
mod Tests
