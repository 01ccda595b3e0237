-- ===== src/Backend.antt =====
-- The package backend/core: events, subscriptions and the manager of the clients' requests.
pub mod Queues
pub mod Events
pub mod Subscriptions
pub mod Requests
pub mod Ethereum
pub mod Memory
pub mod Tests
