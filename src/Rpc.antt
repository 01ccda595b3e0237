-- ===== src/Rpc.antt =====
-- The package rpc: what the HTTP server answers (rpc/http.go).
pub mod Http
pub mod Answers
pub mod Json
pub mod Binder
pub mod Cors
mod Tests
