-- ===== src/Server.antt =====
-- cmd/cometduty/cmd/run.go, internal/api, internal/state and internal/history: what runs around the
-- engine and the supervisor.
pub mod Starting
pub mod Signals
pub mod Stores
pub mod Api
