-- ===== src/Server.antt =====
-- service/cmd/server/main.go and service/internal/server/server.go: the broker over its provider, its
-- binder and its minter, its start, and its routes.
pub mod Wired
pub mod Chain
pub mod Start
pub mod Fits
pub mod Known
pub mod Routes
pub mod Endpoints
