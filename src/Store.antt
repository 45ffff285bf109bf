-- ===== src/Store.antt =====
-- service/internal/store: what the broker keeps between two requests, the contract of a backend
-- (store.go), the in-process backend (memory.go) and the one over redis (redis.go).
pub mod Types
pub mod Contract
pub mod Memory
pub mod Redis
