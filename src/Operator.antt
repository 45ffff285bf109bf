-- ===== src/Operator.antt =====
-- operator/: the custom resource and its controller.
pub mod Types
pub mod Api
pub mod Sync
pub mod Steps
pub mod Reconcile
pub mod Manager
