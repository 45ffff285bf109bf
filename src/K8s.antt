-- ===== src/K8s.antt =====
-- service/internal/k8s
pub mod SanitizeName
pub mod Binder
