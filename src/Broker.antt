-- ===== src/Broker.antt =====
-- service/internal/broker: the OpenID provider.
pub mod Types
pub mod Env
pub mod Signer
pub mod Discovery
pub mod Steps
pub mod Session
pub mod Login
pub mod Token
