-- ===== src/Tests.antt =====
-- Concrete components, and the theorems at concrete inputs.
mod Idps
mod Variables
mod Etcd
mod Cluster
mod Binds
mod Reconciles
mod Rounds
mod Names
mod Sweeps
mod Wiring
mod Logins
mod Refreshes
mod Proxies
mod Binders
mod Caches
mod Servers
mod Starts
mod Races
mod Swaps
mod Progress
