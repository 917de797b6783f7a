-- ===== src/Tests.antt =====
-- Runs on concrete inputs, and the theorems at inputs that meet their hypotheses.
mod Json
mod CircuitBreaker
mod Retrying
mod ExternalService
mod RateLimits
mod Locks
mod Tasks
mod TaskRoutes
mod Realtime
mod Config
mod Accounts
mod Application
mod Envelopes
mod Events
mod Databases
mod Interleaving
