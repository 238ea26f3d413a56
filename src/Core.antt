-- ===== src/Core.antt =====
-- src/core: the guards around outbound calls, the vault's paths, and the shared state of the server.
pub mod CircuitBreaker
pub mod ComponentRegistry
pub mod Sanitizer
pub mod HealthCheckManager
pub mod ConfigManager
pub mod RateLimiter
pub mod VaultLookup
pub mod VaultRegistry
pub mod VaultResolver
