-- ===== src/Gateway.antt =====
-- gateway/: the middleware in front of the functions.
pub mod RoutePrefix
pub mod RateLimit
pub mod Auth
pub mod BodyWatchdog
pub mod Cors
