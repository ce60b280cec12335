-- ===== src/Api.antt =====
-- The middleware of the service (api/middleware/).
pub mod RateLimit
pub mod Auth
