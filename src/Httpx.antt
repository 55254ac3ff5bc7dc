-- ===== src/Httpx.antt =====
-- internal/httpx: the limiter of requests, and the answers of handlers.
pub mod RateLimit
pub mod Respond
pub mod Guards
pub mod ClientIp
