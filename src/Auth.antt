-- ===== src/Auth.antt =====
-- lib/auth.js: session tokens, the request guards that use them, and the login rate limiter.
-- Random tokens, the clock and the request's parsed parts are arguments.
pub mod Limiter
pub mod Tokens
pub mod Tests
