-- ===== src/Health.antt =====
-- HealthService of lib/servers/health-service.js: what a server's last probe said, and when the
-- next one is due. A probe keeps a reference to the entry object that it began on, also after the
-- map has dropped it, so the entries live in a list and the map holds their places. Probes are told
-- apart by number. Paths and the mosh capabilities are not modelled.
pub mod Status
pub mod Readings
pub mod Service
pub mod Places
pub mod Keeps
pub mod Backoff
pub mod Stale
pub mod Tests
