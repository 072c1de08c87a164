-- ===== src/AgentEvents.antt =====
-- lib/agent-events.js: what agents and tmux report, and which reports become notifications.
pub mod Event
pub mod Service
pub mod Dedupe
pub mod Tests
