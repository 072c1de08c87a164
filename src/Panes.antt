-- ===== src/Panes.antt =====
-- lib/hub/basic/pane-runtime.js: hub-hosted shells whose output is kept for a replay.
pub mod Utf8
pub mod Ring
pub mod Runtime
pub mod Tests
