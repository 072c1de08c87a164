-- ===== src/Tmux.antt =====
-- lib/tmux.js, its first part: what the panel reads out of the lines that tmux prints.
pub mod Fields
pub mod Parts
pub mod Joined
pub mod Names
pub mod Lines
pub mod Tree
pub mod Tests
pub mod Repeats
pub mod RoundTrip
pub mod Output
