-- ===== src/Profile.antt =====
-- Profiles and patches of kernel/profile.js: how the list of plugins of a running panel is put
-- together. A parsed YAML document is a `Value`. Files are read by the caller; the path functions
-- and the file test are an argument.
pub mod Entries
pub mod Patch
pub mod Unique
pub mod Changes
pub mod Latest
pub mod Tests
