-- ===== src/Registry.antt =====
-- lib/servers/registry.js: the servers that the panel knows, their declarations and their file.
pub mod Failure
pub mod Strings
pub mod Input
pub mod Store
pub mod Disk
pub mod Writes
pub mod FreshId
pub mod Atomic
pub mod Clean
pub mod Declared
pub mod Checks
pub mod Accepted
pub mod Restart
pub mod Reload
pub mod Survival
pub mod Sound
pub mod Lost
pub mod Samples
pub mod Tests
