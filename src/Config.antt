-- ===== src/Config.antt =====
-- The SSH configuration (entry/src/main/ets/model/ssh/SshConfig.ets).
pub mod Glob
pub mod GlobMeaning
pub mod GlobMatches
pub mod GlobEnds
pub mod Source
pub mod Names
pub mod Hosts
pub mod Patterns
pub mod Resolved
pub mod Lists
pub mod Edits
pub mod Keeps
pub mod Loads
pub mod Valid
