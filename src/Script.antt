-- ===== src/Script.antt =====
-- The test scripts of the terminal (tools/web-terminal), as functions of what they test.
pub mod Policies
pub mod Holds
pub mod Waiting
pub mod Harness
pub mod SearchTests
pub mod Restart
