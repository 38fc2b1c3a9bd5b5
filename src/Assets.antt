-- ===== src/Assets.antt =====
-- The packaged files of xterm: how they are built (tools/web-terminal/build.mjs) and how the test
-- checks them (tools/web-terminal/test-terminal-policy.mjs).
pub mod Build
pub mod Check
pub mod Files
pub mod Published
pub mod Versions
