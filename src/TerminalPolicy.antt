-- ===== src/TerminalPolicy.antt =====
-- entry/src/main/resources/rawfile/terminal-policy.js: the decisions of the web terminal that need
-- no DOM, one child for each group of functions.
pub mod Base64
pub mod Osc52
pub mod Bell
pub mod Pointer
pub mod Search
pub mod Wheel
pub mod Metrics
