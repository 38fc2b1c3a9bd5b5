-- ===== src/Terminal.antt =====
-- The headless half of a terminal pane (entry/src/main/ets/model/terminal): keyboard input, output
-- kept for a hidden surface, and the line editor of the local prompt.
pub mod InputParser
pub mod InputMachine
pub mod InputActions
pub mod OutputBuffer
pub mod Delivery
pub mod CommandLine
pub mod LineEditing
