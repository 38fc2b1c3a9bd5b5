-- ===== src/Command.antt =====
-- The commands of the local prompt (entry/src/main/ets/model/command/CommandParser.ets).
pub mod Ssh
pub mod Loop
pub mod Outcome
