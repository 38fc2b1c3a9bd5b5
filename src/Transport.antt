-- ===== src/Transport.antt =====
-- The bridge to the page of a terminal (entry/src/main/ets/model/bridge/TerminalBridge.ets).
pub mod Packets
pub mod State
pub mod Handle
pub mod Operations
pub mod Sound
pub mod Counts
pub mod Pressure
pub mod Pump
pub mod Delivers
pub mod Runs
pub mod Answers
pub mod Flights
pub mod Turns
pub mod Drains
