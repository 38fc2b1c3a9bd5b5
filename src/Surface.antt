-- ===== src/Surface.antt =====
-- The surface of a terminal (entry/src/main/ets/model/terminal/TerminalSurfaceController.ets).
pub mod State
pub mod Controller
pub mod Completions
pub mod Calls
pub mod Handlers
pub mod Once
pub mod Carried
pub mod Attached
pub mod Reaches
