-- ===== src/Workspace.antt =====
-- entry/src/main/ets/viewmodel/AppViewModel.ets and common/types/TerminalTypes.ets: the tabs of
-- the window, each with one or two panes.
pub mod State
pub mod Tabs
pub mod Panes
pub mod Valid
pub mod Keeps
pub mod Session
