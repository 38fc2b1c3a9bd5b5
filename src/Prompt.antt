-- ===== src/Prompt.antt =====
-- The command bar of the local prompt (entry/src/main/ets/viewmodel/CommandBarViewModel.ets).
pub mod CommandBar
pub mod Recall
