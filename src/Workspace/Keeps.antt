-- ===== src/Workspace/Keeps.antt =====
-- Every operation of `AppViewModel` keeps its tabs well formed.
pub mod TabOps
pub mod PaneOps
pub mod PaneSets
pub mod PaneRemoval
