-- ===== src/Session.antt =====
-- What a pane knows of its SSH session (entry/src/main/ets/model/ssh).
pub mod State
pub mod Control
