-- ===== src/Interaction.antt =====
-- The interaction policy of the window (entry/src/main/ets/model/ui/InteractionPolicy.ets).
pub mod Keys
pub mod Panels
pub mod Sizes
