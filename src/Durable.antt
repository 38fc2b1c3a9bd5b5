-- ===== src/Durable.antt =====
-- The format of durable state (entry/src/main/ets/model/persistence/DurableAssetFormat.ets).
pub mod Utf8
pub mod Utf8Points
pub mod Utf8Texts
pub mod Chunks
