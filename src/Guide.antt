-- ===== src/Guide.antt =====
-- The user guide that the application puts among the downloads
-- (entry/src/main/ets/model/guide/UserGuidePolicy.ets).
pub mod Policy
pub mod Marker
pub mod Paths
