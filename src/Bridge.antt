-- ===== src/Bridge.antt =====
-- The messages between the native side and the web view
-- (entry/src/main/ets/model/bridge/BridgeProtocol.ets).
pub mod Protocol
pub mod Messages
pub mod RoundTrip
pub mod Accepted
