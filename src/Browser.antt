-- ===== src/Browser.antt =====
-- The address that a click opens (entry/src/main/ets/model/browser/BrowserLauncher.ets).
pub mod Address
pub mod Safe
