-- ===== src/Icons.antt =====
-- The script that draws the icons of the application (tools/generate_icons.cjs).
pub mod Generate
pub mod Hidden
