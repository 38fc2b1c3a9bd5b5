-- ===== src/Fonts.antt =====
-- The check that an icon fits one cell of the terminal
-- (tools/web-terminal/test-font-cell-width.mjs).
pub mod Buffer
pub mod Tables
pub mod Glyphs
pub mod Check
pub mod Segments
pub mod Reads
pub mod Directory
pub mod Fits
