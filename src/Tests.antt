-- ===== src/Tests.antt =====
-- Runs of the model on concrete inputs, and an instance of each theorem that has conditions.
pub mod Configs
pub mod Surfaces
pub mod Hundredths
pub mod Policy
pub mod Wheels
pub mod Windows
pub mod Terminals
pub mod Formats
pub mod Panes
pub mod Guides
pub mod Commands
pub mod Addresses
pub mod FontFiles
pub mod AssetFiles
pub mod Scripts
pub mod Icons
pub mod Transports
