-- ===== src/Gui.antt =====
-- The modules for client-gui/src.
pub mod Channel
pub mod Panels
pub mod Controller
pub mod Storage
pub mod Port
pub mod Editing
pub mod Drawing
pub mod Updater
