-- ===== src/Compositor.antt =====
-- Surfaces, windows, the desktop, the tiling engine and the rendering, kernel/src/compositor.
pub mod Surface
pub mod Window
pub mod Layout
pub mod ShellUi
pub mod Desktop
pub mod Render
mod Tests
