-- ===== src/Video.antt =====
-- The frame buffer and its font, kernel/src/video.
pub mod Font
pub mod Fb
mod Tests
